-- ===== src/Vrtc/Time.antt =====
-- How the time of the clock moves on (src/vmm/io/vrtc.c).
use xhyve_manager.Base.{
  ℕ, zero, suc, ◌+◌, ◌-◌, ◌≤◌, ◌<◌, ◌≡◌, refl, ap, ◌∙◌, Bool, true, false, ◌&&◌, Option, none, some,
  if◌then◌else◌, arith, Bool-cases, inl, inr,
}
use xhyve_manager.Base.Bits.{set_bit}
use xhyve_manager.Vrtc.Calendar.{Timespec}
use xhyve_manager.Vrtc.Registers.{Vrtc, reg_a, reg_b, reg_c, aintr_enabled, secs_to_rtc, ct_to_rtc}
use xhyve_manager.Vrtc.Device.{vrtc_set_reg_c, is_time, next_second, alarm_check, tick, ticks}

pub set_reg_c-time :
    (v : Vrtc) (newval : ℕ)
    → ((vrtc_set_reg_c v newval).base_rtctime ≡ v.base_rtctime)
      × (reg_b (vrtc_set_reg_c v newval) ≡ reg_b v)
      × (reg_a (vrtc_set_reg_c v newval) ≡ reg_a v)
      × ((vrtc_set_reg_c v newval).base_uptime ≡ v.base_uptime)
unfolding vrtc_set_reg_c
set_reg_c-time v newval = ground arith

pub secs_to_rtc-time :
    (host : Timespec) (t : Option ℕ) (v : Vrtc) (force : Bool)
    → let w = secs_to_rtc host t v force in
      (w.base_rtctime ≡ v.base_rtctime)
      × (reg_b w ≡ reg_b v)
      × (reg_a w ≡ reg_a v)
      × (w.base_uptime ≡ v.base_uptime)
unfolding secs_to_rtc ct_to_rtc
secs_to_rtc-time host none v force = (refl, refl, refl, refl)
secs_to_rtc-time host (some t) v force = ground arith

alarm_check-time :
    (host : Timespec) (v : Vrtc)
    → let w = alarm_check host v in
      (w.base_rtctime ≡ v.base_rtctime)
      × (reg_b w ≡ reg_b v)
      × (reg_a w ≡ reg_a v)
      × (w.base_uptime ≡ v.base_uptime)
unfolding alarm_check
alarm_check-time host v =
    let w = secs_to_rtc host v.base_rtctime v false in
    ground
      (arith, secs_to_rtc-time host v.base_rtctime v false, set_reg_c-time w (set_bit (reg_c w) 5))

pub tick-time :
    (host : Timespec) (newtime : ℕ) (valid : Bool) (v : Vrtc)
    → let w = tick host newtime valid v in
      (w.base_rtctime
        ≡ (if aintr_enabled v && valid then next_second v.base_rtctime else some newtime))
      × (reg_b w ≡ reg_b v)
      × (reg_a w ≡ reg_a v)
      × (w.base_uptime ≡ v.base_uptime)
unfolding tick
tick-time host newtime valid v =
    let u : Vrtc = record v {
      base_rtctime = if aintr_enabled v && valid then next_second v.base_rtctime else some newtime;
    } in
    ground (arith, alarm_check-time host u)

-- The control registers and the base of the uptime, which the loop leaves as they are.
abbrev pub SameControl : Vrtc → Vrtc → Type 0
SameControl v w = (reg_b w ≡ reg_b v) × (reg_a w ≡ reg_a v) × (w.base_uptime ≡ v.base_uptime)

module _ (host : Timespec) (newtime : ℕ) where
  tick_on :
      (v : Vrtc) (t : ℕ)
      → aintr_enabled v ≡ true
      → v.base_rtctime ≡ some t
      → let w = tick host newtime true v in (w.base_rtctime ≡ some (suc t)) × SameControl v w
  tick_on v t enabled here =
      let (time, b, a, up) = tick-time host newtime true v in
      (time ∙ rw (enabled, here) refl, (b, a, up))

  ticks_stop :
      (fuel : ℕ) (valid : Bool) (v : Vrtc)
      → is_time (tick host newtime valid v).base_rtctime newtime ≡ true
      → ticks host (suc fuel) newtime valid v ≡ some (tick host newtime valid v)
  unfolding ticks
  ticks_stop fuel valid v there = rw (ticks, there) refl

  ticks_on :
      (fuel : ℕ) (valid : Bool) (v : Vrtc)
      → is_time (tick host newtime valid v).base_rtctime newtime ≡ false
      → ticks host (suc fuel) newtime valid v
        ≡ ticks host fuel newtime valid (tick host newtime valid v)
  unfolding ticks
  ticks_on fuel valid v there = rw (ticks, there) refl

  -- The loop counts the seconds up to the new time.
  ticks_end :
      (k fuel t : ℕ) (v : Vrtc)
      → aintr_enabled v ≡ true
      → v.base_rtctime ≡ some t
      → t + suc k ≡ newtime
      → k < fuel
      → (w : Vrtc) × (ticks host fuel newtime true v ≡ some w)
        × (w.base_rtctime ≡ some newtime)
        × SameControl v w
  ticks_end k zero t v enabled here left more = absurd (omega arith)
  ticks_end zero (suc fuel) t v enabled here left more =
      let w = tick host newtime true v in
      let (time, same) = tick_on v t enabled here in
      let last : suc t ≡ newtime = omega arith in
      let there : w.base_rtctime ≡ some newtime = time ∙ ap (λ s. some s) last in
      (w, ticks_stop fuel true v (rw there (ground arith)), there, same)
  ticks_end (suc k) (suc fuel) t v enabled here left more =
      let w = tick host newtime true v in
      let (time, same) = tick_on v t enabled here in
      let before : is_time w.base_rtctime newtime ≡ false = rw time (ground (arith, left)) in
      let (x, run, end, same') =
        ticks_end k fuel (suc t) w (rw same.0 enabled) time (omega arith) (omega arith) in
      (
        x,
        ticks_on fuel true v before ∙ run,
        end,
        (same'.0 ∙ same.0, same'.1 ∙ same.1, same'.2 ∙ same.2),
      )

  -- From a later time it never gets there.
  pub ticks_endless :
      (fuel t : ℕ) (v : Vrtc)
      → aintr_enabled v ≡ true
      → v.base_rtctime ≡ some t
      → newtime < t
      → ticks host fuel newtime true v ≡ none
  unfolding ticks
  ticks_endless zero t v enabled here past = refl
  ticks_endless (suc fuel) t v enabled here past =
      let w = tick host newtime true v in
      let (time, same) = tick_on v t enabled here in
      let beyond : is_time w.base_rtctime newtime ≡ false = rw time (ground (arith, past)) in
      ticks_on fuel true v beyond
      ∙ ticks_endless fuel (suc t) w (rw same.0 enabled) time (omega arith)

  -- Without the alarm, or from a time that was not valid, one round is enough.
  pub ticks_once :
      (fuel : ℕ) (valid : Bool) (v : Vrtc)
      → (aintr_enabled v && valid) ≡ false
      → let w = tick host newtime valid v in
        (ticks host (suc fuel) newtime valid v ≡ some w)
        × (w.base_rtctime ≡ some newtime)
        × SameControl v w
  ticks_once fuel valid v direct =
      let w = tick host newtime valid v in
      let (time, b, a, up) = tick-time host newtime valid v in
      let there : w.base_rtctime ≡ some newtime = time ∙ rw direct refl in
      (ticks_stop fuel valid v (rw there (ground arith)), there, (b, a, up))

  -- From a valid time that is not after the new one, with fuel for the seconds between them.
  pub ticks_forward :
      (fuel t : ℕ) (v : Vrtc)
      → v.base_rtctime ≡ some t
      → t < newtime
      → newtime - t ≤ fuel
      → (w : Vrtc) × (ticks host fuel newtime true v ≡ some w)
        × (w.base_rtctime ≡ some newtime)
        × SameControl v w
  ticks_forward zero t v here before enough = absurd (omega arith)
  ticks_forward (suc fuel) t v here before enough =
      let last = tick host newtime true v in
      elim (Bool-cases (aintr_enabled v)) [
        | inl on ↦ ticks_end (newtime - t - 1) (suc fuel) t v on here (omega arith) (omega arith)
        | inr off ↦
            (let (run, there, same) = ticks_once fuel true v (rw off refl) in
              (last, run, there, same))
      ]
