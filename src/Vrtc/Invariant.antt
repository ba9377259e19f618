-- ===== src/Vrtc/Invariant.antt =====
-- The well-formedness of the clock under its updates (src/vmm/io/vrtc.c).
use xhyve_manager.Base.{
  ℕ, zero, suc, ◌+◌, ◌<◌, ◌≡◌, refl, ◌∙◌, Bool, true, false, not, ◌&&◌, Option, none, some,
  if◌then◌else◌, bit_and, bit_or, ◌>>=◌, is_some, arith, Bool-cases, inl, inr,
}
use xhyve_manager.Base.Bits.{has_bit, set_bit}
use xhyve_manager.Vrtc.Calendar.{Timespec}
use xhyve_manager.Vrtc.Registers.{
  Vrtc, reg_a, reg_b, reg_c, put_reg, aintr_enabled, uintr_enabled, rtc_halted, secs_to_rtc,
  ct_to_rtc,
}
use xhyve_manager.Vrtc.Device.{
  irqf, vrtc_set_reg_c, is_alarm, is_time, next_second, alarm_check, tick, ticks, vrtc_time_update,
}
use xhyve_manager.Vrtc.Time.{tick-time}

-- The index is inside the registers, the update flag of register A never shows, register D says
-- that the power is good, and while updates are halted the time is not valid.
pub record IsVrtc (v : Vrtc) : Type 0 where
  pub addr_lt : v.addr < 128
  pub not_updating : has_bit (reg_a v) 7 ≡ false
  pub powered : v.rtcdev 13 ≡ 0x80
  pub halted_broken : (rtc_halted v && is_some v.base_rtctime) ≡ false

-- What holds of the result of a call that comes to an end.
abbrev pub Ends {ℓ κ} : {A : Type ℓ} → (A → Type κ) → Option A → Type κ
Ends P none = Unit
Ends P (some a) = P a

pub >>=-Ends {ℓ κ μ ν} :
    {A : Type ℓ} {B : Type κ} (P : A → Type μ) (Q : B → Type ν) (m : Option A) (f : A → Option B)
    → Ends P m
    → ((a : A) → P a → Ends Q (f a))
    → Ends Q (m >>= f)
>>=-Ends P Q none f h k = tt
>>=-Ends P Q (some a) f h k = k a h

pub either-Ends {ℓ κ} :
    {A : Type ℓ} (P : A → Type κ) (b : Bool) (m n : Option A)
    → Ends P m
    → Ends P n
    → Ends P (if b then m else n)
either-Ends P true m n hm hn = hm
either-Ends P false m n hm hn = hn

stop-Ends {ℓ κ} :
    {A : Type ℓ} (P : A → Type κ) (b : Bool) (a : A) (rest : Option A)
    → P a
    → Ends P rest
    → Ends P (elim b [ true ↦ some a | false ↦ rest ])
stop-Ends P true a rest ha hr = ha
stop-Ends P false a rest ha hr = hr

pub either-IsVrtc : (b : Bool) (v w : Vrtc) → IsVrtc v → IsVrtc w → IsVrtc (if b then v else w)
either-IsVrtc true v w hv hw = hv
either-IsVrtc false v w hv hw = hw

-- A state with the same index, time and control registers A, B and D.
pub same-IsVrtc :
    (v w : Vrtc)
    → w.addr ≡ v.addr
    → w.base_rtctime ≡ v.base_rtctime
    → reg_a w ≡ reg_a v
    → reg_b w ≡ reg_b v
    → w.rtcdev 13 ≡ v.rtcdev 13
    → IsVrtc v
    → IsVrtc w
same-IsVrtc v w addr time a b d h = record {
  addr_lt = rw addr h.addr_lt;
  not_updating = rw a h.not_updating;
  powered = d ∙ h.powered;
  halted_broken = rw (b, time) h.halted_broken;
}

pub set_reg_c-IsVrtc : (v : Vrtc) (x : ℕ) → IsVrtc v → IsVrtc (vrtc_set_reg_c v x)
unfolding vrtc_set_reg_c
set_reg_c-IsVrtc v x h =
    let w : Vrtc =
      put_reg v 12
        (if irqf v (bit_and x 0x70) then bit_or 0x80 (bit_and x 0x70) else bit_and x 0x70) in
    either-IsVrtc (not (has_bit (reg_c v) 7) && irqf v (bit_and x 0x70)) _ _
      (same-IsVrtc v (record w { pulses = w.pulses + 1 }) refl refl refl refl refl h)
      (same-IsVrtc v w refl refl refl refl refl h)

pub secs_to_rtc-IsVrtc :
    (host : Timespec) (t : Option ℕ) (v : Vrtc) (force : Bool)
    → IsVrtc v
    → IsVrtc (secs_to_rtc host t v force)
unfolding secs_to_rtc ct_to_rtc
secs_to_rtc-IsVrtc host none v force h = h
secs_to_rtc-IsVrtc host (some t) v force h =
    either-IsVrtc (rtc_halted v && not force) _ _ h (same-IsVrtc v _ refl refl refl refl refl h)

pub flag-IsVrtc :
    (b : Bool) (v : Vrtc) (x : ℕ) → IsVrtc v → IsVrtc (if b then vrtc_set_reg_c v x else v)
flag-IsVrtc b v x h = either-IsVrtc b _ _ (set_reg_c-IsVrtc v x h) h

module _ (host : Timespec) where
  alarm_check-IsVrtc : (v : Vrtc) → IsVrtc v → IsVrtc (alarm_check host v)
  unfolding alarm_check
  alarm_check-IsVrtc v h =
      let w = secs_to_rtc host v.base_rtctime v false in
      flag-IsVrtc (is_alarm w) w (set_bit (reg_c w) 5)
        (secs_to_rtc-IsVrtc host v.base_rtctime v false h)

-- A running clock may take any time.
running-IsVrtc :
    (v : Vrtc) (t : Option ℕ)
    → rtc_halted v ≡ false
    → IsVrtc v
    → IsVrtc (record v { base_rtctime = t })
running-IsVrtc v t running h = record {
  addr_lt = h.addr_lt;
  not_updating = h.not_updating;
  powered = h.powered;
  halted_broken = rw running refl;
}

module _ (host : Timespec) where
  tick-IsVrtc :
      (newtime : ℕ) (valid : Bool) (v : Vrtc)
      → rtc_halted v ≡ false
      → IsVrtc v
      → IsVrtc (tick host newtime valid v) × (rtc_halted (tick host newtime valid v) ≡ false)
  unfolding tick
  tick-IsVrtc newtime valid v running h =
      let t = if aintr_enabled v && valid then next_second v.base_rtctime else some newtime in
      let u : Vrtc = record v { base_rtctime = t } in
      let hu = running-IsVrtc v t running h in
      let (time, b, a, up) = tick-time host newtime valid v in
      (either-IsVrtc (aintr_enabled u) _ _ (alarm_check-IsVrtc host u hu) hu, rw b running)

  ticks-IsVrtc :
      (fuel newtime : ℕ) (valid : Bool) (v : Vrtc)
      → rtc_halted v ≡ false
      → IsVrtc v
      → Ends IsVrtc (ticks host fuel newtime valid v)
  unfolding ticks
  ticks-IsVrtc zero newtime valid v running h = tt
  ticks-IsVrtc (suc fuel) newtime valid v running h =
      let w = tick host newtime valid v in
      let (hw, running') = tick-IsVrtc newtime valid v running h in
      stop-Ends IsVrtc (is_time w.base_rtctime newtime) w (ticks host fuel newtime valid w) hw
        (ticks-IsVrtc fuel newtime valid w running' hw)

  pub time_update-IsVrtc :
      (fuel : ℕ) (v : Vrtc) (newtime : Option ℕ) (newbase : ℕ)
      → IsVrtc v
      → Ends (λ r. IsVrtc r.1) (vrtc_time_update host fuel v newtime newbase)
  unfolding vrtc_time_update
  time_update-IsVrtc fuel v none newbase h = record {
    addr_lt = h.addr_lt;
    not_updating = h.not_updating;
    powered = h.powered;
    halted_broken = ground arith;
  }
  time_update-IsVrtc fuel v (some newtime) newbase h =
      let w : Vrtc = record v { base_uptime = newbase } in
      let hw = same-IsVrtc v w refl refl refl refl refl h in
      either-Ends (λ r. IsVrtc r.1) (is_time v.base_rtctime newtime) _ _ hw
        (elim (Bool-cases (rtc_halted w)) [
          | inl halted ↦ rw halted hw
          | inr running ↦ rw running (
              >>=-Ends IsVrtc (λ r. IsVrtc r.1) (ticks host fuel newtime (is_some v.base_rtctime) w)
                _ (ticks-IsVrtc fuel newtime (is_some v.base_rtctime) w running hw)
                (λ x hx. flag-IsVrtc (uintr_enabled x) x (set_bit (reg_c x) 4) hx))
        ])
