-- ===== src/Vrtc/Update.antt =====
-- Bringing the clock's time up to date (src/vmm/io/vrtc.c).
use xhyve_manager.Base.{
  ℕ, suc, ◌+◌, ◌-◌, ◌*◌, ◌/◌, ◌≤◌, ◌<◌, ◌≡◌, ◌≢◌, refl, ap, ◌∙◌, true, false, Option, none, some,
  ◌==◌, if◌then◌else◌, ◌>>=◌, is_some, arith, Bool-cases, inl, inr, Option-cases, ok,
}
use xhyve_manager.Base.Bits.{set_bit}
use xhyve_manager.Vrtc.Calendar.{Timespec}
use xhyve_manager.Vrtc.Registers.{
  Vrtc, reg_a, reg_b, reg_c, aintr_enabled, uintr_enabled, rtc_halted, update_enabled,
}
use xhyve_manager.Vrtc.Device.{
  vrtc_curtime, vrtc_set_reg_c, is_time, tick, ticks, vrtc_time_update, sbt_1s,
}
use xhyve_manager.Vrtc.Time.{SameControl, set_reg_c-time, ticks_forward, ticks_endless, ticks_once}

-- The end of an update.
abbrev pub notified : Vrtc → Vrtc
notified x = if uintr_enabled x then vrtc_set_reg_c x (set_bit (reg_c x) 4) else x

pub notified-time :
    (x : Vrtc) → ((notified x).base_rtctime ≡ x.base_rtctime) × SameControl x (notified x)
notified-time x = ground (arith, set_reg_c-time x (set_bit (reg_c x) 4))

module _ (host : Timespec) (fuel : ℕ) where
  update_same :
      (v : Vrtc) (newtime newbase : ℕ)
      → is_time v.base_rtctime newtime ≡ true
      → vrtc_time_update host fuel v (some newtime) newbase
        ≡ some (ok, record v { base_uptime = newbase })
  unfolding vrtc_time_update
  update_same v newtime newbase same = rw same refl

  update_moves :
      (v : Vrtc) (t newtime newbase : ℕ) (x : Option Vrtc)
      → v.base_rtctime ≡ some t
      → t ≢ newtime
      → rtc_halted v ≡ false
      → ticks host fuel newtime true (record v { base_uptime = newbase }) ≡ x
      → vrtc_time_update host fuel v (some newtime) newbase ≡ (x >>= λ y. some (ok, notified y))
  unfolding vrtc_time_update
  update_moves v t newtime newbase x here other running run =
      let differs : is_time v.base_rtctime newtime ≡ false = rw here (ground (arith, other)) in
      let valid : is_some v.base_rtctime ≡ true = rw here refl in
      rw (differs, running, valid, run) refl

  -- When updates are not halted, moving the time of the clock forward, or leaving it, comes to an
  -- end whether the alarm is on or not, in at most as many rounds as there are seconds between: the
  -- time and the base uptime are then the new ones, and registers A and B are as they were.
  pub vrtc_time_update-forward :
      (v : Vrtc) (t newtime newbase : ℕ)
      → v.base_rtctime ≡ some t
      → rtc_halted v ≡ false
      → t ≤ newtime
      → newtime - t ≤ fuel
      → (w : Vrtc) × (vrtc_time_update host fuel v (some newtime) newbase ≡ some (ok, w))
        × (w.base_rtctime ≡ some newtime)
        × (w.base_uptime ≡ newbase)
        × (reg_a w ≡ reg_a v)
        × (reg_b w ≡ reg_b v)
  vrtc_time_update-forward v t newtime newbase here running forward enough =
      let u : Vrtc = record v { base_uptime = newbase } in
      elim (Bool-cases (t == newtime)) [
        | inl same ↦
            (let now : is_time v.base_rtctime newtime ≡ true = rw here same in
              let last : t ≡ newtime = ground (arith, same) in
              (
                u,
                update_same v newtime newbase now,
                here ∙ ap (λ s. some s) last,
                refl,
                refl,
                refl,
              ))
        | inr differs ↦
            (let other : t ≢ newtime = ground (arith, differs) in
              let (x, run, there, same) =
                ticks_forward host newtime fuel t u here (ground (arith, differs)) enough in
              let (time, same') = notified-time x in
              (
                notified x,
                update_moves v t newtime newbase (some x) here other running run,
                time ∙ there,
                same'.2 ∙ same.2,
                same'.1 ∙ same.1,
                same'.0 ∙ same.0,
              ))
      ]

  -- With the alarm interrupt enabled and updates not halted, an update to a time before
  -- `base_rtctime`, the time at which the clock was last brought up to date, does not end, in any
  -- number of rounds.
  pub vrtc_time_update-endless :
      (v : Vrtc) (t newtime newbase : ℕ)
      → v.base_rtctime ≡ some t
      → rtc_halted v ≡ false
      → aintr_enabled v ≡ true
      → newtime < t
      → vrtc_time_update host fuel v (some newtime) newbase ≡ none
  vrtc_time_update-endless v t newtime newbase here running on back =
      let u : Vrtc = record v { base_uptime = newbase } in
      update_moves v t newtime newbase none here (λ e. absurd (omega (arith, e, back))) running
        (ticks_endless host newtime fuel t u on here back)

-- From a time that is not valid one round is enough.
module _ (host : Timespec) (fuel : ℕ) where
  pub vrtc_time_update-restart :
      (v : Vrtc) (newtime newbase : ℕ)
      → v.base_rtctime ≡ none
      → rtc_halted v ≡ false
      → (w : Vrtc) × (vrtc_time_update host (suc fuel) v (some newtime) newbase ≡ some (ok, w))
        × (w.base_rtctime ≡ some newtime)
        × (w.base_uptime ≡ newbase)
        × (reg_b w ≡ reg_b v)
  unfolding vrtc_time_update
  vrtc_time_update-restart v newtime newbase broken running =
      let u : Vrtc = record v { base_uptime = newbase } in
      let x = tick host newtime false u in
      let (run, there, same) = ticks_once host newtime fuel false u (ground arith) in
      let (time, same') = notified-time x in
      let no_time : is_time v.base_rtctime newtime ≡ false = rw broken refl in
      let invalid : is_some v.base_rtctime ≡ false = rw broken refl in
      (
        notified x,
        rw (no_time, running, invalid, run) refl,
        time ∙ there,
        same'.2 ∙ same.2,
        same'.0 ∙ same.0,
      )

-- The whole seconds passed and the rest of the time add up again later.
split_later :
    (b now later : ℕ)
    → b ≤ now
    → now ≤ later
    → let s = (now - b) / sbt_1s in
      let rest = (later - (b + s * sbt_1s)) / sbt_1s in s + rest ≡ (later - b) / sbt_1s
split_later b now later past future = omega arith

curtime_running :
    (at_ : ℕ) (v : Vrtc) (t : ℕ)
    → update_enabled v ≡ true
    → v.base_rtctime ≡ some t
    → let secs = (at_ - v.base_uptime) / sbt_1s in
      vrtc_curtime at_ v ≡ (some (t + secs), v.base_uptime + secs * sbt_1s)
unfolding vrtc_curtime
curtime_running at_ v t enabled here = rw (enabled, here) refl

enabled_parts :
    (v : Vrtc)
    → update_enabled v ≡ true
    → (rtc_halted v ≡ false) × ((t : ℕ) × (v.base_rtctime ≡ some t))
unfolding update_enabled
enabled_parts v enabled =
    let running : rtc_halted v ≡ false = ground (arith, enabled) in
    elim (Option-cases v.base_rtctime) [
      | inl broken ↦ absurd (ground (arith, enabled, broken))
      | inr here ↦ (running, here)
    ]

enabled_by :
    (v w : Vrtc) (t t' : ℕ)
    → v.base_rtctime ≡ some t
    → w.base_rtctime ≡ some t'
    → reg_a w ≡ reg_a v
    → reg_b w ≡ reg_b v
    → update_enabled v ≡ true
    → update_enabled w ≡ true
unfolding update_enabled
enabled_by v w t t' here there a b enabled = rw (a, b, there) (ground (arith, enabled))

-- Bringing a running clock up to date, as each access of its data port does, ends and does not
-- disturb it: at every later moment the clock shows the same time as it would without.
pub vrtc_time_update-vrtc_curtime :
    (host : Timespec) (fuel now later : ℕ) (v : Vrtc)
    → update_enabled v ≡ true
    → v.base_uptime ≤ now
    → now ≤ later
    → (now - v.base_uptime) / sbt_1s ≤ fuel
    → let (curtime, basetime) = vrtc_curtime now v in
      (w : Vrtc) × (vrtc_time_update host fuel v curtime basetime ≡ some (ok, w))
      × (vrtc_curtime later w ≡ vrtc_curtime later v)
vrtc_time_update-vrtc_curtime host fuel now later v enabled past future enough =
    let (running, valid) = enabled_parts v enabled in
    let (t, here) = valid in
    let secs : ℕ = (now - v.base_uptime) / sbt_1s in
    let (w, run, there, base, a, b) =
      vrtc_time_update-forward host fuel v t (t + secs) (v.base_uptime + secs * sbt_1s) here running
        (omega arith) (omega (arith, enough)) in
    let enabled' : update_enabled w ≡ true = enabled_by v w t (t + secs) here there a b enabled in
    let start : ℕ = v.base_uptime + secs * sbt_1s in
    let rest : ℕ = (later - start) / sbt_1s in
    let total : ℕ = (later - v.base_uptime) / sbt_1s in
    let sum : secs + rest ≡ total = split_later v.base_uptime now later past future in
    let same_time : t + secs + rest ≡ t + total = omega (arith, sum) in
    let same_base : start + rest * sbt_1s ≡ v.base_uptime + total * sbt_1s = omega (arith, sum) in
    (
      w,
      rw (curtime_running now v t enabled here) run,
      curtime_running later w (t + secs) enabled' there
          ∙ rw (curtime_running later v t enabled here, base) (rw (same_time, same_base) refl),
    )
