-- ===== src/Vrtc/Device.antt =====
-- The running clock: its time, its interrupts, its callout and its control registers
-- (src/vmm/io/vrtc.c). The lock is held throughout each call, so a call is one step. Three clocks
-- are read: `now` is `sbinuptime`, in units of 2^-32 seconds, and `host` is what `clock_get_time`
-- returns, each the same throughout a call. Assertions are those of a release build, which checks
-- none.
use xhyve_manager.Base.{
  ℕ, zero, suc, ◌+◌, ◌-◌, ◌*◌, ◌/◌, ◌%◌, ◌^◌, Bool, true, false, not, ◌&&◌, ◌||◌, Option, none,
  some, List, [], ◌∷◌, ◌==◌, leb, if◌then◌else◌, bit_and, bit_or, bit_xor, get_or, ◌>>=◌, is_some,
  Status, ok, fail, ebusy,
}
use xhyve_manager.Base.Bits.{has_bit, set_bit, clear_bit}
use xhyve_manager.Vrtc.Calendar.{Timespec}
use xhyve_manager.Vrtc.Registers.{
  Vrtc, reg_a, reg_b, reg_c, put_reg, uintr_enabled, aintr_enabled, pintr_enabled, rtc_halted,
  divider_enabled, update_enabled, secs_to_rtc, rtc_to_secs,
}

-- `SBT_1S`.
abbrev pub sbt_1s : ℕ
sbt_1s = 2 ^ 32

-- `vrtc_curtime`: the time and `*basetime`. The clock `now` does not run backwards.
unfoldable pub vrtc_curtime : ℕ → Vrtc → Option ℕ × ℕ
unfolding update_enabled
vrtc_curtime now v =
    let secs = (now - v.base_uptime) / sbt_1s in
    if update_enabled v
    then (v.base_rtctime >>= λ t. some (t + secs), v.base_uptime + secs * sbt_1s)
    else (v.base_rtctime, v.base_uptime)

-- `newirqf` of `vrtc_set_reg_c`: the bits are `RTCIR_ALARM`, `RTCIR_PERIOD` and `RTCIR_UPDATE`.
unfoldable pub irqf : Vrtc → ℕ → Bool
irqf v flags =
    (aintr_enabled v && has_bit flags 5)
    || ((pintr_enabled v && has_bit flags 6) || (uintr_enabled v && has_bit flags 4))

unfoldable pub vrtc_set_reg_c : Vrtc → ℕ → Vrtc
unfolding irqf
vrtc_set_reg_c v newval =
    let flags = bit_and newval 0x70 in
    let w = put_reg v 12 (if irqf v flags then bit_or 0x80 flags else flags) in
    if not (has_bit (reg_c v) 7) && irqf v flags then record w { pulses = w.pulses + 1 } else w

-- An alarm register of 0xc0 or more matches every value.
abbrev pub alarm_matches : ℕ → ℕ → Bool
alarm_matches alarm field = leb 0xc0 alarm || alarm == field

abbrev pub is_alarm : Vrtc → Bool
is_alarm v =
    alarm_matches (v.rtcdev 1) (v.rtcdev 0)
    && (alarm_matches (v.rtcdev 3) (v.rtcdev 2) && alarm_matches (v.rtcdev 5) (v.rtcdev 4))

abbrev pub is_time : Option ℕ → ℕ → Bool
is_time none newtime = false
is_time (some t) newtime = t == newtime

-- `base_rtctime++`.
abbrev pub next_second : Option ℕ → Option ℕ
next_second none = some 0
next_second (some t) = some (suc t)

module _ (host : Timespec) where
  unfoldable pub alarm_check : Vrtc → Vrtc
  unfolding secs_to_rtc vrtc_set_reg_c
  alarm_check v =
      let w = secs_to_rtc host v.base_rtctime v false in
      if is_alarm w then vrtc_set_reg_c w (set_bit (reg_c w) 5) else w

  -- A round of the loop of `vrtc_time_update`; `valid` says that the old time was.
  unfoldable pub tick : ℕ → Bool → Vrtc → Vrtc
  unfolding alarm_check
  tick newtime valid v =
      let w = record v {
        base_rtctime =
            if aintr_enabled v && valid then next_second v.base_rtctime else some newtime;
      } in
      if aintr_enabled w then alarm_check w else w

  -- The loop, on so much fuel: none when it has not ended by then.
  unfoldable pub ticks : ℕ → ℕ → Bool → Vrtc → Option Vrtc
  unfolding tick
  ticks zero newtime valid v = none
  ticks (suc fuel) newtime valid v =
      let w = tick newtime valid v in
      elim (is_time w.base_rtctime newtime) [ true ↦ some w | false ↦ ticks fuel newtime valid w ]

  module _ (fuel : ℕ) where
    -- `vrtc_time_update`; a time of none is `VRTC_BROKEN_TIME`.
    unfoldable pub vrtc_time_update : Vrtc → Option ℕ → ℕ → Option (Status × Vrtc)
    unfolding ticks
    vrtc_time_update v none newbase =
        some (ok, record v { base_uptime = newbase; base_rtctime = none })
    vrtc_time_update v (some newtime) newbase =
        let w = record v { base_uptime = newbase } in
        if is_time v.base_rtctime newtime
        then some (ok, w)
        else if rtc_halted w
        then some (ebusy, w)
        else ticks fuel newtime (is_some v.base_rtctime) w >>= λ x.
            some (ok, if uintr_enabled x then vrtc_set_reg_c x (set_bit (reg_c x) 4) else x)

-- `pf` of `vrtc_freq`, in the units of `sbt_1s`.
abbrev pub pf : List ℕ
pf =
    0
    ∷ 2 ^ 24
    ∷ 2 ^ 25
    ∷ 2 ^ 19
    ∷ 2 ^ 20
    ∷ 2 ^ 21
    ∷ 2 ^ 22
    ∷ 2 ^ 23
    ∷ 2 ^ 24
    ∷ 2 ^ 25
    ∷ 2 ^ 26
    ∷ 2 ^ 27
    ∷ 2 ^ 28
    ∷ 2 ^ 29
    ∷ 2 ^ 30
    ∷ 2 ^ 31
    ∷ []

unfoldable pub vrtc_freq : Vrtc → ℕ
unfolding divider_enabled update_enabled
vrtc_freq v =
    if pintr_enabled v && divider_enabled (reg_a v)
    then get_or pf (reg_a v % 16) 0
    else if aintr_enabled v && update_enabled v
    then sbt_1s
    else if uintr_enabled v && update_enabled v
    then sbt_1s
    else 0

unfoldable pub vrtc_callout_reset : Vrtc → ℕ → Vrtc
vrtc_callout_reset v freqsbt =
    if freqsbt == 0 then record v { timer = none } else record v { timer = some freqsbt }

-- How the setters of the control registers end: the callout follows a change of its frequency.
abbrev pub follow_freq : Vrtc → ℕ → Vrtc
follow_freq v oldfreq = if vrtc_freq v == oldfreq then v else vrtc_callout_reset v (vrtc_freq v)

-- `RTCSA_TUP` is the bit 7.
unfoldable pub vrtc_set_reg_a : ℕ → Vrtc → ℕ → Vrtc
unfolding vrtc_freq vrtc_callout_reset divider_enabled
vrtc_set_reg_a now v val =
    let newval = clear_bit 8 val 7 in
    let out_of_reset = not (divider_enabled (reg_a v)) && divider_enabled newval in
    let w = if out_of_reset then record v { base_uptime = now } else v in
    follow_freq (put_reg w 10 newval) (vrtc_freq v)

module _ (host : Timespec) (fuel now : ℕ) where
  -- `vrtc_callout_handler`; `pending` is `callout_pending`.
  unfoldable pub vrtc_callout_handler : Bool → Vrtc → Option Vrtc
  unfolding vrtc_set_reg_c vrtc_curtime vrtc_time_update vrtc_freq vrtc_callout_reset
  vrtc_callout_handler pending v =
      let d = record v { timer = none } in
      let w = if pintr_enabled d then vrtc_set_reg_c d (set_bit (reg_c d) 6) else d in
      let (rtctime, basetime) = vrtc_curtime now w in
      let updated =
        if aintr_enabled w || uintr_enabled w
        then vrtc_time_update host fuel w rtctime basetime
        else some (ok, w) in
      if pending || not (is_some v.timer)
      then some v
      else updated >>= λ r. some (vrtc_callout_reset r.1 (vrtc_freq r.1))

  -- The bit 7 of register B is `RTCSB_HALT`; `rtc_flag_broken_time` is 1.
  unfoldable pub resume_at : Vrtc → Option ℕ → Option (Status × Vrtc)
  unfolding vrtc_time_update
  resume_at v none = some (fail, v)
  resume_at v (some rtctime) =
      vrtc_time_update host fuel v (some rtctime) now >>= λ r. some (ok, r.1)

  unfoldable pub resume : Vrtc → Option (Status × Vrtc)
  unfolding rtc_to_secs resume_at
  resume v = resume_at v (rtc_to_secs v.rtcdev)

  unfoldable pub halt : Vrtc → Option (Status × Vrtc)
  unfolding vrtc_curtime secs_to_rtc vrtc_time_update
  halt v =
      let (curtime, basetime) = vrtc_curtime now v in
      let w = secs_to_rtc host curtime v true in
      vrtc_time_update host fuel (put_reg w 11 (clear_bit 8 (reg_b w) 4)) none basetime

  unfoldable pub vrtc_set_reg_b : Vrtc → ℕ → Option (Status × Vrtc)
  unfolding resume halt vrtc_set_reg_c vrtc_freq vrtc_callout_reset
  vrtc_set_reg_b v newval =
      let changed = bit_xor (reg_b v) newval in
      let w = put_reg v 11 newval in
      let moved =
        if has_bit changed 7 then if has_bit newval 7 then halt w else resume w else some (ok, w) in
      moved >>= λ r.
      let x = if bit_and changed 0x70 == 0 then r.1 else vrtc_set_reg_c r.1 (reg_c r.1) in
      elim r.0 [ ok ↦ some (ok, follow_freq x (vrtc_freq v)) | _ ↦ some r ]
