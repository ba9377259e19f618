-- ===== src/Vrtc/Resume.antt =====
-- Setting the time: the end of a halt, and what the registers show then (src/vmm/io/vrtc.c).
use mathlib.Core.Bool.{xor}
use xhyve_manager.Base.{
  ℕ, suc, ◌<◌, ◌≡◌, refl, ap, ◌∙◌, Bool, true, false, some, ◌==◌, if◌then◌else◌, bit_and, bit_xor,
  arith, ok,
}
use xhyve_manager.Base.Bits.{has_bit, has_bit-test_bit, test_bit-bit_xor}
use xhyve_manager.Vrtc.Calendar.{Timespec, clock_ts_to_ct}
use xhyve_manager.Vrtc.RoundTrip.{clock_ts_to_ct-IsClocktime, secs_of-clock_ts_to_ct}
use xhyve_manager.Vrtc.Registers.{
  Vrtc, put, reg_b, reg_c, put_reg, rtc_halted, secs_to_rtc, rtc_to_secs,
}
use xhyve_manager.Vrtc.Formats.{rtc_to_secs-ct_to_rtc}
use xhyve_manager.Vrtc.Device.{
  vrtc_set_reg_c, vrtc_set_reg_b, vrtc_time_update, follow_freq, vrtc_freq, vrtc_callout_reset,
  resume, resume_at,
}
use xhyve_manager.Vrtc.Time.{set_reg_c-time}
use xhyve_manager.Vrtc.Update.{vrtc_time_update-restart}
use xhyve_manager.Vrtc.Invariant.{IsVrtc}
use xhyve_manager.Vrtc.Halted.{halted_none}

follow_freq-time :
    (v : Vrtc) (old : ℕ)
    → ((follow_freq v old).base_rtctime ≡ v.base_rtctime)
      × ((follow_freq v old).base_uptime ≡ v.base_uptime)
      × (reg_b (follow_freq v old) ≡ reg_b v)
unfolding vrtc_callout_reset
follow_freq-time v old = ground arith

refreshed-time :
    (b : Bool) (v : Vrtc)
    → let w = if b then v else vrtc_set_reg_c v (reg_c v) in
      (w.base_rtctime ≡ v.base_rtctime) × (w.base_uptime ≡ v.base_uptime) × (reg_b w ≡ reg_b v)
refreshed-time b v = ground (arith, set_reg_c-time v (reg_c v))

changed_halt : (x y : ℕ) → has_bit x 7 ≡ true → has_bit y 7 ≡ false → has_bit (bit_xor x y) 7 ≡ true
unfolding xor
changed_halt x y halted on = ground (
  arith,
  halted,
  on,
  has_bit-test_bit (bit_xor x y) 7,
  test_bit-bit_xor x y 7,
  has_bit-test_bit x 7,
  has_bit-test_bit y 7,
)

resume_lem :
    (host : Timespec) (fuel now : ℕ) (v w : Vrtc) (t : ℕ)
    → rtc_to_secs v.rtcdev ≡ some t
    → vrtc_time_update host fuel v (some t) now ≡ some (ok, w)
    → resume host fuel now v ≡ some (ok, w)
unfolding resume resume_at
resume_lem host fuel now v w t fields run = rw (fields, run) refl

-- When the guest ends a halt, with register B of the formats it wants, and the fields are valid in
-- them, the write succeeds after one round and the clock's time is the one of the fields, from the
-- moment of the write on.
pub vrtc_set_reg_b-resumed :
    (host : Timespec) (fuel now : ℕ) (v : Vrtc) (newval t : ℕ)
    → IsVrtc v
    → rtc_halted v ≡ true
    → has_bit newval 7 ≡ false
    → rtc_to_secs (put v.rtcdev 11 newval) ≡ some t
    → (w : Vrtc) × (vrtc_set_reg_b host (suc fuel) now v newval ≡ some (ok, w))
      × (w.base_rtctime ≡ some t)
      × (w.base_uptime ≡ now)
      × (reg_b w ≡ newval)
unfolding vrtc_set_reg_b
vrtc_set_reg_b-resumed host fuel now v newval t h halted on fields =
    let w0 : Vrtc = put_reg v 11 newval in
    let (w, run, time, base, b) =
      vrtc_time_update-restart host fuel w0 t now (halted_none v h halted) on in
    let only_halt = bit_and (bit_xor (reg_b v) newval) 0x70 == 0 in
    let x = if only_halt then w else vrtc_set_reg_c w (reg_c w) in
    let (time', base', b') = refreshed-time only_halt w in
    let (time'', base'', b'') = follow_freq-time x (vrtc_freq v) in
    (
      follow_freq x (vrtc_freq v),
      rw
          (
            changed_halt (reg_b v) newval halted on,
            on,
            resume_lem host (suc fuel) now w0 w t fields run,
          )
          refl,
      time'' ∙ (time' ∙ time),
      base'' ∙ (base' ∙ base),
      b'' ∙ (b' ∙ b),
    )

-- The date and time registers that are refreshed hold the time of the host's clock, whatever time
-- the guest had set.
pub secs_to_rtc_host :
    (host : Timespec) (t : ℕ) (v : Vrtc)
    → rtc_halted v ≡ false
    → (clock_ts_to_ct host).year < 10000
    → rtc_to_secs (secs_to_rtc host (some t) v false).rtcdev ≡ some host.tv_sec
unfolding secs_to_rtc
secs_to_rtc_host host t v running small = rw running (
    rtc_to_secs-ct_to_rtc v.rtcdev (clock_ts_to_ct host) (clock_ts_to_ct-IsClocktime host) small
    ∙ ap (λ s. some s) (secs_of-clock_ts_to_ct host))
