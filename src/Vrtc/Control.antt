-- ===== src/Vrtc/Control.antt =====
-- The well-formedness of the clock under writes of its control registers and its callout (src/vmm/io/vrtc.c).
use xhyve_manager.Base.{
  ℕ, ◌≡◌, refl, ◌∙◌, Bool, true, false, not, ◌&&◌, ◌||◌, Option, none, some, ◌==◌, if◌then◌else◌,
  bit_and, bit_xor, is_some, arith, Bool-cases, inl, inr, Status, ok, fail, einval, ebusy,
}
use mathlib.Core.Bool.{xor}
use xhyve_manager.Base.Bits.{
  has_bit, set_bit, clear_bit, has_bit-test_bit, test_bit-clear_bit, test_bit-bit_xor,
}
use xhyve_manager.Vrtc.Calendar.{Timespec}
use xhyve_manager.Vrtc.Registers.{
  Vrtc, reg_a, reg_b, reg_c, put_reg, aintr_enabled, uintr_enabled, pintr_enabled, rtc_halted,
  secs_to_rtc, rtc_to_secs, divider_enabled, ct_to_rtc,
}
use xhyve_manager.Vrtc.Device.{
  vrtc_curtime, vrtc_set_reg_c, vrtc_set_reg_a, vrtc_set_reg_b, vrtc_time_update, vrtc_freq,
  follow_freq, vrtc_callout_reset, vrtc_callout_handler, resume_at, resume, halt,
}
use xhyve_manager.Vrtc.Invariant.{
  IsVrtc, Ends, >>=-Ends, either-Ends, either-IsVrtc, same-IsVrtc, set_reg_c-IsVrtc, flag-IsVrtc,
  time_update-IsVrtc,
}

callout_reset-IsVrtc : (v : Vrtc) (freq : ℕ) → IsVrtc v → IsVrtc (vrtc_callout_reset v freq)
unfolding vrtc_callout_reset
callout_reset-IsVrtc v freq h =
    either-IsVrtc (freq == 0) _ _ (same-IsVrtc v _ refl refl refl refl refl h)
      (same-IsVrtc v _ refl refl refl refl refl h)

follow_freq-IsVrtc : (v : Vrtc) (old : ℕ) → IsVrtc v → IsVrtc (follow_freq v old)
follow_freq-IsVrtc v old h =
    either-IsVrtc (vrtc_freq v == old) _ _ h (callout_reset-IsVrtc v (vrtc_freq v) h)

cleared_top : (x : ℕ) → has_bit (clear_bit 8 x 7) 7 ≡ false
cleared_top x =
    has_bit-test_bit (clear_bit 8 x 7) 7 ∙ test_bit-clear_bit 8 x 7 7 (omega arith) (omega arith)

pub set_reg_a-IsVrtc : (now : ℕ) (v : Vrtc) (x : ℕ) → IsVrtc v → IsVrtc (vrtc_set_reg_a now v x)
unfolding vrtc_set_reg_a
set_reg_a-IsVrtc now v x h =
    let out = not (divider_enabled (reg_a v)) && divider_enabled (clear_bit 8 x 7) in
    let w : Vrtc = if out then record v { base_uptime = now } else v in
    let hw : IsVrtc w = either-IsVrtc out _ _ (same-IsVrtc v _ refl refl refl refl refl h) h in
    follow_freq-IsVrtc (put_reg w 10 (clear_bit 8 x 7)) (vrtc_freq v) (record {
      addr_lt = hw.addr_lt;
      not_updating = cleared_top x;
      powered = hw.powered;
      halted_broken = hw.halted_broken;
    })

secs_to_rtc-kept :
    (host : Timespec) (t : Option ℕ) (v : Vrtc) (force : Bool)
    → let w = secs_to_rtc host t v force in
      (w.addr ≡ v.addr) × (reg_a w ≡ reg_a v) × (w.rtcdev 13 ≡ v.rtcdev 13)
unfolding secs_to_rtc ct_to_rtc
secs_to_rtc-kept host none v force = (refl, refl, refl)
secs_to_rtc-kept host (some t) v force = ground arith

-- While updates are not halted, register B may take any value that does not halt them, and with a
-- time that is not valid any value.
put_reg_b-IsVrtc :
    (v : Vrtc) (newval : ℕ) → has_bit newval 7 ≡ false → IsVrtc v → IsVrtc (put_reg v 11 newval)
put_reg_b-IsVrtc v newval running h = record {
  addr_lt = h.addr_lt;
  not_updating = h.not_updating;
  powered = h.powered;
  halted_broken = rw running refl;
}

same_halt-IsVrtc :
    (v : Vrtc) (newval : ℕ)
    → has_bit newval 7 ≡ rtc_halted v
    → IsVrtc v
    → IsVrtc (put_reg v 11 newval)
same_halt-IsVrtc v newval same h = record {
  addr_lt = h.addr_lt;
  not_updating = h.not_updating;
  powered = h.powered;
  halted_broken = rw same h.halted_broken;
}

unchanged_bit : (x y : ℕ) → has_bit (bit_xor x y) 7 ≡ false → has_bit y 7 ≡ has_bit x 7
unfolding xor
unchanged_bit x y kept = ground (
  arith,
  kept,
  has_bit-test_bit (bit_xor x y) 7,
  test_bit-bit_xor x y 7,
  has_bit-test_bit x 7,
  has_bit-test_bit y 7,
)

-- The outcome of a call with a status.
abbrev pub After : {A : Type 0} → Option (A × Vrtc) → Type 0
After m = Ends (λ r. IsVrtc r.1) m

module _ (host : Timespec) (fuel now : ℕ) where
  pub callout_handler-IsVrtc :
      (pending : Bool) (v : Vrtc)
      → IsVrtc v
      → Ends IsVrtc (vrtc_callout_handler host fuel now pending v)
  unfolding vrtc_callout_handler
  callout_handler-IsVrtc pending v h =
      let d : Vrtc = record v { timer = none } in
      let hd = same-IsVrtc v d refl refl refl refl refl h in
      let w = if pintr_enabled d then vrtc_set_reg_c d (set_bit (reg_c d) 6) else d in
      let hw = flag-IsVrtc (pintr_enabled d) d (set_bit (reg_c d) 6) hd in
      let (rtctime, basetime) = vrtc_curtime now w in
      either-Ends IsVrtc (pending || not (is_some v.timer)) _ _ h (
        >>=-Ends (λ r. IsVrtc r.1) IsVrtc _ _
          (either-Ends (λ r. IsVrtc r.1) (aintr_enabled w || uintr_enabled w)
            (vrtc_time_update host fuel w rtctime basetime) (some (ok, w))
            (time_update-IsVrtc host fuel w rtctime basetime hw) hw)
          (λ r hr. callout_reset-IsVrtc r.1 (vrtc_freq r.1) hr))

  resume_at-IsVrtc : (v : Vrtc) (t : Option ℕ) → IsVrtc v → After (resume_at host fuel now v t)
  unfolding resume_at
  resume_at-IsVrtc v none h = h
  resume_at-IsVrtc v (some t) h =
      >>=-Ends (λ r. IsVrtc r.1) (λ r. IsVrtc r.1) (vrtc_time_update host fuel v (some t) now) _
        (time_update-IsVrtc host fuel v (some t) now h) (λ r hr. hr)

  resume-IsVrtc : (v : Vrtc) → IsVrtc v → After (resume host fuel now v)
  unfolding resume
  resume-IsVrtc v h = resume_at-IsVrtc v (rtc_to_secs v.rtcdev) h

  halt-IsVrtc :
      (v : Vrtc) (newval : ℕ) → IsVrtc v → After (halt host fuel now (put_reg v 11 newval))
  unfolding halt vrtc_time_update
  halt-IsVrtc v newval h =
      let u : Vrtc = put_reg v 11 newval in
      let (addr, a, d) = secs_to_rtc-kept host (vrtc_curtime now u).0 u true in
      record {
        addr_lt = rw addr h.addr_lt;
        not_updating = rw a h.not_updating;
        powered = d ∙ h.powered;
        halted_broken = ground arith;
      }

  status-After :
      (r : Status × Vrtc) (x : Vrtc)
      → IsVrtc r.1
      → IsVrtc x
      → After (elim r.0 [ ok ↦ some (ok, x) | _ ↦ some r ])
  status-After (ok, v) x hv hx = hx
  status-After (fail, v) x hv hx = hv
  status-After (einval, v) x hv hx = hv
  status-After (ebusy, v) x hv hx = hv

  moved-After :
      (v : Vrtc) (newval : ℕ)
      → IsVrtc v
      → let w = put_reg v 11 newval in
        After (
          if has_bit (bit_xor (reg_b v) newval) 7
          then if has_bit newval 7 then halt host fuel now w else resume host fuel now w
          else some (ok, w))
  moved-After v newval h =
      let w : Vrtc = put_reg v 11 newval in
      elim (Bool-cases (has_bit (bit_xor (reg_b v) newval) 7)) [
        | inl changed ↦ rw changed (elim (Bool-cases (has_bit newval 7)) [
          | inl on ↦ rw on (halt-IsVrtc v newval h)
          | inr off ↦ rw off (resume-IsVrtc w (put_reg_b-IsVrtc v newval off h))
        ])
        | inr kept ↦ rw kept (same_halt-IsVrtc v newval (unchanged_bit (reg_b v) newval kept) h)
      ]

  pub set_reg_b-IsVrtc :
      (v : Vrtc) (newval : ℕ) → IsVrtc v → After (vrtc_set_reg_b host fuel now v newval)
  unfolding vrtc_set_reg_b
  set_reg_b-IsVrtc v newval h =
      let changed = bit_and (bit_xor (reg_b v) newval) 0x70 == 0 in
      >>=-Ends (λ r. IsVrtc r.1) (λ r. IsVrtc r.1) _ _ (moved-After v newval h)
        (λ r hr.
          let x = if changed then r.1 else vrtc_set_reg_c r.1 (reg_c r.1) in
          let hx =
            either-IsVrtc changed r.1 (vrtc_set_reg_c r.1 (reg_c r.1)) hr
              (set_reg_c-IsVrtc r.1 (reg_c r.1) hr) in
          status-After r (follow_freq x (vrtc_freq v)) hr (follow_freq-IsVrtc x (vrtc_freq v) hx))
