-- ===== src/Vrtc/Interrupts.antt =====
-- Register C and the interrupt line (src/vmm/io/vrtc.c).
use xhyve_manager.Base.{
  ℕ, ◌+◌, ◌<◌, ◌≡◌, refl, sym, ap, ◌∙◌, Bool, true, false, not, all_below_lem, ◌&&◌, ◌||◌, ◌==◌,
  if◌then◌else◌, bit_and, bit_or, arith,
}
use xhyve_manager.Base.Bits.{
  has_bit, has_bit-test_bit, test_bit-pow, test_bit-bit_or, test_bit-bit_and,
}
use xhyve_manager.Vrtc.Registers.{Vrtc, reg_b, reg_c, put_reg}
use xhyve_manager.Vrtc.Device.{irqf, vrtc_set_reg_c}

masked : (x k : ℕ) → has_bit (bit_and x 0x70) k ≡ (has_bit x k && has_bit 0x70 k)
masked x k =
    has_bit-test_bit (bit_and x 0x70) k
    ∙ (test_bit-bit_and x 0x70 k
        ∙ rw (sym (has_bit-test_bit x k), sym (has_bit-test_bit 0x70 k)) refl)

flagged : (flags k : ℕ) → has_bit (bit_or 0x80 flags) k ≡ ((7 == k) || has_bit flags k)
flagged flags k = ground (
  arith,
  has_bit-test_bit (bit_or 0x80 flags) k,
  test_bit-bit_or 0x80 flags k,
  test_bit-pow 7 k,
  has_bit-test_bit flags k,
)

-- The mask, bit by bit.
abbrev agree : Bool → Bool → Bool
agree true b = b
agree false b = not b

same : (a b : Bool) → agree a b ≡ true → a ≡ b
same true true h = refl
same true false h = sym h
same false true h = h
same false false h = refl

abbrev is_right : ℕ → Bool
is_right k = agree (has_bit 0x70 k) (4 == k || (5 == k || 6 == k))

flag_bits : (k : ℕ) → k < 8 → has_bit 0x70 k ≡ (4 == k || (5 == k || 6 == k))
flag_bits k below = same _ _ (all_below_lem 8 is_right k refl below)

-- The bits of what is stored: the flags that are written, and the interrupt flag above them.
stored_bit :
    (newval : ℕ) (on : Bool) (k : ℕ)
    → k < 8
    → let flags = bit_and newval 0x70 in
      has_bit (if on then bit_or 0x80 flags else flags) k
      ≡ (if k == 7 then on else has_bit newval k && (4 == k || (5 == k || 6 == k)))
stored_bit newval true k below =
    ground (arith, flagged (bit_and newval 0x70) k, masked newval k, flag_bits k below)
stored_bit newval false k below = ground (arith, masked newval k, flag_bits k below)

-- A pulse leaves the registers.
pulsed :
    (b : Bool) (w : Vrtc)
    → let u : Vrtc = if b then record w { pulses = w.pulses + 1 } else w in
      (u.rtcdev ≡ w.rtcdev) × (u.pulses ≡ w.pulses + (if b then 1 else 0))
pulsed true w = (refl, refl)
pulsed false w = (refl, omega arith)

-- A flag that is written with its enable bit set, which stands at the same place of register B.
abbrev pub asks : Vrtc → ℕ → ℕ → Bool
asks v newval i = has_bit newval i && has_bit (reg_b v) i

-- Register C after any write to it: the update, alarm and periodic flags are the ones that are
-- written, the bit 7 is set exactly when one of these comes with its enable bit in register B, which
-- stands at the same place, and the four low bits are clear; no other register changes; and the
-- interrupt is pulsed, once, exactly when the bit 7 rises.
pub vrtc_set_reg_c_lem :
    (v : Vrtc) (newval k j : ℕ)
    → k < 8
    → let w = vrtc_set_reg_c v newval in
      (has_bit (reg_c w) k ≡ (
        if k == 7
        then asks v newval 4 || (asks v newval 5 || asks v newval 6)
        else has_bit newval k && (4 == k || (5 == k || 6 == k))))
      × (w.rtcdev j ≡ (if j == 12 then reg_c w else v.rtcdev j))
      × (w.pulses ≡ v.pulses + (if not (has_bit (reg_c v) 7) && has_bit (reg_c w) 7 then 1 else 0))
unfolding vrtc_set_reg_c irqf
vrtc_set_reg_c_lem v newval k j below =
    let flags : ℕ = bit_and newval 0x70 in
    let on : Bool = irqf v flags in
    let old : Bool = has_bit (reg_c v) 7 in
    let on_lem : on ≡ (asks v newval 4 || (asks v newval 5 || asks v newval 6)) =
      ground (arith, masked newval 4, masked newval 5, masked newval 6) in
    let (dev, count) =
      pulsed (not old && on) (put_reg v 12 (if on then bit_or 0x80 flags else flags)) in
    let rest : Bool = has_bit newval k && (4 == k || (5 == k || 6 == k)) in
    let above = ap (λ r. has_bit (r 12) 7) dev ∙ stored_bit newval on 7 (omega arith) in
    (
      ap (λ r. has_bit (r 12) k) dev
          ∙ (stored_bit newval on k below ∙ ap (λ b. if k == 7 then b else rest) on_lem),
      ap (λ r. r j) dev ∙ sym (ap (λ r. if j == 12 then r 12 else v.rtcdev j) dev),
      count ∙ ap (λ b. v.pulses + (if not old && b then 1 else 0)) (sym above),
    )
