-- ===== src/Vioapic/Entry.antt =====
-- The value of a redirection entry after a write (src/vmm/io/vioapic.c).
use xhyve_manager.Base.{
  ℕ, ◌+◌, ◌-◌, ◌*◌, ◌/◌, ◌%◌, ◌^◌, ◌<◌, ◌≡◌, ◌≢◌, refl, ap, ◌∙◌, Bool, true, false, not, ◌&&◌, ◌||◌,
  arith, if◌then◌else◌, ◌==◌, bit_and, bit_or, ◌∷◌, Bool-cases, inl, inr, length, get_or-set_self,
  length-set,
}
use xhyve_manager.Base.Bits.{
  test_bit, bit_not, test_bit-bit_and, test_bit-bit_or, test_bit-bit_not, test_bit-zero, bit_and-lt,
  bit_or-lt,
}
use xhyve_manager.Base.Bits.Shift.{test_bit-mod, test_bit-div, test_bit-mul}
use xhyve_manager.Vioapic.Device.{
  Vioapic, rtbl_ro_bits, redir_entries, entry, set_entry, no_pin, merge, shift_of, pin_of,
  is_redtbl, send_asserted, write_entry, vioapic_write, vioapic_read, needs_update, rendezvous,
}
use xhyve_manager.Vioapic.Send.{send_bits}

-- A shift of the window: the low or the high half.
abbrev pub half_of : Bool → ℕ
half_of upper = if upper then 32 else 0

test_bit-window : (i : ℕ) → i < 32 → test_bit 0xffffffff i ≡ true
test_bit-window i below = ground (arith, test_bit-bit_not 32 0 i, test_bit-zero i)

mask-lt : (upper : Bool) → 0xffffffff * 2 ^ half_of upper < 2 ^ 64
mask-lt true = omega arith
mask-lt false = omega arith

data-lt : (upper : Bool) (d : ℕ) → d < 2 ^ 32 → d * 2 ^ half_of upper < 2 ^ 64
data-lt true d fits = omega arith
data-lt false d fits = omega arith

-- The bits of the new value.
merge_bits :
    (upper : Bool) (reg d i : ℕ)
    → i < 64
    → test_bit (merge (half_of upper) reg d) i ≡ (
        (test_bit reg i
          && (not (test_bit (0xffffffff * 2 ^ half_of upper) i) || test_bit rtbl_ro_bits i))
        || (test_bit (d * 2 ^ half_of upper) i && not (test_bit rtbl_ro_bits i)))
unfolding merge
merge_bits upper reg d i below =
    let data64 = d * 2 ^ half_of upper in
    let mask64 = 0xffffffff * 2 ^ half_of upper in
    ground (
      arith,
      test_bit-bit_or (bit_and reg (bit_or (bit_not 64 mask64) rtbl_ro_bits))
          (bit_and data64 (bit_not 64 rtbl_ro_bits)) i,
      test_bit-bit_and reg (bit_or (bit_not 64 mask64) rtbl_ro_bits) i,
      test_bit-bit_or (bit_not 64 mask64) rtbl_ro_bits i,
      test_bit-bit_not 64 mask64 i (mask-lt upper) below,
      test_bit-bit_and data64 (bit_not 64 rtbl_ro_bits) i,
      test_bit-bit_not 64 rtbl_ro_bits i (omega arith) below,
    )

-- In the half that is written the read-only bits stay and the others are the data's.
pub merge_inside :
    (upper : Bool) (reg d i : ℕ)
    → i < 32
    → test_bit (merge (half_of upper) reg d) (half_of upper + i) ≡ (
        if test_bit rtbl_ro_bits (half_of upper + i)
        then test_bit reg (half_of upper + i)
        else test_bit d i)
merge_inside upper reg d i below = ground (
  arith,
  merge_bits upper reg d (half_of upper + i) (ground arith),
  test_bit-mul (half_of upper) 0xffffffff i,
  test_bit-mul (half_of upper) d i,
  test_bit-window i below,
)

pub merge-lt :
    (upper : Bool) (reg d : ℕ) → reg < 2 ^ 64 → d < 2 ^ 32 → merge (half_of upper) reg d < 2 ^ 64
unfolding merge
merge-lt upper reg d fr fd =
    bit_or-lt 64 _ _ (bit_and-lt 64 reg _ fr)
      (bit_and-lt 64 (d * 2 ^ half_of upper) _ (data-lt upper d fd))

shift_of-half : (regnum : ℕ) → shift_of regnum ≡ half_of (not ((regnum - 0x10) % 2 == 0))
shift_of-half regnum = refl

-- A read-only bit of the lower half stays.
pub merge_readonly :
    (upper : Bool) (reg d i : ℕ)
    → i < 32
    → test_bit rtbl_ro_bits i ≡ true
    → test_bit (merge (half_of upper) reg d) i ≡ test_bit reg i
merge_readonly upper reg d i below kept = ground (arith, merge_bits upper reg d i (omega arith))

send_asserted_bits :
    (v : Vioapic) (pin i : ℕ)
    → pin < length v.rtbl
    → i ≢ 14
    → test_bit (entry (send_asserted v pin) pin).reg i ≡ test_bit (entry v pin).reg i
unfolding send_asserted
send_asserted_bits v pin i inside other = ground (arith, send_bits v pin i inside other)

-- A read gives the half of the entry that its register stands for.
read_bits :
    (v : Vioapic) (addr i : ℕ)
    → i < 32
    → let regnum = bit_and addr 0xff in
      is_redtbl regnum ≡ true
      → test_bit (vioapic_read v addr) i
        ≡ test_bit (entry v (pin_of regnum)).reg (shift_of regnum + i)
unfolding vioapic_read
read_bits v addr i below is_entry =
    let regnum = bit_and addr 0xff in
    let reg = (entry v (pin_of regnum)).reg in
    let chosen : vioapic_read v addr ≡ reg / 2 ^ shift_of regnum % 2 ^ 32 = ground arith in
    ap (λ x. test_bit x i) chosen
    ∙ (test_bit-mod 32 (reg / 2 ^ shift_of regnum) i below ∙ test_bit-div (shift_of regnum) reg i)

-- What other calls may do during a rendezvous for the theorem: leave the register of `pin` alone,
-- but for the remote IRR bit, and keep the table whole.
pub record Leaves (others : Vioapic → Vioapic) (pin : ℕ) : Type 0 where
  pub kept :
      (u : Vioapic) (i : ℕ)
      → i ≢ 14
      → test_bit (entry (others u) pin).reg i ≡ test_bit (entry u pin).reg i
  pub whole : (u : Vioapic) → length (others u).rtbl ≡ length u.rtbl

write_entry_bits :
    (others : Vioapic → Vioapic) (v : Vioapic) (regnum d i : ℕ)
    → Leaves others (pin_of regnum)
    → pin_of regnum < length v.rtbl
    → i ≢ 14
    → test_bit (entry (write_entry others v regnum d) (pin_of regnum)).reg i
      ≡ test_bit (merge (shift_of regnum) (entry v (pin_of regnum)).reg d) i
unfolding write_entry
write_entry_bits others v regnum d i l inside other =
    let pin = pin_of regnum in
    let e = entry v pin in
    let reg = merge (shift_of regnum) e.reg d in
    let u = set_entry v pin (record e { reg = reg }) in
    let r = record u { calls = rendezvous ∷ u.calls } in
    let here : (entry u pin).reg ≡ reg =
      ap (λ x. x.reg) (get_or-set_self v.rtbl pin (record e { reg = reg }) no_pin inside) in
    let room : pin < length u.rtbl =
      omega (arith, length-set v.rtbl pin (record e { reg = reg })) in
    elim (Bool-cases (needs_update e.reg reg)) [
      | inl update ↦ rw update (
          send_asserted_bits (others r) pin i (omega (arith, l.whole r)) other
          ∙ (l.kept r i other ∙ ap (λ x. test_bit x i) here))
      | inr keep ↦ rw keep (send_asserted_bits u pin i room other ∙ ap (λ x. test_bit x i) here)
    ]

-- A register of the redirection table reads back as it was written, but for the read-only bits,
-- which stay, and the remote IRR bit, which an interrupt may set. Other calls may come while the
-- lock is released, as long as they leave the entry alone.
pub vioapic_read-vioapic_write :
    (others : Vioapic → Vioapic) (v : Vioapic) (addr d i : ℕ)
    → let regnum = bit_and addr 0xff in
      let position = shift_of regnum + i in
      Leaves others (pin_of regnum)
      → length v.rtbl ≡ redir_entries
      → is_redtbl regnum ≡ true
      → i < 32
      → position ≢ 14
      → test_bit (vioapic_read (vioapic_write others v addr d) addr) i ≡ (
          if test_bit rtbl_ro_bits position
          then test_bit (entry v (pin_of regnum)).reg position
          else test_bit d i)
unfolding vioapic_write
vioapic_read-vioapic_write others v addr d i l whole is_entry below other =
    let regnum = bit_and addr 0xff in
    let written : vioapic_write others v addr d ≡ write_entry others v regnum d = ground arith in
    let inside : pin_of regnum < length v.rtbl = ground arith in
    read_bits (vioapic_write others v addr d) addr i below is_entry
    ∙ (ap (λ w. test_bit (entry w (pin_of regnum)).reg (shift_of regnum + i)) written
        ∙ (write_entry_bits others v regnum d (shift_of regnum + i) l inside other
            ∙ merge_inside (not ((regnum - 0x10) % 2 == 0)) (entry v (pin_of regnum)).reg d i
                below))
