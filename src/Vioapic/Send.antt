-- ===== src/Vioapic/Send.antt =====
-- What an interrupt of a pin does to the table (`vioapic_send_intr` of src/vmm/io/vioapic.c).
use xhyve_manager.Base.{
  ℕ, ◌<◌, ◌≡◌, ◌≢◌, refl, ap, ◌∙◌, Bool, arith, if◌then◌else◌, ◌∷◌, Bool-cases, inl, inr, length,
  set, get_or-set_self, length-set, set-get_or,
}
use xhyve_manager.Base.Bits.{test_bit, set_bit, test_bit-set_bit, has_bit}
use xhyve_manager.Vioapic.Device.{
  Vioapic, deliver, message, entry, no_pin, vioapic_send_intr, is_level, low,
}

-- The entry after an interrupt: the remote IRR bit of a level triggered pin is set.
abbrev pub latched : ℕ → ℕ
latched reg = if is_level reg then set_bit reg 14 else reg

abbrev pub is_masked : ℕ → Bool
is_masked reg = has_bit (low reg) 16

-- The state after an interrupt that is not masked.
abbrev pub delivered : Vioapic → ℕ → Vioapic
delivered v pin =
    let e = entry v pin in
    record v {
      rtbl = set v.rtbl pin (record e { reg = latched e.reg });
      calls = deliver (message e.reg) ∷ v.calls;
    }

pub send_lem :
    (v : Vioapic) (pin : ℕ)
    → vioapic_send_intr v pin ≡ (if is_masked (entry v pin).reg then v else delivered v pin)
unfolding vioapic_send_intr
send_lem v pin = elim (Bool-cases (is_level (entry v pin).reg)) [
  | inl level ↦ rw level refl
  | inr edge ↦ rw edge (rw (set-get_or v.rtbl pin no_pin) refl)
]

pub entry-delivered :
    (v : Vioapic) (pin : ℕ)
    → pin < length v.rtbl
    → entry (delivered v pin) pin ≡ record (entry v pin) { reg = latched (entry v pin).reg }
entry-delivered v pin inside = get_or-set_self v.rtbl pin _ no_pin inside

pub latched_bits : (reg i : ℕ) → i ≢ 14 → test_bit (latched reg) i ≡ test_bit reg i
latched_bits reg i other = ground (arith, test_bit-set_bit reg 14 i)

-- An interrupt changes no bit of its entry but the remote IRR.
pub send_bits :
    (v : Vioapic) (pin i : ℕ)
    → pin < length v.rtbl
    → i ≢ 14
    → test_bit (entry (vioapic_send_intr v pin) pin).reg i ≡ test_bit (entry v pin).reg i
send_bits v pin i inside other =
    rw (send_lem v pin) (elim (Bool-cases (is_masked (entry v pin).reg)) [
      | inl masked ↦ rw masked refl
      | inr open_ ↦ rw open_ (
          ap (λ e. test_bit e.reg i) (entry-delivered v pin inside)
          ∙ latched_bits (entry v pin).reg i other)
    ])

-- Neither the length of the table nor another entry changes.
pub send-length : (v : Vioapic) (pin : ℕ) → length (vioapic_send_intr v pin).rtbl ≡ length v.rtbl
send-length v pin = rw (send_lem v pin) (
    ground
      (arith, length-set v.rtbl pin (record (entry v pin) { reg = latched (entry v pin).reg })))
