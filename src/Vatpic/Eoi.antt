-- ===== src/Vatpic/Eoi.antt =====
-- End of interrupt (src/vmm/io/vatpic.c): the pin that `vatpic_get_highest_isrpin` finds, and what
-- an EOI command does with it.
use xhyve_manager.Base.{
  ℕ, zero, suc, ◌+◌, ◌≤◌, ◌<◌, ◌≡◌, refl, sym, ◌∙◌, ◌↔◌, inl, inr, Bool, true, false, not, ◌&&◌,
  some, Bool-cases, arith, ◌==◌, if◌then◌else◌,
}
use native.Mathlib.Decide.{ℕ_discrete}
use xhyve_manager.Base.Bits.{has_bit, test_bit, test_bit-clear_bit}
use xhyve_manager.Vatpic.Chip.{Chip, next_pin, isr_scan, get_highest_isrpin}
use xhyve_manager.Vatpic.Command.{ocw2}
use xhyve_manager.Vatpic.Priority.{rank, pin_at, rank-pin_at, next_pin-pin_at, rank-lt-suc}

-- In service, and not passed over by the special mask mode.
abbrev pub is_ending : Chip → ℕ → Bool
is_ending a pin = has_bit a.service pin && not (a.smm && has_bit a.mask pin)

-- The pin that a non-specific EOI ends: the first such in the priority order.
pub record IsEnding (a : Chip) (pin : ℕ) : Type 0 where
  pub pin_lt : pin < 8
  pub ending : is_ending a pin ≡ true
  pub first : (q : ℕ) → q < 8 → rank a q < rank a pin → is_ending a q ≡ false

module _ (a : Chip) (left pin : ℕ) where
  isr_scan_found : is_ending a pin ≡ true → isr_scan a (suc left) pin ≡ some pin
  unfolding isr_scan
  isr_scan_found here = ground arith

  isr_scan_next :
      is_ending a pin ≡ false → isr_scan a (suc left) pin ≡ isr_scan a left (next_pin pin)
  unfolding isr_scan
  isr_scan_next here = ground arith

module _ (a : Chip) (low : a.lowprio < 8) where
  isr_scan-IsEnding :
      (left k pin : ℕ)
      → k + left ≡ 8
      → ((q : ℕ) → q < 8 → rank a q < k → is_ending a q ≡ false)
      → isr_scan a left (pin_at a k) ≡ some pin
      → IsEnding a pin
  unfolding isr_scan
  isr_scan-IsEnding zero k pin e passed found = cc
  isr_scan-IsEnding (suc left) k pin e passed found = elim (Bool-cases (is_ending a (pin_at a k))) [
    | inl here ↦
        let at : pin_at a k ≡ pin = cc (isr_scan_found a left (pin_at a k) here) in
        let r : rank a (pin_at a k) ≡ k = rank-pin_at a low k (omega arith) in
        rw (← at) (record {
          pin_lt = omega arith;
          ending = here;
          first = λ q below above. passed q below (omega arith);
        })
    | inr other ↦
        isr_scan-IsEnding left (k + 1) pin (omega arith)
          (λ q below r. elim (rank-lt-suc a low q k below r) [
            | inl earlier ↦ passed q below earlier
            | inr this ↦ rw this other
          ])
          (rw (← next_pin-pin_at a low k) (sym (isr_scan_next a left (pin_at a k) other) ∙ found))
  ]

  IsEnding-isr_scan :
      (left k pin : ℕ)
      → k + left ≡ 8
      → k ≤ rank a pin
      → IsEnding a pin
      → isr_scan a left (pin_at a k) ≡ some pin
  IsEnding-isr_scan zero k pin e below d = absurd (omega (arith, d.pin_lt))
  IsEnding-isr_scan (suc left) k pin e below d = elim (ℕ_discrete k (rank a pin)) [
    | yes here ↦
        let at : pin_at a k ≡ pin = omega (arith, d.pin_lt) in
        rw at (isr_scan_found a left pin d.ending)
    | no earlier ↦
        let r : rank a (pin_at a k) ≡ k = rank-pin_at a low k (omega arith) in
        isr_scan_next a left (pin_at a k) (d.first (pin_at a k) (omega arith) (omega arith))
        ∙ rw (next_pin-pin_at a low k)
            (IsEnding-isr_scan left (k + 1) pin (omega arith) (omega arith) d)
  ]

  -- `vatpic_get_highest_isrpin` returns a pin exactly when a non-specific EOI is to end it.
  pub get_highest_isrpin_iff : (pin : ℕ) → (get_highest_isrpin a ≡ some pin) ↔ IsEnding a pin
  unfolding get_highest_isrpin
  get_highest_isrpin_iff pin =
      let start : pin_at a 0 ≡ next_pin a.lowprio = omega arith in
      (
        λ found.
            isr_scan-IsEnding 8 0 pin refl (λ q below r. absurd (omega arith)) (rw start found),
        λ d. rw (← start) (IsEnding-isr_scan 8 0 pin refl (omega arith) d),
      )

-- `get_highest_isrpin` does not depend on the `rotate` that `vatpic_ocw2` has just written.
IsEnding-rotate :
    (a : Chip) (r : Bool) (pin : ℕ) → IsEnding a pin → IsEnding (record a { rotate = r }) pin
IsEnding-rotate a r pin d = record { pin_lt = d.pin_lt; ending = d.ending; first = d.first }

-- A non-specific EOI (bit 5 set, bit 6 clear) clears the service bit of the pin of highest priority
-- in service and leaves the other service bits; with bit 7 set that pin becomes the one of lowest
-- priority, and otherwise the priorities stay. The request and mask registers stay.
pub ocw2_non_specific :
    (a : Chip) (val pin q : ℕ)
    → a.lowprio < 8
    → q < 8
    → has_bit val 5 ≡ true
    → has_bit val 6 ≡ false
    → IsEnding a pin
    → let b = (ocw2 a val).1 in
      (test_bit b.service q ≡ (not (pin == q) && test_bit a.service q))
      × (b.lowprio ≡ (if has_bit val 7 then pin else a.lowprio))
      × (b.request ≡ a.request)
      × (b.mask ≡ a.mask)
unfolding ocw2
ocw2_non_specific a val pin q low q_lt eoi plain d =
    let found : get_highest_isrpin (record a { rotate = has_bit val 7 }) ≡ some pin =
      (get_highest_isrpin_iff (record a { rotate = has_bit val 7 }) low pin).1
        (IsEnding-rotate a (has_bit val 7) pin d) in
    let cleared = test_bit-clear_bit 8 a.service pin q d.pin_lt q_lt in
    rw (eoi, plain, found)
      (elim (Bool-cases (has_bit val 7)) [
        | inl turns ↦ rw turns (cleared, refl, refl, refl)
        | inr stays ↦ rw stays (cleared, refl, refl, refl)
      ])
