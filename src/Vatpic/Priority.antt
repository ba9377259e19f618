-- ===== src/Vatpic/Priority.antt =====
-- The priority order of the pins of an 8259A, and what the two scans over it find
-- (src/vmm/io/vatpic.c).
use xhyve_manager.Base.{
  ℕ, zero, suc, ◌+◌, ◌-◌, ◌%◌, ◌≤◌, ◌<◌, ◌≡◌, refl, sym, ◌∙◌, ◌↔◌, inl, inr, Bool, true, false, not,
  ◌&&◌, some, none, Bool-cases, ◌⊎◌, arith,
}
use native.Mathlib.Decide.{ℕ_discrete}
use xhyve_manager.Base.Bits.{has_bit}
use xhyve_manager.Vatpic.Chip.{Chip, next_pin, serviced, irr_scan, get_highest_irrpin}

-- How far a pin stands from the highest priority; the pin `lowprio` has rank 7.
abbrev pub rank : Chip → ℕ → ℕ
rank a pin = (pin + 7 - a.lowprio) % 8

-- The pin of a rank.
abbrev pub pin_at : Chip → ℕ → ℕ
pin_at a k = (a.lowprio + 1 + k) % 8

abbrev pub is_requested : Chip → ℕ → Bool
is_requested a pin = has_bit a.request pin && not (has_bit a.mask pin)

-- The pin that the controller is to deliver: requested and not masked, no pin of its rank or above
-- in service, and none above it requested and not masked.
pub record IsDeliverable (a : Chip) (pin : ℕ) : Type 0 where
  pub pin_lt : pin < 8
  pub requested : is_requested a pin ≡ true
  pub unblocked : (q : ℕ) → q < 8 → rank a q ≤ rank a pin → has_bit (serviced a) q ≡ false
  pub first : (q : ℕ) → q < 8 → rank a q < rank a pin → is_requested a q ≡ false

module _ (a : Chip) (left pin : ℕ) where
  irr_scan_blocked : has_bit (serviced a) pin ≡ true → irr_scan a (suc left) pin ≡ none
  unfolding irr_scan
  irr_scan_blocked busy = rw busy

  irr_scan_found :
      has_bit (serviced a) pin ≡ false
      → is_requested a pin ≡ true
      → irr_scan a (suc left) pin ≡ some pin
  unfolding irr_scan
  irr_scan_found free wanted = rw (free, wanted)

  irr_scan_next :
      has_bit (serviced a) pin ≡ false
      → is_requested a pin ≡ false
      → irr_scan a (suc left) pin ≡ irr_scan a left (next_pin pin)
  unfolding irr_scan
  irr_scan_next free silent = rw (free, silent)

module _ (a : Chip) (low : a.lowprio < 8) where
  pub rank-pin_at : (k : ℕ) → k < 8 → rank a (pin_at a k) ≡ k
  rank-pin_at k below = omega arith

  pin_at-rank : (pin : ℕ) → pin < 8 → pin_at a (rank a pin) ≡ pin
  pin_at-rank pin below = omega arith

  pub next_pin-pin_at : (k : ℕ) → next_pin (pin_at a k) ≡ pin_at a (k + 1)
  next_pin-pin_at k = omega arith

  pub rank-lt-suc : (q k : ℕ) → q < 8 → rank a q < k + 1 → (rank a q < k) ⊎ (q ≡ pin_at a k)
  rank-lt-suc q k below r = elim (ℕ_discrete (rank a q) k) [
    | yes e ↦ inr (omega arith)
    | no ne ↦ inl (omega arith)
  ]

  -- The pins of a rank below `k` neither stop the scan nor are its result.
  record Passed (k : ℕ) : Type 0 where
    idle : (q : ℕ) → q < 8 → rank a q < k → has_bit (serviced a) q ≡ false
    quiet : (q : ℕ) → q < 8 → rank a q < k → is_requested a q ≡ false

  Passed-zero : Passed 0
  Passed-zero = record {
    idle = λ q below r. absurd (omega arith);
    quiet = λ q below r. absurd (omega arith);
  }

  Passed-suc :
      (k : ℕ)
      → Passed k
      → has_bit (serviced a) (pin_at a k) ≡ false
      → is_requested a (pin_at a k) ≡ false
      → Passed (k + 1)
  Passed-suc k passed free silent = record {
    idle = λ q below r. elim (rank-lt-suc q k below r) [
      | inl earlier ↦ passed.idle q below earlier
      | inr here ↦ rw here free
    ];
    quiet = λ q below r. elim (rank-lt-suc q k below r) [
      | inl earlier ↦ passed.quiet q below earlier
      | inr here ↦ rw here silent
    ];
  }

  deliverable :
      (k : ℕ)
      → k < 8
      → Passed k
      → has_bit (serviced a) (pin_at a k) ≡ false
      → is_requested a (pin_at a k) ≡ true
      → IsDeliverable a (pin_at a k)
  deliverable k below passed free wanted = record {
    pin_lt = omega arith;
    requested = wanted;
    unblocked = λ q q_lt r. elim (rank-lt-suc q k q_lt (omega (arith, rank-pin_at k below))) [
      | inl earlier ↦ passed.idle q q_lt earlier
      | inr here ↦ rw here free
    ];
    first = λ q q_lt r. passed.quiet q q_lt (omega (arith, rank-pin_at k below));
  }

  irr_scan-IsDeliverable :
      (left k pin : ℕ)
      → k + left ≡ 8
      → Passed k
      → irr_scan a left (pin_at a k) ≡ some pin
      → IsDeliverable a pin
  unfolding irr_scan
  irr_scan-IsDeliverable zero k pin e passed found = cc
  irr_scan-IsDeliverable (suc left) k pin e passed found =
      elim (Bool-cases (has_bit (serviced a) (pin_at a k))) [
        | inl busy ↦ cc (irr_scan_blocked a left (pin_at a k) busy)
        | inr free ↦ elim (Bool-cases (is_requested a (pin_at a k))) [
          | inl wanted ↦
              let here : pin_at a k ≡ pin = cc (irr_scan_found a left (pin_at a k) free wanted) in
              rw (← here) (deliverable k (omega arith) passed free wanted)
          | inr silent ↦
              irr_scan-IsDeliverable left (k + 1) pin (omega arith)
                (Passed-suc k passed free silent)
                (rw (← next_pin-pin_at k)
                  (sym (irr_scan_next a left (pin_at a k) free silent) ∙ found))
        ]
      ]

  -- A deliverable pin is found from any rank that is not past it.
  IsDeliverable-irr_scan :
      (left k pin : ℕ)
      → k + left ≡ 8
      → k ≤ rank a pin
      → IsDeliverable a pin
      → irr_scan a left (pin_at a k) ≡ some pin
  IsDeliverable-irr_scan zero k pin e below d = absurd (omega (arith, d.pin_lt))
  IsDeliverable-irr_scan (suc left) k pin e below d = elim (ℕ_discrete k (rank a pin)) [
    | yes here ↦
        let at : pin_at a k ≡ pin = omega (arith, d.pin_lt) in
        rw at (irr_scan_found a left pin (d.unblocked pin d.pin_lt (omega arith)) d.requested)
    | no earlier ↦
        let r : rank a (pin_at a k) ≡ k = rank-pin_at k (omega arith) in
        irr_scan_next a left (pin_at a k) (d.unblocked (pin_at a k) (omega arith) (omega arith))
          (d.first (pin_at a k) (omega arith) (omega arith))
        ∙ rw (next_pin-pin_at k)
            (IsDeliverable-irr_scan left (k + 1) pin (omega arith) (omega arith) d)
  ]

  -- `vatpic_get_highest_irrpin` returns a pin exactly when it is the one to deliver.
  pub get_highest_irrpin_iff : (pin : ℕ) → (get_highest_irrpin a ≡ some pin) ↔ IsDeliverable a pin
  unfolding get_highest_irrpin
  get_highest_irrpin_iff pin =
      let start : pin_at a 0 ≡ next_pin a.lowprio = omega arith in
      (
        λ found. irr_scan-IsDeliverable 8 0 pin refl Passed-zero (rw start found),
        λ d. rw (← start) (IsDeliverable-irr_scan 8 0 pin refl (omega arith) d),
      )
