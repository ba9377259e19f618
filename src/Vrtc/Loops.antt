-- ===== src/Vrtc/Loops.antt =====
-- The two loops that the clock's calendar is made of (src/vmm/io/vrtc.c): adding up the days of
-- whole years or months, and subtracting them out. `size i` is the number of days of the year or
-- month i.
use xhyve_manager.Base.{
  ℕ, zero, suc, ◌+◌, ◌-◌, ◌≤◌, ◌<◌, ◌≡◌, refl, true, false, arith, leb, Bool-cases, inl, inr, sym,
}

module _ (size : ℕ → ℕ) where
  -- `for (; rounds != 0; i++) days += size(i)`.
  abbrev pub add_whole : ℕ → ℕ → ℕ → ℕ
  add_whole zero i days = days
  add_whole (suc rounds) i days = add_whole rounds (suc i) (days + size i)

  -- `for (; days >= size(i); i++) days -= size(i)`, and the i and the days it ends with. The fuel
  -- bounds the rounds.
  abbrev pub subtract_whole : ℕ → ℕ → ℕ → ℕ × ℕ
  subtract_whole zero i days = (i, days)
  subtract_whole (suc fuel) i days = elim (leb (size i) days) [
    | true ↦ subtract_whole fuel (suc i) (days - size i)
    | false ↦ (i, days)
  ]

  pub add_whole_start : (rounds i days : ℕ) → add_whole rounds i days ≡ days + add_whole rounds i 0
  add_whole_start zero i days = omega arith
  add_whole_start (suc rounds) i days =
      let from : add_whole (suc rounds) i days ≡ add_whole rounds (suc i) (days + size i) = refl in
      let fresh : add_whole (suc rounds) i 0 ≡ add_whole rounds (suc i) (0 + size i) = refl in
      omega (
        arith,
        from,
        fresh,
        add_whole_start rounds (suc i) (days + size i),
        add_whole_start rounds (suc i) (0 + size i),
      )

  pub add_whole_first :
      (rounds i : ℕ) → add_whole (suc rounds) i 0 ≡ size i + add_whole rounds (suc i) 0
  add_whole_first rounds i =
      let first : add_whole (suc rounds) i 0 ≡ add_whole rounds (suc i) (0 + size i) = refl in
      omega (arith, add_whole_start rounds (suc i) (0 + size i), first)

  subtract_more :
      (fuel i days : ℕ)
      → leb (size i) days ≡ true
      → subtract_whole (suc fuel) i days ≡ subtract_whole fuel (suc i) (days - size i)
  subtract_more fuel i days more = ground (arith, more)

  subtract_less :
      (fuel i days : ℕ) → leb (size i) days ≡ false → subtract_whole (suc fuel) i days ≡ (i, days)
  subtract_less fuel i days less = ground (arith, less)

  -- What was subtracted and what is left make the days.
  pub subtract_whole_total :
      (fuel i days : ℕ)
      → let (j, rest) = subtract_whole fuel i days in
        (i ≤ j) × (add_whole (j - i) i 0 + rest ≡ days)
  subtract_whole_total zero i days =
      let none : i - i ≡ 0 = omega arith in rw none (omega arith, omega arith)
  subtract_whole_total (suc fuel) i days = elim (Bool-cases (leb (size i) days)) [
    | inl more ↦ rw (subtract_more fuel i days more) (
        let (j, rest) = subtract_whole fuel (suc i) (days - size i) in
        let (above, total) = subtract_whole_total fuel (suc i) (days - size i) in
        let one : j - i ≡ suc (j - suc i) = omega (arith, above) in
        (omega (arith, above), rw one (ground (arith, add_whole_first (j - suc i) i, total, more))))
    | inr less ↦
        rw (subtract_less fuel i days less)
          (let none : i - i ≡ 0 = omega arith in rw none (omega arith, omega arith))
  ]

  -- When the days fit in the rounds, the loop ends before the fuel does, and what is left is less
  -- than the year or month it ends in.
  pub subtract_whole_within :
      (fuel i days : ℕ)
      → days < add_whole fuel i 0
      → let (j, rest) = subtract_whole fuel i days in (j < i + fuel) × (rest < size j)
  subtract_whole_within zero i days fits = absurd (omega arith)
  subtract_whole_within (suc fuel) i days fits = elim (Bool-cases (leb (size i) days)) [
    | inl more ↦ rw (subtract_more fuel i days more) (
        let (within, less) =
          subtract_whole_within fuel (suc i) (days - size i)
            (ground (arith, more, fits, add_whole_first fuel i)) in
        (omega (arith, within), less))
    | inr less ↦ rw (subtract_less fuel i days less) (omega arith, ground (arith, less))
  ]

  -- Subtracting out what was added up comes back to where it ended.
  pub subtract_whole-add_whole :
      (rounds fuel i rest : ℕ)
      → rounds < fuel
      → rest < size (i + rounds)
      → subtract_whole fuel i (add_whole rounds i 0 + rest) ≡ (i + rounds, rest)
  subtract_whole-add_whole zero zero i rest more fits = absurd (omega arith)
  subtract_whole-add_whole zero (suc fuel) i rest more fits = ground (arith, fits)
  subtract_whole-add_whole (suc rounds) zero i rest more fits = absurd (omega arith)
  subtract_whole-add_whole (suc rounds) (suc fuel) i rest more fits =
      let step : i + suc rounds ≡ suc i + rounds = omega arith in
      let days : ℕ = add_whole (suc rounds) i 0 + rest in
      let left : days - size i ≡ add_whole rounds (suc i) 0 + rest =
        omega (arith, add_whole_first rounds i) in
      let more_left : leb (size i) days ≡ true = ground (arith, add_whole_first rounds i) in
      rw (subtract_more fuel i days more_left, left, step)
        (subtract_whole-add_whole rounds fuel (suc i) rest (omega arith) (rw (sym step) fits))

  -- Days in a later one of the rounds fit in all of them.
  pub add_whole_within :
      (rounds fuel i rest : ℕ)
      → rounds < fuel
      → rest < size (i + rounds)
      → add_whole rounds i 0 + rest < add_whole fuel i 0
  add_whole_within rounds zero i rest more fits = absurd (omega arith)
  add_whole_within zero (suc fuel) i rest more fits =
      let here : i + 0 ≡ i = omega arith in
      let less : rest < size i = rw (sym here) fits in
      let none : add_whole zero i 0 ≡ 0 = refl in omega (arith, less, none, add_whole_first fuel i)
  add_whole_within (suc rounds) (suc fuel) i rest more fits =
      let step : i + suc rounds ≡ suc i + rounds = omega arith in
      let less : rest < size (suc i + rounds) = rw (sym step) fits in
      omega (
        arith,
        add_whole_first fuel i,
        add_whole_first rounds i,
        add_whole_within rounds fuel (suc i) rest (omega arith) less,
      )
