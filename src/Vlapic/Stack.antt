-- ===== src/Vlapic/Stack.antt =====
-- The stack of the vectors in service and the checks of `vlapic_update_ppr` on it
-- (src/vmm/io/vlapic.c).
use xhyve_manager.Base.{
  ℕ, zero, suc, ◌+◌, ◌≤◌, ◌<◌, ◌≡◌, refl, sym, true, false, not, ◌||◌, ◌==◌, ltb, leb, arith,
  Bool-cases, inl, inr,
}
use xhyve_manager.Vlapic.Vectors.{Vectors, has_vector}
use xhyve_manager.Vlapic.Device.{prio, increasing, in_sync}

-- The stack above its bottom, which is 0, holds exactly the vectors in service, in strictly
-- increasing order of their priorities, so that the i-th has a priority of i at least.
pub record IsStack (isr : Vectors) (stk : ℕ → ℕ) (top : ℕ) : Type 0 where
  pub bottom : stk 0 ≡ 0
  pub ranked : (i : ℕ) → i ≤ top → i ≤ prio (stk i)
  pub bytes : (i : ℕ) → i ≤ top → stk i < 256
  pub rising : (i j : ℕ) → 1 ≤ i → i < j → j ≤ top → prio (stk i) < prio (stk j)
  pub held :
      (v : ℕ) → v < 256 → has_vector isr v ≡ true → (i : ℕ) × (1 ≤ i) × (i ≤ top) × (stk i ≡ v)
  pub holds : (i : ℕ) → 1 ≤ i → i ≤ top → has_vector isr (stk i) ≡ true

module _ {isr : Vectors} {stk : ℕ → ℕ} {top : ℕ} (h : IsStack isr stk top) where
  -- There is room for one more.
  pub top_lt : top < 16
  top_lt = omega (arith, h.ranked top (omega arith), h.bytes top (omega arith))

  increasing_lem :
      (rounds i last : ℕ)
      → i + rounds ≡ suc top
      → 1 ≤ i
      → (i ≤ top → last ≤ prio (stk i))
      → increasing stk rounds i last ≡ true
  unfolding increasing
  increasing_lem zero i last left from above = refl
  increasing_lem (suc rounds) i last left from above =
      let here : leb (suc (prio (stk i))) last ≡ false = ground (arith, above (omega arith)) in
      rw
        (
          here,
          increasing_lem rounds (suc i) (suc (prio (stk i))) (omega arith) (omega arith)
              (λ inside. h.rising i (suc i) from (omega arith) inside),
        )
        refl

  pub stack_increasing : increasing stk top 1 0 ≡ true
  stack_increasing = increasing_lem top 1 0 (omega arith) (omega arith) (λ inside. omega arith)

  -- The entry of a vector in service is the first that is not below it.
  entry_at :
      (vector i : ℕ)
      → vector < 256
      → 1 ≤ i
      → ((j : ℕ) → 1 ≤ j → j < i → stk j < vector)
      → ((j : ℕ) → i ≤ j → j ≤ top → vector ≤ stk j)
      → has_vector isr vector ≡ true
      → (i ≤ top) × (stk i ≡ vector)
  entry_at vector i fits from before after there =
      let (j, low, high, at_j) = h.held vector fits there in
      elim (Bool-cases (ltb j i)) [
        | inl below ↦ absurd (omega (arith, before j low (ground (arith, below)), at_j))
        | inr not_below ↦ elim (Bool-cases (j == i)) [
          | inl same ↦
              (let at_i : j ≡ i = ground (arith, same) in
                (omega (arith, at_i, high), rw (sym at_i) at_j))
          | inr other ↦ absurd (
              omega (
                arith,
                h.rising i j from (ground (arith, not_below, other)) high,
                after i (omega arith) (ground (arith, not_below, high)),
                at_j,
              ))
        ]
      ]

  to_here :
      (vector i j : ℕ)
      → ((k : ℕ) → 1 ≤ k → k < i → stk k < vector)
      → stk i ≡ vector
      → 1 ≤ j
      → j < suc i
      → stk j < suc vector
  to_here vector i j before at_i low below = elim (Bool-cases (j == i)) [
    | inl same ↦ (let at_j : j ≡ i = ground (arith, same) in rw at_j (omega (arith, at_i)))
    | inr other ↦ omega (arith, before j low (ground (arith, other, below)))
  ]

  not_here :
      (vector j : ℕ)
      → 1 ≤ j
      → j ≤ top
      → vector ≤ stk j
      → has_vector isr vector ≡ false
      → suc vector ≤ stk j
  not_here vector j low high from absent = elim (Bool-cases (stk j == vector)) [
    | inl same ↦
        (let at_j : stk j ≡ vector = ground (arith, same) in
          let there : has_vector isr vector ≡ true = rw (sym at_j) (h.holds j low high) in
          absurd (ground (arith, there, absent)))
    | inr other ↦ ground (arith, other, from)
  ]

  in_sync_lem :
      (rounds vector i : ℕ)
      → vector + rounds ≡ 256
      → 1 ≤ i
      → ((j : ℕ) → 1 ≤ j → j < i → stk j < vector)
      → ((j : ℕ) → i ≤ j → j ≤ top → vector ≤ stk j)
      → in_sync isr stk top rounds vector i ≡ true
  unfolding in_sync
  in_sync_lem zero vector i left from before after = refl
  in_sync_lem (suc rounds) vector i left from before after =
      elim (Bool-cases (has_vector isr vector)) [
        | inl there ↦
            (let (inside, at_i) = entry_at vector i (omega arith) from before after there in
              let ok : (ltb top i || not (stk i == vector)) ≡ false =
                ground (arith, inside, at_i) in
              rw (there, ok)
                (in_sync_lem rounds (suc vector) (suc i) (omega arith) (omega arith)
                  (λ j low below. to_here vector i j before at_i low below)
                  (λ j above high. omega (arith, h.rising i j from (omega arith) high, at_i))))
        | inr absent ↦ rw absent (
            in_sync_lem rounds (suc vector) i (omega arith) from
              (λ j low below. omega (arith, before j low below))
              (λ j above high.
                not_here vector j (omega (arith, from, above)) high (after j above high) absent))
      ]

  pub stack_in_sync : in_sync isr stk top 256 0 1 ≡ true
  stack_in_sync =
      in_sync_lem 256 0 1 (omega arith) (omega arith) (λ j low below. absurd (omega arith))
        (λ j above high. omega arith)
