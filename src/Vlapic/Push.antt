-- ===== src/Vlapic/Push.antt =====
-- Accepting and ending a vector keep the stack of the vectors in service right
-- (src/vmm/io/vlapic.c).
use xhyve_manager.Base.{
  ℕ, suc, ◌≤◌, ◌<◌, ◌≡◌, refl, sym, ◌∙◌, true, false, ◌==◌, leb, if◌then◌else◌, arith, Bool-cases,
  inl, inr, ◌⊎◌,
}
use xhyve_manager.Vlapic.Vectors.{
  Vectors, has_vector, add_vector, remove_vector, has_vector-add_vector, has_vector-remove_vector,
}
use xhyve_manager.Vlapic.Device.{prio}
use xhyve_manager.Vlapic.Stack.{IsStack}

-- What accepting a vector writes.
abbrev pub push_at : (ℕ → ℕ) → ℕ → ℕ → ℕ → ℕ
push_at stk top vector = λ j. if j == suc top then vector else stk j

module _ {isr : Vectors} {stk : ℕ → ℕ} {top : ℕ} (h : IsStack isr stk top) (vector : ℕ)
    (fits : vector < 256) (higher : prio (stk top) < prio vector) where
  pushed : push_at stk top vector (suc top) ≡ vector
  pushed = ground arith

  kept : (i : ℕ) → i ≤ top → push_at stk top vector i ≡ stk i
  kept i inside = let other : (i == suc top) ≡ false = ground (arith, inside) in rw other refl

  pub under_top : (i : ℕ) → 1 ≤ i → i ≤ top → prio (stk i) ≤ prio (stk top)
  under_top i low high = elim (Bool-cases (i == top)) [
    | inl same ↦ (let at_top : i ≡ top = ground (arith, same) in rw at_top (omega arith))
    | inr other ↦ omega (arith, h.rising i top low (ground (arith, other, high)) (omega arith))
  ]

  -- An index of the longer stack is one of the shorter, or the new one.
  index_cases : (i : ℕ) → i ≤ suc top → (i ≤ top) ⊎ (i ≡ suc top)
  index_cases i inside = elim (Bool-cases (leb i top)) [
    | inl low ↦ inl (ground (arith, low))
    | inr new ↦ inr (ground (arith, new, inside))
  ]

  push_holds :
      (i : ℕ)
      → 1 ≤ i
      → i ≤ suc top
      → has_vector (add_vector isr vector) (push_at stk top vector i) ≡ true
  push_holds i low high = elim (index_cases i high) [
    | inl old ↦
        rw (kept i old)
          (has_vector-add_vector isr vector (stk i) ∙ ground (arith, h.holds i low old))
    | inr new ↦ rw (new, pushed) (has_vector-add_vector isr vector vector ∙ ground arith)
  ]

  push_held :
      (v : ℕ)
      → v < 256
      → has_vector (add_vector isr vector) v ≡ true
      → (i : ℕ) × (1 ≤ i) × (i ≤ suc top) × (push_at stk top vector i ≡ v)
  push_held v small there = elim (Bool-cases (vector == v)) [
    | inl new ↦
        (let at_v : vector ≡ v = ground (arith, new) in
          (suc top, omega arith, omega arith, pushed ∙ at_v))
    | inr old ↦
        (let before : has_vector isr v ≡ true =
            ground (arith, old, sym (has_vector-add_vector isr vector v) ∙ there) in
          let (i, low, high, at_i) = h.held v small before in
          (i, low, omega (arith, high), kept i high ∙ at_i))
  ]

  push_rising :
      (i j : ℕ)
      → 1 ≤ i
      → i < j
      → j ≤ suc top
      → prio (push_at stk top vector i) < prio (push_at stk top vector j)
  push_rising i j low less high =
      let under : i ≤ top = omega arith in
      elim (index_cases j high) [
        | inl old ↦ rw (kept i under, kept j old) (h.rising i j low less old)
        | inr new ↦ rw (kept i under, new, pushed) (omega (arith, under_top i low under, higher))
      ]

  push_ranked : (i : ℕ) → i ≤ suc top → i ≤ prio (push_at stk top vector i)
  push_ranked i high = elim (index_cases i high) [
    | inl old ↦ rw (kept i old) (h.ranked i old)
    | inr new ↦ rw (new, pushed) (omega (arith, h.ranked top (omega arith), higher))
  ]

  push_bytes : (i : ℕ) → i ≤ suc top → push_at stk top vector i < 256
  push_bytes i high = elim (index_cases i high) [
    | inl old ↦ rw (kept i old) (h.bytes i old)
    | inr new ↦ rw (new, pushed) fits
  ]

  -- A vector of a higher priority may be put in service.
  pub push-IsStack : IsStack (add_vector isr vector) (push_at stk top vector) (suc top)
  push-IsStack = record {
    bottom = kept 0 (omega arith) ∙ h.bottom;
    ranked = push_ranked;
    bytes = push_bytes;
    rising = push_rising;
    held = push_held;
    holds = push_holds;
  }

module _ {isr : Vectors} {stk : ℕ → ℕ} {top : ℕ} (h : IsStack isr stk (suc top)) where
  -- The entry at the top is the one that comes off.
  pop_held :
      (v : ℕ)
      → v < 256
      → has_vector (remove_vector isr (stk (suc top))) v ≡ true
      → (i : ℕ) × (1 ≤ i) × (i ≤ top) × (stk i ≡ v)
  pop_held v small there =
      let both = sym (has_vector-remove_vector isr (stk (suc top)) v) ∙ there in
      let (i, low, high, at_i) = h.held v small (ground (arith, both)) in
      let other : (stk (suc top) == v) ≡ false = ground (arith, both) in
      elim (Bool-cases (i == suc top)) [
        | inl last ↦
            (let at_top : i ≡ suc top = ground (arith, last) in
              let same : stk (suc top) ≡ v = rw (sym at_top) at_i in
              absurd (ground (arith, same, other)))
        | inr old ↦ (i, low, ground (arith, old, high), at_i)
      ]

  pop_holds :
      (i : ℕ) → 1 ≤ i → i ≤ top → has_vector (remove_vector isr (stk (suc top))) (stk i) ≡ true
  pop_holds i low high =
      let under = h.rising i (suc top) low (omega arith) (omega arith) in
      let other : (stk (suc top) == stk i) ≡ false = ground (arith, under) in
      has_vector-remove_vector isr (stk (suc top)) (stk i)
      ∙ ground (arith, other, h.holds i low (omega arith))

  pub pop-IsStack : IsStack (remove_vector isr (stk (suc top))) stk top
  pop-IsStack = record {
    bottom = h.bottom;
    ranked = λ i inside. h.ranked i (omega arith);
    bytes = λ i inside. h.bytes i (omega arith);
    rising = λ i j low less high. h.rising i j low less (omega arith);
    held = pop_held;
    holds = pop_holds;
  }
