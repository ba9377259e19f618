-- ===== src/Vlapic/Vectors.antt =====
-- The sets of vectors of a local APIC, each in eight words of 32 bits, and the scan for the highest
-- vector (src/vmm/io/vlapic.c).
use xhyve_manager.Base.{
  ℕ, zero, suc, ◌+◌, ◌-◌, ◌*◌, ◌/◌, ◌%◌, ◌≤◌, ◌<◌, ◌≡◌, refl, sym, ap, ◌∙◌, Bool, true, false, not,
  ◌&&◌, ◌||◌, Option, none, some, ◌==◌, ltb, if◌then◌else◌, arith, Bool-cases, inl, inr,
}
use xhyve_manager.Base.Bits.{
  has_bit, set_bit, clear_bit, has_bit-test_bit, test_bit-set_bit, test_bit-clear_bit,
}

-- The words, by their number.
abbrev pub Vectors : Type 0
Vectors = ℕ → ℕ

unfoldable pub has_vector : Vectors → ℕ → Bool
has_vector w v = has_bit (w (v / 32)) (v % 32)

abbrev put_word : Vectors → ℕ → ℕ → Vectors
put_word w i x = λ j. if j == i then x else w j

unfoldable pub add_vector : Vectors → ℕ → Vectors
add_vector w v = put_word w (v / 32) (set_bit (w (v / 32)) (v % 32))

unfoldable pub remove_vector : Vectors → ℕ → Vectors
remove_vector w v = put_word w (v / 32) (clear_bit 32 (w (v / 32)) (v % 32))

-- `fls`, the number of the highest bit from 1 on, among the lowest so many bits.
abbrev pub fls_within : ℕ → ℕ → ℕ
fls_within zero x = 0
fls_within (suc n) x = let rest = fls_within n x in if has_bit x n then suc n else rest

unfoldable pub fls : ℕ → ℕ
fls x = fls_within 32 x

-- The loop from the word `n - 1` down.
unfoldable pub highest_within : Vectors → ℕ → Option ℕ
unfolding fls
highest_within w zero = none
highest_within w (suc i) =
    let rest = highest_within w i in
    if fls (w i) == 0 then rest else some (i * 32 + (fls (w i) - 1))

unfoldable pub highest : Vectors → Option ℕ
unfolding highest_within
highest w = highest_within w 8

has_bit-set_bit : (x p i : ℕ) → has_bit (set_bit x p) i ≡ ((p == i) || has_bit x i)
has_bit-set_bit x p i =
    has_bit-test_bit (set_bit x p) i
    ∙ (test_bit-set_bit x p i ∙ ap (λ b. (p == i) || b) (sym (has_bit-test_bit x i)))

has_bit-clear_bit :
    (x p i : ℕ) → p < 32 → i < 32 → has_bit (clear_bit 32 x p) i ≡ (not (p == i) && has_bit x i)
has_bit-clear_bit x p i hp hi =
    has_bit-test_bit (clear_bit 32 x p) i
    ∙ (test_bit-clear_bit 32 x p i hp hi ∙ ap (λ b. not (p == i) && b) (sym (has_bit-test_bit x i)))

module _ (u v : ℕ) where
  same_word : (u / 32 == v / 32) ≡ true → (v % 32 == u % 32) ≡ (v == u)
  same_word same = ground (arith, same)

  other_word : (u / 32 == v / 32) ≡ false → (v == u) ≡ false
  other_word other = ground (arith, other)

pub has_vector-add_vector :
    (w : Vectors) (v u : ℕ) → has_vector (add_vector w v) u ≡ ((v == u) || has_vector w u)
unfolding has_vector add_vector
has_vector-add_vector w v u = elim (Bool-cases (u / 32 == v / 32)) [
  | inl same ↦
      (let word : u / 32 ≡ v / 32 = ground (arith, same) in
        rw (same, has_bit-set_bit (w (v / 32)) (v % 32) (u % 32), same_word u v same, word) refl)
  | inr other ↦ rw (other, other_word u v other) refl
]

pub has_vector-remove_vector :
    (w : Vectors) (v u : ℕ) → has_vector (remove_vector w v) u ≡ (not (v == u) && has_vector w u)
unfolding has_vector remove_vector
has_vector-remove_vector w v u = elim (Bool-cases (u / 32 == v / 32)) [
  | inl same ↦
      (let word : u / 32 ≡ v / 32 = ground (arith, same) in
        rw
          (
            same,
            has_bit-clear_bit (w (v / 32)) (v % 32) (u % 32) (omega arith) (omega arith),
            same_word u v same,
            word,
          )
          refl)
  | inr other ↦ rw (other, other_word u v other) refl
]

-- What `fls` finds: the highest bit.
fls_within_lem : (n x p : ℕ) → fls_within n x ≡ suc p → (has_bit x p ≡ true) × (p < n)
fls_within_lem zero x p found = absurd (omega arith)
fls_within_lem (suc n) x p found = elim (Bool-cases (has_bit x n)) [
  | inl here ↦
      (let last : n ≡ p = ground (arith, here, found) in (rw (sym last) here, omega (arith, last)))
  | inr none_ ↦
      (let (bit, below) = fls_within_lem n x p (ground (arith, none_, found)) in
        (bit, omega (arith, below)))
]

fls_within-above : (n x i : ℕ) → fls_within n x ≤ i → i < n → has_bit x i ≡ false
fls_within-above zero x i above below = absurd (omega arith)
fls_within-above (suc n) x i above below = elim (Bool-cases (has_bit x n)) [
  | inl here ↦ absurd (ground (arith, here, above, below))
  | inr none_ ↦ elim (Bool-cases (i == n)) [
    | inl last ↦ (let at_n : i ≡ n = ground (arith, last) in rw at_n none_)
    | inr earlier ↦
        fls_within-above n x i (ground (arith, none_, above)) (ground (arith, earlier, below))
  ]
]

fls_lem : (x p : ℕ) → fls x ≡ suc p → (has_bit x p ≡ true) × (p < 32)
unfolding fls
fls_lem x p found = fls_within_lem 32 x p found

fls-above : (x i : ℕ) → fls x ≤ i → i < 32 → has_bit x i ≡ false
unfolding fls
fls-above x i above below = fls_within-above 32 x i above below

module _ (w : Vectors) where
  lower_word : (i : ℕ) → (fls (w i) == 0) ≡ true → highest_within w (suc i) ≡ highest_within w i
  unfolding highest_within
  lower_word i empty = rw empty refl

  this_word :
      (i : ℕ)
      → (fls (w i) == 0) ≡ false
      → highest_within w (suc i) ≡ some (i * 32 + (fls (w i) - 1))
  unfolding highest_within
  this_word i there = rw there refl

  in_word : (i p : ℕ) → p < 32 → has_vector w (i * 32 + p) ≡ has_bit (w i) p
  unfolding has_vector
  in_word i p below =
      let word : (i * 32 + p) / 32 ≡ i = omega arith in
      let bit : (i * 32 + p) % 32 ≡ p = omega arith in rw (word, bit) refl

  -- What the scan finds is there.
  pub highest_within_lem :
      (n v : ℕ) → highest_within w n ≡ some v → (has_vector w v ≡ true) × (v < n * 32)
  unfolding highest_within
  highest_within_lem zero v found = absurd (ground (arith, found))
  highest_within_lem (suc i) v found = elim (Bool-cases (fls (w i) == 0)) [
    | inl empty ↦
        (let (there, below) = highest_within_lem i v (sym (lower_word i empty) ∙ found) in
          (there, omega (arith, below)))
    | inr some_ ↦
        (let p : ℕ = fls (w i) - 1 in
          let (bit, below) = fls_lem (w i) p (ground (arith, some_)) in
          let this : some (i * 32 + p) ≡ some v = sym (this_word i some_) ∙ found in
          let same : i * 32 + p ≡ v = ground (arith, this) in
          (rw (sym same) (in_word i p below ∙ bit), omega (arith, below, same)))
  ]

  above_in_word : (i u : ℕ) → i * 32 + fls (w i) ≤ u → u < suc i * 32 → has_vector w u ≡ false
  above_in_word i u above below =
      let split : i * 32 + (u - i * 32) ≡ u = omega (arith, above) in
      rw (sym split) (
        in_word i (u - i * 32) (omega (arith, below))
        ∙ fls-above (w i) (u - i * 32) (omega (arith, above)) (omega (arith, below)))

  highest_within-none : (n u : ℕ) → highest_within w n ≡ none → u < n * 32 → has_vector w u ≡ false
  highest_within-none zero u found below = absurd (omega (arith, below))
  highest_within-none (suc i) u found below = elim (Bool-cases (fls (w i) == 0)) [
    | inl empty ↦ elim (Bool-cases (ltb u (i * 32))) [
      | inl lower ↦
          highest_within-none i u (sym (lower_word i empty) ∙ found) (ground (arith, lower))
      | inr here ↦ above_in_word i u (ground (arith, empty, here)) below
    ]
    | inr some_ ↦ absurd (ground (arith, sym (this_word i some_) ∙ found))
  ]

  highest_within-above :
      (n v u : ℕ) → highest_within w n ≡ some v → v < u → u < n * 32 → has_vector w u ≡ false
  highest_within-above zero v u found above below = absurd (omega (arith, below))
  highest_within-above (suc i) v u found above below = elim (Bool-cases (fls (w i) == 0)) [
    | inl empty ↦ elim (Bool-cases (ltb u (i * 32))) [
      | inl lower ↦
          highest_within-above i v u (sym (lower_word i empty) ∙ found) above
            (ground (arith, lower))
      | inr here ↦ above_in_word i u (ground (arith, empty, here)) below
    ]
    | inr some_ ↦
        (let this : some (i * 32 + (fls (w i) - 1)) ≡ some v = sym (this_word i some_) ∙ found in
          let same : i * 32 + (fls (w i) - 1) ≡ v = ground (arith, this) in
          above_in_word i u (ground (arith, same, some_, above)) below)
  ]

  -- The highest vector is in the set, none above it is, and there is one unless the set is empty.
  pub highest_lem : (v : ℕ) → highest w ≡ some v → (has_vector w v ≡ true) × (v < 256)
  unfolding highest
  highest_lem v found = highest_within_lem 8 v found

  pub highest-above : (v u : ℕ) → highest w ≡ some v → v < u → u < 256 → has_vector w u ≡ false
  unfolding highest
  highest-above v u found above below = highest_within-above 8 v u found above below

  pub highest-none : (u : ℕ) → highest w ≡ none → u < 256 → has_vector w u ≡ false
  unfolding highest
  highest-none u found below = highest_within-none 8 u found below
