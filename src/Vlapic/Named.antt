-- ===== src/Vlapic/Named.antt =====
-- The APICs that a logical destination names, by the bits of their registers (src/vmm/io/vlapic.c).
use native.Mathlib.Nat.{pow-suc, one-le-pow, mod-lt, zero-add}
use xhyve_manager.Base.{
  ℕ, zero, suc, ◌+◌, ◌*◌, ◌/◌, ◌%◌, ◌^◌, ◌≤◌, ◌<◌, ◌≡◌, ◌≢◌, ◌↔◌, refl, sym, ap, ◌∙◌, Bool, true,
  false, not, ◌&&◌, ◌==◌, ltb, if◌then◌else◌, bit_and, and-parts, Bool-cases, inl, inr, arith,
}
use xhyve_manager.Base.Bits.{test_bit, test_bit-bit_and, test_bit-zero, test_bit_above, bit_and-lt}
use xhyve_manager.Base.Bits.Shift.{test_bit-mod, test_bit-div}
use xhyve_manager.Base.Bits.Masks.{bit_and-mul_pow, bit_and-ones}
use xhyve_manager.Vlapic.Device.{Vlapic, x2apic}
use xhyve_manager.Vlapic.Ipi.{is_addressed}

-- The cluster of a destination and that of an APIC, how many bits a destination has for the APICs of
-- a cluster, and where LDR has the first of them.
abbrev pub dest_cluster : ℕ → Bool → ℕ
dest_cluster dest x2apic_dest = if x2apic_dest then dest / 2 ^ 16 else dest / 2 ^ 4 % 2 ^ 4

abbrev pub own_cluster : Vlapic → ℕ
own_cluster s = if x2apic s then s.ldr / 2 ^ 16 else s.ldr / 2 ^ 28

abbrev pub cluster_bits : Vlapic → Bool → ℕ
cluster_bits s x2apic_dest = if x2apic s && x2apic_dest then 16 else 4

abbrev pub first_bit : Vlapic → ℕ
first_bit s = if x2apic s then 0 else 24

-- In the flat model, the four high bits of DFR set, one of the eight bits of the destination is set
-- in the high byte of LDR. In the cluster model, those bits clear, the destination has the cluster of
-- the APIC and one of the bits of the APIC there.
pub data IsNamed (s : Vlapic) (dest : ℕ) (x2apic_dest : Bool) : Type 0 where
  flat :
      (i : ℕ)
      → s.dfr / 2 ^ 28 % 2 ^ 4 ≡ 15
      → i < 8
      → test_bit dest i ≡ true
      → test_bit s.ldr (24 + i) ≡ true
      → IsNamed s dest x2apic_dest
  clustered :
      (i : ℕ)
      → s.dfr / 2 ^ 28 % 2 ^ 4 ≡ 0
      → own_cluster s ≡ dest_cluster dest x2apic_dest
      → i < cluster_bits s x2apic_dest
      → test_bit dest i ≡ true
      → test_bit s.ldr (first_bit s + i) ≡ true
      → IsNamed s dest x2apic_dest

-- A number that is not 0 has a bit.
some_bit : (n x : ℕ) → x < 2 ^ n → x ≢ 0 → (i : ℕ) × (i < n) × (test_bit x i ≡ true)
some_bit zero x fits nonzero = absurd (nonzero (omega (arith, fits)))
some_bit (suc n) x fits nonzero = elim (Bool-cases (x % 2 == 1)) [
  | inl odd ↦ (0, omega arith, odd)
  | inr even ↦
      let (i, below, on) =
        some_bit n (x / 2) (omega (arith, fits, pow-suc 2 n))
          (λ e. nonzero (ground (arith, even, e))) in
      (suc i, omega (arith, below), on)
]

-- The masks that the code takes of two words have a common bit.
common_bit :
    (n a b : ℕ)
    → a < 2 ^ n
    → not (bit_and a b == 0) ≡ true
    → (i : ℕ) × (i < n) × (test_bit a i ≡ true) × (test_bit b i ≡ true)
common_bit n a b fits met =
    let (i, below, on) =
      some_bit n (bit_and a b) (bit_and-lt n a b fits) (λ e. ground (arith, met, e)) in
    let (on_a, on_b) =
      and-parts (test_bit a i) (test_bit b i) (sym (test_bit-bit_and a b i) ∙ on) in
    (i, below, on_a, on_b)

bit_common : (a b i : ℕ) → test_bit a i ≡ true → test_bit b i ≡ true → not (bit_and a b == 0) ≡ true
bit_common a b i on_a on_b = elim (Bool-cases (bit_and a b == 0)) [
  | inr met ↦ rw met refl
  | inl apart ↦
      let none_ : bit_and a b ≡ 0 = ground (arith, apart) in
      absurd (
        ground (
          arith,
          on_a,
          on_b,
          test_bit-bit_and a b i,
          ap (λ x. test_bit x i) none_,
          test_bit-zero i,
        ))
]

-- The two models by the mask that the code takes of DFR.
module _ (s : Vlapic) where
  model_lem : bit_and s.dfr 0xf0000000 ≡ s.dfr / 2 ^ 28 % 2 ^ 4 * 2 ^ 28
  model_lem = bit_and-mul_pow 28 s.dfr 15 ∙ ap (λ x. x * 2 ^ 28) (bit_and-ones 4 (s.dfr / 2 ^ 28))

  is_flat : (bit_and s.dfr 0xf0000000 == 0xf0000000) ≡ (s.dfr / 2 ^ 28 % 2 ^ 4 == 15)
  is_flat = ground (arith, model_lem)

  is_cluster : (bit_and s.dfr 0xf0000000 == 0) ≡ (s.dfr / 2 ^ 28 % 2 ^ 4 == 0)
  is_cluster = ground (arith, model_lem)

-- A common bit of a field of the destination and a field of LDR, by the registers' own bits: the
-- field of LDR has `n` bits, from `first` on.
abbrev Met : ℕ → ℕ → ℕ → ℕ → Type 0
Met n dest ldr first =
    (i : ℕ) × (i < n) × (test_bit dest i ≡ true) × (test_bit ldr (first + i) ≡ true)

fields_iff :
    (k n dest b ldr first : ℕ)
    → n ≤ k
    → ((i : ℕ) → i < n → test_bit b i ≡ test_bit ldr (first + i))
    → ((i : ℕ) → n ≤ i → i < k → test_bit b i ≡ false)
    → (not (bit_and (dest % 2 ^ k) b == 0) ≡ true) ↔ Met n dest ldr first
fields_iff k n dest b ldr first narrow field above = (down, up)
  where
    down : not (bit_and (dest % 2 ^ k) b == 0) ≡ true → Met n dest ldr first
    down met =
        let (i, below, on, on_b) =
          common_bit k (dest % 2 ^ k) b (mod-lt dest (one-le-pow k 2 (omega arith))) met in
        elim (Bool-cases (ltb i n)) [
          | inl inside ↦
              (let inside_lem : i < n = ground (arith, inside) in
                (
                  i,
                  inside_lem,
                  sym (test_bit-mod k dest i below) ∙ on,
                  sym (field i inside_lem) ∙ on_b,
                ))
          | inr outside ↦ absurd (ground (arith, on_b, above i (ground (arith, outside)) below))
        ]

    up : Met n dest ldr first → not (bit_and (dest % 2 ^ k) b == 0) ≡ true
    up (i, below, on, on_ldr) =
        bit_common (dest % 2 ^ k) b i (test_bit-mod k dest i (omega (arith, below, narrow)) ∙ on)
          (field i below ∙ on_ldr)

own_bit : (ldr i : ℕ) → i < 16 → test_bit (ldr % 2 ^ 16) i ≡ test_bit ldr (0 + i)
own_bit ldr i below = test_bit-mod 16 ldr i below ∙ ap (λ j. test_bit ldr j) (sym (zero-add i))

high_bit : (ldr i : ℕ) → i < 4 → test_bit (ldr / 2 ^ 24 % 2 ^ 4) i ≡ test_bit ldr (24 + i)
high_bit ldr i below = test_bit-mod 4 (ldr / 2 ^ 24) i below ∙ test_bit-div 24 ldr i

high_above : (ldr i : ℕ) → 4 ≤ i → test_bit (ldr / 2 ^ 24 % 2 ^ 4) i ≡ false
high_above ldr i above = test_bit_above 4 (ldr / 2 ^ 24 % 2 ^ 4) i (omega arith) above

-- The four combinations of the modes of a destination and of an APIC.
cluster_iff :
    (own x2apic_dest : Bool) (dest ldr : ℕ)
    → (not (
          bit_and
            (if x2apic_dest then dest % 2 ^ 16 else dest % 16)
            (if own then ldr % 2 ^ 16 else ldr / 2 ^ 24 % 16)
          == 0)
        ≡ true)
      ↔ Met (if own && x2apic_dest then 16 else 4) dest ldr (if own then 0 else 24)
cluster_iff true true dest ldr =
    fields_iff 16 16 dest (ldr % 2 ^ 16) ldr 0 (omega arith) (own_bit ldr)
      (λ i above below. absurd (omega (arith, above, below)))
cluster_iff true false dest ldr =
    fields_iff 4 4 dest (ldr % 2 ^ 16) ldr 0 (omega arith)
      (λ i below. own_bit ldr i (omega (arith, below)))
      (λ i above below. absurd (omega (arith, above, below)))
cluster_iff false true dest ldr =
    fields_iff 16 4 dest (ldr / 2 ^ 24 % 2 ^ 4) ldr 24 (omega arith) (high_bit ldr)
      (λ i above below. high_above ldr i above)
cluster_iff false false dest ldr =
    fields_iff 4 4 dest (ldr / 2 ^ 24 % 2 ^ 4) ldr 24 (omega arith) (high_bit ldr)
      (λ i above below. absurd (omega (arith, above, below)))

flat_iff :
    (dest ldr : ℕ) → (not (bit_and (dest % 256) (ldr / 2 ^ 24) == 0) ≡ true) ↔ Met 8 dest ldr 24
flat_iff dest ldr =
    fields_iff 8 8 dest (ldr / 2 ^ 24) ldr 24 (omega arith) (λ i below. test_bit-div 24 ldr i)
      (λ i above below. absurd (omega (arith, above, below)))

-- The code's test finds exactly the APICs that are named.
pub is_addressed-IsNamed :
    (s : Vlapic) (dest : ℕ) (x2apic_dest : Bool)
    → (is_addressed s dest x2apic_dest ≡ true) ↔ IsNamed s dest x2apic_dest
unfolding is_addressed
is_addressed-IsNamed s dest x2apic_dest =
    let model : ℕ = s.dfr / 2 ^ 28 % 2 ^ 4 in
    let (met_of, of_met) = cluster_iff (x2apic s) x2apic_dest dest s.ldr in
    let (flat_of, of_flat) = flat_iff dest s.ldr in
    rw (is_flat s, is_cluster s)
      (elim (Bool-cases (model == 15)) [
        | inl at_flat ↦ rw at_flat (
          λ met.
              (let (i, below, on, on_ldr) = flat_of met in
                flat i (ground (arith, at_flat)) below on on_ldr),
          λ named. elim named [
            | flat i m below on on_ldr ↦ of_flat (i, below, on, on_ldr)
            | clustered i m same below on on_ldr ↦ absurd (ground (arith, at_flat, m))
          ],
        )
        | inr not_flat ↦ elim (Bool-cases (model == 0)) [
          | inl at_zero ↦
              rw (not_flat, at_zero)
                (
                  λ met.
                      (let (there, common) =
                          and-parts (own_cluster s == dest_cluster dest x2apic_dest) _ met in
                        let (i, below, on, on_ldr) = met_of common in
                        clustered i (ground (arith, at_zero)) (ground (arith, there)) below on
                          on_ldr),
                  λ named. elim named [
                    | flat i m below on on_ldr ↦ absurd (ground (arith, not_flat, m))
                    | clustered i m same below on on_ldr ↦
                        rw (of_met (i, below, on, on_ldr)) (ground (arith, same))
                  ],
                )
          | inr neither ↦
              rw (not_flat, neither)
                (
                  λ met. absurd (ground (arith, met)),
                  λ named. elim named [
                    | flat i m below on on_ldr ↦ absurd (ground (arith, not_flat, m))
                    | clustered i m same below on on_ldr ↦ absurd (ground (arith, neither, m))
                  ],
                )
        ]
      ])
