-- ===== src/Uart/Legacy.antt =====
-- The two legacy resources (`uart_legacy_alloc` of src/uart_emul.c).
use xhyve_manager.Base.{
  ℕ, ◌≡◌, inl, inr, refl, ap, ◌∙◌, Bool, true, not, ◌&&◌, ◌≢◌, Bool-cases, none, some, List, [],
  ◌∷◌, arith, length, get_or, get_or-set_self, get_or-set_ne, ltb,
}
use xhyve_manager.Base.Int.{ℤ, pos, negsuc}
use xhyve_manager.Uart.Backend.{Resource, no_resource, uart_legacy_alloc}

-- The table after a sequence of calls.
unfoldable pub allocs : List Resource → List ℤ → List Resource
allocs lres [] = lres
allocs lres (which ∷ rest) = allocs (uart_legacy_alloc lres which).1 rest

abbrev pub in_use : List Resource → ℕ → Bool
in_use lres n = (get_or lres n no_resource).inuse

alloc-in_use :
    (lres : List Resource) (which : ℤ) (n : ℕ)
    → in_use lres n ≡ true
    → in_use (uart_legacy_alloc lres which).1 n ≡ true
unfolding uart_legacy_alloc
alloc-in_use lres (negsuc k) n used = used
alloc-in_use lres (pos k) n used = elim (Bool-cases (ltb k (length lres) && not (in_use lres k))) [
  | inl taken ↦
      let other : k ≢ n = ground arith in
      rw taken (
        ap (λ x. x.inuse)
          (get_or-set_ne lres k n (record (get_or lres k no_resource) { inuse = true }) no_resource
            other)
        ∙ used)
  | inr refused ↦ rw refused used
]

allocs-in_use :
    (lres : List Resource) (calls : List ℤ) (n : ℕ)
    → in_use lres n ≡ true
    → in_use (allocs lres calls) n ≡ true
unfolding allocs
allocs-in_use lres [] n used = used
allocs-in_use lres (which ∷ rest) n used =
    allocs-in_use (uart_legacy_alloc lres which).1 rest n (alloc-in_use lres which n used)

alloc-takes :
    (lres : List Resource) (n : ℕ) (r : ℕ × ℕ)
    → (uart_legacy_alloc lres (pos n)).0 ≡ some r
    → in_use (uart_legacy_alloc lres (pos n)).1 n ≡ true
unfolding uart_legacy_alloc
alloc-takes lres n r done = elim (Bool-cases (ltb n (length lres) && not (in_use lres n))) [
  | inl taken ↦ rw taken (
      ap (λ x. x.inuse)
        (get_or-set_self lres n (record (get_or lres n no_resource) { inuse = true }) no_resource
          (ground arith)))
  | inr refused ↦ absurd (ground arith)
]

alloc-refused :
    (lres : List Resource) (n : ℕ)
    → in_use lres n ≡ true
    → uart_legacy_alloc lres (pos n) ≡ (none, lres)
unfolding uart_legacy_alloc
alloc-refused lres n used = ground arith

-- A resource that a call has given away is not given again, whatever calls come between, and the
-- refused call changes nothing.
pub uart_legacy_alloc-once :
    (lres : List Resource) (which : ℤ) (r : ℕ × ℕ) (between : List ℤ)
    → (uart_legacy_alloc lres which).0 ≡ some r
    → let later = allocs (uart_legacy_alloc lres which).1 between in
      uart_legacy_alloc later which ≡ (none, later)
uart_legacy_alloc-once lres (pos n) r between done =
    alloc-refused _ n (allocs-in_use _ between n (alloc-takes lres n r done))
uart_legacy_alloc-once lres (negsuc n) r between done = unfold uart_legacy_alloc in refl
