-- ===== src/Uart/Queue.antt =====
-- The receive FIFO as a bounded queue (src/uart_emul.c).
use native.Mathlib.Nat.{mod-add-mod, mod-eq_of_lt, mod-eq-sub-mod, add-zero}
use native.Mathlib.Decide.{dec_lt}
use xhyve_manager.Base.{
  ℕ, zero, suc, ◌+◌, ◌-◌, ◌%◌, ◌≤◌, ◌<◌, ◌≡◌, ◌≢◌, ◌⊎◌, inl, inr, refl, sym, ap, ◌∙◌, Bool, true,
  false, Option, none, some, List, [], ◌∷◌, ◌++◌, arith, length, get_or, set, get_or-set_self,
  get_or-set_ne, length-set, if◌then◌else◌, ltb,
}
use xhyve_manager.Uart.Fifo.{Fifo, Port, rxfifo_putchar, rxfifo_getchar}

-- The indices stay inside the first `size` elements of the buffer, and the write index is `num`
-- elements past the read index.
pub record IsValid (f : Fifo) : Type 0 where
  pub storage : length f.buf ≡ 16
  pub size_pos : 0 < f.size
  pub size_le : f.size ≤ 16
  pub rindex_lt : f.rindex < f.size
  pub num_le : f.num ≤ f.size
  pub tail : f.windex ≡ (f.rindex + f.num) % f.size

module _ (buf : List ℕ) (size : ℕ) where
  -- The `n` elements from the index `r` on, going round at `size`.
  abbrev pub ring_from : ℕ → ℕ → List ℕ
  ring_from r zero = []
  ring_from r (suc n) = get_or buf r 0 ∷ ring_from ((r + 1) % size) n

-- The characters in the FIFO, the oldest first.
abbrev pub contents : Fifo → List ℕ
contents f = ring_from f.buf f.size f.rindex f.num

length-ring_from : (buf : List ℕ) (size r n : ℕ) → length (ring_from buf size r n) ≡ n
length-ring_from buf size r zero = refl
length-ring_from buf size r (suc n) = ap suc (length-ring_from buf size ((r + 1) % size) n)

pub length-contents : (f : Fifo) → length (contents f) ≡ f.num
length-contents f = length-ring_from f.buf f.size f.rindex f.num

-- One turn of the ring at most.
wrap_cases :
    (size k : ℕ)
    → k < size + size
    → ((k < size) × (k % size ≡ k)) ⊎ ((size ≤ k) × (k % size ≡ k - size))
wrap_cases size k below = elim (dec_lt k size) [
  | yes inside ↦ inl (inside, mod-eq_of_lt inside)
  | no past ↦ inr (
    omega arith,
    mod-eq-sub-mod {n = k} {m = size} (omega arith)
        ∙ mod-eq_of_lt {n = k - size} {m = size} (omega arith),
  )
]

first-slot : (size r : ℕ) → r < size → (r + 0) % size ≡ r
first-slot size r below = ap (λ k. k % size) (add-zero r) ∙ mod-eq_of_lt below

next-add : (size r j : ℕ) → ((r + 1) % size + j) % size ≡ (r + suc j) % size
next-add size r j = mod-add-mod (r + 1) size j ∙ ap (λ k. k % size) (omega arith)

-- The last element of a stretch.
ring_from-suc :
    (buf : List ℕ) (size r n : ℕ)
    → r < size
    → ring_from buf size r (suc n) ≡ ring_from buf size r n ++ get_or buf ((r + n) % size) 0 ∷ []
ring_from-suc buf size r zero below =
    let here : (r + 0) % size ≡ r = first-slot size r below in rw here refl
ring_from-suc buf size r (suc n) below =
    ap (λ l. get_or buf r 0 ∷ l)
      (ring_from-suc buf size ((r + 1) % size) n (omega arith)
        ∙ ap (λ k. ring_from buf size ((r + 1) % size) n ++ get_or buf k 0 ∷ [])
            (next-add size r n))

-- A write outside a stretch does not change it.
ring_from-set :
    (buf : List ℕ) (size r n i x : ℕ)
    → ((j : ℕ) → j < n → i ≢ (r + j) % size)
    → r < size
    → ring_from (set buf i x) size r n ≡ ring_from buf size r n
ring_from-set buf size r zero i x apart below = refl
ring_from-set buf size r (suc n) i x apart below =
    let here : (r + 0) % size ≡ r = first-slot size r below in
    let other : i ≢ r = λ e. apart 0 (omega arith) (e ∙ sym here) in
    ap (λ c. c ∷ ring_from (set buf i x) size ((r + 1) % size) n) (get_or-set_ne buf i r x 0 other)
    ∙ ap (λ l. get_or buf r 0 ∷ l)
        (ring_from-set buf size ((r + 1) % size) n i x
          (λ j lt e. apart (suc j) (omega arith) (e ∙ next-add size r j)) (omega arith))

-- The slot past `n` of `size` elements is none of them.
tail-ne : (size r n j : ℕ) → r < size → n < size → j < n → (r + n) % size ≢ (r + j) % size
tail-ne size r n j below room lt e =
    ground (arith, wrap_cases size (r + n) (omega arith), wrap_cases size (r + j) (omega arith))

-- Writing the element past `n` appends it.
ring_from-push :
    (buf : List ℕ) (size r n x : ℕ)
    → r < size
    → n < size
    → size ≤ length buf
    → ring_from (set buf ((r + n) % size) x) size r (suc n) ≡ ring_from buf size r n ++ x ∷ []
ring_from-push buf size r n x below room fits =
    let i = (r + n) % size in
    let stored : get_or (set buf i x) i 0 ≡ x = get_or-set_self buf i x 0 (omega arith) in
    ring_from-suc (set buf i x) size r n below
    ∙ (ap (λ l. l ++ get_or (set buf i x) i 0 ∷ [])
          (ring_from-set buf size r n i x (λ j lt. tail-ne size r n j below room lt) below)
        ∙ ap (λ c. ring_from buf size r n ++ c ∷ []) stored)

-- The FIFO after a character went in, or out.
abbrev pushed : Fifo → ℕ → Fifo
pushed f ch = record f {
  buf = set f.buf f.windex ch;
  windex = (f.windex + 1) % f.size;
  num = f.num + 1;
}

abbrev popped : Fifo → Fifo
popped f = record f { rindex = (f.rindex + 1) % f.size; num = f.num - 1 }

pushed-IsValid : (f : Fifo) (ch : ℕ) → IsValid f → f.num < f.size → IsValid (pushed f ch)
pushed-IsValid f ch v room = record {
  storage = length-set f.buf f.windex ch ∙ v.storage;
  size_pos = v.size_pos;
  size_le = v.size_le;
  rindex_lt = v.rindex_lt;
  num_le = omega arith;
  tail =
      ap (λ w. (w + 1) % f.size) v.tail
      ∙ (mod-add-mod (f.rindex + f.num) f.size 1 ∙ ap (λ k. k % f.size) (omega arith));
}

contents-pushed :
    (f : Fifo) (ch : ℕ)
    → IsValid f
    → f.num < f.size
    → contents (pushed f ch) ≡ contents f ++ ch ∷ []
contents-pushed f ch v room =
    let one : f.num + 1 ≡ suc f.num = omega arith in
    ap (λ n. ring_from (set f.buf f.windex ch) f.size f.rindex n) one
    ∙ (ap (λ w. ring_from (set f.buf w ch) f.size f.rindex (suc f.num)) v.tail
        ∙ ring_from-push f.buf f.size f.rindex f.num ch v.rindex_lt room
            (omega (arith, v.storage, v.size_le)))

popped-IsValid : (f : Fifo) → IsValid f → 0 < f.num → IsValid (popped f)
popped-IsValid f v some_in = record {
  storage = v.storage;
  size_pos = v.size_pos;
  size_le = v.size_le;
  rindex_lt = omega (arith, v.size_pos);
  num_le = omega (arith, v.num_le);
  tail =
      v.tail
      ∙ (ap (λ k. k % f.size) (omega arith) ∙ sym (mod-add-mod (f.rindex + 1) f.size (f.num - 1)));
}

contents-popped :
    (f : Fifo) → 0 < f.num → contents f ≡ get_or f.buf f.rindex 0 ∷ contents (popped f)
contents-popped f some_in =
    let one : f.num ≡ suc (f.num - 1) = omega arith in
    ap (λ n. ring_from f.buf f.size f.rindex n) one

module _ (p : Port) where
  putchar_room :
      (ch : ℕ)
      → p.fifo.num < p.fifo.size
      → ((rxfifo_putchar p ch).0 ≡ true) × ((rxfifo_putchar p ch).1.fifo ≡ pushed p.fifo ch)
  unfolding rxfifo_putchar
  putchar_room ch room = (ground arith, ground arith)

  pub putchar_full : (ch : ℕ) → p.fifo.size ≤ p.fifo.num → rxfifo_putchar p ch ≡ (false, p)
  unfolding rxfifo_putchar
  putchar_full ch full = ground arith

  getchar_some :
      0 < p.fifo.num
      → ((rxfifo_getchar p).0 ≡ some (get_or p.fifo.buf p.fifo.rindex 0))
        × ((rxfifo_getchar p).1.fifo ≡ popped p.fifo)
  unfolding rxfifo_getchar
  getchar_some some_in = (ground arith, ground arith)

  getchar_empty : p.fifo.num ≡ 0 → rxfifo_getchar p ≡ (none, p)
  unfolding rxfifo_getchar
  getchar_empty empty = ground arith

pub contents-putchar :
    (p : Port) (ch : ℕ)
    → IsValid p.fifo
    → p.fifo.num < p.fifo.size
    → contents (rxfifo_putchar p ch).1.fifo ≡ contents p.fifo ++ ch ∷ []
contents-putchar p ch v room =
    ap contents (putchar_room p ch room).1 ∙ contents-pushed p.fifo ch v room

-- A bounded queue: what a FIFO of `size` characters promises.
unfoldable pub enqueue : ℕ → List ℕ → ℕ → Bool × List ℕ
enqueue size q ch = if ltb (length q) size then (true, q ++ ch ∷ []) else (false, q)

unfoldable pub dequeue : List ℕ → Option ℕ × List ℕ
dequeue [] = (none, [])
dequeue (c ∷ q) = (some c, q)

-- `rxfifo_putchar` takes a character exactly when the queue of the contents has room, puts it last,
-- and keeps the indices in range.
pub putchar_refines :
    (p : Port) (ch : ℕ)
    → IsValid p.fifo
    → let (taken, q) = rxfifo_putchar p ch in
      ((taken, contents q.fifo) ≡ enqueue p.fifo.size (contents p.fifo) ch) × IsValid q.fifo
unfolding enqueue
putchar_refines p ch v = elim (dec_lt p.fifo.num p.fifo.size) [
  | yes room ↦
      let (taken, stored) = putchar_room p ch room in
      (
        rw (taken, stored, length-contents p.fifo, contents-pushed p.fifo ch v room) (ground arith),
        rw stored (pushed-IsValid p.fifo ch v room),
      )
  | no full ↦
      let same = putchar_full p ch (omega arith) in
      (rw (same, length-contents p.fifo) (ground arith), rw same v)
]

-- `rxfifo_getchar` returns the first character of the queue and removes it, or returns -1 where
-- there is none, and keeps the indices in range.
pub getchar_refines :
    (p : Port)
    → IsValid p.fifo
    → let (ch, q) = rxfifo_getchar p in
      ((ch, contents q.fifo) ≡ dequeue (contents p.fifo)) × IsValid q.fifo
unfolding dequeue
getchar_refines p v = elim (dec_lt 0 p.fifo.num) [
  | yes some_in ↦
      let (ch, rest) = getchar_some p some_in in
      (
        rw (ch, rest, contents-popped p.fifo some_in) refl,
        rw rest (popped-IsValid p.fifo v some_in),
      )
  | no empty ↦
      let none_in : p.fifo.num ≡ 0 = omega arith in
      let same = getchar_empty p none_in in
      let nothing : contents p.fifo ≡ [] =
        ap (ring_from p.fifo.buf p.fifo.size p.fifo.rindex) none_in in
      (rw (same, nothing) refl, rw same v)
]
