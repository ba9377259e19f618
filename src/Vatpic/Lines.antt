-- ===== src/Vatpic/Lines.antt =====
-- The interrupt lines: edges, levels and the counts of asserts (src/vmm/io/vatpic.c).
use xhyve_manager.Base.{
  ℕ, inl, inr, ltb, ◌≢◌, ◌⊎◌, suc, ◌<◌, ◌≡◌, refl, ap, ◌∙◌, Bool, true, false, not, arith,
  if◌then◌else◌, get_or, set, get_or-set_self, set-set, set-get_or,
}
use native.Mathlib.Decide.{ℕ_discrete}
use xhyve_manager.Base.Bits.{test_bit, set_bit, clear_bit, test_bit-set_bit, test_bit-clear_bit}
use xhyve_manager.Base.Int.{ℤ, pos, succ_ℤ, pred_ℤ, is_nat}
use xhyve_manager.Vatpic.Chip.{Chip, move_pin, pin_accepted}
use xhyve_manager.Vatpic.Invariant.{IsValid}

-- The count of a pin.
abbrev pub count_at : Chip → ℕ → ℤ
count_at a pin = get_or a.acnt pin (pos 0)

module _ (level : Bool) (pin : ℕ) (a : Chip) where
  -- The first assert of an idle pin requests an interrupt, whatever the trigger mode.
  raise_idle :
      count_at a pin ≡ pos 0
      → move_pin level pin true a
        ≡ record a { acnt = set a.acnt pin (pos 1); request = set_bit a.request pin }
  unfolding move_pin
  raise_idle idle = rw idle refl

  -- The last deassert withdraws the request of a level, and leaves the one of an edge.
  lower_last :
      count_at a pin ≡ pos 1
      → move_pin level pin false a ≡ record a {
        acnt = set a.acnt pin (pos 0);
        request = if level then clear_bit 8 a.request pin else a.request;
      }
  unfolding move_pin
  lower_last last = rw last (ground arith)

-- A pulse on an idle pin leaves the counts as they were. On an edge triggered pin it leaves a
-- request behind; on a level triggered one it leaves none. The request of another pin `q` stays.
pub move_pin_pulse :
    (level : Bool) (pin q : ℕ) (a : Chip)
    → IsValid a
    → pin < 8
    → count_at a pin ≡ pos 0
    → q < 8
    → q ≢ pin
    → let b = move_pin level pin false (move_pin level pin true a) in
      (b.acnt ≡ a.acnt)
      × (test_bit b.request pin ≡ not level)
      × (test_bit b.request q ≡ test_bit a.request q)
move_pin_pulse level pin q a v below idle q_lt other =
    let up = record a { acnt = set a.acnt pin (pos 1); request = set_bit a.request pin } in
    let last : count_at up pin ≡ pos 1 =
      get_or-set_self a.acnt pin (pos 1) (pos 0) (omega (arith, v.counts)) in
    let kept : set a.acnt pin (pos 0) ≡ a.acnt = rw idle at (set-get_or a.acnt pin (pos 0)) in
    rw (raise_idle level pin a idle, lower_last level pin up last)
      (
        set-set a.acnt pin (pos 1) (pos 0) ∙ kept,
        ground (
          arith,
          test_bit-set_bit a.request pin pin,
          test_bit-clear_bit 8 (set_bit a.request pin) pin pin,
        ),
        ground (
          arith,
          test_bit-set_bit a.request pin q,
          test_bit-clear_bit 8 (set_bit a.request pin) pin q,
        ),
      )

-- A level triggered line with `n` holders: its request is set exactly when it has one.
pub record IsLevelLine (pin n : ℕ) (a : Chip) : Type 0 where
  pub count : count_at a pin ≡ pos n
  pub request : test_bit a.request pin ≡ ltb 0 n

count-move_pin :
    (pin n : ℕ) (newstate : Bool) (a : Chip)
    → IsValid a
    → pin < 8
    → count_at a pin ≡ pos n
    → count_at (move_pin true pin newstate a) pin
      ≡ (if newstate then succ_ℤ (pos n) else pred_ℤ (pos n))
unfolding move_pin
count-move_pin pin n newstate a v below here = rw here (
    ground (
      arith,
      v.counts,
      get_or-set_self a.acnt pin (succ_ℤ (pos n)) (pos 0),
      get_or-set_self a.acnt pin (pred_ℤ (pos n)) (pos 0),
    ))

request-move_pin :
    (pin n : ℕ) (newstate : Bool) (a : Chip)
    → pin < 8
    → IsLevelLine pin n a
    → (newstate ≡ true) ⊎ (0 < n)
    → test_bit (move_pin true pin newstate a).request pin ≡ (if newstate then true else ltb 1 n)
unfolding move_pin
request-move_pin pin n newstate a below line ok = rw (line.count) (
    ground (
      arith,
      line.request,
      test_bit-set_bit a.request pin pin,
      test_bit-clear_bit 8 a.request pin pin,
    ))

acnt-pin_accepted : (a : Chip) (q : ℕ) → (pin_accepted a q).acnt ≡ a.acnt
unfolding pin_accepted
acnt-pin_accepted a q = ground arith

request-pin_accepted :
    (a : Chip) (q : ℕ)
    → (pin_accepted a q).request
      ≡ (if is_nat (count_at a q) 0 then clear_bit 8 a.request q else a.request)
unfolding pin_accepted
request-pin_accepted a q = ground arith

request-pin_accepted_line :
    (pin n : ℕ) (a : Chip) (q : ℕ)
    → pin < 8
    → q < 8
    → IsLevelLine pin n a
    → test_bit (pin_accepted a q).request pin ≡ ltb 0 n
request-pin_accepted_line pin n a q below q_lt line = elim (ℕ_discrete q pin) [
  | yes same ↦
      let held : count_at a q ≡ pos n = rw same line.count in
      rw (request-pin_accepted a q, held)
        (ground (arith, line.request, test_bit-clear_bit 8 a.request q pin))
  | no other ↦
      rw (request-pin_accepted a q)
        (ground (arith, line.request, test_bit-clear_bit 8 a.request q pin))
]

-- A level triggered line that is held follows its holders: an assert adds one, a deassert takes one
-- away, and accepting any pin `q` changes neither the holders nor the request.
pub move_pin-IsLevelLine :
    (pin n q : ℕ) (a : Chip)
    → IsValid a
    → pin < 8
    → q < 8
    → IsLevelLine pin (suc n) a
    → IsLevelLine pin (suc (suc n)) (move_pin true pin true a)
      × IsLevelLine pin n (move_pin true pin false a)
      × IsLevelLine pin (suc n) (pin_accepted a q)
move_pin-IsLevelLine pin n q a v below q_lt line = (
  record {
    count = count-move_pin pin (suc n) true a v below line.count;
    request = request-move_pin pin (suc n) true a below line (inl refl) ∙ ground arith;
  },
  record {
    count = count-move_pin pin (suc n) false a v below line.count;
    request = request-move_pin pin (suc n) false a below line (inr (omega arith)) ∙ ground arith;
  },
  record {
    count = ap (λ l. get_or l pin (pos 0)) (acnt-pin_accepted a q) ∙ line.count;
    request = request-pin_accepted_line pin (suc n) a q below q_lt line;
  },
)
