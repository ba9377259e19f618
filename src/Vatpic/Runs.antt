-- ===== src/Vatpic/Runs.antt =====
-- Every sequence of calls and port accesses from `vatpic_init` on (src/vmm/io/vatpic.c).
use xhyve_manager.Base.{ℕ, ◌%◌, ◌≡◌, Bool, true, false, List, [], ◌∷◌, arith, ◌⊎◌, inl, inr}
use xhyve_manager.Base.Bits.{has_bit, has_bit-test_bit, test_bit}
use xhyve_manager.Base.Int.{ℤ}
use xhyve_manager.Vatpic.Device.{
  Vatpic, Which, elc, which, IrqState, set_irqstate, Trigger, set_irq_trigger, is_edge_only,
  intr_accepted, handler, elc_handler, init,
}
use xhyve_manager.Vatpic.Pair.{
  IsElc, IsSound, elc-IsElc, init-IsSound, set_irqstate-IsSound, set_irq_trigger-IsSound,
  intr_accepted-IsSound, handler-IsSound, elc_handler-IsSound,
}

-- What the rest of the virtual machine may do to the pair.
pub data Op : Type 0 where
  irq : ℤ → IrqState → Op
  trigger : ℤ → Trigger → Op
  accept : ℕ → Op
  chip_port : Which → Bool → ℕ → ℕ → ℕ → Op
  elc_port : Bool → ℕ → ℕ → ℕ → Op

unfoldable pub step : Vatpic → Op → Vatpic
step v (irq n t) = (set_irqstate v n t).1
step v (trigger n t) = (set_irq_trigger v n t).1
step v (accept vector) = intr_accepted v vector
step v (chip_port w input port bytes eax) = (handler v w input port bytes eax).2
step v (elc_port input port bytes eax) = (elc_handler v input port bytes eax).2

unfoldable pub run : Vatpic → List Op → Vatpic
run v [] = v
run v (op ∷ ops) = run (step v op) ops

-- Each call and port access keeps the pair sound.
pub step-IsSound : (v : Vatpic) (op : Op) → IsSound v → IsSound (step v op)
unfolding step
step-IsSound v (irq n t) s = set_irqstate-IsSound v n t s
step-IsSound v (trigger n t) s = set_irq_trigger-IsSound v n t s
step-IsSound v (accept vector) s = intr_accepted-IsSound v vector s
step-IsSound v (chip_port w input port bytes eax) s = handler-IsSound v w input port bytes eax s
step-IsSound v (elc_port input port bytes eax) s = elc_handler-IsSound v input port bytes eax s

run-IsSound_from : (v : Vatpic) (ops : List Op) → IsSound v → IsSound (run v ops)
unfolding run
run-IsSound_from v [] s = s
run-IsSound_from v (op ∷ ops) s = run-IsSound_from (step v op) ops (step-IsSound v op s)

-- After any sequence of calls and port accesses, with whatever arguments, both chips are valid and
-- the trigger modes are bytes that keep the IRQs 0, 1, 2, 8 and 13 edge triggered.
pub run-IsSound : (ops : List Op) → IsSound (run init ops)
run-IsSound ops = run-IsSound_from init ops init-IsSound

is_edge_only_cases :
    (n : ℕ) → is_edge_only n ≡ true → (n ≡ 0) ⊎ ((n ≡ 1) ⊎ ((n ≡ 2) ⊎ ((n ≡ 8) ⊎ (n ≡ 13))))
is_edge_only_cases n only = ground arith

is_edge_only-IsElc :
    (n e : ℕ) → is_edge_only n ≡ true → IsElc (which n) e → test_bit e (n % 8) ≡ false
unfolding IsElc
is_edge_only-IsElc n e only edges = elim (is_edge_only_cases n only) [
  | inl a ↦ rw a ((rw a at edges).1)
  | inr (inl b) ↦ rw b ((rw b at edges).2)
  | inr (inr (inl c)) ↦ rw c ((rw c at edges).3)
  | inr (inr (inr (inl d))) ↦ rw d ((rw d at edges).1)
  | inr (inr (inr (inr f))) ↦ rw f ((rw f at edges).2)
]

-- No sequence of calls and port accesses makes one of the IRQs 0, 1, 2, 8 and 13 level triggered,
-- as `vatpic_set_pinstate` reads the trigger mode.
pub run-edge_only :
    (ops : List Op) (n : ℕ)
    → is_edge_only n ≡ true
    → has_bit (elc (run init ops) (which n)) (n % 8) ≡ false
run-edge_only ops n only =
    let v = run init ops in
    rw (has_bit-test_bit (elc v (which n)) (n % 8))
      (is_edge_only-IsElc n _ only (elc-IsElc v (which n) (run-IsSound ops)))
