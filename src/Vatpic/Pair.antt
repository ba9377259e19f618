-- ===== src/Vatpic/Pair.antt =====
-- The well-formedness of the pair (src/vmm/io/vatpic.c), under the calls of the virtual machine
-- and the port accesses.
use xhyve_manager.Base.{ℕ, ◌%◌, ◌<◌, ◌≡◌, Bool, true, false, arith, bit_and, Bool-cases, inl, inr}
use native.Mathlib.Decide.{dec_lt}
use xhyve_manager.Base.Bits.{
  has_bit, test_bit, set_bit, clear_bit, test_bit-set_bit, test_bit-clear_bit, test_bit-bit_and,
  set_bit-lt, clear_bit-lt,
}
use xhyve_manager.Base.Bits.Masks.{bit_and-0xf8, bit_and-le_right}
use xhyve_manager.Base.Int.{ℤ, pos, negsuc}
use xhyve_manager.Vatpic.Chip.{Chip}
use xhyve_manager.Vatpic.Device.{
  Vatpic, Which, master, slave, chip, elc, with_chip, with_elc, which, set_pinstate_with,
  notify_master, cascade_with, is_eligible, notify_intr, set_pinstate, IrqState, asserted,
  deasserted, pulsed, set_irqstate, Trigger, edge_trigger, level_trigger, set_irq_trigger,
  is_edge_only, intr_accepted, read, write_chip, write, is_master, handler, elc_handler, init,
}
use xhyve_manager.Vatpic.Invariant.{
  IsValid, zeroed-IsValid, move_pin-IsValid, pin_accepted-IsValid, read-IsValid, write_chip-IsValid,
}
use xhyve_manager.Vatpic.Notify.{notify_intr_flat}

-- A trigger mode register: a byte in which the IRQs 0, 1, 2, 8 and 13 are triggered by an edge.
unfoldable pub IsElc : Which → ℕ → Type 0
IsElc master e =
    (e < 256) × (test_bit e 0 ≡ false) × (test_bit e 1 ≡ false) × (test_bit e 2 ≡ false)
IsElc slave e = (e < 256) × (test_bit e 0 ≡ false) × (test_bit e 5 ≡ false)

pub record IsSound (v : Vatpic) : Type 0 where
  pub valid0 : IsValid v.chip0
  pub valid1 : IsValid v.chip1
  pub elc0_edges : IsElc master v.elc0
  pub elc1_edges : IsElc slave v.elc1

-- No other IRQ than these is kept from the level mode.
set_bit-IsElc :
    (irq e : ℕ)
    → irq < 16
    → is_edge_only irq ≡ false
    → IsElc (which irq) e
    → IsElc (which irq) (set_bit e (irq % 8))
unfolding IsElc
set_bit-IsElc irq e below free edges = elim (dec_lt irq 8) [
  | yes m ↦
      let w : which irq ≡ master = ground arith in
      rw w (
        ground (
          arith,
          rw w at edges,
          set_bit-lt 8 e (irq % 8),
          test_bit-set_bit e (irq % 8) 0,
          test_bit-set_bit e (irq % 8) 1,
          test_bit-set_bit e (irq % 8) 2,
        ))
  | no n ↦
      let w : which irq ≡ slave = ground arith in
      rw w (
        ground (
          arith,
          rw w at edges,
          set_bit-lt 8 e (irq % 8),
          test_bit-set_bit e (irq % 8) 0,
          test_bit-set_bit e (irq % 8) 5,
        ))
]

clear_bit-IsElc : (w : Which) (p e : ℕ) → p < 8 → IsElc w e → IsElc w (clear_bit 8 e p)
unfolding IsElc
clear_bit-IsElc master p e below edges = ground (
  arith,
  clear_bit-lt 8 e p,
  test_bit-clear_bit 8 e p 0,
  test_bit-clear_bit 8 e p 1,
  test_bit-clear_bit 8 e p 2,
)
clear_bit-IsElc slave p e below edges =
    ground (arith, clear_bit-lt 8 e p, test_bit-clear_bit 8 e p 0, test_bit-clear_bit 8 e p 5)

-- The masks of `vatpic_elc_handler`.
bit_and-IsElc : (e : ℕ) → IsElc master (bit_and e 0xf8) × IsElc slave (bit_and e 0xde)
unfolding IsElc
bit_and-IsElc e = (
  ground (arith, bit_and-0xf8 e),
  ground (arith, bit_and-le_right e 0xde, test_bit-bit_and e 0xde 0, test_bit-bit_and e 0xde 5),
)

pub init-IsSound : IsSound init
unfolding init IsElc
init-IsSound = record {
  valid0 = zeroed-IsValid;
  valid1 = zeroed-IsValid;
  elc0_edges = ground arith;
  elc1_edges = ground arith;
}

with_elc-IsSound :
    (v : Vatpic) (w : Which) (e : ℕ) → IsElc w e → IsSound v → IsSound (with_elc v w e)
with_elc-IsSound v master e edges s = ground arith
with_elc-IsSound v slave e edges s = ground arith

pub elc-IsElc : (v : Vatpic) (w : Which) → IsSound v → IsElc w (elc v w)
elc-IsElc v master s = s.elc0_edges
elc-IsElc v slave s = s.elc1_edges

with_chip-IsSound :
    (v : Vatpic) (w : Which) (a : Chip) → IsValid a → IsSound v → IsSound (with_chip v w a)
with_chip-IsSound v master a va s = ground arith
with_chip-IsSound v slave a va s = ground arith

pub chip-IsValid : (v : Vatpic) (w : Which) → IsSound v → IsValid (chip v w)
chip-IsValid v master s = s.valid0
chip-IsValid v slave s = s.valid1

raise-IsValid : (a : Chip) → IsValid a → IsValid (record a { intr_raised = true })
raise-IsValid a v = ground arith

notify_master-IsSound : (v : Vatpic) → IsSound v → IsSound (notify_master v)
unfolding notify_master
notify_master-IsSound v s = ground (arith, raise-IsValid v.chip0 s.valid0)

set_pinstate_with-IsSound :
    (notify : Vatpic → Vatpic) (v : Vatpic) (pin : ℕ) (newstate : Bool)
    → ((u : Vatpic) → IsSound u → IsSound (notify u))
    → IsSound v
    → IsSound (set_pinstate_with notify v pin newstate)
unfolding set_pinstate_with
set_pinstate_with-IsSound notify v pin newstate keep s =
    let w = which pin in
    keep _ (
      with_chip-IsSound v w _
        (move_pin-IsValid (has_bit (elc v w) (pin % 8)) (pin % 8) newstate (chip v w) (omega arith)
          (chip-IsValid v w s))
        s)

cascade_with-IsSound : (v : Vatpic) → IsSound v → IsSound (cascade_with notify_master v)
unfolding cascade_with
cascade_with-IsSound v s = set_pinstate_with-IsSound notify_master _ 2 false notify_master-IsSound (
    set_pinstate_with-IsSound notify_master _ 2 true notify_master-IsSound
      (with_chip-IsSound v slave _ (raise-IsValid v.chip1 s.valid1) s))

pub notify_intr-IsSound : (v : Vatpic) → IsSound v → IsSound (notify_intr v)
notify_intr-IsSound v s = rw (notify_intr_flat v) (elim (Bool-cases (is_eligible v.chip1)) [
  | inl e ↦ rw e (notify_master-IsSound _ (cascade_with-IsSound v s))
  | inr e ↦ rw e (notify_master-IsSound v s)
])

pub set_pinstate-IsSound :
    (v : Vatpic) (pin : ℕ) (newstate : Bool) → IsSound v → IsSound (set_pinstate v pin newstate)
unfolding set_pinstate
set_pinstate-IsSound v pin newstate s =
    set_pinstate_with-IsSound notify_intr v pin newstate notify_intr-IsSound s

pub set_irqstate-IsSound :
    (v : Vatpic) (irq : ℤ) (t : IrqState) → IsSound v → IsSound (set_irqstate v irq t).1
unfolding set_irqstate
set_irqstate-IsSound v (negsuc n) t s = s
set_irqstate-IsSound v (pos irq) asserted s = ground (arith, set_pinstate-IsSound v irq true s)
set_irqstate-IsSound v (pos irq) deasserted s = ground (arith, set_pinstate-IsSound v irq false s)
set_irqstate-IsSound v (pos irq) pulsed s =
    ground (arith, set_pinstate-IsSound _ irq false (set_pinstate-IsSound v irq true s))

pub set_irq_trigger-IsSound :
    (v : Vatpic) (irq : ℤ) (t : Trigger) → IsSound v → IsSound (set_irq_trigger v irq t).1
unfolding set_irq_trigger
set_irq_trigger-IsSound v (negsuc n) t s = s
set_irq_trigger-IsSound v (pos irq) level_trigger s = ground (
  arith,
  λ (below : irq < 16) (free : is_edge_only irq ≡ false).
      with_elc-IsSound v (which irq) _ (set_bit-IsElc irq _ below free (elc-IsElc v (which irq) s))
        s,
)
set_irq_trigger-IsSound v (pos irq) edge_trigger s = ground (
  arith,
  with_elc-IsSound v (which irq) (clear_bit 8 (elc v (which irq)) (irq % 8))
      (clear_bit-IsElc (which irq) (irq % 8) _ (omega arith) (elc-IsElc v (which irq) s)) s,
)

pub intr_accepted-IsSound : (v : Vatpic) (vector : ℕ) → IsSound v → IsSound (intr_accepted v vector)
unfolding intr_accepted
intr_accepted-IsSound v vector s = notify_intr-IsSound _ (
    ground (
      arith,
      pin_accepted-IsValid v.chip0 2 (omega arith) s.valid0,
      pin_accepted-IsValid v.chip1 (vector % 8) (omega arith) s.valid1,
      pin_accepted-IsValid v.chip0 (vector % 8) (omega arith) s.valid0,
    ))

write-IsSound : (v : Vatpic) (w : Which) (port eax : ℕ) → IsSound v → IsSound (write v w port eax).1
unfolding write
write-IsSound v w port eax s =
    let a = (write_chip (is_master w) (chip v w) port (eax % 256)).1 in
    let sound : IsSound (with_chip v w a) =
      with_chip-IsSound v w a
        (write_chip-IsValid (is_master w) (chip v w) port (eax % 256) (chip-IsValid v w s)) s in
    ground (arith, notify_intr-IsSound (with_chip v w a) sound)

pub handler-IsSound :
    (v : Vatpic) (w : Which) (input : Bool) (port bytes eax : ℕ)
    → IsSound v
    → IsSound (handler v w input port bytes eax).2
unfolding handler
handler-IsSound v w input port bytes eax s = ground (
  arith,
  write-IsSound v w port eax s,
  with_chip-IsSound v w (read (chip v w) port).0 (read-IsValid (chip v w) port (chip-IsValid v w s))
      s,
)

pub elc_handler-IsSound :
    (v : Vatpic) (input : Bool) (port bytes eax : ℕ)
    → IsSound v
    → IsSound (elc_handler v input port bytes eax).2
unfolding elc_handler
elc_handler-IsSound v input port bytes eax s = ground (
  arith,
  with_elc-IsSound v master (bit_and eax 0xf8) (bit_and-IsElc eax).0 s,
  with_elc-IsSound v slave (bit_and eax 0xde) (bit_and-IsElc eax).1 s,
)
