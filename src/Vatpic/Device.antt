-- ===== src/Vatpic/Device.antt =====
-- The cascaded pair (src/vmm/io/vatpic.c): pins, notification, the calls of the virtual machine
-- and the port handlers. The lock is held throughout each call, so a call is one step.
use xhyve_manager.Base.{
  ℕ, ◌+◌, ◌-◌, ◌%◌, Bool, true, false, not, ◌&&◌, ◌||◌, none, some, List, [], ◌∷◌, ◌==◌, ltb,
  if◌then◌else◌, bit_and, bit_or, Status, ok, fail, einval,
}
use xhyve_manager.Base.Bits.{has_bit, set_bit, clear_bit}
use xhyve_manager.Base.Int.{ℤ, pos, negsuc}
use xhyve_manager.Vatpic.Chip.{Chip, zeroed, get_highest_irrpin, move_pin, pin_accepted}
use xhyve_manager.Vatpic.Command.{icw1, icw2, icw3, icw4, ocw1, ocw2, ocw3}

-- The calls that leave the device: `lapic_set_local_intr(vm, -1, APIC_LVT_LINT0)` and
-- `vioapic_pulse_irq(vm, 0)`.
pub data Signal : Type 0 where
  lint0 ioapic_pulse : Signal

pub data Which : Type 0 where
  master slave : Which

-- `struct vatpic`: `atpic[0]`, `atpic[1]`, `elc[0]`, `elc[1]`, and the calls made, the latest first.
pub record Vatpic : Type 0 where
  pub chip0 : Chip
  pub chip1 : Chip
  pub elc0 : ℕ
  pub elc1 : ℕ
  pub sent : List Signal

abbrev pub chip : Vatpic → Which → Chip
chip v master = v.chip0
chip v slave = v.chip1

abbrev pub elc : Vatpic → Which → ℕ
elc v master = v.elc0
elc v slave = v.elc1

abbrev pub with_chip : Vatpic → Which → Chip → Vatpic
with_chip v master a = record v { chip0 = a }
with_chip v slave a = record v { chip1 = a }

abbrev pub with_elc : Vatpic → Which → ℕ → Vatpic
with_elc v master e = record v { elc0 = e }
with_elc v slave e = record v { elc1 = e }

-- The index `pin >> 3` of a pin below 16.
abbrev pub which : ℕ → Which
which pin = if ltb pin 8 then master else slave

-- `vatpic_set_pinstate`, where `notify` is `vatpic_notify_intr`.
unfoldable pub set_pinstate_with : (Vatpic → Vatpic) → Vatpic → ℕ → Bool → Vatpic
set_pinstate_with notify v pin newstate =
    let w = which pin in
    let level = has_bit (elc v w) (pin % 8) in
    notify (with_chip v w (move_pin level (pin % 8) newstate (chip v w)))

abbrev pub is_eligible : Chip → Bool
is_eligible a = not a.intr_raised && elim (get_highest_irrpin a) [ none ↦ false | some pin ↦ true ]

-- The second half of `vatpic_notify_intr`.
unfoldable pub notify_master : Vatpic → Vatpic
notify_master v =
    if is_eligible v.chip0
    then record v {
      chip0 = record v.chip0 { intr_raised = true };
      sent = ioapic_pulse ∷ lint0 ∷ v.sent;
    }
    else v

-- The cascade of the slave's request through pin 2 of the master, where `notify` is the call of
-- `vatpic_notify_intr` that each move of the pin makes.
unfoldable pub cascade_with : (Vatpic → Vatpic) → Vatpic → Vatpic
cascade_with notify v =
    let raised = record v { chip1 = record v.chip1 { intr_raised = true } } in
    let up = set_pinstate_with notify raised 2 true in set_pinstate_with notify up 2 false

-- The body of `vatpic_notify_intr`, where `notify` is the call that it makes of itself.
unfoldable pub notify_with : (Vatpic → Vatpic) → Vatpic → Vatpic
unfolding cascade_with
notify_with notify v = notify_master (if is_eligible v.chip1 then cascade_with notify v else v)

-- `vatpic_notify_intr`, two levels of calls deep.
unfoldable pub notify_intr : Vatpic → Vatpic
notify_intr = notify_with (notify_with (λ v. v))

unfoldable pub set_pinstate : Vatpic → ℕ → Bool → Vatpic
set_pinstate = set_pinstate_with notify_intr

pub data IrqState : Type 0 where
  asserted deasserted pulsed : IrqState

unfoldable pub set_irqstate : Vatpic → ℤ → IrqState → Status × Vatpic
set_irqstate v (negsuc n) irqstate = (einval, v)
set_irqstate v (pos irq) irqstate =
    if ltb 15 irq then (einval, v) else if not (chip v (which irq)).ready then (ok, v) else (
      ok,
      elim irqstate [
        | asserted ↦ set_pinstate v irq true
        | deasserted ↦ set_pinstate v irq false
        | pulsed ↦ set_pinstate (set_pinstate v irq true) irq false
      ],
    )

abbrev pub assert_irq : Vatpic → ℤ → Status × Vatpic
assert_irq v irq = set_irqstate v irq asserted

abbrev pub deassert_irq : Vatpic → ℤ → Status × Vatpic
deassert_irq v irq = set_irqstate v irq deasserted

abbrev pub pulse_irq : Vatpic → ℤ → Status × Vatpic
pulse_irq v irq = set_irqstate v irq pulsed

pub data Trigger : Type 0 where
  edge_trigger level_trigger : Trigger

abbrev pub is_level : Trigger → Bool
is_level edge_trigger = false
is_level level_trigger = true

-- The IRQs that the `switch` of `vatpic_set_irq_trigger` refuses.
abbrev pub is_edge_only : ℕ → Bool
is_edge_only irq = irq == 0 || irq == 1 || irq == 2 || irq == 8 || irq == 13

unfoldable pub set_irq_trigger : Vatpic → ℤ → Trigger → Status × Vatpic
set_irq_trigger v (negsuc n) trigger = (einval, v)
set_irq_trigger v (pos irq) trigger =
    if ltb 15 irq
    then (einval, v)
    else if is_level trigger && is_edge_only irq
    then (einval, v)
    else let w = which irq in
      let e =
        if is_level trigger then set_bit (elc v w) (irq % 8) else clear_bit 8 (elc v w) (irq % 8) in
      (ok, with_elc v w e)

-- `vatpic_pending_intr`: the vector.
unfoldable pub pending_intr : Vatpic → ℕ
pending_intr v = elim (get_highest_irrpin v.chip0) [
  | none ↦ v.chip0.irq_base + 7
  | some pin ↦
      if pin == 2
      then elim (get_highest_irrpin v.chip1) [
        | none ↦ v.chip1.irq_base + 7
        | some pin' ↦ v.chip1.irq_base + pin'
      ]
      else v.chip0.irq_base + pin
]

-- `vector & ~0x7` is `vector - vector % 8`.
unfoldable pub intr_accepted : Vatpic → ℕ → Vatpic
intr_accepted v vector =
    let pin = vector % 8 in
    notify_intr (
      if vector - vector % 8 == v.chip1.irq_base
      then record v { chip0 = pin_accepted v.chip0 2; chip1 = pin_accepted v.chip1 pin }
      else record v { chip0 = pin_accepted v.chip0 pin })

-- `vatpic_read`: the chip and `*eax`. `ICU_IMR_OFFSET` is 1, and so is `OCW3_RIS`.
unfoldable pub read : Chip → ℕ → Chip × ℕ
read a port =
    if a.poll
    then (let b = record a { poll = false } in
        elim (get_highest_irrpin b) [
          | none ↦ (b, 0)
          | some pin ↦ (pin_accepted b pin, bit_or 0x80 pin)
        ])
    else if has_bit port 0
    then (a, a.mask)
    else if a.rd_cmd_reg == 1
    then (a, a.service)
    else (a, a.request)

-- The writes of `vatpic_write`, before it notifies.
unfoldable pub write_chip : Bool → Chip → ℕ → ℕ → Status × Chip
write_chip is_master a port val =
    if has_bit port 0
    then if a.icw_num == 2
      then icw2 a val
      else if a.icw_num == 3
      then icw3 a val
      else if a.icw_num == 4
      then icw4 is_master a val
      else ocw1 a val
    else let (error, b) = if has_bit val 4 then icw1 a val else (ok, a) in
      if b.ready then if has_bit val 3 then ocw3 b val else ocw2 b val else (error, b)

abbrev pub is_master : Which → Bool
is_master master = true
is_master slave = false

unfoldable pub write : Vatpic → Which → ℕ → ℕ → Status × Vatpic
write v w port eax =
    let (error, a) = write_chip (is_master w) (chip v w) port (eax % 256) in
    let v' = with_chip v w a in (error, if a.ready then notify_intr v' else v')

-- `vatpic_master_handler` and `vatpic_slave_handler`: the return value, `*eax` and the state.
unfoldable pub handler : Vatpic → Which → Bool → ℕ → ℕ → ℕ → Status × ℕ × Vatpic
handler v w input port bytes eax =
    if not (bytes == 1)
    then (fail, eax, v)
    else if input
    then (let (a, value) = read (chip v w) port in (ok, value, with_chip v w a))
    else let (error, v') = write v w port eax in (error, eax, v')

-- `vatpic_elc_handler`. `IO_ELCR1` is 0x4d0.
unfoldable pub elc_handler : Vatpic → Bool → ℕ → ℕ → ℕ → Status × ℕ × Vatpic
elc_handler v input port bytes eax =
    if not (bytes == 1)
    then (fail, eax, v)
    else if input
    then (ok, if port == 0x4d0 then v.elc0 else v.elc1, v)
    else if port == 0x4d0
    then (ok, eax, record v { elc0 = bit_and eax 0xf8 })
    else (ok, eax, record v { elc1 = bit_and eax 0xde })

unfoldable pub init : Vatpic
unfolding zeroed
init = record { chip0 = zeroed; chip1 = zeroed; elc0 = 0; elc1 = 0; sent = [] }
