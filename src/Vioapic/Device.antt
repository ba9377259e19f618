-- ===== src/Vioapic/Device.antt =====
-- The redirection table of the I/O APIC, its pins and its registers (src/vmm/io/vioapic.c). The lock
-- is held throughout each call, so a call is one step, but for the rendezvous of `vioapic_write`,
-- around which the lock is released: what other calls do there is a parameter.
use xhyve_manager.Base.{
  ℕ, zero, suc, ◌+◌, ◌-◌, ◌*◌, ◌/◌, ◌%◌, ◌^◌, Bool, true, false, not, ◌&&◌, ◌||◌, List, [], ◌∷◌,
  ◌==◌, ltb, if◌then◌else◌, bit_and, bit_or, bit_xor, get_or, set, replicate, Status, ok, einval,
}
use xhyve_manager.Base.Bits.{has_bit, set_bit, clear_bit, bit_not}
use xhyve_manager.Base.Int.{ℤ, pos, negsuc, succ_ℤ, pred_ℤ, is_nat, is_positive}

-- An element of `rtbl`; the overflow of the `int` is left out.
pub record Pin : Type 0 where
  pub reg : ℕ
  pub acnt : ℤ

-- The arguments of `vlapic_deliver_intr`.
pub record Message : Type 0 where
  pub level : Bool
  pub dest : ℕ
  pub phys : Bool
  pub delmode : ℕ
  pub vector : ℕ

-- The calls of the rest of the virtual machine: a delivered interrupt, and a rendezvous of all
-- virtual CPUs to run `vioapic_update_tmr`.
pub data Call : Type 0 where
  deliver : Message → Call
  rendezvous : Call

-- `struct vioapic`, and the calls it has made, the last one first.
pub record Vioapic : Type 0 where
  pub id : ℕ
  pub ioregsel : ℕ
  pub rtbl : List Pin
  pub calls : List Call

-- `REDIR_ENTRIES` and `RTBL_RO_BITS`.
abbrev pub redir_entries : ℕ
redir_entries = 24

abbrev pub rtbl_ro_bits : ℕ
rtbl_ro_bits = 0x5000

abbrev pub no_pin : Pin
no_pin = record { reg = 0; acnt = pos 0 }

abbrev pub entry : Vioapic → ℕ → Pin
entry v pin = get_or v.rtbl pin no_pin

abbrev pub set_entry : Vioapic → ℕ → Pin → Vioapic
set_entry v pin e = record v { rtbl = set v.rtbl pin e }

-- What the entry says of an interrupt: the level bit is the bit 15, `IOART_DESTMOD` the bit 11,
-- `IOART_DELMOD` the mask 0x700 and `IOART_INTVEC` 0xff.
abbrev pub low : ℕ → ℕ
low reg = reg % 2 ^ 32

abbrev pub high : ℕ → ℕ
high reg = reg / 2 ^ 32 % 2 ^ 32

abbrev pub is_level : ℕ → Bool
is_level reg = has_bit (low reg) 15

abbrev pub message : ℕ → Message
message reg = record {
  level = is_level reg;
  dest = high reg / 2 ^ 24;
  phys = bit_and (low reg) 0x800 == 0;
  delmode = bit_and (low reg) 0x700;
  vector = bit_and (low reg) 0xff;
}

-- `IOART_INTMASK` is the bit 16, `IOART_REM_IRR` the bit 14.
unfoldable pub vioapic_send_intr : Vioapic → ℕ → Vioapic
vioapic_send_intr v pin =
    let e = entry v pin in
    if has_bit (low e.reg) 16
    then v
    else (let u =
          if is_level e.reg then set_entry v pin (record e { reg = set_bit e.reg 14 }) else v in
        record u { calls = deliver (message e.reg) ∷ u.calls })

unfoldable pub vioapic_set_pinstate : Vioapic → ℕ → Bool → Vioapic
unfolding vioapic_send_intr
vioapic_set_pinstate v pin newstate =
    let e = entry v pin in
    let newcnt = if newstate then succ_ℤ e.acnt else pred_ℤ e.acnt in
    let u = set_entry v pin (record e { acnt = newcnt }) in
    if is_nat e.acnt 0 && is_nat newcnt 1 then vioapic_send_intr u pin else u

-- `enum irqstate`
pub data IrqState : Type 0 where
  asserted : IrqState
  deasserted : IrqState
  pulsed : IrqState

unfoldable pub vioapic_set_irqstate : Vioapic → ℤ → IrqState → Status × Vioapic
vioapic_set_irqstate v (negsuc n) irqstate = (einval, v)
vioapic_set_irqstate v (pos irq) irqstate = if not (ltb irq redir_entries) then (einval, v) else (
  ok,
  elim irqstate [
    | asserted ↦ vioapic_set_pinstate v irq true
    | deasserted ↦ vioapic_set_pinstate v irq false
    | pulsed ↦ vioapic_set_pinstate (vioapic_set_pinstate v irq true) irq false
  ],
)

-- `vioapic_update_tmr`: the calls of `vlapic_set_tmr_level` after the reset of the trigger modes.
unfoldable pub vioapic_update_tmr : List Pin → List Message
vioapic_update_tmr [] = []
vioapic_update_tmr (e ∷ rtbl) =
    let rest = vioapic_update_tmr rtbl in if is_level e.reg then message e.reg ∷ rest else rest

-- `regnum >= IOAPIC_REDTBL && regnum < IOAPIC_REDTBL + REDIR_ENTRIES * 2`, the pin and the shift.
abbrev pub is_redtbl : ℕ → Bool
is_redtbl regnum = not (ltb regnum 0x10) && ltb regnum (0x10 + redir_entries * 2)

abbrev pub pin_of : ℕ → ℕ
pin_of regnum = (regnum - 0x10) / 2

abbrev pub shift_of : ℕ → ℕ
shift_of regnum = if not ((regnum - 0x10) % 2 == 0) then 32 else 0

unfoldable pub vioapic_read : Vioapic → ℕ → ℕ
vioapic_read v addr =
    let regnum = bit_and addr 0xff in
    if regnum == 0
    then v.id
    else if regnum == 1
    then 0x170011
    else if regnum == 2
    then v.id
    else if is_redtbl regnum
    then (entry v (pin_of regnum)).reg / 2 ^ shift_of regnum % 2 ^ 32
    else 0

-- The new value of an entry: `reg &= ~mask64 | RTBL_RO_BITS; reg |= data64 & ~RTBL_RO_BITS`.
unfoldable pub merge : ℕ → ℕ → ℕ → ℕ
merge shift reg data_ =
    let data64 = data_ * 2 ^ shift in
    let mask64 = 0xffffffff * 2 ^ shift in
    bit_or (bit_and reg (bit_or (bit_not 64 mask64) rtbl_ro_bits))
      (bit_and data64 (bit_not 64 rtbl_ro_bits))

-- `changed & ~(IOART_INTMASK | IOART_INTPOL)` as a test.
abbrev pub needs_update : ℕ → ℕ → Bool
needs_update last reg = not (bit_and (bit_xor last reg) (bit_not 64 0x12000) == 0)

-- The interrupt at the end of a write: not masked, the last one is over, and the pin is asserted.
unfoldable pub send_asserted : Vioapic → ℕ → Vioapic
unfolding vioapic_send_intr
send_asserted v pin =
    let e = entry v pin in
    if not (has_bit e.reg 16) && (not (has_bit e.reg 14) && is_positive e.acnt)
    then vioapic_send_intr v pin
    else v

-- The part of `vioapic_write` for an entry; `others` is what other calls do while the lock is
-- released.
unfoldable pub write_entry : (Vioapic → Vioapic) → Vioapic → ℕ → ℕ → Vioapic
unfolding merge send_asserted
write_entry others v regnum data_ =
    let pin = pin_of regnum in
    let e = entry v pin in
    let reg = merge (shift_of regnum) e.reg data_ in
    let u = set_entry v pin (record e { reg = reg }) in
    let w =
      if needs_update e.reg reg then others (record u { calls = rendezvous ∷ u.calls }) else u in
    send_asserted w pin

-- The version and arbitration registers, 1 and 2, are only read. `APIC_ID_MASK` is 0xff000000.
unfoldable pub vioapic_write : (Vioapic → Vioapic) → Vioapic → ℕ → ℕ → Vioapic
unfolding write_entry
vioapic_write others v addr data_ =
    let regnum = bit_and addr 0xff in
    let u = if regnum == 0 then record v { id = bit_and data_ 0xff000000 } else v in
    if is_redtbl regnum then write_entry others u regnum data_ else u

-- `vioapic_mmio_rw` at `offset = gpa - VIOAPIC_BASE`: the value that is read, and the state. The
-- selector and the window are at 0 and 0x10. `vioapic_mmio_read` and `vioapic_mmio_write` call it
-- with `doread`.
unfoldable pub vioapic_mmio_rw : (Vioapic → Vioapic) → Vioapic → ℕ → ℕ → ℕ → Bool → ℕ × Vioapic
unfolding vioapic_read vioapic_write
vioapic_mmio_rw others v offset data_ size doread =
    if not (size == 4) || (not (offset == 0) && not (offset == 0x10))
    then (if doread then 0 else data_, v)
    else if offset == 0
    then if doread then (v.ioregsel, v) else (data_, record v { ioregsel = data_ % 2 ^ 32 })
    else if doread
    then (vioapic_read v v.ioregsel, v)
    else (data_, vioapic_write others v v.ioregsel (data_ % 2 ^ 32))

-- One turn of the loop of `vioapic_process_eoi`.
unfoldable pub eoi_pin : Vioapic → ℕ → ℕ → Vioapic
unfolding vioapic_send_intr
eoi_pin v vector pin =
    let e = entry v pin in
    if not (has_bit e.reg 14)
    then v
    else if not (bit_and e.reg 0xff == vector)
    then v
    else (let u = set_entry v pin (record e { reg = clear_bit 64 e.reg 14 }) in
        if is_positive e.acnt then vioapic_send_intr u pin else u)

-- The loop from `pin` on, for `count` pins.
unfoldable pub eoi_loop : Vioapic → ℕ → ℕ → ℕ → Vioapic
unfolding eoi_pin
eoi_loop v vector pin zero = v
eoi_loop v vector pin (suc count) = eoi_loop (eoi_pin v vector pin) vector (suc pin) count

unfoldable pub vioapic_process_eoi : Vioapic → ℕ → Vioapic
unfolding eoi_loop
vioapic_process_eoi v vector = eoi_loop v vector 0 redir_entries

unfoldable pub vioapic_init : Vioapic
vioapic_init = record {
  id = 0;
  ioregsel = 0;
  rtbl = replicate redir_entries (record { reg = 0x0001000000010000; acnt = pos 0 });
  calls = [];
}
