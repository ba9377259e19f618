-- ===== src/Vlapic/Lapic.antt =====
-- The local APICs as the rest of the virtual machine reaches them: interrupts of devices, MSIs, and
-- the accesses of the guest (src/vmm/vmm_lapic.c and the end of src/vmm/io/vlapic.c).
use xhyve_manager.Base.{
  ℕ, ◌-◌, ◌*◌, ◌/◌, ◌%◌, ◌^◌, Bool, true, false, not, ◌&&◌, ◌||◌, Option, none, some, List, [], ◌∷◌,
  ◌==◌, leb, if◌then◌else◌, bit_and, ◌>>=◌, Status, ok, fail, einval, ebusy,
}
use xhyve_manager.Vlapic.Lvt.{vlapic_trigger_lvt}
use xhyve_manager.Vlapic.Access.{vlapic_read}
use xhyve_manager.Vlapic.Reset.{vlapic_set_apicbase, vlapic_set_tmr}
use xhyve_manager.Vlapic.Ipi.{
  Vm, put_lapic, vm_maxcpu, vlapic_calcdest, set_intrs, inject_all, inject_extint, IcrResult,
  handled, vlapic_write,
}

-- `vlapic_deliver_intr`: `IOART_DELFIXED`, `IOART_DELLOPRI` and `IOART_DELEXINT`.
unfoldable pub vlapic_deliver_intr : Vm → ℕ → Bool → ℕ → ℕ → Vm
unfolding vlapic_calcdest set_intrs
vlapic_deliver_intr vm dest phys delmode vec =
    let cpus = vlapic_calcdest vm dest phys (delmode == 0x100) false in
    if not (delmode == 0) && (not (delmode == 0x100) && not (delmode == 0x700))
    then vm
    else if delmode == 0x700
    then inject_all inject_extint vm cpus
    else set_intrs vm cpus vec

-- `vlapic_set_tmr_level` of the APIC of a CPU.
abbrev pub is_in : ℕ → List ℕ → Bool
is_in cpu [] = false
is_in cpu (c ∷ cs) = c == cpu || is_in cpu cs

unfoldable pub vlapic_set_tmr_level : Vm → ℕ → ℕ → Bool → ℕ → ℕ → Vm
unfolding vlapic_calcdest
vlapic_set_tmr_level vm cpu dest phys delmode vector =
    if (delmode == 0 || delmode == 0x100)
      && is_in cpu (vlapic_calcdest vm dest phys (delmode == 0x100) false)
    then put_lapic vm cpu (vlapic_set_tmr (vm.lapics cpu) vector true)
    else vm

-- `lapic_set_local_intr` of one CPU, or of the active ones for a CPU of -1, which is none here: the
-- first error ends the loop.
abbrev pub stop_at : Status → Vm → Status × Vm → Status × Vm
stop_at ok after rest = rest
stop_at fail after rest = (fail, after)
stop_at einval after rest = (einval, after)
stop_at ebusy after rest = (ebusy, after)

unfoldable pub trigger_all : Vm → List ℕ → ℕ → Status × Vm
unfolding vlapic_trigger_lvt
trigger_all vm [] vector = (ok, vm)
trigger_all vm (cpu ∷ cpus) vector =
    let (error, s) = vlapic_trigger_lvt (vm.lapics cpu) vector in
    let after = put_lapic vm cpu s in
    let rest = trigger_all after cpus vector in stop_at error after rest

unfoldable pub lapic_set_local_intr : Vm → Option ℕ → ℕ → Status × Vm
unfolding trigger_all
lapic_set_local_intr vm none vector = trigger_all vm vm.active vector
lapic_set_local_intr vm (some cpu) vector =
    if leb vm_maxcpu cpu then (einval, vm) else trigger_all vm (cpu ∷ []) vector

-- `lapic_intr_msi`: the redirection hint and the destination mode are the bits 3 and 2.
unfoldable pub lapic_intr_msi : Vm → ℕ → ℕ → Status × Vm
unfolding vlapic_deliver_intr
lapic_intr_msi vm addr msg =
    let dest = addr / 2 ^ 12 % 256 in
    let phys = not (bit_and addr 0xc == 0xc) in
    if not (bit_and addr 0xfff00000 == 0xfee00000)
    then (fail, vm)
    else (ok, vlapic_deliver_intr vm dest phys (bit_and msg 0x700) (msg % 256))

-- `MSR_APICBASE` is 0x1b.
unfoldable pub lapic_msr : ℕ → Bool
lapic_msr msr = (leb 0x800 msr && leb msr 0xbff) || msr == 0x1b

abbrev pub x2apic_msr_to_regoff : ℕ → ℕ
x2apic_msr_to_regoff msr = (msr - 0x800) * 16

unfoldable pub lapic_rdmsr : Vm → ℕ → ℕ → ℕ → ℕ
unfolding vlapic_read
lapic_rdmsr vm cpu now msr =
    if msr == 0x1b
    then (vm.lapics cpu).msr_apicbase
    else vlapic_read (vm.lapics cpu) now false (x2apic_msr_to_regoff msr)

-- The result is a status of -1 where `vlapic_set_apicbase` fails, and else that of the write.
unfoldable pub lapic_wrmsr : Vm → ℕ → ℕ → ℕ → ℕ → Option (Status × IcrResult)
unfolding vlapic_write vlapic_set_apicbase
lapic_wrmsr vm cpu now msr val =
    if msr == 0x1b
    then some (vlapic_set_apicbase (vm.lapics cpu) val, handled vm)
    else vlapic_write vm cpu now false (x2apic_msr_to_regoff msr) val >>= λ r. some (ok, r)

-- `lapic_mmio_write` and `lapic_mmio_read` at an offset from `DEFAULT_APIC_BASE`.
unfoldable pub lapic_mmio_write : Vm → ℕ → ℕ → ℕ → ℕ → ℕ → Option (Status × IcrResult)
unfolding vlapic_write
lapic_mmio_write vm cpu now off wval size =
    if not (size == 4) || not (off % 16 == 0)
    then some (einval, handled vm)
    else vlapic_write vm cpu now true off wval >>= λ r. some (ok, r)

unfoldable pub lapic_mmio_read : Vm → ℕ → ℕ → ℕ → Status × ℕ
unfolding vlapic_read
lapic_mmio_read vm cpu now off =
    if not (off / 4 * 4 % 16 == 0)
    then (einval, 0)
    else (ok, vlapic_read (vm.lapics cpu) now true (off / 4 * 4))
