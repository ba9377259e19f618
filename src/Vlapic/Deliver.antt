-- ===== src/Vlapic/Deliver.antt =====
-- The interrupts of devices keep the priorities of the local APICs right (src/vmm/io/vlapic.c,
-- src/vmm/vmm_lapic.c).
use xhyve_manager.Base.{
  ℕ, ◌/◌, ◌%◌, ◌^◌, refl, Bool, true, false, not, ◌&&◌, ◌||◌, ◌==◌, bit_and, List, [], ◌∷◌, Status,
  ok, fail, einval, ebusy, Bool-cases, inl, inr,
}
use xhyve_manager.Vlapic.Lvt.{vlapic_trigger_lvt}
use xhyve_manager.Vlapic.Reset.{vlapic_set_tmr}
use xhyve_manager.Vlapic.Ipi.{Vm, put_lapic, vlapic_calcdest, inject_extint, set_intrs, inject_all}
use xhyve_manager.Vlapic.Lapic.{
  vlapic_deliver_intr, is_in, stop_at, vlapic_set_tmr_level, trigger_all, lapic_intr_msi,
}
use xhyve_manager.Vlapic.Kept.{same-IsServed, trigger_lvt-IsServed}
use xhyve_manager.Vlapic.Calls.{
  IsMachine, either_vm, put_lapic-IsMachine, set_intrs-IsMachine, inject_all-IsMachine,
  extint-IsServed,
}

pub deliver-IsMachine :
    (vm : Vm) (dest : ℕ) (phys : Bool) (delmode vec : ℕ)
    → IsMachine vm
    → IsMachine (vlapic_deliver_intr vm dest phys delmode vec)
unfolding vlapic_deliver_intr
deliver-IsMachine vm dest phys delmode vec h =
    let cpus = vlapic_calcdest vm dest phys (delmode == 0x100) false in
    either_vm (not (delmode == 0) && (not (delmode == 0x100) && not (delmode == 0x700))) vm _ h (
      either_vm (delmode == 0x700) (inject_all inject_extint vm cpus) (set_intrs vm cpus vec)
        (inject_all-IsMachine inject_extint vm cpus extint-IsServed h)
        (set_intrs-IsMachine vm cpus vec h))

pub msi-IsMachine :
    (vm : Vm) (addr msg : ℕ) → IsMachine vm → IsMachine (lapic_intr_msi vm addr msg).1
unfolding lapic_intr_msi
msi-IsMachine vm addr msg h = elim (Bool-cases (not (bit_and addr 0xfff00000 == 0xfee00000))) [
  | inl bad ↦ rw bad h
  | inr good ↦ rw good (
      deliver-IsMachine vm (addr / 2 ^ 12 % 256) (not (bit_and addr 0xc == 0xc)) (bit_and msg 0x700)
        (msg % 256) h)
]

pub set_tmr_level-IsMachine :
    (vm : Vm) (cpu dest : ℕ) (phys : Bool) (delmode vector : ℕ)
    → IsMachine vm
    → IsMachine (vlapic_set_tmr_level vm cpu dest phys delmode vector)
unfolding vlapic_set_tmr_level
set_tmr_level-IsMachine vm cpu dest phys delmode vector h =
    let cpus = vlapic_calcdest vm dest phys (delmode == 0x100) false in
    either_vm ((delmode == 0 || delmode == 0x100) && is_in cpu cpus)
      (put_lapic vm cpu (vlapic_set_tmr (vm.lapics cpu) vector true)) vm
      (put_lapic-IsMachine vm cpu _
        (same-IsServed (vm.lapics cpu) _ refl refl refl refl refl (h.served cpu)) h)
      h

stop_at-IsMachine :
    (error : Status) (after : Vm) (rest : Status × Vm)
    → IsMachine after
    → IsMachine rest.1
    → IsMachine (stop_at error after rest).1
stop_at-IsMachine ok after rest h hr = hr
stop_at-IsMachine fail after rest h hr = h
stop_at-IsMachine einval after rest h hr = h
stop_at-IsMachine ebusy after rest h hr = h

pub trigger_all-IsMachine :
    (vm : Vm) (cpus : List ℕ) (vector : ℕ) → IsMachine vm → IsMachine (trigger_all vm cpus vector).1
unfolding trigger_all
trigger_all-IsMachine vm [] vector h = h
trigger_all-IsMachine vm (cpu ∷ cpus) vector h =
    let r = vlapic_trigger_lvt (vm.lapics cpu) vector in
    let after = put_lapic vm cpu r.1 in
    let ha =
      put_lapic-IsMachine vm cpu r.1 (trigger_lvt-IsServed (vm.lapics cpu) vector (h.served cpu))
        h in
    stop_at-IsMachine r.0 after (trigger_all after cpus vector) ha
      (trigger_all-IsMachine after cpus vector ha)
