-- ===== src/Vlapic/Tests.antt =====
-- Runs of the local APICs, and the theorems at concrete states (src/vmm/io/vlapic.c).
use xhyve_manager.Base.{
  ℕ, ◌≡◌, refl, true, false, Option, none, some, List, [], ◌∷◌, take, ◌↔◌, arith, ◌<◌, ◌>>=◌,
  if◌then◌else◌, ◌==◌, ◌^◌, ◌+◌,
}
use xhyve_manager.Vlapic.Vectors.{has_vector, highest}
use xhyve_manager.Vlapic.Device.{
  bs_sipi, bs_running, Vlapic, prio, isrvec, vlapic_pending_intr, vlapic_intr_accepted,
  vlapic_process_eoi,
}
use xhyve_manager.Vlapic.Lvt.{set_error_with, vlapic_set_error, vlapic_fire_lvt}
use xhyve_manager.Vlapic.Ipi.{vlapic_icrlo_write_handler, Vm, vlapic_calcdest}
use xhyve_manager.Vlapic.Lapic.{is_in}
use xhyve_manager.Vlapic.Service.{IsServed}
use xhyve_manager.Vlapic.Kept.{same-IsServed}
use xhyve_manager.Vlapic.Calls.{IsMachine}
use xhyve_manager.Vlapic.Runs.{
  Op, write, enter, deliver, vlapic_run, machine, machine-IsMachine, vlapic_run-IsMachine,
}
use xhyve_manager.Vlapic.Nesting.{vlapic_pending_intr_iff, process_eoi-intr_accepted}
use xhyve_manager.Vlapic.Boot.{boot, Boots, icrlo_write_handler-Boots}
use xhyve_manager.Vlapic.Startup.{init_ipi, startup_ipi, startup_ipi-init_ipi}
use xhyve_manager.Vlapic.Errors.{vlapic_set_error_lem}
use xhyve_manager.Vlapic.Named.{IsNamed}
use xhyve_manager.Vlapic.Destinations.{vlapic_calcdest_logical}

-- Two CPUs; the boot CPU enables its APIC.
abbrev two_cpus : List ℕ
two_cpus = 0 ∷ 1 ∷ []

abbrev service : List Op
service =
    write 0 0 true 0xf0 0x1ff
    ∷ deliver 0 true 0 0x31
    ∷ enter 0
    ∷ deliver 0 true 0 0x52
    ∷ enter 0
    ∷ []

-- The deepest vector, the depth and the priority of the boot CPU after a run.
abbrev served_by : Option Vm → Option (ℕ × ℕ × ℕ)
served_by m = m >>= λ vm. let s = vm.lapics 0 in some (isrvec s, s.isrvec_stk_top, s.ppr)

nested_run : served_by (vlapic_run (some (machine two_cpus)) service) ≡ some (0x52, 2, 0x50)
unfolding vlapic_run machine
nested_run = refl

ended_run :
    served_by
      (vlapic_run (vlapic_run (some (machine two_cpus)) service) (write 0 0 true 0xb0 0 ∷ []))
    ≡ some (0x31, 1, 0x30)
unfolding vlapic_run machine
ended_run = refl

vlapic_run-IsMachine_example :
    (vm : Vm) × (vlapic_run (some (machine two_cpus)) service ≡ some vm) × IsMachine vm
vlapic_run-IsMachine_example = vlapic_run-IsMachine two_cpus service

-- The first APIC with the level-triggered vector 0x31 requested.
abbrev boot_apic : Vlapic
boot_apic = (machine two_cpus).lapics 0

abbrev requesting : Vlapic
requesting = record boot_apic {
  irr = λ j. if j == 1 then 2 ^ 17 else 0;
  tmr = λ j. if j == 1 then 2 ^ 17 else 0;
}

requesting-IsServed : IsServed requesting
unfolding machine
requesting-IsServed =
    same-IsServed boot_apic requesting refl refl refl refl refl
      ((machine-IsMachine two_cpus).served 0)

requested : vlapic_pending_intr requesting ≡ some 0x31
unfolding vlapic_pending_intr machine
requested = refl

vlapic_pending_intr_iff_example : (vlapic_pending_intr requesting ≡ some 0x31) ↔ (
    (highest requesting.irr ≡ some 0x31)
    × (prio requesting.tpr < prio 0x31)
    × (prio (isrvec requesting) < prio 0x31))
vlapic_pending_intr_iff_example = vlapic_pending_intr_iff requesting 0x31 requesting-IsServed

process_eoi-intr_accepted_example :
    (t : Vlapic) × (u : Vlapic) × (vlapic_intr_accepted requesting 0x31 ≡ some t)
    × (vlapic_process_eoi t ≡ some u)
    × (has_vector u.isr 0x31 ≡ has_vector requesting.isr 0x31)
    × (u.isrvec_stk_top ≡ requesting.isrvec_stk_top)
    × (u.ppr ≡ requesting.ppr)
    × (has_vector u.irr 0x31 ≡ false)
    × (u.eois
        ≡ (if has_vector requesting.tmr 0x31 then 0x31 ∷ requesting.eois else requesting.eois))
process_eoi-intr_accepted_example =
    process_eoi-intr_accepted requesting 0x31 0x31 requesting-IsServed requested

-- An error while the error entry has no vector of its own.
vlapic_set_error_lem_example :
    vlapic_set_error (record boot_apic { lvt_last = λ j. 3 }) 0x40
    ≡ set_error_with vlapic_fire_lvt (record boot_apic { lvt_last = λ j. 3 }) 0x40
vlapic_set_error_lem_example = vlapic_set_error_lem (record boot_apic { lvt_last = λ j. 3 }) 0x40

-- Both CPUs are addressed by the bits 24 and 25 of their logical destinations in the flat model.
abbrev flat_vm : Vm
flat_vm = record {
  lapics = λ j. record boot_apic { ldr = 2 ^ (24 + j); dfr = 0xffffffff };
  active = two_cpus;
}

flat_addressed : vlapic_calcdest flat_vm 3 false false false ≡ two_cpus
unfolding vlapic_calcdest
flat_addressed = refl

vlapic_calcdest_logical_example :
    let cpus = vlapic_calcdest flat_vm 2 false false false in
    ((is_in 1 cpus ≡ true) ↔ ((is_in 1 flat_vm.active ≡ true) × IsNamed (flat_vm.lapics 1) 2 false))
    × (vlapic_calcdest flat_vm 2 false true false ≡ take 1 cpus)
vlapic_calcdest_logical_example = vlapic_calcdest_logical flat_vm 2 1 false refl

-- Two APICs of the cluster 5 in the cluster model, of which the destination names the second.
abbrev clusters : Vm
clusters = record {
  lapics = λ j. record boot_apic { ldr = 0x50000000 + 2 ^ (24 + j); dfr = 0x0fffffff };
  active = two_cpus;
}

second_named : vlapic_calcdest clusters 0x52 false false false ≡ 1 ∷ []
unfolding vlapic_calcdest machine
second_named = refl

-- The second CPU waits for the startup interrupt that the boot CPU sends.
abbrev starting : Vm
starting = record {
  lapics = λ j. record boot_apic {
    icr_lo = 0x469a;
    icr_hi = 2 ^ 24;
    boot_state = if j == 0 then bs_running else bs_sipi;
  };
  active = two_cpus;
}

second_starts : (vlapic_icrlo_write_handler starting 0).spinup ≡ some (1, 0x9a000)
unfolding vlapic_icrlo_write_handler machine
second_starts = refl

icrlo_write_handler-Boots_example : Boots starting 0 (vlapic_icrlo_write_handler starting 0)
icrlo_write_handler-Boots_example = icrlo_write_handler-Boots starting 0

startup_ipi-init_ipi_example :
    let vm = machine two_cpus in
    let first = startup_ipi (init_ipi vm 1).vm 1 0x9a in
    (first.spinup ≡ some (1, 0x9a000))
    × (boot first.vm 1 ≡ bs_running)
    × ((startup_ipi first.vm 1 0x9a).spinup ≡ none)
unfolding machine
startup_ipi-init_ipi_example =
    startup_ipi-init_ipi (machine two_cpus) 1 0x9a (omega arith) (omega arith) (omega arith) refl
      refl
