-- ===== src/Vlapic/Ipi.antt =====
-- Interrupts between the virtual CPUs of a machine: destinations and the interrupt command register
-- (src/vmm/io/vlapic.c), with lapic_set_intr (src/vmm/vmm_lapic.c).
use xhyve_manager.Base.{
  ℕ, ◌+◌, ◌*◌, ◌/◌, ◌%◌, ◌^◌, Bool, false, not, ◌&&◌, ◌||◌, Option, none, some, List, [], ◌∷◌, ◌==◌,
  ltb, leb, if◌then◌else◌, bit_and, ◌>>=◌, Status, ok, einval,
}
use xhyve_manager.Base.Bits.{has_bit, clear_bit}
use xhyve_manager.Vlapic.Device.{BootState, bs_init, bs_sipi, bs_running, Vlapic, x2apic}
use xhyve_manager.Vlapic.Lvt.{notify_if, vlapic_set_intr_ready, vlapic_set_error}
use xhyve_manager.Vlapic.Access.{write_page}

-- The local APICs by virtual CPU, and the active CPUs in increasing order (`vm_active_cpus`); a set
-- of CPUs is such a list, which `CPU_FFS` goes through from the front.
pub record Vm : Type 0 where
  pub lapics : ℕ → Vlapic
  pub active : List ℕ

abbrev pub put_lapic : Vm → ℕ → Vlapic → Vm
put_lapic vm cpu s = record vm { lapics = λ j. if j == cpu then s else vm.lapics j }

-- `VM_MAXCPU`.
abbrev pub vm_maxcpu : ℕ
vm_maxcpu = 16

-- Whether the logical destination names the APIC: by its bit in the flat model, and by its cluster
-- and its bit there in the cluster model.
unfoldable pub is_addressed : Vlapic → ℕ → Bool → Bool
is_addressed s dest x2apic_dest =
    let model = bit_and s.dfr 0xf0000000 in
    let mda_cluster_id = if x2apic_dest then dest / 2 ^ 16 else dest / 16 % 16 in
    let mda_cluster_ldest = if x2apic_dest then dest % 2 ^ 16 else dest % 16 in
    let cluster = if x2apic s then s.ldr / 2 ^ 16 else s.ldr / 2 ^ 28 in
    let ldest = if x2apic s then s.ldr % 2 ^ 16 else s.ldr / 2 ^ 24 % 16 in
    if model == 0xf0000000
    then not (bit_and (dest % 256) (s.ldr / 2 ^ 24) == 0)
    else if model == 0
    then (cluster == mda_cluster_id) && not (bit_and mda_cluster_ldest ldest == 0)
    else false

-- The loop over the active CPUs; with `lowprio` it stops at the first that is addressed.
unfoldable pub addressed : Vm → ℕ → Bool → Bool → List ℕ → List ℕ
unfolding is_addressed
addressed vm dest lowprio x2apic_dest [] = []
addressed vm dest lowprio x2apic_dest (cpu ∷ cpus) =
    let rest = addressed vm dest lowprio x2apic_dest cpus in
    if is_addressed (vm.lapics cpu) dest x2apic_dest
    then cpu ∷ (if lowprio then [] else rest)
    else rest

-- `vlapic_calcdest`: `*dmask`. A physical destination of 2^31 or more, which only an x2APIC can send,
-- is a negative number in the code, which then sets a bit outside of the set; here it names no CPU.
unfoldable pub vlapic_calcdest : Vm → ℕ → Bool → Bool → Bool → List ℕ
unfolding addressed
vlapic_calcdest vm dest phys lowprio x2apic_dest =
    if (x2apic_dest && dest == 0xffffffff) || (not x2apic_dest && dest == 0xff)
    then vm.active
    else if phys
    then if ltb dest vm_maxcpu then dest ∷ [] else []
    else addressed vm dest lowprio x2apic_dest vm.active

-- `lapic_set_intr`.
unfoldable pub lapic_set_intr : Vm → ℕ → ℕ → Status × Vm
unfolding vlapic_set_intr_ready
lapic_set_intr vm cpu vector =
    if leb vm_maxcpu cpu || (ltb vector 16 || ltb 255 vector)
    then (einval, vm)
    else (ok, put_lapic vm cpu (notify_if (vlapic_set_intr_ready (vm.lapics cpu) vector)))

abbrev pub inject_nmi : Vlapic → Vlapic
inject_nmi s = record s { nmis = s.nmis + 1 }

abbrev pub inject_extint : Vlapic → Vlapic
inject_extint s = record s { extints = s.extints + 1 }

-- An interrupt to each CPU of a set; the statuses are dropped.
unfoldable pub set_intrs : Vm → List ℕ → ℕ → Vm
unfolding lapic_set_intr
set_intrs vm [] vector = vm
set_intrs vm (cpu ∷ cpus) vector = set_intrs (lapic_set_intr vm cpu vector).1 cpus vector

abbrev pub inject_all : (Vlapic → Vlapic) → Vm → List ℕ → Vm
inject_all inject vm [] = vm
inject_all inject vm (cpu ∷ cpus) =
    inject_all inject (put_lapic vm cpu (inject (vm.lapics cpu))) cpus

abbrev pub without : List ℕ → ℕ → List ℕ
without [] cpu = []
without (c ∷ cs) cpu = if c == cpu then without cs cpu else c ∷ without cs cpu

-- What a write of the interrupt command register returns: its value, and the CPU to start with its
-- instruction pointer, when it sets `*retu`.
pub record IcrResult : Type 0 where
  pub retval : ℕ
  pub spinup : Option (ℕ × ℕ)
  pub vm : Vm

abbrev pub handled : Vm → IcrResult
handled vm = record { retval = 0; spinup = none; vm = vm }

-- The destinations of a fixed interrupt or an NMI, by the destination shorthand.
unfoldable pub shorthand : Vm → ℕ → ℕ → ℕ → List ℕ
unfolding vlapic_calcdest
shorthand vm cpu icr dest =
    let kind = bit_and icr 0xc0000 in
    if kind == 0
    then vlapic_calcdest vm dest (not (has_bit icr 11)) false (x2apic (vm.lapics cpu))
    else if kind == 0x40000
    then cpu ∷ []
    else if kind == 0x80000
    then vm.active
    else without vm.active cpu

-- An INIT or a startup interrupt from the boot CPU to another moves that one's state on.
abbrev pub sipi_from : BootState → Vm → ℕ → Vm
sipi_from bs_init vm dest = put_lapic vm dest (record (vm.lapics dest) { boot_state = bs_sipi })
sipi_from bs_sipi vm dest = vm
sipi_from bs_running vm dest = vm

unfoldable pub to_sipi : Vm → ℕ → Vm
to_sipi vm dest = sipi_from (vm.lapics dest).boot_state vm dest

abbrev pub started : Vm → ℕ → ℕ → IcrResult
started vm dest vec = record {
  retval = 0;
  spinup = some (dest, vec * 2 ^ 12 % 2 ^ 32);
  vm = put_lapic vm dest (record (vm.lapics dest) { boot_state = bs_running });
}

abbrev pub start_from : BootState → Vm → ℕ → ℕ → IcrResult
start_from bs_init vm dest vec = handled vm
start_from bs_sipi vm dest vec = started vm dest vec
start_from bs_running vm dest vec = handled vm

unfoldable pub start_up : Vm → ℕ → ℕ → IcrResult
start_up vm dest vec = start_from (vm.lapics dest).boot_state vm dest vec

-- `vlapic_icrlo_write_handler`; the bit 12 is the delivery status.
unfoldable pub vlapic_icrlo_write_handler : Vm → ℕ → IcrResult
unfolding shorthand to_sipi start_up set_intrs vlapic_set_error
vlapic_icrlo_write_handler vm0 cpu =
    let s = record (vm0.lapics cpu) { icr_lo = clear_bit 32 (vm0.lapics cpu).icr_lo 12 } in
    let vm = put_lapic vm0 cpu s in
    let icr = s.icr_lo in
    let dest = if x2apic s then s.icr_hi else s.icr_hi / 2 ^ 24 in
    let vec = bit_and icr 0xff in
    let mode = bit_and icr 0x700 in
    let cpus = shorthand vm cpu icr dest in
    let from_boot_cpu = cpu == 0 && (not (dest == 0) && ltb dest vm_maxcpu) in
    if mode == 0 && ltb vec 16
    then handled (put_lapic vm cpu (vlapic_set_error s 0x20))
    else if mode == 0
    then handled (set_intrs vm cpus vec)
    else if mode == 0x400
    then handled (inject_all inject_nmi vm cpus)
    else if mode == 0x500 && not (has_bit icr 14)
    then handled vm
    else if mode == 0x500 && from_boot_cpu
    then handled (to_sipi vm dest)
    else if mode == 0x600 && from_boot_cpu
    then start_up vm dest vec
    else record { retval = 1; spinup = none; vm = vm }

unfoldable pub vlapic_self_ipi_handler : Vm → ℕ → ℕ → Vm
unfolding lapic_set_intr
vlapic_self_ipi_handler vm cpu val = (lapic_set_intr vm cpu (val % 256)).1

-- `vlapic_write`.
unfoldable pub vlapic_write : Vm → ℕ → ℕ → Bool → ℕ → ℕ → Option IcrResult
unfolding vlapic_icrlo_write_handler vlapic_self_ipi_handler write_page
vlapic_write vm cpu now mmio_access offset value =
    let s = vm.lapics cpu in
    let t = record s {
      icr_lo = value % 2 ^ 32;
      icr_hi = if x2apic s then value / 2 ^ 32 % 2 ^ 32 else s.icr_hi;
    } in
    if ltb 1024 offset || ((x2apic s && mmio_access) || (not (x2apic s) && not mmio_access))
    then some (handled vm)
    else if offset == 0x300
    then some (vlapic_icrlo_write_handler (put_lapic vm cpu t) cpu)
    else if offset == 0x3f0
    then some (handled (if x2apic s then vlapic_self_ipi_handler vm cpu value else vm))
    else write_page s now offset value >>= λ u. some (handled (put_lapic vm cpu u))
