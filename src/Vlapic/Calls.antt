-- ===== src/Vlapic/Calls.antt =====
-- The calls of the local APICs of a machine keep their priorities right (src/vmm/io/vlapic.c, src/vmm/vmm_lapic.c).
use xhyve_manager.Base.{
  ℕ, ◌/◌, ◌%◌, ◌^◌, ◌≡◌, refl, Bool, true, false, not, ◌&&◌, ◌||◌, Option, none, some, ◌==◌, ltb,
  leb, if◌then◌else◌, bit_and, List, [], ◌∷◌, ◌>>=◌, Bool-cases, inl, inr,
}
use xhyve_manager.Base.Bits.{has_bit, clear_bit}
use xhyve_manager.Vlapic.Device.{BootState, bs_init, bs_sipi, bs_running, Vlapic, x2apic}
use xhyve_manager.Vlapic.Lvt.{vlapic_set_error, vlapic_set_intr_ready}
use xhyve_manager.Vlapic.Access.{write_page}
use xhyve_manager.Vlapic.Ipi.{
  Vm, put_lapic, vm_maxcpu, lapic_set_intr, inject_nmi, inject_extint, set_intrs, inject_all,
  IcrResult, handled, shorthand, to_sipi, sipi_from, start_from, start_up,
  vlapic_icrlo_write_handler, vlapic_self_ipi_handler, vlapic_write,
}
use xhyve_manager.Vlapic.Service.{IsServed}
use xhyve_manager.Vlapic.Kept.{
  same-IsServed, notify_if-IsServed, set_error-IsServed, set_intr_ready-IsServed,
}
use xhyve_manager.Vlapic.Machine.{Serves, write_page-Serves}

-- The priorities of every local APIC are right.
pub record IsMachine (vm : Vm) : Type 0 where
  pub served : (cpu : ℕ) → IsServed (vm.lapics cpu)

pub either_vm : (b : Bool) (v w : Vm) → IsMachine v → IsMachine w → IsMachine (if b then v else w)
either_vm true v w hv hw = hv
either_vm false v w hv hw = hw

pub put_lapic-IsMachine :
    (vm : Vm) (cpu : ℕ) (s : Vlapic) → IsServed s → IsMachine vm → IsMachine (put_lapic vm cpu s)
put_lapic-IsMachine vm cpu s hs h = record { served = λ j. at_cpu (j == cpu) j }
  where
    at_cpu : (b : Bool) (j : ℕ) → IsServed (if b then s else vm.lapics j)
    at_cpu true j = hs
    at_cpu false j = h.served j

set_intr-IsMachine :
    (vm : Vm) (cpu vector : ℕ) → IsMachine vm → IsMachine (lapic_set_intr vm cpu vector).1
unfolding lapic_set_intr
set_intr-IsMachine vm cpu vector h =
    elim (Bool-cases (leb vm_maxcpu cpu || (ltb vector 16 || ltb 255 vector))) [
      | inl bad ↦ rw bad h
      | inr good ↦ rw good (
          put_lapic-IsMachine vm cpu _
            (notify_if-IsServed (vlapic_set_intr_ready (vm.lapics cpu) vector)
              (set_intr_ready-IsServed (vm.lapics cpu) vector (h.served cpu)))
            h)
    ]

pub set_intrs-IsMachine :
    (vm : Vm) (cpus : List ℕ) (vector : ℕ) → IsMachine vm → IsMachine (set_intrs vm cpus vector)
unfolding set_intrs
set_intrs-IsMachine vm [] vector h = h
set_intrs-IsMachine vm (cpu ∷ cpus) vector h =
    set_intrs-IsMachine (lapic_set_intr vm cpu vector).1 cpus vector
      (set_intr-IsMachine vm cpu vector h)

pub inject_all-IsMachine :
    (inject : Vlapic → Vlapic) (vm : Vm) (cpus : List ℕ)
    → ((s : Vlapic) → IsServed s → IsServed (inject s))
    → IsMachine vm
    → IsMachine (inject_all inject vm cpus)
inject_all-IsMachine inject vm [] kept h = h
inject_all-IsMachine inject vm (cpu ∷ cpus) kept h =
    inject_all-IsMachine inject (put_lapic vm cpu (inject (vm.lapics cpu))) cpus kept
      (put_lapic-IsMachine vm cpu (inject (vm.lapics cpu)) (kept (vm.lapics cpu) (h.served cpu)) h)

nmi-IsServed : (s : Vlapic) → IsServed s → IsServed (inject_nmi s)
nmi-IsServed s h = same-IsServed s (inject_nmi s) refl refl refl refl refl h

pub extint-IsServed : (s : Vlapic) → IsServed s → IsServed (inject_extint s)
extint-IsServed s h = same-IsServed s (inject_extint s) refl refl refl refl refl h

boot-IsMachine :
    (vm : Vm) (dest : ℕ) (state : BootState)
    → IsMachine vm
    → IsMachine (put_lapic vm dest (record (vm.lapics dest) { boot_state = state }))
boot-IsMachine vm dest state h =
    put_lapic-IsMachine vm dest _
      (same-IsServed (vm.lapics dest) _ refl refl refl refl refl (h.served dest)) h

sipi_from-IsMachine :
    (state : BootState) (vm : Vm) (dest : ℕ) → IsMachine vm → IsMachine (sipi_from state vm dest)
sipi_from-IsMachine bs_init vm dest h = boot-IsMachine vm dest bs_sipi h
sipi_from-IsMachine bs_sipi vm dest h = h
sipi_from-IsMachine bs_running vm dest h = h

to_sipi-IsMachine : (vm : Vm) (dest : ℕ) → IsMachine vm → IsMachine (to_sipi vm dest)
unfolding to_sipi
to_sipi-IsMachine vm dest h = sipi_from-IsMachine (vm.lapics dest).boot_state vm dest h

start_from-IsMachine :
    (state : BootState) (vm : Vm) (dest vec : ℕ)
    → IsMachine vm
    → IsMachine (start_from state vm dest vec).vm
start_from-IsMachine bs_init vm dest vec h = h
start_from-IsMachine bs_sipi vm dest vec h = boot-IsMachine vm dest bs_running h
start_from-IsMachine bs_running vm dest vec h = h

start_up-IsMachine : (vm : Vm) (dest vec : ℕ) → IsMachine vm → IsMachine (start_up vm dest vec).vm
unfolding start_up
start_up-IsMachine vm dest vec h = start_from-IsMachine (vm.lapics dest).boot_state vm dest vec h

either_icr :
    (b : Bool) (r q : IcrResult)
    → IsMachine r.vm
    → IsMachine q.vm
    → IsMachine (if b then r else q).vm
either_icr true r q hr hq = hr
either_icr false r q hr hq = hq

icrlo-IsMachine :
    (vm : Vm) (cpu : ℕ) → IsMachine vm → IsMachine (vlapic_icrlo_write_handler vm cpu).vm
unfolding vlapic_icrlo_write_handler
icrlo-IsMachine vm0 cpu h0 =
    let s : Vlapic = record (vm0.lapics cpu) { icr_lo = clear_bit 32 (vm0.lapics cpu).icr_lo 12 } in
    let hs : IsServed s =
      same-IsServed (vm0.lapics cpu) s refl refl refl refl refl (h0.served cpu) in
    let vm = put_lapic vm0 cpu s in
    let h = put_lapic-IsMachine vm0 cpu s hs h0 in
    let icr = s.icr_lo in
    let dest = if x2apic s then s.icr_hi else s.icr_hi / 2 ^ 24 in
    let vec = bit_and icr 0xff in
    let mode = bit_and icr 0x700 in
    let cpus = shorthand vm cpu icr dest in
    let from_boot_cpu = cpu == 0 && (not (dest == 0) && ltb dest vm_maxcpu) in
    either_icr (mode == 0 && ltb vec 16) (handled (put_lapic vm cpu (vlapic_set_error s 0x20))) _
      (put_lapic-IsMachine vm cpu (vlapic_set_error s 0x20) (set_error-IsServed s 0x20 hs) h)
      (either_icr (mode == 0) (handled (set_intrs vm cpus vec)) _
        (set_intrs-IsMachine vm cpus vec h)
        (either_icr (mode == 0x400) (handled (inject_all inject_nmi vm cpus)) _
          (inject_all-IsMachine inject_nmi vm cpus nmi-IsServed h)
          (either_icr (mode == 0x500 && not (has_bit icr 14)) (handled vm) _ h (
            either_icr (mode == 0x500 && from_boot_cpu) (handled (to_sipi vm dest)) _
              (to_sipi-IsMachine vm dest h)
              (either_icr (mode == 0x600 && from_boot_cpu) (start_up vm dest vec)
                (record { retval = 1; spinup = none; vm = vm }) (start_up-IsMachine vm dest vec h)
                h)))))

-- A call that does not abort, and leaves the priorities of all CPUs right.
abbrev pub Ok : {A : Type 0} → (A → Vm) → Option A → Type 0
Ok {A} of m = (a : A) × (m ≡ some a) × IsMachine (of a)

either-Ok :
    {A : Type 0} (of : A → Vm) (b : Bool) (m n : Option A)
    → Ok of m
    → Ok of n
    → Ok of (if b then m else n)
either-Ok of true m n hm hn = hm
either-Ok of false m n hm hn = hn

page-Ok :
    (vm : Vm) (cpu : ℕ) (m : Option Vlapic)
    → Serves m
    → IsMachine vm
    → Ok (λ (r : IcrResult). r.vm) (m >>= λ u. some (handled (put_lapic vm cpu u)))
page-Ok vm cpu m serves h =
    let (t, run, ht) = serves in
    (handled (put_lapic vm cpu t), rw run refl, put_lapic-IsMachine vm cpu t ht h)

pub write-Ok :
    (vm : Vm) (cpu now : ℕ) (mmio : Bool) (offset value : ℕ)
    → IsMachine vm
    → Ok (λ (r : IcrResult). r.vm) (vlapic_write vm cpu now mmio offset value)
unfolding vlapic_write vlapic_self_ipi_handler
write-Ok vm cpu now mmio offset value h =
    let s = vm.lapics cpu in
    let t : Vlapic = record s {
      icr_lo = value % 2 ^ 32;
      icr_hi = if x2apic s then value / 2 ^ 32 % 2 ^ 32 else s.icr_hi;
    } in
    let ht = same-IsServed s t refl refl refl refl refl (h.served cpu) in
    let command = put_lapic vm cpu t in
    let hc = put_lapic-IsMachine vm cpu t ht h in
    let self = (lapic_set_intr vm cpu (value % 256)).1 in
    let hself = set_intr-IsMachine vm cpu (value % 256) h in
    let sent : Vm = if x2apic s then self else vm in
    let hsent : IsMachine sent = either_vm (x2apic s) self vm hself h in
    let of = λ (r : IcrResult). r.vm in
    either-Ok of (ltb 1024 offset || ((x2apic s && mmio) || (not (x2apic s) && not mmio)))
      (some (handled vm)) _ (handled vm, refl, h)
      (either-Ok of (offset == 0x300) (some (vlapic_icrlo_write_handler command cpu)) _
        (vlapic_icrlo_write_handler command cpu, refl, icrlo-IsMachine command cpu hc)
        (either-Ok of (offset == 0x3f0) (some (handled sent)) _ (handled sent, refl, hsent)
          (page-Ok vm cpu (write_page s now offset value)
            (write_page-Serves s now offset value (h.served cpu)) h)))
