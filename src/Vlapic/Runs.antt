-- ===== src/Vlapic/Runs.antt =====
-- Runs of the local APICs of a machine from `vlapic_init` on (src/vmm/io/vlapic.c,
-- src/vmm/vmm_lapic.c).
use xhyve_manager.Base.{
  ℕ, zero, suc, ◌*◌, ◌%◌, ◌^◌, ◌≡◌, refl, ap, ◌∙◌, Bool, Option, some, bit_or, List, [], ◌∷◌, ◌>>=◌,
  arith,
}
use xhyve_manager.Base.Bits.{has_bit-test_bit, test_bit-zero}
use xhyve_manager.Vlapic.Vectors.{has_vector}
use xhyve_manager.Vlapic.Device.{Vlapic, vlapic_set_cr8}
use xhyve_manager.Vlapic.Lvt.{vlapic_callout_handler, vlapic_mask_lvts, vlapic_dcr_write_handler}
use xhyve_manager.Vlapic.Access.{vlapic_get_id}
use xhyve_manager.Vlapic.Reset.{
  reset_tmr_below, vlapic_reset_tmr, cleared_page, vlapic_reset, enabled_apic, vlapic_init,
}
use xhyve_manager.Vlapic.Ipi.{Vm, put_lapic, IcrResult, vlapic_write}
use xhyve_manager.Vlapic.Lapic.{
  vlapic_deliver_intr, vlapic_set_tmr_level, trigger_all, lapic_intr_msi,
}
use xhyve_manager.Vlapic.Stack.{IsStack}
use xhyve_manager.Vlapic.Service.{IsServed}
use xhyve_manager.Vlapic.Kept.{same-IsServed, mask_lvts-IsServed, callout-IsServed}
use xhyve_manager.Vlapic.Machine.{
  Serves, set_cr8-Serves, accept_pending, accept_pending-Serves, dcr_write-IsServed,
}
use xhyve_manager.Vlapic.Calls.{IsMachine, Ok, put_lapic-IsMachine, write-Ok}
use xhyve_manager.Vlapic.Deliver.{
  deliver-IsMachine, msi-IsMachine, set_tmr_level-IsMachine, trigger_all-IsMachine,
}

-- What happens to the local APICs: a write of a register by a CPU, at a time and by memory or MSR;
-- a write of CR8; the acceptance of the pending vector before a CPU enters the guest; the timer of
-- a CPU; an interrupt of the I/O APIC, an MSI and a local interrupt of some CPUs; and a vector that
-- the I/O APIC makes level-triggered.
pub data Op : Type 0 where
  write : ℕ → ℕ → Bool → ℕ → ℕ → Op
  cr8 : ℕ → ℕ → Op
  enter : ℕ → Op
  timer : ℕ → ℕ → Bool → Op
  deliver : ℕ → Bool → ℕ → ℕ → Op
  msi : ℕ → ℕ → Op
  local : List ℕ → ℕ → Op
  level : ℕ → ℕ → Bool → ℕ → ℕ → Op

unfoldable pub step : Vm → Op → Option Vm
unfolding vlapic_write vlapic_set_cr8 accept_pending vlapic_callout_handler vlapic_deliver_intr
    lapic_intr_msi trigger_all vlapic_set_tmr_level
step vm (write cpu now mmio offset value) =
    vlapic_write vm cpu now mmio offset value >>= λ r. some r.vm
step vm (cr8 cpu val) = vlapic_set_cr8 (vm.lapics cpu) val >>= λ s. some (put_lapic vm cpu s)
step vm (enter cpu) = accept_pending (vm.lapics cpu) >>= λ s. some (put_lapic vm cpu s)
step vm (timer cpu now pending) =
    some (put_lapic vm cpu (vlapic_callout_handler now pending (vm.lapics cpu)))
step vm (deliver dest phys delmode vec) = some (vlapic_deliver_intr vm dest phys delmode vec)
step vm (msi addr msg) = some (lapic_intr_msi vm addr msg).1
step vm (local cpus vector) = some (trigger_all vm cpus vector).1
step vm (level cpu dest phys delmode vector) =
    some (vlapic_set_tmr_level vm cpu dest phys delmode vector)

unfoldable pub vlapic_run : Option Vm → List Op → Option Vm
unfolding step
vlapic_run m [] = m
vlapic_run m (op ∷ ops) = vlapic_run (m >>= λ vm. step vm op) ops

-- `vlapic_init` of each CPU; the CPUs of the list are active.
unfoldable pub machine : List ℕ → Vm
unfolding vlapic_init
machine cpus = record { lapics = λ cpu. vlapic_init cpu; active = cpus }

after-Ok :
    {A : Type 0} (of : A → Vm) (m : Option A)
    → Ok of m
    → Ok (λ (vm : Vm). vm) (m >>= λ a. some (of a))
after-Ok of m ok_ = let (a, run, h) = ok_ in (of a, ap (λ o. o >>= λ x. some (of x)) run, h)

on_cpu-Ok :
    (vm : Vm) (cpu : ℕ) (m : Option Vlapic)
    → Serves m
    → IsMachine vm
    → Ok (λ (w : Vm). w) (m >>= λ s. some (put_lapic vm cpu s))
on_cpu-Ok vm cpu m serves h =
    let (s, run, hs) = serves in
    (
      put_lapic vm cpu s,
      ap (λ o. o >>= λ x. some (put_lapic vm cpu x)) run,
      put_lapic-IsMachine vm cpu s hs h,
    )

step-Ok : (vm : Vm) (op : Op) → IsMachine vm → Ok (λ (w : Vm). w) (step vm op)
unfolding step
step-Ok vm (write cpu now mmio offset value) h =
    after-Ok (λ (r : IcrResult). r.vm) (vlapic_write vm cpu now mmio offset value)
      (write-Ok vm cpu now mmio offset value h)
step-Ok vm (cr8 cpu val) h =
    on_cpu-Ok vm cpu (vlapic_set_cr8 (vm.lapics cpu) val)
      (set_cr8-Serves (vm.lapics cpu) val (h.served cpu)) h
step-Ok vm (enter cpu) h =
    on_cpu-Ok vm cpu (accept_pending (vm.lapics cpu))
      (accept_pending-Serves (vm.lapics cpu) (h.served cpu)) h
step-Ok vm (timer cpu now pending) h =
    let t = vlapic_callout_handler now pending (vm.lapics cpu) in
    (
      put_lapic vm cpu t,
      refl,
      put_lapic-IsMachine vm cpu t (callout-IsServed now pending (vm.lapics cpu) (h.served cpu)) h,
    )
step-Ok vm (deliver dest phys delmode vec) h = (
  vlapic_deliver_intr vm dest phys delmode vec,
  refl,
  deliver-IsMachine vm dest phys delmode vec h,
)
step-Ok vm (msi addr msg) h = ((lapic_intr_msi vm addr msg).1, refl, msi-IsMachine vm addr msg h)
step-Ok vm (local cpus vector) h =
    ((trigger_all vm cpus vector).1, refl, trigger_all-IsMachine vm cpus vector h)
step-Ok vm (level cpu dest phys delmode vector) h = (
  vlapic_set_tmr_level vm cpu dest phys delmode vector,
  refl,
  set_tmr_level-IsMachine vm cpu dest phys delmode vector h,
)

run-Ok :
    (m : Option Vm) (ops : List Op) → Ok (λ (w : Vm). w) m → Ok (λ (w : Vm). w) (vlapic_run m ops)
unfolding vlapic_run
run-Ok m [] h = h
run-Ok m (op ∷ ops) h =
    let (vm, run, hv) = h in
    run-Ok (m >>= λ v. step v op) ops
      (let (w, next, hw) = step-Ok vm op hv in (w, ap (λ o. o >>= λ v. step v op) run ∙ next, hw))

-- An APIC with nothing in service.
empty-IsStack : IsStack (λ j. 0) (λ j. 0) 0
unfolding has_vector
empty-IsStack = record {
  bottom = refl;
  ranked = λ i inside. ground (arith, inside);
  bytes = λ i inside. omega arith;
  rising = λ i j low less high. absurd (omega arith);
  held = λ v fits there.
      absurd (ground (arith, there, has_bit-test_bit 0 (v % 32), test_bit-zero (v % 32)));
  holds = λ i low high. absurd (omega arith);
}

reset_tmr-IsServed : (n : ℕ) (s : Vlapic) → IsServed s → IsServed (reset_tmr_below n s)
unfolding reset_tmr_below
reset_tmr-IsServed zero s h = h
reset_tmr-IsServed (suc n) s h =
    same-IsServed (reset_tmr_below n s) _ refl refl refl refl refl (reset_tmr-IsServed n s h)

-- A reset of an APIC whose stack is empty.
reset-IsServed :
    (s : Vlapic) → s.isrvec_stk ≡ (λ j. 0) → s.isrvec_stk_top ≡ 0 → IsServed (vlapic_reset s)
unfolding vlapic_reset vlapic_reset_tmr
reset-IsServed s stk top =
    let t : Vlapic = record (cleared_page s) {
      id = vlapic_get_id s;
      version = bit_or 16 (6 * 2 ^ 16);
      dfr = 0xffffffff;
      svr = 0xff;
    } in
    let ht : IsServed t = record { stack = rw (stk, top) empty-IsStack; ppr_right = rw stk refl } in
    let u = reset_tmr_below 256 (vlapic_mask_lvts t) in
    let hu = reset_tmr-IsServed 256 (vlapic_mask_lvts t) (mask_lvts-IsServed t ht) in
    same-IsServed (vlapic_dcr_write_handler u) _ refl refl refl refl refl (dcr_write-IsServed u hu)

pub machine-IsMachine : (cpus : List ℕ) → IsMachine (machine cpus)
unfolding machine vlapic_init
machine-IsMachine cpus = record { served = λ cpu. reset-IsServed (enabled_apic cpu) refl refl }

-- From the initialisation on, no sequence of register writes by the CPUs, writes of CR8, accepted
-- vectors, timers, device interrupts, MSIs and local interrupts makes a local APIC abort: in every
-- APIC the stack of the vectors in service matches the ISR and increases strictly in priority, so
-- that the checks of `vlapic_update_ppr` pass and there is room for each accepted vector, and the
-- processor priority is the one that follows from the task priority and the vector in service.
pub vlapic_run-IsMachine :
    (cpus : List ℕ) (ops : List Op)
    → (vm : Vm) × (vlapic_run (some (machine cpus)) ops ≡ some vm) × IsMachine vm
vlapic_run-IsMachine cpus ops =
    run-Ok (some (machine cpus)) ops (machine cpus, refl, machine-IsMachine cpus)
