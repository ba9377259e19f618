-- ===== src/Vlapic/Boot.antt =====
-- How the interrupt command register starts the other CPUs (src/vmm/io/vlapic.c).
use xhyve_manager.Base.{
  ℕ, ◌/◌, ◌^◌, ◌≡◌, ◌≢◌, subst, refl, sym, ap, ◌∙◌, Bool, true, false, not, ◌&&◌, ◌||◌, none, some,
  List, [], ◌∷◌, ◌==◌, ltb, leb, if◌then◌else◌, bit_and, bit_or, Bool-cases, inl, inr, arith,
}
use xhyve_manager.Base.Bits.{has_bit, clear_bit}
use xhyve_manager.Vlapic.Device.{BootState, bs_init, bs_sipi, bs_running, Vlapic, x2apic}
use xhyve_manager.Vlapic.Lvt.{
  lvt_error, set_intr_ready_with, notify_if, fire_lvt_with, set_error_with, vlapic_set_error,
  vlapic_set_intr_ready,
}
use xhyve_manager.Vlapic.Ipi.{
  Vm, put_lapic, vm_maxcpu, lapic_set_intr, inject_nmi, set_intrs, inject_all, IcrResult, handled,
  shorthand, sipi_from, to_sipi, start_from, start_up, vlapic_icrlo_write_handler,
}

-- A state stays, waits for a startup interrupt after an INIT, or runs after that interrupt.
pub data Advances : BootState → BootState → Type 0 where
  stays : {b : BootState} → Advances b b
  waits : Advances bs_init bs_sipi
  runs : Advances bs_sipi bs_running

module _ (set_error : Vlapic → ℕ → Vlapic)
    (kept : (s : Vlapic) (x : ℕ) → (set_error s x).boot_state ≡ s.boot_state) where
  ready_with-boot :
      (s : Vlapic) (v : ℕ) → (set_intr_ready_with set_error s v).1.boot_state ≡ s.boot_state
  unfolding set_intr_ready_with
  ready_with-boot s v = ground (arith, kept s 0x40)

  fire_with-boot :
      (s : Vlapic) (entry : ℕ) → (fire_lvt_with set_error s entry).1.boot_state ≡ s.boot_state
  unfolding fire_lvt_with
  fire_with-boot s entry = ground (arith, kept s 0x20, ready_with-boot s (bit_and entry 0xff))

error_with-boot :
    (fire : Vlapic → ℕ → Bool × Vlapic)
    → ((s : Vlapic) (x : ℕ) → (fire s x).1.boot_state ≡ s.boot_state)
    → (s : Vlapic) (mask : ℕ) → (set_error_with fire s mask).boot_state ≡ s.boot_state
unfolding set_error_with
error_with-boot fire kept s mask =
    let p : Vlapic = record s { esr_pending = bit_or s.esr_pending mask; esr_firing = true } in
    ground (arith, kept p (s.lvt_last lvt_error))

set_error-boot : (s : Vlapic) (mask : ℕ) → (vlapic_set_error s mask).boot_state ≡ s.boot_state
unfolding vlapic_set_error
set_error-boot = error_with-boot (fire_lvt_with (set_error_with (λ s entry. (false, s)))) (
    fire_with-boot (set_error_with (λ s entry. (false, s)))
      (error_with-boot (λ s entry. (false, s)) (λ s x. refl)))

intr_ready-boot :
    (s : Vlapic) (v : ℕ) → (notify_if (vlapic_set_intr_ready s v)).boot_state ≡ s.boot_state
unfolding vlapic_set_intr_ready
intr_ready-boot s v = ground (arith, ready_with-boot vlapic_set_error set_error-boot s v)

-- The state of a CPU.
abbrev pub boot : Vm → ℕ → BootState
boot vm c = (vm.lapics c).boot_state

-- A choice of APICs whose states agree, or follow each other, where the first is chosen.
pick-boot :
    (b : Bool) (s t : Vlapic)
    → (b ≡ true → s.boot_state ≡ t.boot_state)
    → (if b then s else t).boot_state ≡ t.boot_state
pick-boot true s t same = same refl
pick-boot false s t same = refl

pick-Advances :
    (b : Bool) (s t : Vlapic)
    → (b ≡ true → Advances t.boot_state s.boot_state)
    → Advances t.boot_state (if b then s else t).boot_state
pick-Advances true s t follows = follows refl
pick-Advances false s t follows = stays

same_cpu : (vm : Vm) (c cpu : ℕ) → (c == cpu) ≡ true → boot vm c ≡ boot vm cpu
same_cpu vm c cpu here = let at_cpu : c ≡ cpu = ground (arith, here) in ap (λ i. boot vm i) at_cpu

pub put-boot :
    (vm : Vm) (cpu : ℕ) (s : Vlapic) (c : ℕ)
    → s.boot_state ≡ boot vm cpu
    → boot (put_lapic vm cpu s) c ≡ boot vm c
put-boot vm cpu s c same =
    pick-boot (c == cpu) s (vm.lapics c) (λ here. same ∙ sym (same_cpu vm c cpu here))

put-Advances :
    (vm : Vm) (cpu : ℕ) (s : Vlapic) (c : ℕ)
    → Advances (boot vm cpu) s.boot_state
    → Advances (boot vm c) (boot (put_lapic vm cpu s) c)
put-Advances vm cpu s c follows =
    pick-Advances (c == cpu) s (vm.lapics c)
      (λ here. subst (λ b. Advances b s.boot_state) (sym (same_cpu vm c cpu here)) follows)

set_intr-boot : (vm : Vm) (cpu v c : ℕ) → boot (lapic_set_intr vm cpu v).1 c ≡ boot vm c
unfolding lapic_set_intr
set_intr-boot vm cpu v c = elim (Bool-cases (leb vm_maxcpu cpu || (ltb v 16 || ltb 255 v))) [
  | inl bad ↦ rw bad refl
  | inr good ↦ rw good (
      put-boot vm cpu (notify_if (vlapic_set_intr_ready (vm.lapics cpu) v)) c
        (intr_ready-boot (vm.lapics cpu) v))
]

set_intrs-boot : (vm : Vm) (cpus : List ℕ) (v c : ℕ) → boot (set_intrs vm cpus v) c ≡ boot vm c
unfolding set_intrs
set_intrs-boot vm [] v c = refl
set_intrs-boot vm (cpu ∷ cpus) v c =
    set_intrs-boot (lapic_set_intr vm cpu v).1 cpus v c ∙ set_intr-boot vm cpu v c

nmis-boot : (vm : Vm) (cpus : List ℕ) (c : ℕ) → boot (inject_all inject_nmi vm cpus) c ≡ boot vm c
nmis-boot vm [] c = refl
nmis-boot vm (cpu ∷ cpus) c =
    nmis-boot (put_lapic vm cpu (inject_nmi (vm.lapics cpu))) cpus c
    ∙ put-boot vm cpu (inject_nmi (vm.lapics cpu)) c refl

-- What a write of the register does to every state, and when it starts a CPU.
pub record Boots (vm : Vm) (cpu : ℕ) (r : IcrResult) : Type 0 where
  pub advances : (c : ℕ) → Advances (boot vm c) (boot r.vm c)
  pub by_boot_cpu : (c : ℕ) → cpu ≢ 0 → boot r.vm c ≡ boot vm c
  pub started_from :
      (ap_ rip : ℕ)
      → r.spinup ≡ some (ap_, rip)
      → (boot vm ap_ ≡ bs_sipi) × (boot r.vm ap_ ≡ bs_running)

either-Boots :
    (vm : Vm) (cpu : ℕ) (b : Bool) (x y : IcrResult)
    → (b ≡ true → Boots vm cpu x)
    → (b ≡ false → Boots vm cpu y)
    → Boots vm cpu (if b then x else y)
either-Boots vm cpu true x y hx hy = hx refl
either-Boots vm cpu false x y hx hy = hy refl

-- A write that leaves every state, and starts no CPU.
kept-Boots :
    (vm : Vm) (cpu : ℕ) (r : IcrResult)
    → r.spinup ≡ none
    → ((c : ℕ) → boot r.vm c ≡ boot vm c)
    → Boots vm cpu r
kept-Boots vm cpu r idle same = record {
  advances = λ c. subst (λ b. Advances (boot vm c) b) (sym (same c)) stays;
  by_boot_cpu = λ c other. same c;
  started_from = λ ap_ rip spun. absurd (ground (arith, idle, spun));
}

-- From the same states.
from-Boots :
    (vm vm0 : Vm) (cpu : ℕ) (r : IcrResult)
    → ((c : ℕ) → boot vm c ≡ boot vm0 c)
    → Boots vm cpu r
    → Boots vm0 cpu r
from-Boots vm vm0 cpu r same h = record {
  advances = λ c. subst (λ b. Advances b (boot r.vm c)) (same c) (h.advances c);
  by_boot_cpu = λ c other. h.by_boot_cpu c other ∙ same c;
  started_from = λ ap_ rip spun.
      let (before, after) = h.started_from ap_ rip spun in (sym (same ap_) ∙ before, after);
}

as_boot_cpu : (vm : Vm) (cpu : ℕ) (r : IcrResult) → cpu ≡ 0 → Boots vm 0 r → Boots vm cpu r
as_boot_cpu vm cpu r boots h = subst (λ i. Boots vm i r) (sym boots) h

pub pick_first :
    (b : Bool) (s t : Vlapic) → b ≡ true → (if b then s else t).boot_state ≡ s.boot_state
pick_first true s t on = refl
pick_first false s t on = absurd (ground (arith, on))

sipi_from-Boots :
    (b : BootState) (vm : Vm) (dest : ℕ)
    → boot vm dest ≡ b
    → Boots vm 0 (handled (sipi_from b vm dest))
sipi_from-Boots bs_init vm dest at_b = record {
  advances = λ c.
      put-Advances vm dest (record (vm.lapics dest) { boot_state = bs_sipi }) c
        (subst (λ b. Advances b bs_sipi) (sym at_b) waits);
  by_boot_cpu = λ c other. absurd (other refl);
  started_from = λ ap_ rip spun. absurd (ground (arith, spun));
}
sipi_from-Boots bs_sipi vm dest at_b = kept-Boots vm 0 (handled vm) refl (λ c. refl)
sipi_from-Boots bs_running vm dest at_b = kept-Boots vm 0 (handled vm) refl (λ c. refl)

start_from-Boots :
    (b : BootState) (vm : Vm) (dest vec : ℕ)
    → boot vm dest ≡ b
    → Boots vm 0 (start_from b vm dest vec)
start_from-Boots bs_init vm dest vec at_b = kept-Boots vm 0 (handled vm) refl (λ c. refl)
start_from-Boots bs_sipi vm dest vec at_b = record {
  advances = λ c.
      put-Advances vm dest (record (vm.lapics dest) { boot_state = bs_running }) c
        (subst (λ b. Advances b bs_running) (sym at_b) runs);
  by_boot_cpu = λ c other. absurd (other refl);
  started_from = λ ap_ rip spun.
      let here : dest ≡ ap_ = ground (arith, spun) in
      let there : (ap_ == dest) ≡ true = ground (arith, here) in
      (ap (λ i. boot vm i) (sym here) ∙ at_b, pick_first (ap_ == dest) _ (vm.lapics ap_) there);
}
start_from-Boots bs_running vm dest vec at_b = kept-Boots vm 0 (handled vm) refl (λ c. refl)

-- A write of the interrupt command register moves the state of a CPU at most one step on, from
-- waiting for an INIT to waiting for a startup interrupt, or from there to running; no CPU but the
-- boot CPU changes a state at all; and a CPU is started only when it waited for the startup
-- interrupt, and runs from then on.
pub icrlo_write_handler-Boots :
    (vm : Vm) (cpu : ℕ) → Boots vm cpu (vlapic_icrlo_write_handler vm cpu)
unfolding vlapic_icrlo_write_handler to_sipi start_up
icrlo_write_handler-Boots vm0 cpu =
    let s : Vlapic = record (vm0.lapics cpu) { icr_lo = clear_bit 32 (vm0.lapics cpu).icr_lo 12 } in
    let vm : Vm = put_lapic vm0 cpu s in
    let icr = s.icr_lo in
    let dest : ℕ = if x2apic s then s.icr_hi else s.icr_hi / 2 ^ 24 in
    let vec = bit_and icr 0xff in
    let mode = bit_and icr 0x700 in
    let cpus = shorthand vm cpu icr dest in
    let from_boot_cpu : Bool = cpu == 0 && (not (dest == 0) && ltb dest vm_maxcpu) in
    let idle : IcrResult = record { retval = 1; spinup = none; vm = vm } in
    from-Boots vm vm0 cpu _ (λ c. put-boot vm0 cpu s c refl)
      (either-Boots vm cpu (mode == 0 && ltb vec 16) _ _
        (λ on. kept-Boots vm cpu _ refl (λ c.
          put-boot vm cpu (vlapic_set_error s 0x20) c
            (set_error-boot s 0x20 ∙ sym (put-boot vm0 cpu s cpu refl))))
        (λ off.
          either-Boots vm cpu (mode == 0) _ _
            (λ on. kept-Boots vm cpu _ refl (set_intrs-boot vm cpus vec))
            (λ off.
              either-Boots vm cpu (mode == 0x400) _ _
                (λ on. kept-Boots vm cpu _ refl (nmis-boot vm cpus))
                (λ off.
                  either-Boots vm cpu (mode == 0x500 && not (has_bit icr 14)) _ _
                    (λ on. kept-Boots vm cpu (handled vm) refl (λ c. refl))
                    (λ off.
                      either-Boots vm cpu (mode == 0x500 && from_boot_cpu) _ _
                        (λ on.
                          as_boot_cpu vm cpu _ (ground (arith, on))
                            (sipi_from-Boots (vm.lapics dest).boot_state vm dest refl))
                        (λ off.
                          either-Boots vm cpu (mode == 0x600 && from_boot_cpu) _ idle
                            (λ on.
                              as_boot_cpu vm cpu _ (ground (arith, on))
                                (start_from-Boots (vm.lapics dest).boot_state vm dest vec refl))
                            (λ off. kept-Boots vm cpu idle refl (λ c. refl))))))))
