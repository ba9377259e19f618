-- ===== src/Vlapic/Destinations.antt =====
-- The CPUs that a logical destination names (src/vmm/io/vlapic.c).
use xhyve_manager.Base.{
  ℕ, ◌≡◌, ◌↔◌, refl, ◌∙◌, Bool, true, false, not, ◌&&◌, ◌||◌, List, [], ◌∷◌, ◌==◌, if◌then◌else◌,
  take, Bool-cases, inl, inr, arith,
}
use xhyve_manager.Vlapic.Ipi.{Vm, is_addressed, addressed, vlapic_calcdest}
use xhyve_manager.Vlapic.Lapic.{is_in}
use xhyve_manager.Vlapic.Named.{IsNamed, is_addressed-IsNamed}

is_in-if :
    (b : Bool) (cpu c : ℕ) (rest : List ℕ)
    → is_in cpu (if b then c ∷ rest else rest) ≡ ((b && (c == cpu)) || is_in cpu rest)
is_in-if true cpu c rest = refl
is_in-if false cpu c rest = refl

absorb : (a b : Bool) → ((a && true) || (b && a)) ≡ a
absorb true b = refl
absorb false true = refl
absorb false false = refl

no_match : (a b : Bool) → ((a && false) || b) ≡ b
no_match true b = refl
no_match false b = refl

module _ (vm : Vm) (dest : ℕ) (x2apic_dest : Bool) where
  addressed_in :
      (cpu : ℕ) (cpus : List ℕ)
      → is_in cpu (addressed vm dest false x2apic_dest cpus)
        ≡ (is_in cpu cpus && is_addressed (vm.lapics cpu) dest x2apic_dest)
  unfolding addressed
  addressed_in cpu [] = refl
  addressed_in cpu (c ∷ cpus) =
      let there = is_addressed (vm.lapics c) dest x2apic_dest in
      is_in-if there cpu c (addressed vm dest false x2apic_dest cpus)
      ∙ elim (Bool-cases (c == cpu)) [
        | inl same ↦
            (let at_cpu : c ≡ cpu = ground (arith, same) in
              rw (addressed_in cpu cpus, same, at_cpu)
                (absorb (is_addressed (vm.lapics cpu) dest x2apic_dest) (is_in cpu cpus)))
        | inr other ↦
            rw (addressed_in cpu cpus, other)
              (no_match there (is_in cpu cpus && is_addressed (vm.lapics cpu) dest x2apic_dest))
      ]

  addressed_first :
      (cpus : List ℕ)
      → addressed vm dest true x2apic_dest cpus ≡ take 1 (addressed vm dest false x2apic_dest cpus)
  unfolding addressed
  addressed_first [] = refl
  addressed_first (c ∷ cpus) = elim (Bool-cases (is_addressed (vm.lapics c) dest x2apic_dest)) [
    | inl there ↦ rw there refl
    | inr absent ↦ rw absent (addressed_first cpus)
  ]

and_iff : (a b : Bool) {P : Type 0} → (b ≡ true) ↔ P → ((a && b) ≡ true) ↔ ((a ≡ true) × P)
and_iff true b (to, from) = (λ on. (refl, to on), λ (on, p). from p)
and_iff false b (to, from) = (λ on. absurd (ground (arith, on)), λ (on, p). on)

-- A logical destination that is not the broadcast goes to exactly the active CPUs whose APIC it
-- names by the bits of DFR and LDR, and with the lowest priority to the first of them only.
pub vlapic_calcdest_logical :
    (vm : Vm) (dest cpu : ℕ) (x2apic_dest : Bool)
    → ((x2apic_dest && dest == 0xffffffff) || (not x2apic_dest && dest == 0xff)) ≡ false
    → let cpus = vlapic_calcdest vm dest false false x2apic_dest in
      ((is_in cpu cpus ≡ true)
        ↔ ((is_in cpu vm.active ≡ true) × IsNamed (vm.lapics cpu) dest x2apic_dest))
      × (vlapic_calcdest vm dest false true x2apic_dest ≡ take 1 cpus)
unfolding vlapic_calcdest
vlapic_calcdest_logical vm dest cpu x2apic_dest one = rw one (
  rw (addressed_in vm dest x2apic_dest cpu vm.active) (
      and_iff (is_in cpu vm.active) (is_addressed (vm.lapics cpu) dest x2apic_dest)
        (is_addressed-IsNamed (vm.lapics cpu) dest x2apic_dest)),
  addressed_first vm dest x2apic_dest vm.active,
)
