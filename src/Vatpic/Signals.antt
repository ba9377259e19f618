-- ===== src/Vatpic/Signals.antt =====
-- When the pair signals the local APIC and the I/O APIC (src/vmm/io/vatpic.c).
use xhyve_manager.Base.{ℕ, ◌≡◌, refl, Bool, true, false, ◌∷◌, ◌⊎◌, inl, inr, arith, Bool-cases}
use xhyve_manager.Base.Bits.{has_bit}
use xhyve_manager.Vatpic.Chip.{Chip, move_pin}
use xhyve_manager.Vatpic.Device.{
  Vatpic, lint0, ioapic_pulse, is_eligible, set_pinstate_with, cascade_with, notify_master,
  notify_intr,
}
use xhyve_manager.Vatpic.Notify.{notify_intr_flat}

-- From `v` to `u` nothing is signalled and the master's interrupt stays as it is, or it is raised
-- and signalled once.
abbrev pub SignalsOnce : Vatpic → Vatpic → Type 0
SignalsOnce v u =
    ((u.sent ≡ v.sent) × (u.chip0.intr_raised ≡ v.chip0.intr_raised))
    ⊎ ((u.sent ≡ ioapic_pulse ∷ lint0 ∷ v.sent)
        × (v.chip0.intr_raised ≡ false)
        × (u.chip0.intr_raised ≡ true))

SignalsOnce-trans : (v u t : Vatpic) → SignalsOnce v u → SignalsOnce u t → SignalsOnce v t
SignalsOnce-trans v u t p q = ground arith

notify_master-SignalsOnce : (v : Vatpic) → SignalsOnce v (notify_master v)
unfolding notify_master
notify_master-SignalsOnce v = ground arith

move_pin-raised :
    (level : Bool) (pin : ℕ) (newstate : Bool) (a : Chip)
    → (move_pin level pin newstate a).intr_raised ≡ a.intr_raised
unfolding move_pin
move_pin-raised level pin newstate a = ground arith

set_pinstate_with-SignalsOnce :
    (v : Vatpic) (newstate : Bool) → SignalsOnce v (set_pinstate_with notify_master v 2 newstate)
unfolding set_pinstate_with
set_pinstate_with-SignalsOnce v newstate = ground (
  arith,
  notify_master-SignalsOnce (record v { chip0 = move_pin (has_bit v.elc0 2) 2 newstate v.chip0 }),
  move_pin-raised (has_bit v.elc0 2) 2 newstate v.chip0,
)

cascade_with-SignalsOnce : (v : Vatpic) → SignalsOnce v (cascade_with notify_master v)
unfolding cascade_with
cascade_with-SignalsOnce v =
    let raised = record v { chip1 = record v.chip1 { intr_raised = true } } in
    let up = set_pinstate_with notify_master raised 2 true in
    ground
      (arith, set_pinstate_with-SignalsOnce raised true, set_pinstate_with-SignalsOnce up false)

-- A notification signals LINT0 and the I/O APIC at most once, and exactly when it raises the
-- master's interrupt, which had not been raised.
pub notify_intr-SignalsOnce : (v : Vatpic) → SignalsOnce v (notify_intr v)
notify_intr-SignalsOnce v = rw (notify_intr_flat v) (elim (Bool-cases (is_eligible v.chip1)) [
  | inl e ↦ rw e (
      SignalsOnce-trans v (cascade_with notify_master v)
        (notify_master (cascade_with notify_master v)) (cascade_with-SignalsOnce v)
        (notify_master-SignalsOnce (cascade_with notify_master v)))
  | inr e ↦ rw e (notify_master-SignalsOnce v)
])

-- Nothing is left to signal: neither chip is eligible.
abbrev pub IsSettled : Vatpic → Type 0
IsSettled v = (is_eligible v.chip0 ≡ false) × (is_eligible v.chip1 ≡ false)

notify_master-IsSettled : (v : Vatpic) → is_eligible v.chip1 ≡ false → IsSettled (notify_master v)
unfolding notify_master
notify_master-IsSettled v quiet = ground arith

cascade_with-raised : (v : Vatpic) → (cascade_with notify_master v).chip1.intr_raised ≡ true
unfolding cascade_with set_pinstate_with notify_master
cascade_with-raised v = ground arith

-- After a notification every chip with a pin to deliver has its interrupt raised.
pub notify_intr-IsSettled : (v : Vatpic) → IsSettled (notify_intr v)
notify_intr-IsSettled v = rw (notify_intr_flat v) (elim (Bool-cases (is_eligible v.chip1)) [
  | inl e ↦ rw e (notify_master-IsSettled _ (rw (cascade_with-raised v) refl))
  | inr e ↦ rw e (notify_master-IsSettled v e)
])
