-- ===== src/Vlapic/Errors.antt =====
-- The errors of a local APIC, whose interrupt may itself be an error (src/vmm/io/vlapic.c).
use xhyve_manager.Base.{ℕ, ◌≡◌, refl, sym, ◌∙◌, Bool, true, false, bit_or}
use xhyve_manager.Vlapic.Device.{Vlapic}
use xhyve_manager.Vlapic.Lvt.{
  lvt_error, set_intr_ready_with, fire_lvt_with, set_error_with, vlapic_set_error, vlapic_fire_lvt,
}

-- While an error is being fired, any two ways to raise a further one fire the same.
same_fire :
    (f g : Vlapic → ℕ → Vlapic) (s : Vlapic) (entry : ℕ)
    → ((x : ℕ) → f s x ≡ g s x)
    → fire_lvt_with f s entry ≡ fire_lvt_with g s entry
unfolding fire_lvt_with set_intr_ready_with
same_fire f g s entry same = rw (same 0x20, same 0x40) refl

firing_only_records :
    (fire : Vlapic → ℕ → Bool × Vlapic) (s : Vlapic) (x : ℕ)
    → s.esr_firing ≡ true
    → set_error_with fire s x ≡ record s { esr_pending = bit_or s.esr_pending x }
unfolding set_error_with
firing_only_records fire s x firing = rw firing refl

raise_as :
    (fire fire' : Vlapic → ℕ → Bool × Vlapic) (s : Vlapic) (mask : ℕ)
    → (let q : Vlapic = record s { esr_pending = bit_or s.esr_pending mask; esr_firing = true } in
        fire q (s.lvt_last lvt_error) ≡ fire' q (s.lvt_last lvt_error))
    → set_error_with fire s mask ≡ set_error_with fire' s mask
unfolding set_error_with
raise_as fire fire' s mask same = rw same refl

-- The calls that vlapic_set_error, vlapic_fire_lvt and vlapic_set_intr_ready make of each other end
-- at two levels: raising an error is the same as firing the error entry with a vlapic_fire_lvt that
-- raises its own errors by vlapic_set_error again.
pub vlapic_set_error_lem :
    (s : Vlapic) (mask : ℕ) → vlapic_set_error s mask ≡ set_error_with vlapic_fire_lvt s mask
unfolding vlapic_set_error vlapic_fire_lvt
vlapic_set_error_lem s mask =
    let q : Vlapic = record s { esr_pending = bit_or s.esr_pending mask; esr_firing = true } in
    let dead : Vlapic → ℕ → Bool × Vlapic = λ t entry. (false, t) in
    let inner = fire_lvt_with (set_error_with dead) in
    raise_as inner (fire_lvt_with (set_error_with inner)) s mask (
      same_fire (set_error_with dead) (set_error_with inner) q (s.lvt_last lvt_error)
        (λ x. firing_only_records dead q x refl ∙ sym (firing_only_records inner q x refl)))
