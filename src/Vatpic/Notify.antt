-- ===== src/Vatpic/Notify.antt =====
-- `vatpic_notify_intr` calls itself through `vatpic_set_pinstate` (src/vmm/io/vatpic.c).
use xhyve_manager.Base.{◌≡◌, refl, sym, ◌∙◌, Bool, true, false, ap, if◌then◌else◌, arith}
use mathlib.Core.Path.{fun_ext}
use xhyve_manager.Vatpic.Chip.{Chip}
use xhyve_manager.Vatpic.Device.{
  Vatpic, is_eligible, set_pinstate_with, notify_master, cascade_with, notify_with, notify_intr,
}

-- With the slave's interrupt raised no call goes deeper.
notify_with-raised :
    (notify : Vatpic → Vatpic) (v : Vatpic)
    → v.chip1.intr_raised ≡ true
    → notify_with notify v ≡ notify_master v
unfolding notify_with
notify_with-raised notify v raised = rw raised

-- Notifying the master leaves the slave and the trigger modes alone.
notify_master-slave : (v : Vatpic) → (notify_master v).chip1 ≡ v.chip1
unfolding notify_master
notify_master-slave v = ground arith

set_pinstate_with-raised :
    (notify : Vatpic → Vatpic) (v : Vatpic) (newstate : Bool)
    → v.chip1.intr_raised ≡ true
    → set_pinstate_with (notify_with notify) v 2 newstate
      ≡ set_pinstate_with notify_master v 2 newstate
unfolding set_pinstate_with
set_pinstate_with-raised notify v newstate raised = notify_with-raised notify _ raised

set_pinstate_with-slave :
    (v : Vatpic) (newstate : Bool) → (set_pinstate_with notify_master v 2 newstate).chip1 ≡ v.chip1
unfolding set_pinstate_with
set_pinstate_with-slave v newstate = notify_master-slave _

cascade_with-notify_with :
    (notify : Vatpic → Vatpic) (v : Vatpic)
    → cascade_with (notify_with notify) v ≡ cascade_with notify_master v
unfolding cascade_with
cascade_with-notify_with notify v =
    let raised = record v { chip1 = record v.chip1 { intr_raised = true } } in
    let up = set_pinstate_with notify_master raised 2 true in
    let kept : up.chip1.intr_raised ≡ true =
      ap (λ (a : Chip). a.intr_raised) (set_pinstate_with-slave raised true) in
    rw (set_pinstate_with-raised notify raised true refl)
      (set_pinstate_with-raised notify up false kept)

-- A notification whatever its second level of calls would do: the slave's request cascades, if it
-- is eligible, and then the master notifies.
notify_with-flat :
    (notify : Vatpic → Vatpic) (v : Vatpic)
    → notify_with (notify_with notify) v
      ≡ notify_master (if is_eligible v.chip1 then cascade_with notify_master v else v)
notify_with-flat notify v = unfold notify_with in rw (cascade_with-notify_with notify v)

pub notify_intr_flat :
    (v : Vatpic)
    → notify_intr v
      ≡ notify_master (if is_eligible v.chip1 then cascade_with notify_master v else v)
unfolding notify_intr
notify_intr_flat v = notify_with-flat (λ u. u) v

-- The recursion of `vatpic_notify_intr` ends: with two levels of calls `notify_intr` satisfies the
-- recursive equation of the source.
pub notify_intr_lem : (v : Vatpic) → notify_intr v ≡ notify_with notify_intr v
notify_intr_lem v =
    notify_intr_flat v ∙ sym (unfold notify_intr in notify_with-flat (notify_with (λ u. u)) v)

-- Every function that satisfies the recursive equation of `vatpic_notify_intr` is `notify_intr`.
pub notify_intr_unique :
    (f : Vatpic → Vatpic) (v : Vatpic)
    → ((u : Vatpic) → f u ≡ notify_with f u)
    → f v ≡ notify_intr v
notify_intr_unique f v same =
    let once : f ≡ notify_with f = fun_ext same in
    same v ∙ (ap (λ g. notify_with g v) once ∙ (notify_with-flat f v ∙ sym (notify_intr_flat v)))
