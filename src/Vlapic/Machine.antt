-- ===== src/Vlapic/Machine.antt =====
-- The local APICs of a machine as the guest and the devices use them (src/vmm/io/vlapic.c,
-- src/vmm/vmm_lapic.c).
use xhyve_manager.Base.{
  ℕ, ◌+◌, ◌*◌, ◌/◌, ◌%◌, ◌^◌, ◌≡◌, refl, Bool, true, false, not, Option, none, some, ◌==◌,
  if◌then◌else◌, Bool-cases, inl, inr,
}
use xhyve_manager.Vlapic.Device.{
  Vlapic, x2apic, vlapic_process_eoi, vlapic_pending_intr, vlapic_intr_accepted, vlapic_set_tpr,
  vlapic_set_cr8, vlapic_update_ppr,
}
use xhyve_manager.Vlapic.Lvt.{lvt_off_to_idx, vlapic_dcr_write_handler, vlapic_esr_write_handler}
use xhyve_manager.Vlapic.Access.{
  write_page, write_lvt, vlapic_id_write_handler, vlapic_ldr_write_handler,
  vlapic_dfr_write_handler,
}
use xhyve_manager.Vlapic.Service.{
  IsServed, update_ppr_lem, with_ppr, accepted, intr_accepted_lem, ended, eoi_busy, eoi_idle,
  ended-IsServed,
}
use xhyve_manager.Vlapic.Kept.{
  same-IsServed, either-IsServed, lvt_write-IsServed, icrtmr-IsServed, svr_write-IsServed,
}

-- A call that does not abort, and leaves the priorities right.
abbrev pub Serves : Option Vlapic → Type 0
Serves m = (t : Vlapic) × (m ≡ some t) × IsServed t

served : (s : Vlapic) → IsServed s → Serves (some s)
served s h = (s, refl, h)

either-Serves : (b : Bool) (m n : Option Vlapic) → Serves m → Serves n → Serves (if b then m else n)
either-Serves true m n hm hn = hm
either-Serves false m n hm hn = hn

pub eoi-Serves : (s : Vlapic) → IsServed s → Serves (vlapic_process_eoi s)
eoi-Serves s h = elim (Bool-cases (s.isrvec_stk_top == 0)) [
  | inl idle ↦ (s, eoi_idle s h idle, h)
  | inr busy ↦ (ended s, eoi_busy s h busy, ended-IsServed s h busy)
]

pub set_tpr-Serves : (s : Vlapic) (val : ℕ) → IsServed s → Serves (vlapic_set_tpr s val)
unfolding vlapic_set_tpr
set_tpr-Serves s val h =
    let t : Vlapic = record s { tpr = val } in
    either-Serves (s.tpr == val) (some s) (vlapic_update_ppr t) (served s h)
      (with_ppr t, update_ppr_lem t h.stack, record { stack = h.stack; ppr_right = refl })

pub set_cr8-Serves : (s : Vlapic) (val : ℕ) → IsServed s → Serves (vlapic_set_cr8 s val)
unfolding vlapic_set_cr8
set_cr8-Serves s val h =
    let t : Vlapic = record s { gps = s.gps + 1 } in
    either-Serves (not (val / 16 == 0)) (some t) (vlapic_set_tpr s (val * 16 % 256))
      (served t (same-IsServed s t refl refl refl refl refl h))
      (set_tpr-Serves s (val * 16 % 256) h)

-- An interrupt window: the pending vector, if there is one, is accepted.
abbrev pub accept : Vlapic → Option ℕ → Option Vlapic
accept s none = some s
accept s (some vector) = vlapic_intr_accepted s vector

unfoldable pub accept_pending : Vlapic → Option Vlapic
unfolding vlapic_pending_intr vlapic_intr_accepted
accept_pending s = accept s (vlapic_pending_intr s)

accept-Serves :
    (s : Vlapic) (found : Option ℕ)
    → vlapic_pending_intr s ≡ found
    → IsServed s
    → Serves (accept s found)
accept-Serves s none pending h = served s h
accept-Serves s (some vector) pending h =
    let (run, right) = intr_accepted_lem s vector h pending in (accepted s vector, run, right)

pub accept_pending-Serves : (s : Vlapic) → IsServed s → Serves (accept_pending s)
unfolding accept_pending
accept_pending-Serves s h = accept-Serves s (vlapic_pending_intr s) refl h

write_lvt-IsServed :
    (s : Vlapic) (value : ℕ) (idx : Option ℕ) → IsServed s → IsServed (write_lvt s value idx)
write_lvt-IsServed s value none h = h
write_lvt-IsServed s value (some idx) h =
    let t : Vlapic = record s { lvt = λ j. if j == idx then value else s.lvt j } in
    lvt_write-IsServed t idx (same-IsServed s t refl refl refl refl refl h)

id_write-IsServed : (s : Vlapic) → IsServed s → IsServed (vlapic_id_write_handler s)
unfolding vlapic_id_write_handler
id_write-IsServed s h = same-IsServed s _ refl refl refl refl refl h

ldr_write-IsServed : (s : Vlapic) → IsServed s → IsServed (vlapic_ldr_write_handler s)
unfolding vlapic_ldr_write_handler
ldr_write-IsServed s h =
    either-IsServed (x2apic s) _ _ (same-IsServed s _ refl refl refl refl refl h)
      (same-IsServed s _ refl refl refl refl refl h)

dfr_write-IsServed : (s : Vlapic) → IsServed s → IsServed (vlapic_dfr_write_handler s)
unfolding vlapic_dfr_write_handler
dfr_write-IsServed s h =
    either-IsServed (x2apic s) _ _ (same-IsServed s _ refl refl refl refl refl h)
      (same-IsServed s _ refl refl refl refl refl h)

pub dcr_write-IsServed : (s : Vlapic) → IsServed s → IsServed (vlapic_dcr_write_handler s)
unfolding vlapic_dcr_write_handler
dcr_write-IsServed s h = same-IsServed s _ refl refl refl refl refl h

esr_write-IsServed : (s : Vlapic) → IsServed s → IsServed (vlapic_esr_write_handler s)
unfolding vlapic_esr_write_handler
esr_write-IsServed s h = same-IsServed s _ refl refl refl refl refl h

-- A write of a register of the page.
pub write_page-Serves :
    (s : Vlapic) (now offset written : ℕ) → IsServed s → Serves (write_page s now offset written)
unfolding write_page
write_page-Serves s now offset written h =
    let value = written % 2 ^ 32 in
    let as_id : Vlapic = record s { id = value } in
    let as_ldr : Vlapic = record s { ldr = value } in
    let as_dfr : Vlapic = record s { dfr = value } in
    let as_svr : Vlapic = record s { svr = value } in
    let as_hi : Vlapic = record s { icr_hi = value } in
    let as_icr : Vlapic = record s { icr_timer = value } in
    let as_dcr : Vlapic = record s { dcr_timer = value } in
    either-Serves (offset == 0x20) _ _
      (served _ (id_write-IsServed as_id (same-IsServed s as_id refl refl refl refl refl h)))
      (either-Serves (offset == 0x80) _ _ (set_tpr-Serves s (written % 256) h) (
        either-Serves (offset == 0xb0) _ _ (eoi-Serves s h) (
          either-Serves (offset == 0xd0) _ _
            (served _
              (ldr_write-IsServed as_ldr (same-IsServed s as_ldr refl refl refl refl refl h)))
            (either-Serves (offset == 0xe0) _ _
              (served _
                (dfr_write-IsServed as_dfr (same-IsServed s as_dfr refl refl refl refl refl h)))
              (either-Serves (offset == 0xf0) _ _
                (served _ (
                  svr_write-IsServed now as_svr
                    (same-IsServed s as_svr refl refl refl refl refl h)))
                (either-Serves (offset == 0x310) _ _
                  (served as_hi (same-IsServed s as_hi refl refl refl refl refl h))
                  (either-Serves (offset == 0x380) _ _
                    (served _ (
                      icrtmr-IsServed now as_icr
                        (same-IsServed s as_icr refl refl refl refl refl h)))
                    (either-Serves (offset == 0x3e0) _ _
                      (served _ (
                        dcr_write-IsServed as_dcr
                          (same-IsServed s as_dcr refl refl refl refl refl h)))
                      (either-Serves (offset == 0x280) _ _ (served _ (esr_write-IsServed s h))
                        (served _ (write_lvt-IsServed s value (lvt_off_to_idx offset) h)))))))))))
