-- ===== src/Vlapic/Kept.antt =====
-- The calls of a local APIC that leave its priorities alone (src/vmm/io/vlapic.c).
use xhyve_manager.Base.{
  ℕ, ◌+◌, ◌≡◌, refl, Bool, true, false, not, ◌||◌, ◌==◌, ltb, if◌then◌else◌, bit_and, bit_or,
  bit_xor, ok, einval,
}
use xhyve_manager.Base.Bits.{has_bit}
use xhyve_manager.Vlapic.Vectors.{add_vector}
use xhyve_manager.Vlapic.Device.{Vlapic, svr_enabled}
use xhyve_manager.Vlapic.Service.{IsServed}
use xhyve_manager.Vlapic.Lvt.{
  lint0, lint1, lvt_timer, lvt_error, vlapic_lvt_write_handler, mask_lvt, vlapic_mask_lvts,
  set_intr_ready_with, notify_if, fire_lvt_with, set_error_with, vlapic_set_error, vlapic_fire_lvt,
  vlapic_set_intr_ready, fire_entry, vlapic_enabled, vlapic_trigger_lvt, periodic_timer,
  vlapic_icrtmr_write_handler, vlapic_callout_handler, vlapic_svr_write_handler,
}

-- Nothing of what the priorities depend on differs.
pub same-IsServed :
    (s t : Vlapic)
    → t.isr ≡ s.isr
    → t.isrvec_stk ≡ s.isrvec_stk
    → t.isrvec_stk_top ≡ s.isrvec_stk_top
    → t.tpr ≡ s.tpr
    → t.ppr ≡ s.ppr
    → IsServed s
    → IsServed t
same-IsServed s t isr stk top tpr ppr h = record {
  stack = rw (isr, stk, top) h.stack;
  ppr_right = rw (ppr, tpr, stk, top) h.ppr_right;
}

pub either-IsServed :
    (b : Bool) (s t : Vlapic) → IsServed s → IsServed t → IsServed (if b then s else t)
either-IsServed true s t hs ht = hs
either-IsServed false s t hs ht = ht

either_result {ℓ} :
    {A : Type ℓ} (b : Bool) (r q : A × Vlapic)
    → IsServed r.1
    → IsServed q.1
    → IsServed (if b then r else q).1
either_result true r q hr hq = hr
either_result false r q hr hq = hq

pub notify_if-IsServed : (r : Bool × Vlapic) → IsServed r.1 → IsServed (notify_if r)
notify_if-IsServed r h =
    either-IsServed r.0 (record r.1 { notified = r.1.notified + 1 }) r.1
      (same-IsServed r.1 _ refl refl refl refl refl h) h

module _ (set_error : Vlapic → ℕ → Vlapic)
    (kept : (s : Vlapic) (x : ℕ) → IsServed s → IsServed (set_error s x)) where
  ready_with-IsServed :
      (s : Vlapic) (vector : ℕ) → IsServed s → IsServed (set_intr_ready_with set_error s vector).1
  unfolding set_intr_ready_with
  ready_with-IsServed s vector h =
      either_result (not (svr_enabled s)) (false, s) _ h
        (either_result (ltb vector 16) (true, set_error s 0x40)
          (true, record s { irr = add_vector s.irr vector }) (kept s 0x40 h)
          (same-IsServed s _ refl refl refl refl refl h))

  fire_with-IsServed :
      (s : Vlapic) (entry : ℕ) → IsServed s → IsServed (fire_lvt_with set_error s entry).1
  unfolding fire_lvt_with
  fire_with-IsServed s entry h =
      let vec = bit_and entry 0xff in
      let mode = bit_and entry 0x700 in
      either_result (has_bit entry 16) (false, s) _ h
        (either_result (mode == 0) _ _
          (either_result (ltb vec 16) (false, set_error s 0x20)
            (true, notify_if (set_intr_ready_with set_error s vec)) (kept s 0x20 h)
            (notify_if-IsServed (set_intr_ready_with set_error s vec)
              (ready_with-IsServed s vec h)))
          (either_result (mode == 0x400) (true, record s { nmis = s.nmis + 1 }) _
            (same-IsServed s _ refl refl refl refl refl h)
            (either_result (mode == 0x700) (true, record s { extints = s.extints + 1 }) (false, s)
              (same-IsServed s _ refl refl refl refl refl h) h)))

error_with-IsServed :
    (fire : Vlapic → ℕ → Bool × Vlapic)
    → ((s : Vlapic) (x : ℕ) → IsServed s → IsServed (fire s x).1)
    → (s : Vlapic) (mask : ℕ) → IsServed s
    → IsServed (set_error_with fire s mask)
unfolding set_error_with
error_with-IsServed fire kept s mask h =
    let p : Vlapic = record s { esr_pending = bit_or s.esr_pending mask } in
    let q : Vlapic = record p { esr_firing = true } in
    let r = fire q (p.lvt_last lvt_error) in
    let hp = same-IsServed s p refl refl refl refl refl h in
    either-IsServed s.esr_firing p (record r.1 { esr_firing = false }) hp
      (same-IsServed r.1 _ refl refl refl refl refl
        (kept q (p.lvt_last lvt_error) (same-IsServed p q refl refl refl refl refl hp)))

pub set_error-IsServed : (s : Vlapic) (mask : ℕ) → IsServed s → IsServed (vlapic_set_error s mask)
unfolding vlapic_set_error
set_error-IsServed = error_with-IsServed (fire_lvt_with (set_error_with (λ s entry. (false, s)))) (
    fire_with-IsServed (set_error_with (λ s entry. (false, s)))
      (error_with-IsServed (λ s entry. (false, s)) (λ s entry h. h)))

pub fire_lvt-IsServed : (s : Vlapic) (entry : ℕ) → IsServed s → IsServed (vlapic_fire_lvt s entry).1
unfolding vlapic_fire_lvt
fire_lvt-IsServed = fire_with-IsServed vlapic_set_error set_error-IsServed

pub set_intr_ready-IsServed :
    (s : Vlapic) (vector : ℕ) → IsServed s → IsServed (vlapic_set_intr_ready s vector).1
unfolding vlapic_set_intr_ready
set_intr_ready-IsServed = ready_with-IsServed vlapic_set_error set_error-IsServed

pub trigger_lvt-IsServed :
    (s : Vlapic) (vector : ℕ) → IsServed s → IsServed (vlapic_trigger_lvt s vector).1
unfolding vlapic_trigger_lvt
trigger_lvt-IsServed s vector h =
    let extint : Vlapic = record s { extints = s.extints + 1 } in
    let nmi : Vlapic = record s { nmis = s.nmis + 1 } in
    either_result (not (vlapic_enabled s)) _ _
      (either_result (vector == lint0) (ok, extint) _
        (same-IsServed s extint refl refl refl refl refl h)
        (either_result (vector == lint1) (ok, nmi) (ok, s)
          (same-IsServed s nmi refl refl refl refl refl h) h))
      (either_result (ltb 6 vector) (einval, s) (ok, fire_entry s vector) h
        (fire_lvt-IsServed s (s.lvt_last vector) h))

pub lvt_write-IsServed :
    (s : Vlapic) (idx : ℕ) → IsServed s → IsServed (vlapic_lvt_write_handler s idx)
unfolding vlapic_lvt_write_handler
lvt_write-IsServed s idx h = same-IsServed s _ refl refl refl refl refl h

mask_lvt-IsServed : (s : Vlapic) (idx : ℕ) → IsServed s → IsServed (mask_lvt s idx)
mask_lvt-IsServed s idx h = lvt_write-IsServed _ idx (same-IsServed s _ refl refl refl refl refl h)

pub mask_lvts-IsServed : (s : Vlapic) → IsServed s → IsServed (vlapic_mask_lvts s)
unfolding vlapic_mask_lvts
mask_lvts-IsServed s h = mask_lvt-IsServed _ 3 (
    mask_lvt-IsServed _ 1 (
      mask_lvt-IsServed _ 0 (
        mask_lvt-IsServed _ 4
          (mask_lvt-IsServed _ 5 (mask_lvt-IsServed _ 2 (mask_lvt-IsServed s 6 h))))))

pub icrtmr-IsServed :
    (now : ℕ) (s : Vlapic) → IsServed s → IsServed (vlapic_icrtmr_write_handler now s)
unfolding vlapic_icrtmr_write_handler
icrtmr-IsServed now s h =
    either-IsServed (not (s.icr_timer == 0)) _ _ (same-IsServed s _ refl refl refl refl refl h)
      (same-IsServed s _ refl refl refl refl refl h)

pub svr_write-IsServed :
    (now : ℕ) (s : Vlapic) → IsServed s → IsServed (vlapic_svr_write_handler now s)
unfolding vlapic_svr_write_handler
svr_write-IsServed now s h =
    let t : Vlapic = record s { svr_last = s.svr } in
    let ht = same-IsServed s t refl refl refl refl refl h in
    let stopped : Vlapic = record t { timer = false } in
    either-IsServed (not (has_bit (bit_xor s.svr_last s.svr) 8)) t _ ht (
      either-IsServed (not (svr_enabled t)) (vlapic_mask_lvts stopped) _
        (mask_lvts-IsServed stopped (same-IsServed t stopped refl refl refl refl refl ht))
        (either-IsServed (periodic_timer t) (vlapic_icrtmr_write_handler now t) t
          (icrtmr-IsServed now t ht) ht))

pub callout-IsServed :
    (now : ℕ) (pending : Bool) (s : Vlapic)
    → IsServed s
    → IsServed (vlapic_callout_handler now pending s)
unfolding vlapic_callout_handler
callout-IsServed now pending s h =
    let d : Vlapic = record s { timer = false } in
    let t = fire_entry d lvt_timer in
    let ht =
      fire_lvt-IsServed d (d.lvt_last lvt_timer) (same-IsServed s d refl refl refl refl refl h) in
    either-IsServed (pending || not s.timer) s _ h
      (either-IsServed (periodic_timer t) _ t (same-IsServed t _ refl refl refl refl refl ht) ht)
