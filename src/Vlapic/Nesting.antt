-- ===== src/Vlapic/Nesting.antt =====
-- Which vector is pending, and an interrupt from its acceptance to its end (src/vmm/io/vlapic.c).
use xhyve_manager.Base.{
  ℕ, ◌+◌, ◌-◌, ◌<◌, ◌≡◌, refl, sym, ap, ◌∙◌, true, false, not, ◌&&◌, some, ◌==◌, ltb, if◌then◌else◌,
  arith, Bool-cases, inl, inr, ◌∷◌, ◌↔◌,
}
use xhyve_manager.Base.Bits.Masks.{bit_and-0xf0}
use xhyve_manager.Vlapic.Vectors.{
  Vectors, has_vector, add_vector, remove_vector, highest, has_vector-add_vector,
  has_vector-remove_vector,
}
use xhyve_manager.Vlapic.Device.{
  Vlapic, prio, isrvec, ppr_of, broadcast_eoi, vlapic_process_eoi, above_ppr, vlapic_pending_intr,
  vlapic_intr_accepted,
}
use xhyve_manager.Vlapic.Push.{under_top}
use xhyve_manager.Vlapic.Service.{
  IsServed, pending_parts, vector_lt, vector_above, with_ppr, accepted, intr_accepted_lem, left,
  ended, eoi_busy,
}

-- The class of the processor priority is the higher of the two.
ppr_class :
    (tpr vector p : ℕ)
    → vector < 256
    → (prio (ppr_of tpr vector) < p) ↔ ((prio tpr < p) × (prio vector < p))
ppr_class tpr vector p fits = ground (arith, bit_and-0xf0 vector)

pending_by :
    (s : Vlapic) (vector : ℕ)
    → highest s.irr ≡ some vector
    → prio s.ppr < prio vector
    → vlapic_pending_intr s ≡ some vector
unfolding vlapic_pending_intr
pending_by s vector found above =
    let allowed : ltb (prio s.ppr) (prio vector) ≡ true = ground (arith, above) in
    ap (λ o. above_ppr s.ppr o) found ∙ rw allowed refl

-- A vector is pending exactly when it is the highest that is requested and its priority is above
-- those of the task and of the vector in service.
pub vlapic_pending_intr_iff :
    (s : Vlapic) (vector : ℕ)
    → IsServed s
    → (vlapic_pending_intr s ≡ some vector) ↔ (
        (highest s.irr ≡ some vector)
        × (prio s.tpr < prio vector)
        × (prio (isrvec s) < prio vector))
vlapic_pending_intr_iff s vector h =
    let (down, up) =
      ppr_class s.tpr (isrvec s) (prio vector) (h.stack.bytes s.isrvec_stk_top (omega arith)) in
    (
      λ pending.
          let (found, above) = pending_parts s vector pending in
          let (task, service) = down (rw (sym h.ppr_right) above) in (found, task, service),
      λ (found, task, service). pending_by s vector found (rw h.ppr_right (up (task, service))),
    )

module _ (s : Vlapic) (vector : ℕ) (h : IsServed s)
    (pending : vlapic_pending_intr s ≡ some vector) where
  -- The vector was not in service before.
  was_idle : has_vector s.isr vector ≡ false
  was_idle = elim (Bool-cases (has_vector s.isr vector)) [
    | inr idle ↦ idle
    | inl busy ↦
        (let (i, low, high, at_i) = h.stack.held vector (vector_lt s vector h pending) busy in
          absurd (
            omega (
              arith,
              under_top h.stack vector (vector_lt s vector h pending)
                  (vector_above s vector h pending) i low high,
              vector_above s vector h pending,
              at_i,
            )))
  ]

add_remove :
    (w : Vectors) (v x : ℕ)
    → has_vector w v ≡ false
    → has_vector (remove_vector (add_vector w v) v) x ≡ has_vector w x
add_remove w v x idle =
    has_vector-remove_vector (add_vector w v) v x
    ∙ (ap (λ b. not (v == x) && b) (has_vector-add_vector w v x) ∙ elim (Bool-cases (v == x)) [
      | inl same ↦
          (let at_x : v ≡ x = ground (arith, same) in
            rw same (sym (ap (λ u. has_vector w u) (sym at_x) ∙ idle)))
      | inr other ↦ rw other refl
    ])

-- What the end of a vector at the I/O APIC leaves.
broadcast-fields :
    (r : Vlapic) (vector : ℕ)
    → let u = broadcast_eoi r vector in
      (u.isr ≡ r.isr)
      × (u.isrvec_stk_top ≡ r.isrvec_stk_top)
      × (u.ppr ≡ r.ppr)
      × (u.irr ≡ r.irr)
      × (u.eois ≡ (if has_vector r.tmr vector then vector ∷ r.eois else r.eois))
broadcast-fields r vector = elim (Bool-cases (has_vector r.tmr vector)) [
  | inl level ↦ rw level (refl, refl, refl, refl, refl)
  | inr edge ↦ rw edge (refl, refl, refl, refl, refl)
]

-- A pending vector that is accepted and then ended: neither call aborts, and afterwards the vectors
-- in service, the depth of the stack and the processor priority are what they were, the vector is no
-- longer requested, and it has been ended at the I/O APIC exactly when it is level-triggered.
pub process_eoi-intr_accepted :
    (s : Vlapic) (vector x : ℕ)
    → IsServed s
    → vlapic_pending_intr s ≡ some vector
    → (t : Vlapic) × (u : Vlapic) × (vlapic_intr_accepted s vector ≡ some t)
      × (vlapic_process_eoi t ≡ some u)
      × (has_vector u.isr x ≡ has_vector s.isr x)
      × (u.isrvec_stk_top ≡ s.isrvec_stk_top)
      × (u.ppr ≡ s.ppr)
      × (has_vector u.irr vector ≡ false)
      × (u.eois ≡ (if has_vector s.tmr vector then vector ∷ s.eois else s.eois))
process_eoi-intr_accepted s vector x h pending =
    let t = accepted s vector in
    let (accept, ht) = intr_accepted_lem s vector h pending in
    let busy : (t.isrvec_stk_top == 0) ≡ false = ground arith in
    let (isr, top, ppr, irr, eois) = broadcast-fields (with_ppr (left t)) (isrvec t) in
    let on_top : isrvec t ≡ vector = ground (arith, vector_lt s vector h pending) in
    let idle = was_idle s vector h pending in
    let back : s.isrvec_stk_top + 1 - 1 ≡ s.isrvec_stk_top = omega arith in
    let other : (s.isrvec_stk_top + 1 - 1 == s.isrvec_stk_top + 1) ≡ false = ground arith in
    (
      t,
      ended t,
      accept,
      eoi_busy t ht busy,
      ap (λ w. has_vector w x) isr
          ∙ (ap (λ v. has_vector (remove_vector (add_vector s.isr vector) v) x) on_top
              ∙ add_remove s.isr vector x idle),
      top ∙ back,
      ppr ∙ rw (other, back) (sym h.ppr_right),
      ap (λ w. has_vector w vector) irr
          ∙ (has_vector-remove_vector s.irr vector vector ∙ ground arith),
      eois ∙ rw on_top refl,
    )
