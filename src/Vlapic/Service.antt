-- ===== src/Vlapic/Service.antt =====
-- Accepting and ending interrupts of a local APIC (src/vmm/io/vlapic.c).
use xhyve_manager.Base.{
  ℕ, suc, ◌+◌, ◌-◌, ◌%◌, ◌≤◌, ◌<◌, ◌≡◌, refl, sym, ap, ◌∙◌, Bool, true, false, not, ◌&&◌, none,
  some, ◌==◌, leb, if◌then◌else◌, arith, Bool-cases, Option-cases, inl, inr, List, ◌∷◌,
}
use xhyve_manager.Base.Bits.Masks.{bit_and-0xf0}
use xhyve_manager.Vlapic.Vectors.{
  Vectors, has_vector, add_vector, remove_vector, highest, highest_lem, highest-above, highest-none,
}
use xhyve_manager.Vlapic.Device.{
  Vlapic, prio, isrvec, ppr_of, vlapic_update_ppr, broadcast_eoi, end_vector, vlapic_process_eoi,
  above_ppr, vlapic_pending_intr, vlapic_intr_accepted,
}
use xhyve_manager.Vlapic.Stack.{IsStack, top_lt, stack_increasing, stack_in_sync}
use xhyve_manager.Vlapic.Push.{push-IsStack, pop-IsStack}

-- The stack is right, and the processor priority is the one that follows from the task priority and
-- the vector in service.
pub record IsServed (s : Vlapic) : Type 0 where
  pub stack : IsStack s.isr s.isrvec_stk s.isrvec_stk_top
  pub ppr_right : s.ppr ≡ ppr_of s.tpr (isrvec s)

-- The checks of `vlapic_update_ppr` pass.
pub update_ppr_lem :
    (s : Vlapic)
    → IsStack s.isr s.isrvec_stk s.isrvec_stk_top
    → vlapic_update_ppr s ≡ some (record s { ppr = ppr_of s.tpr (isrvec s) })
unfolding vlapic_update_ppr
update_ppr_lem s h = elim (Bool-cases (s.isrvec_stk_top == 0)) [
  | inl empty ↦
      (let at_bottom : s.isrvec_stk_top ≡ 0 = ground (arith, empty) in
        let zero_there : isrvec s ≡ 0 = ap (λ i. s.isrvec_stk i) at_bottom ∙ h.bottom in
        let fine : (s.isrvec_stk_top == 0 && not (isrvec s == 0)) ≡ false =
          ground (arith, zero_there) in
        rw (fine, stack_increasing h, stack_in_sync h) refl)
  | inr above ↦ rw (above, stack_increasing h, stack_in_sync h) refl
]

pub update_ppr-IsServed :
    (s : Vlapic)
    → IsStack s.isr s.isrvec_stk s.isrvec_stk_top
    → IsServed (record s { ppr = ppr_of s.tpr (isrvec s) })
update_ppr-IsServed s h = record { stack = h; ppr_right = refl }

-- What is pending: the highest vector that is requested, with a priority above the processor's.
pub pending_parts :
    (s : Vlapic) (vector : ℕ)
    → vlapic_pending_intr s ≡ some vector
    → (highest s.irr ≡ some vector) × (prio s.ppr < prio vector)
unfolding vlapic_pending_intr
pending_parts s vector pending = elim (Option-cases (highest s.irr)) [
  | inl nothing ↦ absurd (ground (arith, pending, nothing))
  | inr found ↦
      (let (v, at_v) = found in
        let allowed : above_ppr s.ppr (some v) ≡ some vector =
          sym (ap (λ o. above_ppr s.ppr o) at_v) ∙ pending in
        let same : v ≡ vector = ground (arith, allowed) in
        (at_v ∙ ap (λ x. some x) same, ground (arith, allowed)))
]

-- The processor priority is at least that of the vector in service.
ppr_above : (tpr vector : ℕ) → vector < 256 → prio vector ≤ prio (ppr_of tpr vector)
ppr_above tpr vector fits = ground (arith, bit_and-0xf0 vector)

-- The state after a vector is accepted, without and with the new priority.
abbrev pub entered : Vlapic → ℕ → Vlapic
entered s vector = record s {
  irr = remove_vector s.irr vector;
  isr = add_vector s.isr vector;
  isrvec_stk_top = s.isrvec_stk_top + 1;
  isrvec_stk = λ j. if j == s.isrvec_stk_top + 1 then vector % 256 else s.isrvec_stk j;
}

abbrev pub with_ppr : Vlapic → Vlapic
with_ppr t = record t { ppr = ppr_of t.tpr (isrvec t) }

abbrev pub accepted : Vlapic → ℕ → Vlapic
accepted s vector = with_ppr (entered s vector)

module _ (s : Vlapic) (vector : ℕ) (h : IsServed s)
    (pending : vlapic_pending_intr s ≡ some vector) where
  pub vector_lt : vector < 256
  vector_lt =
      let (found, above) = pending_parts s vector pending in (highest_lem s.irr vector found).1

  pub vector_above : prio (isrvec s) < prio vector
  vector_above =
      let (found, above) = pending_parts s vector pending in
      omega (
        arith,
        above,
        ap (λ x. prio x) h.ppr_right,
        ppr_above s.tpr (isrvec s) (h.stack.bytes s.isrvec_stk_top (omega arith)),
      )

  accepted-IsStack :
      IsStack
        (add_vector s.isr vector)
        (λ j. if j == s.isrvec_stk_top + 1 then vector % 256 else s.isrvec_stk j)
        (s.isrvec_stk_top + 1)
  accepted-IsStack =
      let byte : vector % 256 ≡ vector = omega (arith, vector_lt) in
      let next : s.isrvec_stk_top + 1 ≡ suc s.isrvec_stk_top = omega arith in
      rw (byte, next) (push-IsStack h.stack vector vector_lt vector_above)

  pub intr_accepted_lem :
      (vlapic_intr_accepted s vector ≡ some (accepted s vector)) × IsServed (accepted s vector)
  unfolding vlapic_intr_accepted
  intr_accepted_lem =
      let room : leb 17 (s.isrvec_stk_top + 1) ≡ false = ground (arith, top_lt h.stack) in
      (
        rw (room, update_ppr_lem (entered s vector) accepted-IsStack) refl,
        record { stack = accepted-IsStack; ppr_right = refl },
      )

-- The highest vector in service is the one on the top of the stack.
module _ {isr : Vectors} {stk : ℕ → ℕ} where
  highest_empty : IsStack isr stk 0 → highest isr ≡ none
  highest_empty h = elim (Option-cases (highest isr)) [
    | inl nothing ↦ nothing
    | inr found ↦
        (let (v, at_v) = found in
          let (there, fits) = highest_lem isr v at_v in
          let (i, low, high, at_i) = h.held v fits there in absurd (omega (arith, low, high)))
  ]

  highest_top : (top : ℕ) → IsStack isr stk (suc top) → highest isr ≡ some (stk (suc top))
  highest_top top h =
      let top_there = h.holds (suc top) (omega arith) (omega arith) in
      let top_fits = h.bytes (suc top) (omega arith) in
      elim (Option-cases (highest isr)) [
        | inl nothing ↦
            absurd (ground (arith, top_there, highest-none isr (stk (suc top)) nothing top_fits))
        | inr found ↦
            (let (v, at_v) = found in
              let (there, fits) = highest_lem isr v at_v in
              let (i, low, high, at_i) = h.held v fits there in
              elim (Bool-cases (i == suc top)) [
                | inl last ↦
                    (let at_top : i ≡ suc top = ground (arith, last) in
                      at_v ∙ ap (λ x. some x) (sym at_i ∙ ap stk at_top))
                | inr lower ↦
                    (let under =
                        h.rising i (suc top) low (ground (arith, lower, high)) (omega arith) in
                      absurd (
                        ground (
                          arith,
                          top_there,
                          highest-above isr v (stk (suc top)) at_v (omega (arith, under, at_i))
                              top_fits,
                        )))
              ])
      ]

-- The state after the vector on the top of the stack is ended, without and with the new priority.
abbrev pub left : Vlapic → Vlapic
left s = record s { isr = remove_vector s.isr (isrvec s); isrvec_stk_top = s.isrvec_stk_top - 1 }

abbrev pub ended : Vlapic → Vlapic
ended s = broadcast_eoi (with_ppr (left s)) (isrvec s)

module _ (s : Vlapic) (h : IsServed s) (busy : (s.isrvec_stk_top == 0) ≡ false) where
  one_more : s.isrvec_stk_top ≡ suc (s.isrvec_stk_top - 1)
  one_more = ground (arith, busy)

  full-IsStack : IsStack s.isr s.isrvec_stk (suc (s.isrvec_stk_top - 1))
  full-IsStack = rw (sym one_more) h.stack

  left-IsStack : IsStack (left s).isr s.isrvec_stk (s.isrvec_stk_top - 1)
  left-IsStack =
      let at_top : isrvec s ≡ s.isrvec_stk (suc (s.isrvec_stk_top - 1)) =
        ap (λ i. s.isrvec_stk i) one_more in
      rw at_top (pop-IsStack full-IsStack)

  top_found : highest s.isr ≡ some (isrvec s)
  top_found =
      highest_top (s.isrvec_stk_top - 1) full-IsStack
      ∙ ap (λ i. some (s.isrvec_stk i)) (sym one_more)

  end_top : end_vector s (isrvec s) ≡ some (ended s)
  unfolding end_vector
  end_top = rw (busy, update_ppr_lem (left s) left-IsStack) refl

  pub eoi_busy : vlapic_process_eoi s ≡ some (ended s)
  unfolding vlapic_process_eoi
  eoi_busy = rw top_found end_top

broadcast-IsServed :
    (b : Bool) (s : Vlapic) (v : List ℕ)
    → IsServed s
    → IsServed (if b then record s { eois = v } else s)
broadcast-IsServed true s v h = record { stack = h.stack; ppr_right = h.ppr_right }
broadcast-IsServed false s v h = h

pub ended-IsServed :
    (s : Vlapic) → IsServed s → (s.isrvec_stk_top == 0) ≡ false → IsServed (ended s)
ended-IsServed s h busy =
    broadcast-IsServed (has_vector s.tmr (isrvec s)) (with_ppr (left s)) (isrvec s ∷ s.eois)
      (record { stack = left-IsStack s h busy; ppr_right = refl })

pub eoi_idle :
    (s : Vlapic) → IsServed s → (s.isrvec_stk_top == 0) ≡ true → vlapic_process_eoi s ≡ some s
unfolding vlapic_process_eoi
eoi_idle s h idle =
    let none_left : s.isrvec_stk_top ≡ 0 = ground (arith, idle) in
    let h' : IsStack s.isr s.isrvec_stk 0 = rw (sym none_left) h.stack in rw (highest_empty h') refl
