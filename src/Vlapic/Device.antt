-- ===== src/Vlapic/Device.antt =====
-- The state of a local APIC and the calls that deal with priorities: what is pending, in service
-- and ended (src/vmm/io/vlapic.c). The virtual CPU makes these calls itself, so a call is one step.
-- `vlapic->ops` is empty, as the VT-x backend leaves it. An outcome of none is `xhyve_abort`.
use xhyve_manager.Base.{
  ℕ, zero, suc, ◌+◌, ◌-◌, ◌*◌, ◌/◌, ◌%◌, Bool, true, not, ◌&&◌, ◌||◌, Option, none, some, List, ◌∷◌,
  ◌==◌, ltb, leb, if◌then◌else◌, bit_and, ◌>>=◌,
}
use xhyve_manager.Base.Bits.{has_bit}
use xhyve_manager.Vlapic.Vectors.{Vectors, has_vector, add_vector, remove_vector, highest}

-- `enum boot_state`.
pub data BootState : Type 0 where
  bs_init bs_sipi bs_running : BootState

-- `struct vlapic` with the registers of `struct LAPIC` that it keeps in its page. `isr`, `tmr` and
-- `irr` are by word, `lvt` and `lvt_last` by the index of the entry, and times are in units of 2^-64
-- seconds. `timer` says that the callout is active. What the calls do outside is recorded:
-- `notified`, `nmis`, `extints` and `gps` count the notifications of the virtual CPU and the
-- injections of an NMI, of an external interrupt and of a #GP, and `eois` lists the vectors that
-- were ended at the I/O APIC, the last one first.
pub record Vlapic : Type 0 where
  pub vcpuid : ℕ
  pub msr_apicbase : ℕ
  pub id : ℕ
  pub version : ℕ
  pub tpr : ℕ
  pub ppr : ℕ
  pub ldr : ℕ
  pub dfr : ℕ
  pub svr : ℕ
  pub isr : Vectors
  pub tmr : Vectors
  pub irr : Vectors
  pub esr : ℕ
  pub icr_lo : ℕ
  pub icr_hi : ℕ
  pub lvt : ℕ → ℕ
  pub icr_timer : ℕ
  pub dcr_timer : ℕ
  pub esr_pending : ℕ
  pub esr_firing : Bool
  pub timer : Bool
  pub timer_fire : ℕ
  pub timer_freq : ℕ
  pub timer_period : ℕ
  pub isrvec_stk : ℕ → ℕ
  pub isrvec_stk_top : ℕ
  pub boot_state : BootState
  pub svr_last : ℕ
  pub lvt_last : ℕ → ℕ
  pub notified : ℕ
  pub nmis : ℕ
  pub extints : ℕ
  pub gps : ℕ
  pub eois : List ℕ

-- `PRIO`.
abbrev pub prio : ℕ → ℕ
prio x = x / 16

-- The bits `APIC_SVR_ENABLE` and `APICBASE_X2APIC`.
abbrev pub svr_enabled : Vlapic → Bool
svr_enabled s = has_bit s.svr 8

abbrev pub x2apic : Vlapic → Bool
x2apic s = has_bit s.msr_apicbase 10

-- The check of `vlapic_update_ppr` that the priorities on the stack increase, from the index `i` on;
-- `last` is `lastprio + 1`.
unfoldable pub increasing : (ℕ → ℕ) → ℕ → ℕ → ℕ → Bool
increasing stk zero i last = true
increasing stk (suc rounds) i last =
    not (leb (suc (prio (stk i))) last) && increasing stk rounds (suc i) (suc (prio (stk i)))

-- Its check that every vector in service, from `vector` on, is on the stack, from the index `i` on.
unfoldable pub in_sync : Vectors → (ℕ → ℕ) → ℕ → ℕ → ℕ → ℕ → Bool
unfolding has_vector
in_sync isr stk top zero vector i = true
in_sync isr stk top (suc rounds) vector i =
    let there = has_vector isr vector in
    let rest = in_sync isr stk top rounds (suc vector) (if there then suc i else i) in
    not (there && (ltb top i || not (stk i == vector))) && rest

abbrev pub isrvec : Vlapic → ℕ
isrvec s = s.isrvec_stk s.isrvec_stk_top

-- The priority that follows from the task priority and the vector in service.
abbrev pub ppr_of : ℕ → ℕ → ℕ
ppr_of tpr vector = if leb (prio vector) (prio tpr) then tpr else bit_and vector 0xf0

unfoldable pub vlapic_update_ppr : Vlapic → Option Vlapic
unfolding increasing in_sync
vlapic_update_ppr s =
    let top = s.isrvec_stk_top in
    if top == 0 && not (isrvec s == 0)
    then none
    else if not (increasing s.isrvec_stk top 1 0)
    then none
    else if not (in_sync s.isr s.isrvec_stk top 256 0 1)
    then none
    else some (record s { ppr = ppr_of s.tpr (isrvec s) })

-- The end of `vlapic_process_eoi`: a level-triggered vector is ended at the I/O APIC.
abbrev pub broadcast_eoi : Vlapic → ℕ → Vlapic
broadcast_eoi s vector = if has_vector s.tmr vector then record s { eois = vector ∷ s.eois } else s

-- The end of the vector that the scan of the ISR found.
unfoldable pub end_vector : Vlapic → ℕ → Option Vlapic
unfolding vlapic_update_ppr has_vector remove_vector
end_vector s vector =
    if s.isrvec_stk_top == 0
    then none
    else vlapic_update_ppr
        (record s { isr = remove_vector s.isr vector; isrvec_stk_top = s.isrvec_stk_top - 1 })
      >>= λ t. some (broadcast_eoi t vector)

abbrev pub eoi_of : Vlapic → Option ℕ → Option Vlapic
unfolding end_vector
eoi_of s none = some s
eoi_of s (some vector) = end_vector s vector

unfoldable pub vlapic_process_eoi : Vlapic → Option Vlapic
unfolding end_vector highest
vlapic_process_eoi s = eoi_of s (highest s.isr)

-- The highest requested vector, if its priority is above the processor's.
abbrev pub above_ppr : ℕ → Option ℕ → Option ℕ
above_ppr ppr none = none
above_ppr ppr (some vector) = if ltb (prio ppr) (prio vector) then some vector else none

-- `vlapic_pending_intr`: `*vecptr`, or none when it returns 0.
unfoldable pub vlapic_pending_intr : Vlapic → Option ℕ
unfolding highest
vlapic_pending_intr s = above_ppr s.ppr (highest s.irr)

-- `ISRVEC_STK_SIZE` is 17.
unfoldable pub vlapic_intr_accepted : Vlapic → ℕ → Option Vlapic
unfolding vlapic_update_ppr add_vector remove_vector
vlapic_intr_accepted s vector =
    let top = s.isrvec_stk_top + 1 in
    if leb 17 top
    then none
    else vlapic_update_ppr (record s {
      irr = remove_vector s.irr vector;
      isr = add_vector s.isr vector;
      isrvec_stk_top = top;
      isrvec_stk = λ j. if j == top then vector % 256 else s.isrvec_stk j;
    })

unfoldable pub vlapic_set_tpr : Vlapic → ℕ → Option Vlapic
unfolding vlapic_update_ppr
vlapic_set_tpr s val = if s.tpr == val then some s else vlapic_update_ppr (record s { tpr = val })

unfoldable pub vlapic_set_cr8 : Vlapic → ℕ → Option Vlapic
unfolding vlapic_set_tpr
vlapic_set_cr8 s val =
    if not (val / 16 == 0)
    then some (record s { gps = s.gps + 1 })
    else vlapic_set_tpr s (val * 16 % 256)

abbrev pub vlapic_get_cr8 : Vlapic → ℕ
vlapic_get_cr8 s = s.tpr % 256 / 16
