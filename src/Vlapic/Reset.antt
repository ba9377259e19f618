-- ===== src/Vlapic/Reset.antt =====
-- The trigger modes of the vectors of a local APIC, its reset and its mode (src/vmm/io/vlapic.c).
use xhyve_manager.Base.{
  ℕ, zero, suc, ◌*◌, ◌^◌, Bool, false, [], ◌==◌, if◌then◌else◌, bit_or, Status, ok, fail,
}
use xhyve_manager.Base.Bits.{set_bit, clear_bit}
use xhyve_manager.Vlapic.Vectors.{remove_vector, add_vector}
use xhyve_manager.Vlapic.Device.{bs_init, bs_running, Vlapic, x2apic}
use xhyve_manager.Vlapic.Lvt.{vlapic_mask_lvts, vlapic_dcr_write_handler}
use xhyve_manager.Vlapic.Access.{vlapic_get_id, x2apic_ldr}

abbrev pub vlapic_set_tmr : Vlapic → ℕ → Bool → Vlapic
vlapic_set_tmr s vector level = record s {
  tmr = if level then add_vector s.tmr vector else remove_vector s.tmr vector;
}

-- The loop of `vlapic_reset_tmr` over the vectors below n.
unfoldable pub reset_tmr_below : ℕ → Vlapic → Vlapic
unfolding add_vector remove_vector
reset_tmr_below zero s = s
reset_tmr_below (suc n) s = vlapic_set_tmr (reset_tmr_below n s) n false

unfoldable pub vlapic_reset_tmr : Vlapic → Vlapic
unfolding reset_tmr_below
vlapic_reset_tmr s = reset_tmr_below 256 s

-- What `bzero` leaves of the page.
abbrev pub cleared_page : Vlapic → Vlapic
cleared_page s = record s {
  id = 0;
  version = 0;
  tpr = 0;
  ppr = 0;
  ldr = 0;
  dfr = 0;
  svr = 0;
  isr = λ j. 0;
  tmr = λ j. 0;
  irr = λ j. 0;
  esr = 0;
  icr_lo = 0;
  icr_hi = 0;
  lvt = λ j. 0;
  icr_timer = 0;
  dcr_timer = 0;
}

-- `VLAPIC_VERSION` is 16 and the highest entry of the table 6.
unfoldable pub vlapic_reset : Vlapic → Vlapic
unfolding vlapic_get_id vlapic_mask_lvts vlapic_reset_tmr vlapic_dcr_write_handler
vlapic_reset s =
    let t = record (cleared_page s) {
      id = vlapic_get_id s;
      version = bit_or 16 (6 * 2 ^ 16);
      dfr = 0xffffffff;
      svr = 0xff;
    } in
    let u = vlapic_dcr_write_handler (vlapic_reset_tmr (vlapic_mask_lvts t)) in
    record u { boot_state = if u.vcpuid == 0 then bs_running else bs_init; svr_last = u.svr }

-- The structure of zeros that `vlapic_init` gets, with what it sets before the reset: the base
-- address, `APICBASE_ENABLED` and `APICBASE_BSP`.
abbrev pub enabled_apic : ℕ → Vlapic
enabled_apic vcpuid = record {
  vcpuid = vcpuid;
  msr_apicbase = if vcpuid == 0 then 0xfee00900 else 0xfee00800;
  id = 0;
  version = 0;
  tpr = 0;
  ppr = 0;
  ldr = 0;
  dfr = 0;
  svr = 0;
  isr = λ j. 0;
  tmr = λ j. 0;
  irr = λ j. 0;
  esr = 0;
  icr_lo = 0;
  icr_hi = 0;
  lvt = λ j. 0;
  icr_timer = 0;
  dcr_timer = 0;
  esr_pending = 0;
  esr_firing = false;
  timer = false;
  timer_fire = 0;
  timer_freq = 0;
  timer_period = 0;
  isrvec_stk = λ j. 0;
  isrvec_stk_top = 0;
  boot_state = bs_init;
  svr_last = 0;
  lvt_last = λ j. 0;
  notified = 0;
  nmis = 0;
  extints = 0;
  gps = 0;
  eois = [];
}

unfoldable pub vlapic_init : ℕ → Vlapic
unfolding vlapic_reset
vlapic_init vcpuid = vlapic_reset (enabled_apic vcpuid)

-- `vlapic_set_apicbase`.
unfoldable pub vlapic_set_apicbase : Vlapic → ℕ → Status
vlapic_set_apicbase s new = if s.msr_apicbase == new then ok else fail

-- `vlapic_set_x2apic_state`; `APICBASE_X2APIC` is the bit 10.
unfoldable pub vlapic_set_x2apic_state : Vlapic → Bool → Vlapic
unfolding vlapic_get_id x2apic_ldr
vlapic_set_x2apic_state s on =
    let t = record s {
      msr_apicbase = if on then set_bit s.msr_apicbase 10 else clear_bit 64 s.msr_apicbase 10;
    } in
    let u = record t { id = vlapic_get_id t } in
    if x2apic u
    then record u { ldr = x2apic_ldr u; dfr = 0 }
    else record u { ldr = 0; dfr = 0xffffffff }
