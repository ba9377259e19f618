-- ===== src/Vlapic/Lvt.antt =====
-- The local vector table of a local APIC, its errors and its timer (src/vmm/io/vlapic.c). The
-- clock, `binuptime`, is an argument of each call and reads the same throughout it.
use xhyve_manager.Base.{
  ℕ, ◌+◌, ◌-◌, ◌*◌, ◌/◌, ◌%◌, ◌^◌, Bool, true, false, not, ◌&&◌, ◌||◌, Option, none, some, ◌==◌,
  ltb, leb, if◌then◌else◌, bit_and, bit_or, bit_xor, Status, ok, einval,
}
use xhyve_manager.Base.Bits.{has_bit, set_bit}
use xhyve_manager.Vlapic.Vectors.{add_vector}
use xhyve_manager.Vlapic.Device.{Vlapic, svr_enabled}

-- The entries `APIC_LVT_LINT0` to `APIC_LVT_CMCI`.
abbrev pub lint0 : ℕ
lint0 = 0

abbrev pub lint1 : ℕ
lint1 = 1

abbrev pub lvt_timer : ℕ
lvt_timer = 2

abbrev pub lvt_error : ℕ
lvt_error = 3

abbrev pub lvt_cmci : ℕ
lvt_cmci = 6

-- `lvt_off_to_idx`, for the offsets of the entries.
unfoldable pub lvt_off_to_idx : ℕ → Option ℕ
lvt_off_to_idx offset =
    if offset == 0x2f0
    then some 6
    else if offset == 0x320
    then some 2
    else if offset == 0x330
    then some 5
    else if offset == 0x340
    then some 4
    else if offset == 0x350
    then some 0
    else if offset == 0x360
    then some 1
    else if offset == 0x370
    then some 3
    else none

-- The bits of an entry that can be written.
abbrev pub lvt_mask : ℕ → ℕ
lvt_mask idx =
    if idx == lvt_timer
    then 0x310ff
    else if idx == lvt_error
    then 0x110ff
    else if idx == lint0 || idx == lint1
    then 0x1f7ff
    else 0x117ff

-- While the APIC is disabled by software every entry is masked.
unfoldable pub vlapic_lvt_write_handler : Vlapic → ℕ → Vlapic
vlapic_lvt_write_handler s idx =
    let val = if svr_enabled s then s.lvt idx else set_bit (s.lvt idx) 16 in
    let kept = bit_and val (lvt_mask idx) in
    record s {
      lvt = λ j. if j == idx then kept else s.lvt j;
      lvt_last = λ j. if j == idx then kept else s.lvt_last j;
    }

abbrev pub mask_lvt : Vlapic → ℕ → Vlapic
mask_lvt s idx =
    vlapic_lvt_write_handler
      (record s { lvt = λ j. if j == idx then set_bit (s.lvt idx) 16 else s.lvt j }) idx

unfoldable pub vlapic_mask_lvts : Vlapic → Vlapic
unfolding vlapic_lvt_write_handler
vlapic_mask_lvts s =
    mask_lvt (mask_lvt (mask_lvt (mask_lvt (mask_lvt (mask_lvt (mask_lvt s 6) 2) 5) 4) 0) 1) 3

-- `vlapic_set_intr_ready`, `vlapic_fire_lvt` and `vlapic_set_error` call each other: the first two
-- are given the last, and the last the second. The trigger mode is only traced.
unfoldable pub set_intr_ready_with : (Vlapic → ℕ → Vlapic) → Vlapic → ℕ → Bool × Vlapic
unfolding add_vector
set_intr_ready_with set_error s vector =
    if not (svr_enabled s)
    then (false, s)
    else if ltb vector 16
    then (true, set_error s 0x40)
    else (true, record s { irr = add_vector s.irr vector })

abbrev pub notify_if : Bool × Vlapic → Vlapic
notify_if r = if r.0 then record r.1 { notified = r.1.notified + 1 } else r.1

unfoldable pub fire_lvt_with : (Vlapic → ℕ → Vlapic) → Vlapic → ℕ → Bool × Vlapic
unfolding set_intr_ready_with
fire_lvt_with set_error s entry =
    let vec = bit_and entry 0xff in
    let mode = bit_and entry 0x700 in
    if has_bit entry 16
    then (false, s)
    else if mode == 0
    then if ltb vec 16
      then (false, set_error s 0x20)
      else (true, notify_if (set_intr_ready_with set_error s vec))
    else if mode == 0x400
    then (true, record s { nmis = s.nmis + 1 })
    else if mode == 0x700
    then (true, record s { extints = s.extints + 1 })
    else (false, s)

-- `APIC_LVT_DM_FIXED` is 0.
unfoldable pub set_error_with : (Vlapic → ℕ → Bool × Vlapic) → Vlapic → ℕ → Vlapic
set_error_with fire_lvt s mask =
    let p = record s { esr_pending = bit_or s.esr_pending mask } in
    if s.esr_firing
    then p
    else record (fire_lvt (record p { esr_firing = true }) (p.lvt_last lvt_error)).1 {
      esr_firing = false;
    }

-- An error that is raised while one is being fired fires nothing, so two levels are enough.
unfoldable pub vlapic_set_error : Vlapic → ℕ → Vlapic
unfolding set_error_with fire_lvt_with
vlapic_set_error = set_error_with (fire_lvt_with (set_error_with (λ s entry. (false, s))))

unfoldable pub vlapic_fire_lvt : Vlapic → ℕ → Bool × Vlapic
unfolding fire_lvt_with vlapic_set_error
vlapic_fire_lvt = fire_lvt_with vlapic_set_error

unfoldable pub vlapic_set_intr_ready : Vlapic → ℕ → Bool × Vlapic
unfolding set_intr_ready_with vlapic_set_error
vlapic_set_intr_ready = set_intr_ready_with vlapic_set_error

abbrev pub fire_entry : Vlapic → ℕ → Vlapic
fire_entry s idx = (vlapic_fire_lvt s (s.lvt_last idx)).1

abbrev pub vlapic_fire_cmci : Vlapic → Vlapic
vlapic_fire_cmci s = fire_entry s lvt_cmci

-- `APICBASE_ENABLED` is the bit 11.
abbrev pub vlapic_enabled : Vlapic → Bool
vlapic_enabled s = has_bit s.msr_apicbase 11 && svr_enabled s

unfoldable pub vlapic_trigger_lvt : Vlapic → ℕ → Status × Vlapic
unfolding vlapic_fire_lvt
vlapic_trigger_lvt s vector =
    if not (vlapic_enabled s)
    then if vector == lint0
      then (ok, record s { extints = s.extints + 1 })
      else if vector == lint1
      then (ok, record s { nmis = s.nmis + 1 })
      else (ok, s)
    else if ltb 6 vector
    then (einval, s)
    else (ok, fire_entry s vector)

-- `APIC_LVTT_TM_PERIODIC` is the bit 17.
abbrev pub periodic_timer : Vlapic → Bool
periodic_timer s = has_bit (s.lvt_last lvt_timer) 17

-- `vlapic_timer_divisor`: all eight values of the masked register have a divisor.
unfoldable pub vlapic_timer_divisor : ℕ → ℕ
vlapic_timer_divisor dcr =
    let d = bit_and dcr 0xb in if d == 0xb then 1 else if ltb d 4 then 2 ^ (d + 1) else 2 ^ (d - 3)

-- `VLAPIC_BUS_FREQ` is 2 ^ 27; `FREQ2BT` halves and doubles to stay in 64 bits.
unfoldable pub vlapic_dcr_write_handler : Vlapic → Vlapic
unfolding vlapic_timer_divisor
vlapic_dcr_write_handler s =
    let freq = 2 ^ 63 / (2 ^ 27 / vlapic_timer_divisor s.dcr_timer) * 2 % 2 ^ 64 in
    record s { timer_freq = freq; timer_period = freq * s.icr_timer }

unfoldable pub vlapic_esr_write_handler : Vlapic → Vlapic
vlapic_esr_write_handler s = record s { esr = s.esr_pending; esr_pending = 0 }

module _ (now : ℕ) where
  -- `BT2FREQ` of the frequency, which is a fraction of a second.
  unfoldable pub vlapic_get_ccr : Vlapic → ℕ
  vlapic_get_ccr s =
      let rem = s.timer_fire - now in
      let frac = s.timer_freq % 2 ^ 64 in
      if s.timer && ltb now s.timer_fire
      then (rem / 2 ^ 64 * ((2 ^ 63 + frac / 4) / (frac / 2)) + rem % 2 ^ 64 / frac) % 2 ^ 32
      else 0

  unfoldable pub vlapic_icrtmr_write_handler : Vlapic → Vlapic
  vlapic_icrtmr_write_handler s =
      let t = record s { timer_period = s.timer_freq * s.icr_timer } in
      if not (s.icr_timer == 0)
      then record t { timer_fire = now + t.timer_period; timer = true }
      else record t { timer = false }

  -- The next time that a periodic timer fires: a period after the last one, or after now when it is
  -- late by a period. Before its time the difference wraps around and is no less than a period.
  abbrev pub next_fire : Vlapic → ℕ
  next_fire s =
      (if leb s.timer_fire now && ltb (now - s.timer_fire) s.timer_period
        then s.timer_fire
        else now)
      + s.timer_period

  -- `vlapic_callout_handler`; `pending` is `callout_pending`.
  unfoldable pub vlapic_callout_handler : Bool → Vlapic → Vlapic
  unfolding vlapic_fire_lvt
  vlapic_callout_handler pending s =
      let t = fire_entry (record s { timer = false }) lvt_timer in
      if pending || not s.timer
      then s
      else if periodic_timer t
      then record t { timer_fire = next_fire t; timer = true }
      else t

  unfoldable pub vlapic_svr_write_handler : Vlapic → Vlapic
  unfolding vlapic_mask_lvts vlapic_icrtmr_write_handler
  vlapic_svr_write_handler s =
      let t = record s { svr_last = s.svr } in
      let changed = has_bit (bit_xor s.svr_last s.svr) 8 in
      if not changed
      then t
      else if not (svr_enabled t)
      then vlapic_mask_lvts (record t { timer = false })
      else if periodic_timer t
      then vlapic_icrtmr_write_handler t
      else t
