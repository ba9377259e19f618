-- ===== src/Vlapic/Access.antt =====
-- The registers of a local APIC as they are read and written (src/vmm/io/vlapic.c):
-- of the writes, all but those that send an interrupt to a virtual CPU. An outcome of none is
-- `xhyve_abort`.
use xhyve_manager.Base.{
  ℕ, ◌+◌, ◌-◌, ◌*◌, ◌/◌, ◌%◌, ◌^◌, Bool, not, ◌&&◌, ◌||◌, Option, none, some, ◌==◌, ltb, leb,
  if◌then◌else◌, bit_and, bit_or,
}
use xhyve_manager.Vlapic.Vectors.{Vectors}
use xhyve_manager.Vlapic.Device.{Vlapic, x2apic, vlapic_process_eoi, vlapic_set_tpr}
use xhyve_manager.Vlapic.Lvt.{
  lvt_off_to_idx, vlapic_lvt_write_handler, vlapic_dcr_write_handler, vlapic_esr_write_handler,
  vlapic_get_ccr, vlapic_icrtmr_write_handler, vlapic_svr_write_handler,
}

unfoldable pub vlapic_get_id : Vlapic → ℕ
vlapic_get_id s = if x2apic s then s.vcpuid else s.vcpuid * 2 ^ 24 % 2 ^ 32

unfoldable pub x2apic_ldr : Vlapic → ℕ
unfolding vlapic_get_id
x2apic_ldr s =
    let apicid = vlapic_get_id s in
    bit_or (2 ^ (apicid % 16)) (bit_and apicid 0xffff0 * 2 ^ 12 % 2 ^ 32)

-- `APIC_DFR_MODEL_MASK` and `APIC_DFR_RESERVED`.
unfoldable pub vlapic_dfr_write_handler : Vlapic → Vlapic
vlapic_dfr_write_handler s =
    if x2apic s
    then record s { dfr = 0 }
    else record s { dfr = bit_or (bit_and s.dfr 0xf0000000) 0x0fffffff }

-- `APIC_LDR_RESERVED`.
unfoldable pub vlapic_ldr_write_handler : Vlapic → Vlapic
unfolding x2apic_ldr
vlapic_ldr_write_handler s =
    if x2apic s
    then record s { ldr = x2apic_ldr s }
    else record s { ldr = bit_and s.ldr 0xff000000 }

unfoldable pub vlapic_id_write_handler : Vlapic → Vlapic
unfolding vlapic_get_id
vlapic_id_write_handler s = record s { id = vlapic_get_id s }

-- The eight registers of a set from the offset `first` on, 16 bytes each.
abbrev pub is_word : ℕ → ℕ → Bool
is_word offset first = leb first offset && (ltb offset (first + 0x80) && offset % 16 == 0)

abbrev pub word_at : Vectors → ℕ → ℕ → ℕ
word_at w offset first = w ((offset - first) / 16)

-- The registers in the order of their offsets; a register that the read does not know is 0.
unfoldable pub read_page : Vlapic → ℕ → ℕ → ℕ
unfolding lvt_off_to_idx vlapic_get_ccr
read_page s now offset =
    if offset == 0x20
    then s.id
    else if offset == 0x30
    then s.version
    else if offset == 0x80
    then s.tpr % 256
    else if offset == 0xa0
    then s.ppr
    else if offset == 0xd0
    then s.ldr
    else if offset == 0xe0
    then s.dfr
    else if offset == 0xf0
    then s.svr
    else if is_word offset 0x100
    then word_at s.isr offset 0x100
    else if is_word offset 0x180
    then word_at s.tmr offset 0x180
    else if is_word offset 0x200
    then word_at s.irr offset 0x200
    else if offset == 0x280
    then s.esr
    else if offset == 0x300
    then if x2apic s then bit_or s.icr_lo (s.icr_hi * 2 ^ 32) else s.icr_lo
    else if offset == 0x310
    then s.icr_hi
    else if offset == 0x380
    then s.icr_timer
    else if offset == 0x390
    then vlapic_get_ccr now s
    else if offset == 0x3e0
    then s.dcr_timer
    else elim (lvt_off_to_idx offset) [ none ↦ 0 | some idx ↦ s.lvt_last idx ]

-- `vlapic_read`: `*data`. An access of the wrong kind for the mode, or outside the 1024
-- bytes of `struct LAPIC`, reads 0. The registers APR and EOI are never written and read 0.
unfoldable pub vlapic_read : Vlapic → ℕ → Bool → ℕ → ℕ
unfolding read_page
vlapic_read s now mmio_access offset =
    if (x2apic s && mmio_access) || (not (x2apic s) && not mmio_access)
    then 0
    else if ltb 1024 offset
    then 0
    else read_page s now (offset / 4 * 4)

-- A write of an entry of the local vector table.
abbrev pub write_lvt : Vlapic → ℕ → Option ℕ → Vlapic
write_lvt s value none = s
write_lvt s value (some idx) =
    vlapic_lvt_write_handler (record s { lvt = λ j. if j == idx then value else s.lvt j }) idx

-- The writes by register that change this APIC only. What is `written` is cut to the 32 bits of a register.
unfoldable pub write_page : Vlapic → ℕ → ℕ → ℕ → Option Vlapic
unfolding vlapic_id_write_handler vlapic_set_tpr vlapic_process_eoi vlapic_ldr_write_handler
    vlapic_dfr_write_handler vlapic_svr_write_handler lvt_off_to_idx vlapic_lvt_write_handler
    vlapic_icrtmr_write_handler vlapic_dcr_write_handler vlapic_esr_write_handler
write_page s now offset written =
    let value = written % 2 ^ 32 in
    if offset == 0x20
    then some (vlapic_id_write_handler (record s { id = value }))
    else if offset == 0x80
    then vlapic_set_tpr s (written % 256)
    else if offset == 0xb0
    then vlapic_process_eoi s
    else if offset == 0xd0
    then some (vlapic_ldr_write_handler (record s { ldr = value }))
    else if offset == 0xe0
    then some (vlapic_dfr_write_handler (record s { dfr = value }))
    else if offset == 0xf0
    then some (vlapic_svr_write_handler now (record s { svr = value }))
    else if offset == 0x310
    then some (record s { icr_hi = value })
    else if offset == 0x380
    then some (vlapic_icrtmr_write_handler now (record s { icr_timer = value }))
    else if offset == 0x3e0
    then some (vlapic_dcr_write_handler (record s { dcr_timer = value }))
    else if offset == 0x280
    then some (vlapic_esr_write_handler s)
    else some (write_lvt s value (lvt_off_to_idx offset))
