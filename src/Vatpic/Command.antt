-- ===== src/Vatpic/Command.antt =====
-- The initialisation and operation command words of an 8259A (src/vmm/io/vatpic.c).
use xhyve_manager.Base.{
  ℕ, ◌+◌, ◌%◌, Bool, true, false, not, ◌&&◌, none, some, if◌then◌else◌, bit_and, Status, ok, fail,
}
use xhyve_manager.Base.Bits.{has_bit, clear_bit}
use xhyve_manager.Vatpic.Chip.{Chip, get_highest_isrpin}

-- `ICW1_SNGL` and `ICW1_IC4` are the bits 1 and 0.
unfoldable pub icw1 : Chip → ℕ → Status × Chip
icw1 a val =
    let b = record a {
      ready = false;
      icw_num = 1;
      request = 0;
      mask = 0;
      lowprio = 7;
      rd_cmd_reg = 0;
      poll = false;
      smm = false;
    } in
    if has_bit val 1
    then (fail, b)
    else if not (has_bit val 0)
    then (fail, b)
    else (ok, record b { icw_num = b.icw_num + 1 })

unfoldable pub icw2 : Chip → ℕ → Status × Chip
icw2 a val = (ok, record a { irq_base = bit_and val 0xf8; icw_num = a.icw_num + 1 })

unfoldable pub icw3 : Chip → ℕ → Status × Chip
icw3 a val = (ok, record a { icw_num = a.icw_num + 1 })

-- `ICW4_8086`, `ICW4_AEOI` and `ICW4_SFNM` are the bits 0, 1 and 4.
unfoldable pub icw4 : Bool → Chip → ℕ → Status × Chip
icw4 master a val =
    if not (has_bit val 0)
    then (fail, a)
    else let b = if has_bit val 1 then record a { aeoi = true } else a in
      let c = if has_bit val 4 then if master then record b { sfn = true } else b else b in
      (ok, record c { icw_num = 0; ready = true })

unfoldable pub ocw1 : Chip → ℕ → Status × Chip
ocw1 a val = (ok, record a { mask = val % 256 })

-- `OCW2_EOI`, `OCW2_SL` and `OCW2_R` are the bits 5, 6 and 7.
unfoldable pub ocw2 : Chip → ℕ → Status × Chip
ocw2 a val =
    let b = record a { rotate = has_bit val 7 } in
    if has_bit val 5
    then (let isr_bit = if has_bit val 6 then some (val % 8) else get_highest_isrpin b in
        elim isr_bit [
          | none ↦ (ok, b)
          | some pin ↦
              let c = record b { service = clear_bit 8 b.service pin } in
              (ok, if c.rotate then record c { lowprio = pin } else c)
        ])
    else if has_bit val 6 && b.rotate
    then (ok, record b { lowprio = val % 8 })
    else (ok, b)

-- `OCW3_RIS`, `OCW3_RR`, `OCW3_P`, `OCW3_SMM` and `OCW3_ESMM` are the bits 0, 1, 2, 5 and 6.
unfoldable pub ocw3 : Chip → ℕ → Status × Chip
ocw3 a val =
    let b = if has_bit val 6 then record a { smm = has_bit val 5 } else a in
    if has_bit val 1
    then (ok, record b { rd_cmd_reg = bit_and val 1; poll = has_bit val 2 })
    else (ok, b)
