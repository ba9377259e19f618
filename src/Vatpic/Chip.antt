-- ===== src/Vatpic/Chip.antt =====
-- One 8259A (src/vmm/io/vatpic.c): its registers, the priority scans over its pins, the move of a
-- pin, and the acceptance of an interrupt.
use xhyve_manager.Base.{
  ℕ, zero, suc, ◌+◌, ◌%◌, Bool, false, not, ◌&&◌, ◌||◌, Option, none, some, List, if◌then◌else◌,
  get_or, set, replicate,
}
use xhyve_manager.Base.Bits.{has_bit, set_bit, clear_bit}
use xhyve_manager.Base.Int.{ℤ, pos, succ_ℤ, pred_ℤ, is_nat, is_positive}

-- `struct atpic`. `smm` holds 0 or 1; `irq_base` and `lowprio` are an `int` that never is negative.
pub record Chip : Type 0 where
  pub ready : Bool
  pub icw_num : ℕ
  pub rd_cmd_reg : ℕ
  pub aeoi : Bool
  pub poll : Bool
  pub rotate : Bool
  pub sfn : Bool
  pub irq_base : ℕ
  pub request : ℕ
  pub service : ℕ
  pub mask : ℕ
  pub smm : Bool
  pub acnt : List ℤ
  pub lowprio : ℕ
  pub intr_raised : Bool

-- What `bzero` leaves.
unfoldable pub zeroed : Chip
zeroed = record {
  ready = false;
  icw_num = 0;
  rd_cmd_reg = 0;
  aeoi = false;
  poll = false;
  rotate = false;
  sfn = false;
  irq_base = 0;
  request = 0;
  service = 0;
  mask = 0;
  smm = false;
  acnt = replicate 8 (pos 0);
  lowprio = 0;
  intr_raised = false;
}

-- `(pin + 1) & 0x7`.
abbrev pub next_pin : ℕ → ℕ
next_pin pin = (pin + 1) % 8

-- The body of the loop of `vatpic_get_highest_isrpin`, with `left` of the 8 rounds to go.
unfoldable pub isr_scan : Chip → ℕ → ℕ → Option ℕ
isr_scan a zero pin = none
isr_scan a (suc left) pin =
    let rest = isr_scan a left (next_pin pin) in
    if has_bit a.service pin then if a.smm && has_bit a.mask pin then rest else some pin else rest

unfoldable pub get_highest_isrpin : Chip → Option ℕ
get_highest_isrpin a = isr_scan a 8 (next_pin a.lowprio)

-- The bits that stop the scan for a request.
unfoldable pub serviced : Chip → ℕ
serviced a = if a.smm then 0 else if a.sfn then clear_bit 8 a.service 2 else a.service

-- The body of the loop of `vatpic_get_highest_irrpin`; the -1 of the source is `none`.
unfoldable pub irr_scan : Chip → ℕ → ℕ → Option ℕ
irr_scan a zero pin = none
irr_scan a (suc left) pin =
    let rest = irr_scan a left (next_pin pin) in
    if has_bit (serviced a) pin
    then none
    else if has_bit a.request pin && not (has_bit a.mask pin)
    then some pin
    else rest

unfoldable pub get_highest_irrpin : Chip → Option ℕ
get_highest_irrpin a = irr_scan a 8 (next_pin a.lowprio)

-- What `vatpic_set_pinstate` does to the chip of the pin `pin & 0x7`, at its trigger mode.
unfoldable pub move_pin : Bool → ℕ → Bool → Chip → Chip
move_pin level pin newstate a =
    let oldcnt = get_or a.acnt pin (pos 0) in
    let newcnt = if newstate then succ_ℤ oldcnt else pred_ℤ oldcnt in
    let b = record a { acnt = set a.acnt pin newcnt } in
    if (is_nat oldcnt 0 && is_nat newcnt 1) || (is_positive newcnt && level)
    then record b { request = set_bit b.request pin }
    else if is_nat oldcnt 1 && is_nat newcnt 0
    then if level then record b { request = clear_bit 8 b.request pin } else b
    else b

unfoldable pub pin_accepted : Chip → ℕ → Chip
pin_accepted a pin =
    let b = record a { intr_raised = false } in
    let c =
      if is_nat (get_or b.acnt pin (pos 0)) 0
      then record b { request = clear_bit 8 b.request pin }
      else b in
    if c.aeoi
    then if c.rotate then record c { lowprio = pin } else c
    else record c { service = set_bit c.service pin }
