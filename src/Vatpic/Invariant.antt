-- ===== src/Vatpic/Invariant.antt =====
-- The well-formedness of a chip and of the pair (src/vmm/io/vatpic.c), under its operations.
use xhyve_manager.Base.{
  ℕ, ◌%◌, ◌≤◌, ◌<◌, ◌≡◌, Bool, true, false, some, Option-cases, arith, length, length-set, get_or,
  inl, inr,
}
use xhyve_manager.Base.Bits.{set_bit-lt, clear_bit-lt, has_bit}
use xhyve_manager.Base.Bits.Masks.{bit_and-0xf8}
use xhyve_manager.Base.Int.{pos, succ_ℤ, pred_ℤ}
use xhyve_manager.Vatpic.Chip.{
  Chip, zeroed, move_pin, pin_accepted, get_highest_isrpin, get_highest_irrpin,
}
use xhyve_manager.Vatpic.Command.{icw1, icw2, icw3, icw4, ocw1, ocw2, ocw3}
use xhyve_manager.Vatpic.Device.{read, write_chip}
use xhyve_manager.Vatpic.Priority.{get_highest_irrpin_iff}
use xhyve_manager.Vatpic.Eoi.{get_highest_isrpin_iff}

-- The registers are bytes, the base is a multiple of 8, a chip that is ready is not in the middle of
-- its initialisation, and there is a count for each pin.
pub record IsValid (a : Chip) : Type 0 where
  pub request_lt : a.request < 256
  pub service_lt : a.service < 256
  pub mask_lt : a.mask < 256
  pub base_lt : a.irq_base < 256
  pub base_aligned : a.irq_base % 8 ≡ 0
  pub lowprio_lt : a.lowprio < 8
  pub icw_num_le : a.icw_num ≤ 4
  pub ready_done : a.ready ≡ true → a.icw_num ≡ 0
  pub counts : length a.acnt ≡ 8

pub zeroed-IsValid : IsValid zeroed
unfolding zeroed
zeroed-IsValid = ground arith

pub move_pin-IsValid :
    (level : Bool) (pin : ℕ) (newstate : Bool) (a : Chip)
    → pin < 8
    → IsValid a
    → IsValid (move_pin level pin newstate a)
unfolding move_pin
move_pin-IsValid level pin newstate a below v = ground (
  arith,
  set_bit-lt 8 a.request pin v.request_lt below,
  clear_bit-lt 8 a.request pin v.request_lt,
  length-set a.acnt pin (succ_ℤ (get_or a.acnt pin (pos 0))),
  length-set a.acnt pin (pred_ℤ (get_or a.acnt pin (pos 0))),
)

pub pin_accepted-IsValid : (a : Chip) (pin : ℕ) → pin < 8 → IsValid a → IsValid (pin_accepted a pin)
unfolding pin_accepted
pin_accepted-IsValid a pin below v = ground (
  arith,
  set_bit-lt 8 a.service pin v.service_lt below,
  clear_bit-lt 8 a.request pin v.request_lt,
)

pub icw1-IsValid : (a : Chip) (val : ℕ) → IsValid a → IsValid (icw1 a val).1
unfolding icw1
icw1-IsValid a val v = ground arith

pub icw2-IsValid : (a : Chip) (val : ℕ) → a.icw_num ≡ 2 → IsValid a → IsValid (icw2 a val).1
unfolding icw2
icw2-IsValid a val at v = ground (arith, bit_and-0xf8 val)

pub icw3-IsValid : (a : Chip) (val : ℕ) → a.icw_num ≡ 3 → IsValid a → IsValid (icw3 a val).1
unfolding icw3
icw3-IsValid a val at v = ground arith

pub icw4-IsValid : (m : Bool) (a : Chip) (val : ℕ) → IsValid a → IsValid (icw4 m a val).1
unfolding icw4
icw4-IsValid m a val v = ground arith

pub ocw1-IsValid : (a : Chip) (val : ℕ) → IsValid a → IsValid (ocw1 a val).1
unfolding ocw1
ocw1-IsValid a val v = ground arith

isr_bit-lt : (a : Chip) (pin : ℕ) → IsValid a → get_highest_isrpin a ≡ some pin → pin < 8
isr_bit-lt a pin v found = ((get_highest_isrpin_iff a v.lowprio_lt pin).0 found).pin_lt

pub ocw2-IsValid : (a : Chip) (val : ℕ) → IsValid a → IsValid (ocw2 a val).1
unfolding ocw2
ocw2-IsValid a val v =
    let b = record a { rotate = has_bit val 7 } in
    let w : IsValid b = ground arith in
    elim (Option-cases (get_highest_isrpin b)) [
      | inl nothing ↦ ground (arith, clear_bit-lt 8 a.service (val % 8) v.service_lt)
      | inr (pin, found) ↦ ground (
        arith,
        isr_bit-lt b pin w found,
        clear_bit-lt 8 a.service pin v.service_lt,
        clear_bit-lt 8 a.service (val % 8) v.service_lt,
      )
    ]

pub ocw3-IsValid : (a : Chip) (val : ℕ) → IsValid a → IsValid (ocw3 a val).1
unfolding ocw3
ocw3-IsValid a val v = ground arith

pub read-IsValid : (a : Chip) (port : ℕ) → IsValid a → IsValid (read a port).0
unfolding read
read-IsValid a port v =
    let b = record a { poll = false } in
    let w : IsValid b = ground arith in
    elim (Option-cases (get_highest_irrpin b)) [
      | inl nothing ↦ ground arith
      | inr (pin, found) ↦ ground (
        arith,
        pin_accepted-IsValid b pin ((get_highest_irrpin_iff b v.lowprio_lt pin).0 found).pin_lt w,
      )
    ]

pub write_chip-IsValid :
    (m : Bool) (a : Chip) (port val : ℕ) → IsValid a → IsValid (write_chip m a port val).1
unfolding write_chip
write_chip-IsValid m a port val v = ground (
  arith,
  icw1-IsValid a val v,
  icw2-IsValid a val,
  icw3-IsValid a val,
  icw4-IsValid m a val v,
  ocw1-IsValid a val v,
  ocw2-IsValid a val v,
  ocw3-IsValid a val v,
  ocw2-IsValid (icw1 a val).1 val,
  ocw3-IsValid (icw1 a val).1 val,
)
