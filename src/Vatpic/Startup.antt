-- ===== src/Vatpic/Startup.antt =====
-- The initialisation of a chip by its four command words (src/vmm/io/vatpic.c).
use xhyve_manager.Base.{ℕ, ◌*◌, ◌/◌, ◌%◌, ◌≡◌, Bool, true, false, arith, Status, ok}
use xhyve_manager.Base.Bits.{has_bit}
use xhyve_manager.Base.Bits.Masks.{bit_and-0xf8}
use xhyve_manager.Vatpic.Chip.{Chip}
use xhyve_manager.Vatpic.Command.{icw1, icw2, icw3, icw4}
use xhyve_manager.Vatpic.Device.{write_chip}

-- The four writes: ICW1 to the even port, the others to the odd one.
abbrev pub startup : Bool → Chip → ℕ → ℕ → ℕ → ℕ → Status × Chip
startup m a w1 w2 w3 w4 =
    let one = (write_chip m a 0x20 w1).1 in
    let two = (write_chip m one 0x21 w2).1 in
    let three = (write_chip m two 0x21 w3).1 in write_chip m three 0x21 w4

-- A chip that waits for ICW `n`, with the vector base `base`.
record IsStarting (n base : ℕ) (a : Chip) : Type 0 where
  number : a.icw_num ≡ n
  based : a.irq_base ≡ base
  mask : a.mask ≡ 0
  request : a.request ≡ 0
  lowprio : a.lowprio ≡ 7
  smm : a.smm ≡ false

module _ (m : Bool) (a : Chip) (w : ℕ) where
  write_icw1 :
      has_bit w 4 ≡ true
      → has_bit w 1 ≡ false
      → has_bit w 0 ≡ true
      → IsStarting 2 a.irq_base (write_chip m a 0x20 w).1
  unfolding write_chip icw1
  write_icw1 start cascaded four = ground arith

  write_icw2 :
      (base : ℕ) → IsStarting 2 base a → IsStarting 3 (w % 256 / 8 * 8) (write_chip m a 0x21 w).1
  unfolding write_chip icw2
  write_icw2 base s = ground (arith, bit_and-0xf8 w)

  write_icw3 : (base : ℕ) → IsStarting 3 base a → IsStarting 4 base (write_chip m a 0x21 w).1
  unfolding write_chip icw3
  write_icw3 base s = ground arith

  write_icw4 :
      (base : ℕ)
      → has_bit w 0 ≡ true
      → IsStarting 4 base a
      → let (status, b) = write_chip m a 0x21 w in
        (status ≡ ok) × (b.ready ≡ true) × IsStarting 0 base b
  unfolding write_chip icw4
  write_icw4 base mode s = (ground arith, ground arith, ground arith)

-- From any state, even in the middle of another initialisation, the words ICW1 (bits 4 and 0 set,
-- bit 1 clear), ICW2, ICW3 and ICW4 (bit 0 set) make the chip ready, with the vector base of ICW2,
-- nothing requested or masked, the default priorities and no special mask mode.
pub startup_lem :
    (m : Bool) (a : Chip) (w1 w2 w3 w4 : ℕ)
    → has_bit w1 4 ≡ true
    → has_bit w1 1 ≡ false
    → has_bit w1 0 ≡ true
    → has_bit w4 0 ≡ true
    → let (status, b) = startup m a w1 w2 w3 w4 in
      (status ≡ ok)
      × (b.ready ≡ true)
      × (b.icw_num ≡ 0)
      × (b.irq_base ≡ w2 % 256 / 8 * 8)
      × (b.request ≡ 0)
      × (b.mask ≡ 0)
      × (b.lowprio ≡ 7)
      × (b.smm ≡ false)
startup_lem m a w1 w2 w3 w4 start cascaded four mode =
    let one = write_icw1 m a w1 start cascaded four in
    let two = write_icw2 m _ w2 _ one in
    let three = write_icw3 m _ w3 _ two in
    let (done, ready, s) = write_icw4 m _ w4 _ mode three in
    (done, ready, s.number, s.based, s.request, s.mask, s.lowprio, s.smm)
