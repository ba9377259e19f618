-- ===== src/Vatpic/Service.antt =====
-- From a pending vector to its acceptance, and the priorities while it is in service
-- (src/vmm/io/vatpic.c).
use xhyve_manager.Base.{ℕ, ◌+◌, ◌%◌, ◌<◌, ◌≡◌, ◌≢◌, true, false, ◌⊎◌, arith}
use native.Mathlib.Decide.{dec_lt}
use xhyve_manager.Base.Bits.{
  has_bit, set_bit, has_bit-test_bit, test_bit-set_bit, test_bit-clear_bit,
}
use xhyve_manager.Vatpic.Chip.{Chip, pin_accepted, serviced}
use xhyve_manager.Vatpic.Device.{Vatpic, pending_intr, intr_accepted, notify_intr}
use xhyve_manager.Vatpic.Priority.{rank, IsDeliverable, get_highest_irrpin_iff}
use xhyve_manager.Vatpic.Pair.{IsSound}

module _ (v : Vatpic) (s : IsSound v) where
  -- The vector of a pin of the master other than 2.
  pending_intr-master :
      (pin : ℕ) → IsDeliverable v.chip0 pin → pin ≢ 2 → pending_intr v ≡ v.chip0.irq_base + pin
  unfolding pending_intr
  pending_intr-master pin d other =
      let found = (get_highest_irrpin_iff v.chip0 s.valid0.lowprio_lt pin).1 d in
      ground (arith, found)

  pending_intr-slave :
      (pin : ℕ)
      → IsDeliverable v.chip0 2
      → IsDeliverable v.chip1 pin
      → pending_intr v ≡ v.chip1.irq_base + pin
  unfolding pending_intr
  pending_intr-slave pin d e =
      let found = (get_highest_irrpin_iff v.chip0 s.valid0.lowprio_lt 2).1 d in
      let found' = (get_highest_irrpin_iff v.chip1 s.valid1.lowprio_lt pin).1 e in
      ground (arith, found, found')

  -- Accepting the pending vector accepts the pin of the master that it stands for, where the pin to
  -- deliver is not 2, and the two chips have different vector bases.
  pub intr_accepted-pending_intr_master :
      (pin : ℕ)
      → v.chip0.irq_base ≢ v.chip1.irq_base
      → IsDeliverable v.chip0 pin
      → pin ≢ 2
      → intr_accepted v (pending_intr v)
        ≡ notify_intr (record v { chip0 = pin_accepted v.chip0 pin })
  unfolding intr_accepted
  intr_accepted-pending_intr_master pin apart d other =
      let low : pin < 8 = d.pin_lt in
      let bit : (v.chip0.irq_base + pin) % 8 ≡ pin = omega (arith, s.valid0.base_aligned) in
      rw (pending_intr-master pin d other, bit) (ground arith)

  -- Where the master is to deliver its pin 2 and the slave a pin, accepting the pending vector
  -- accepts that pin of the slave together with the master's pin 2.
  pub intr_accepted-pending_intr_slave :
      (pin : ℕ)
      → IsDeliverable v.chip0 2
      → IsDeliverable v.chip1 pin
      → intr_accepted v (pending_intr v)
        ≡ notify_intr
            (record v { chip0 = pin_accepted v.chip0 2; chip1 = pin_accepted v.chip1 pin })
  unfolding intr_accepted
  intr_accepted-pending_intr_slave pin d e =
      let low : pin < 8 = e.pin_lt in
      let bit : (v.chip1.irq_base + pin) % 8 ≡ pin = omega (arith, s.valid1.base_aligned) in
      rw (pending_intr-slave pin d e, bit) (ground arith)

service-pin_accepted :
    (a : Chip) (pin : ℕ) → a.aeoi ≡ false → (pin_accepted a pin).service ≡ set_bit a.service pin
unfolding pin_accepted
service-pin_accepted a pin manual = ground arith

lowprio-pin_accepted :
    (a : Chip) (pin : ℕ) → a.aeoi ≡ false → (pin_accepted a pin).lowprio ≡ a.lowprio
unfolding pin_accepted
lowprio-pin_accepted a pin manual = ground arith

modes-pin_accepted :
    (a : Chip) (pin : ℕ) → ((pin_accepted a pin).smm ≡ a.smm) × ((pin_accepted a pin).sfn ≡ a.sfn)
unfolding pin_accepted
modes-pin_accepted a pin = (ground arith, ground arith)

-- The accepted pin stops the scan.
blocks-pin_accepted :
    (a : Chip) (pin : ℕ)
    → pin < 8
    → a.aeoi ≡ false
    → a.smm ≡ false
    → (a.sfn ≡ false) ⊎ (pin ≢ 2)
    → has_bit (serviced (pin_accepted a pin)) pin ≡ true
unfolding serviced
blocks-pin_accepted a pin below manual plain nested = rw (has_bit-test_bit _ pin) (
    ground (
      arith,
      service-pin_accepted a pin manual,
      modes-pin_accepted a pin,
      test_bit-set_bit a.service pin pin,
      test_bit-clear_bit 8 (set_bit a.service pin) 2 pin,
    ))

-- Outside the special mask mode and without automatic EOI, and for the pin 2 also outside the special
-- fully nested mode: in the state right after a pin is accepted only pins of higher priority can be
-- delivered.
pub pin_accepted-blocks :
    (a : Chip) (pin q : ℕ)
    → pin < 8
    → a.aeoi ≡ false
    → a.smm ≡ false
    → (a.sfn ≡ false) ⊎ (pin ≢ 2)
    → IsDeliverable (pin_accepted a pin) q
    → rank a q < rank a pin
pin_accepted-blocks a pin q below manual plain nested d = elim (dec_lt (rank a q) (rank a pin)) [
  | yes above ↦ above
  | no under ↦
      let same = lowprio-pin_accepted a pin manual in
      let free = d.unblocked pin below (rw same (omega arith)) in
      cc (blocks-pin_accepted a pin below manual plain nested)
]
