-- ===== src/Vioapic/Tests.antt =====
-- Runs of the I/O APIC, and the theorems at concrete states (src/vmm/io/vioapic.c).
use xhyve_manager.Base.{ℕ, ◌≡◌, refl, false, [], ◌∷◌, ◌++◌, arith, replicate, map}
use xhyve_manager.Base.Bits.{test_bit}
use xhyve_manager.Base.Int.{pos}
use xhyve_manager.Vioapic.Device.{
  Pin, Vioapic, deliver, rendezvous, message, entry, asserted, vioapic_set_irqstate,
  vioapic_set_pinstate, vioapic_send_intr, vioapic_mmio_rw, vioapic_read, vioapic_write,
  write_entry, send_asserted, merge, vioapic_process_eoi, eoi_loop, eoi_pin, vioapic_init,
  vioapic_update_tmr,
}
use xhyve_manager.Vioapic.Entry.{Leaves, vioapic_read-vioapic_write}
use xhyve_manager.Vioapic.Eoi.{ended, all_calls, process_eoi_lem}
use xhyve_manager.Vioapic.Invariant.{IsSound}
use xhyve_manager.Vioapic.Reach.{stay, irq_call, eoi_call, access, Reaches-IsSound}
use xhyve_manager.Vioapic.Pins.{vioapic_write_unmasks}

-- Pin 1 is level triggered with vector 0x31, held by two devices and waiting for its end; pin 2 is
-- masked and held by one; the others are as at the start.
abbrev waiting : Pin
waiting = record { reg = 0xc031; acnt = pos 2 }

abbrev masked : Pin
masked = record { reg = 0x18032; acnt = pos 1 }

abbrev busy : Vioapic
busy = record {
  id = 0;
  ioregsel = 0;
  rtbl =
      record { reg = 0x30; acnt = pos 0 }
      ∷ waiting
      ∷ masked
      ∷ replicate 21 (record { reg = 0x0001000000010000; acnt = pos 0 });
  calls = [];
}

-- The end of the interrupt of pin 1, which is still held.
ends_again :
    let w = vioapic_process_eoi busy 0x31 in
    (w.calls ≡ deliver (message 0x8031) ∷ []) × (entry w 1 ≡ waiting)
unfolding vioapic_process_eoi eoi_loop eoi_pin vioapic_send_intr
ends_again = (refl, refl)

-- The trigger modes are those of the two level triggered pins.
modes : vioapic_update_tmr busy.rtbl ≡ message 0xc031 ∷ message 0x18032 ∷ []
unfolding vioapic_update_tmr
modes = refl

-- The guest sets pin 0 to vector 0x40, then a device asserts it.
guest_sets_up :
    let select = (vioapic_mmio_rw (λ u. u) vioapic_init 0 0x10 4 false).1 in
    let enable = (vioapic_mmio_rw (λ u. u) select 0x10 0x40 4 false).1 in
    (vioapic_set_irqstate enable (pos 0) asserted).1.calls
    ≡ deliver (message 0x0001000000000040) ∷ rendezvous ∷ []
unfolding vioapic_mmio_rw vioapic_write write_entry merge send_asserted vioapic_init
    vioapic_set_irqstate vioapic_set_pinstate vioapic_send_intr
guest_sets_up = refl

alone-Leaves : (pin : ℕ) → Leaves (λ u. u) pin
alone-Leaves pin = record { kept = λ u i other. refl; whole = λ u. refl }

-- The low register of pin 1, whose remote IRR bit and delivery status cannot be written.
vioapic_read-vioapic_write_example :
    test_bit (vioapic_read (vioapic_write (λ u. u) busy 0x12 0x1041) 0x12) 12 ≡ false
vioapic_read-vioapic_write_example =
    vioapic_read-vioapic_write (λ u. u) busy 0x12 0x1041 12 (alone-Leaves 1) refl refl (omega arith)
      (omega arith)

process_eoi_lem_example :
    vioapic_process_eoi busy 0x31
    ≡ record busy { rtbl = map (ended 0x31) busy.rtbl; calls = all_calls 0x31 busy.rtbl ++ [] }
process_eoi_lem_example = process_eoi_lem busy 0x31 refl

-- A device asserts pin 3, the guest writes to a register, and another processor ends an interrupt
-- during the rendezvous.
abbrev eoi_between : Vioapic → Vioapic
eoi_between u = vioapic_process_eoi u 0x31

abbrev held_once : Vioapic
held_once = (vioapic_set_irqstate vioapic_init (pos 3) asserted).1

Reaches-IsSound_example : IsSound (vioapic_mmio_rw eoi_between held_once 0x10 7 4 false).1
Reaches-IsSound_example = Reaches-IsSound (vioapic_mmio_rw eoi_between held_once 0x10 7 4 false).1 (
    access eoi_between vioapic_init held_once 0x10 7 4 false (λ u. eoi_call u u 0x31 (stay u))
      (irq_call vioapic_init vioapic_init (pos 3) asserted (stay vioapic_init)))

-- Pin 2 is let through with vector 0x42, as the mask and the vector change.
vioapic_write_unmasks_example :
    (vioapic_write (λ u. u) busy 0x14 0x8042).calls ≡ deliver (message 0x8042) ∷ rendezvous ∷ []
unfolding merge
vioapic_write_unmasks_example =
    vioapic_write_unmasks busy 0x14 0x8042 0 refl refl refl refl refl refl
