-- ===== src/Vioapic/Reach.antt =====
-- The states of the I/O APIC that the calls of the virtual machine reach (src/vmm/io/vioapic.c).
use xhyve_manager.Base.{ℕ, Bool}
use xhyve_manager.Base.Int.{ℤ}
use xhyve_manager.Vioapic.Device.{
  Vioapic, IrqState, vioapic_set_irqstate, vioapic_mmio_rw, vioapic_process_eoi, vioapic_init,
}
use xhyve_manager.Vioapic.Invariant.{
  IsSound, set_irqstate-IsSound, process_eoi-IsSound, mmio_rw-IsSound, init-IsSound,
}

-- What the calls of the virtual machine make of the state, one after the other. The guest may access
-- the registers at any offset and in any size, and while a write has released the lock any other
-- calls may come.
pub data Reaches : Vioapic → Vioapic → Type 0 where
  stay : (v : Vioapic) → Reaches v v
  irq_call :
      (v w : Vioapic) (irq : ℤ) (st : IrqState)
      → Reaches v w
      → Reaches v (vioapic_set_irqstate w irq st).1
  eoi_call : (v w : Vioapic) (vector : ℕ) → Reaches v w → Reaches v (vioapic_process_eoi w vector)
  access :
      (others : Vioapic → Vioapic) (v w : Vioapic) (offset d size : ℕ) (doread : Bool)
      → ((u : Vioapic) → Reaches u (others u))
      → Reaches v w
      → Reaches v (vioapic_mmio_rw others w offset d size doread).1

pub Reaches-IsSound_from : (v w : Vioapic) → Reaches v w → IsSound v → IsSound w
Reaches-IsSound_from v w (stay _) s = s
Reaches-IsSound_from v w (irq_call _ u n st r) s =
    set_irqstate-IsSound u n st (Reaches-IsSound_from v u r s)
Reaches-IsSound_from v w (eoi_call _ u vector r) s =
    process_eoi-IsSound u vector (Reaches-IsSound_from v u r s)
Reaches-IsSound_from v w (access others _ u offset d size doread between r) s =
    mmio_rw-IsSound others u offset d size doread
      (λ x. Reaches-IsSound_from x (others x) (between x)) (Reaches-IsSound_from v u r s)

-- In every state that the calls reach from `vioapic_init` on, the table is whole, its registers have
-- 64 bits with the delivery status clear, and the other registers have 32 bits.
pub Reaches-IsSound : (w : Vioapic) → Reaches vioapic_init w → IsSound w
Reaches-IsSound w r = Reaches-IsSound_from vioapic_init w r init-IsSound
