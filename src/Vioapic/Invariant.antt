-- ===== src/Vioapic/Invariant.antt =====
-- The well-formedness of the I/O APIC under its calls (src/vmm/io/vioapic.c).
use xhyve_manager.Base.{
  ℕ, zero, suc, ◌-◌, ◌%◌, ◌^◌, ◌<◌, ◌≡◌, refl, ap, ◌∙◌, Bool, true, false, not, ◌&&◌, arith,
  if◌then◌else◌, ◌==◌, List, [], ◌∷◌, map, Bool-cases, inl, inr, length, get_or, set, length-set,
  bit_and,
}
use xhyve_manager.Base.Bits.{test_bit, set_bit-lt, clear_bit-lt, has_bit}
use xhyve_manager.Base.Bits.Masks.{bit_and-le_right}
use xhyve_manager.Base.Int.{ℤ, pos, negsuc, succ_ℤ, pred_ℤ, is_nat, is_positive}
use xhyve_manager.Vioapic.Device.{
  Pin, Vioapic, rendezvous, entry, set_entry, no_pin, redir_entries, vioapic_send_intr,
  vioapic_set_pinstate, IrqState, asserted, deasserted, pulsed, vioapic_set_irqstate, merge,
  shift_of, pin_of, is_redtbl, needs_update, send_asserted, write_entry, vioapic_write,
  vioapic_mmio_rw, vioapic_process_eoi, vioapic_init,
}
use xhyve_manager.Vioapic.Send.{latched, latched_bits, is_masked, send_lem}
use xhyve_manager.Vioapic.Entry.{merge-lt, merge_readonly}
use xhyve_manager.Vioapic.Eoi.{cleared, cleared_bits, ended, process_eoi_lem}

-- A register of the table: 64 bits, with the delivery status, the bit 12, never set.
abbrev pub IsEntry : ℕ → Type 0
IsEntry reg = (reg < 2 ^ 64) × (test_bit reg 12 ≡ false)

abbrev pub IsTable : List Pin → Type 0
IsTable [] = Unit
IsTable (e ∷ es) = IsEntry e.reg × IsTable es

-- The table is whole and its registers are such; the other registers have 32 bits.
pub record IsSound (v : Vioapic) : Type 0 where
  pub whole : length v.rtbl ≡ redir_entries
  pub table : IsTable v.rtbl
  pub id_lt : v.id < 2 ^ 32
  pub ioregsel_lt : v.ioregsel < 2 ^ 32

get_or-IsEntry : (es : List Pin) (i : ℕ) → IsTable es → IsEntry (get_or es i no_pin).reg
get_or-IsEntry [] i t = (omega arith, refl)
get_or-IsEntry (e ∷ es) zero t = t.0
get_or-IsEntry (e ∷ es) (suc i) t = get_or-IsEntry es i t.1

set-IsTable : (es : List Pin) (i : ℕ) (f : Pin) → IsEntry f.reg → IsTable es → IsTable (set es i f)
set-IsTable [] i f e t = t
set-IsTable (x ∷ es) zero f e t = (e, t.1)
set-IsTable (x ∷ es) (suc i) f e t = (t.0, set-IsTable es i f e t.1)

map_keeps-length : (g : Pin → Pin) (es : List Pin) → length (map g es) ≡ length es
map_keeps-length g [] = refl
map_keeps-length g (e ∷ es) = ap suc (map_keeps-length g es)

map-IsTable :
    (g : Pin → Pin) (es : List Pin)
    → ((e : Pin) → IsEntry e.reg → IsEntry (g e).reg)
    → IsTable es
    → IsTable (map g es)
map-IsTable g [] keep t = t
map-IsTable g (e ∷ es) keep t = (keep e t.0, map-IsTable g es keep t.1)

set_entry-IsSound :
    (v : Vioapic) (pin : ℕ) (f : Pin) → IsEntry f.reg → IsSound v → IsSound (set_entry v pin f)
set_entry-IsSound v pin f e s = record {
  whole = length-set v.rtbl pin f ∙ s.whole;
  table = set-IsTable v.rtbl pin f e s.table;
  id_lt = s.id_lt;
  ioregsel_lt = s.ioregsel_lt;
}

latched-IsEntry : (reg : ℕ) → IsEntry reg → IsEntry (latched reg)
latched-IsEntry reg e = ground (arith, set_bit-lt 64 reg 14, latched_bits reg 12)

cleared-IsEntry : (reg : ℕ) → IsEntry reg → IsEntry (cleared reg)
cleared-IsEntry reg e =
    (clear_bit-lt 64 reg 14 e.0, cleared_bits reg 12 (omega arith) ∙ ground arith)

ended-IsEntry : (vector : ℕ) (e : Pin) → IsEntry e.reg → IsEntry (ended vector e).reg
ended-IsEntry vector e ok_ =
    ground (
      arith,
      cleared-IsEntry e.reg ok_,
      latched-IsEntry (cleared e.reg) (cleared-IsEntry e.reg ok_),
    )

send-IsSound : (v : Vioapic) (pin : ℕ) → IsSound v → IsSound (vioapic_send_intr v pin)
send-IsSound v pin s =
    let e = entry v pin in
    let r =
      set_entry-IsSound v pin (record e { reg = latched e.reg })
        (latched-IsEntry e.reg (get_or-IsEntry v.rtbl pin s.table)) s in
    rw (send_lem v pin) (elim (Bool-cases (is_masked e.reg)) [
      | inl masked ↦ rw masked s
      | inr open_ ↦ rw open_ (record {
        whole = r.whole;
        table = r.table;
        id_lt = s.id_lt;
        ioregsel_lt = s.ioregsel_lt;
      })
    ])

either-IsSound : (c : Bool) (v w : Vioapic) → IsSound v → IsSound w → IsSound (if c then v else w)
either-IsSound true v w s t = s
either-IsSound false v w s t = t

set_pinstate-IsSound :
    (v : Vioapic) (pin : ℕ) (newstate : Bool)
    → IsSound v
    → IsSound (vioapic_set_pinstate v pin newstate)
unfolding vioapic_set_pinstate
set_pinstate-IsSound v pin newstate s =
    let e = entry v pin in
    let newcnt = if newstate then succ_ℤ e.acnt else pred_ℤ e.acnt in
    let u = set_entry v pin (record e { acnt = newcnt }) in
    let t =
      set_entry-IsSound v pin (record e { acnt = newcnt }) (get_or-IsEntry v.rtbl pin s.table) s in
    either-IsSound (is_nat e.acnt 0 && is_nat newcnt 1) (vioapic_send_intr u pin) u
      (send-IsSound u pin t) t

-- A call of a device keeps it.
pub set_irqstate-IsSound :
    (v : Vioapic) (irq : ℤ) (st : IrqState) → IsSound v → IsSound (vioapic_set_irqstate v irq st).1
unfolding vioapic_set_irqstate
set_irqstate-IsSound v (negsuc n) st s = s
set_irqstate-IsSound v (pos irq) asserted s = ground (arith, set_pinstate-IsSound v irq true s)
set_irqstate-IsSound v (pos irq) deasserted s = ground (arith, set_pinstate-IsSound v irq false s)
set_irqstate-IsSound v (pos irq) pulsed s =
    let t = set_pinstate-IsSound v irq true s in
    ground (arith, set_pinstate-IsSound (vioapic_set_pinstate v irq true) irq false t)

pub process_eoi-IsSound :
    (v : Vioapic) (vector : ℕ) → IsSound v → IsSound (vioapic_process_eoi v vector)
process_eoi-IsSound v vector s = rw (process_eoi_lem v vector s.whole) (record {
  whole = map_keeps-length (ended vector) v.rtbl ∙ s.whole;
  table = map-IsTable (ended vector) v.rtbl (ended-IsEntry vector) s.table;
  id_lt = s.id_lt;
  ioregsel_lt = s.ioregsel_lt;
})

send_asserted-IsSound : (v : Vioapic) (pin : ℕ) → IsSound v → IsSound (send_asserted v pin)
unfolding send_asserted
send_asserted-IsSound v pin s =
    let e = entry v pin in
    either-IsSound (not (has_bit e.reg 16) && (not (has_bit e.reg 14) && is_positive e.acnt))
      (vioapic_send_intr v pin) v (send-IsSound v pin s) s

write_entry-IsSound :
    (others : Vioapic → Vioapic) (v : Vioapic) (regnum d : ℕ)
    → ((u : Vioapic) → IsSound u → IsSound (others u))
    → d < 2 ^ 32
    → IsSound v
    → IsSound (write_entry others v regnum d)
unfolding write_entry
write_entry-IsSound others v regnum d keep fits s =
    let pin = pin_of regnum in
    let upper = not ((regnum - 0x10) % 2 == 0) in
    let e = entry v pin in
    let old = get_or-IsEntry v.rtbl pin s.table in
    let reg = merge (shift_of regnum) e.reg d in
    let u = set_entry v pin (record e { reg = reg }) in
    let t =
      set_entry-IsSound v pin (record e { reg = reg })
        (
          merge-lt upper e.reg d old.0 fits,
          merge_readonly upper e.reg d 12 (omega arith) refl ∙ old.1,
        )
        s in
    let called = record u { calls = rendezvous ∷ u.calls } in
    let after =
      keep called (record {
        whole = t.whole;
        table = t.table;
        id_lt = t.id_lt;
        ioregsel_lt = t.ioregsel_lt;
      }) in
    send_asserted-IsSound _ pin (either-IsSound (needs_update e.reg reg) (others called) u after t)

vioapic_write-IsSound :
    (others : Vioapic → Vioapic) (v : Vioapic) (addr d : ℕ)
    → ((u : Vioapic) → IsSound u → IsSound (others u))
    → d < 2 ^ 32
    → IsSound v
    → IsSound (vioapic_write others v addr d)
unfolding vioapic_write
vioapic_write-IsSound others v addr d keep fits s =
    let regnum = bit_and addr 0xff in
    let named = record v { id = bit_and d 0xff000000 } in
    let u = if regnum == 0 then named else v in
    let t : IsSound u =
      either-IsSound (regnum == 0) named v
        (record {
          whole = s.whole;
          table = s.table;
          id_lt = omega (arith, bit_and-le_right d 0xff000000);
          ioregsel_lt = s.ioregsel_lt;
        })
        s in
    either-IsSound (is_redtbl regnum) (write_entry others u regnum d) u
      (write_entry-IsSound others u regnum d keep fits t) t

pub mmio_rw-IsSound :
    (others : Vioapic → Vioapic) (v : Vioapic) (offset d size : ℕ) (doread : Bool)
    → ((u : Vioapic) → IsSound u → IsSound (others u))
    → IsSound v
    → IsSound (vioapic_mmio_rw others v offset d size doread).1
unfolding vioapic_mmio_rw
mmio_rw-IsSound others v offset d size doread keep s =
    ground (arith, vioapic_write-IsSound others v v.ioregsel (d % 2 ^ 32) keep (omega arith) s)

pub init-IsSound : IsSound vioapic_init
unfolding vioapic_init
init-IsSound = ground arith
