-- ===== src/Vioapic/Pins.antt =====
-- When a pin interrupts (src/vmm/io/vioapic.c).
use xhyve_manager.Base.{
  ℕ, zero, suc, ◌<◌, ◌≡◌, refl, ap, ◌∙◌, Bool, true, false, not, ◌&&◌, ltb, arith, if◌then◌else◌,
  ◌==◌, ◌∷◌, Bool-cases, inl, inr, length, get_or, length-set, get_or-set_self, bit_and,
}
use xhyve_manager.Base.Bits.{test_bit, has_bit, has_bit-test_bit}
use xhyve_manager.Base.Bits.Shift.{test_bit-mod}
use xhyve_manager.Base.Int.{ℤ, pos, succ_ℤ, pred_ℤ, is_positive}
use xhyve_manager.Vioapic.Device.{
  Pin, Vioapic, deliver, rendezvous, message, entry, set_entry, no_pin, redir_entries, low,
  vioapic_send_intr, vioapic_set_pinstate, pulsed, vioapic_set_irqstate, merge, shift_of, pin_of,
  is_redtbl, needs_update, send_asserted, write_entry, vioapic_write,
}
use xhyve_manager.Vioapic.Send.{is_masked, send_lem, entry-delivered, send-length}
use xhyve_manager.Vioapic.Entry.{merge_inside}

abbrev counted : Vioapic → ℕ → ℤ → Vioapic
counted v pin n = set_entry v pin (record (entry v pin) { acnt = n })

entry-counted :
    (v : Vioapic) (pin : ℕ) (n : ℤ)
    → pin < length v.rtbl
    → entry (counted v pin n) pin ≡ record (entry v pin) { acnt = n }
entry-counted v pin n inside = get_or-set_self v.rtbl pin _ no_pin inside

send_effect :
    (u : Vioapic) (pin : ℕ)
    → pin < length u.rtbl
    → let w = vioapic_send_intr u pin in
      ((entry w pin).acnt ≡ (entry u pin).acnt)
      × (w.calls ≡ (
          if not (is_masked (entry u pin).reg)
          then deliver (message (entry u pin).reg) ∷ u.calls
          else u.calls))
send_effect u pin inside = rw (send_lem u pin) (elim (Bool-cases (is_masked (entry u pin).reg)) [
  | inl masked ↦ rw masked (refl, refl)
  | inr open_ ↦ rw open_ (ap (λ e. e.acnt) (entry-delivered u pin inside), refl)
])

-- The first assertion counts and interrupts; a further one only counts, as a deassertion does.
first_assert :
    (v : Vioapic) (pin : ℕ)
    → (entry v pin).acnt ≡ pos 0
    → vioapic_set_pinstate v pin true ≡ vioapic_send_intr (counted v pin (pos 1)) pin
unfolding vioapic_set_pinstate
first_assert v pin count = rw count refl

further_assert :
    (v : Vioapic) (pin n : ℕ)
    → (entry v pin).acnt ≡ pos (suc n)
    → vioapic_set_pinstate v pin true ≡ counted v pin (pos (suc (suc n)))
unfolding vioapic_set_pinstate
further_assert v pin n count =
    let some_held : (suc n == 0) ≡ false = ground arith in rw (count, some_held) refl

deassert :
    (v : Vioapic) (pin n : ℕ)
    → (entry v pin).acnt ≡ pos (suc n)
    → vioapic_set_pinstate v pin false ≡ counted v pin (pos n)
unfolding vioapic_set_pinstate
deassert v pin n count =
    let some_held : (suc n == 0) ≡ false = ground arith in rw (count, some_held) refl

assert_lem :
    (v : Vioapic) (pin n : ℕ)
    → pin < length v.rtbl
    → (entry v pin).acnt ≡ pos n
    → let w = vioapic_set_pinstate v pin true in
      ((entry w pin).acnt ≡ pos (suc n))
      × (w.calls ≡ (
          if n == 0 && not (is_masked (entry v pin).reg)
          then deliver (message (entry v pin).reg) ∷ v.calls
          else v.calls))
assert_lem v pin zero inside count =
    let u = counted v pin (pos 1) in
    let here = entry-counted v pin (pos 1) inside in
    let (same, calls) = send_effect u pin (
      omega (
        arith,
        length-set v.rtbl pin (entry u pin),
        length-set v.rtbl pin (record (entry v pin) { acnt = pos 1 }),
      )) in
    rw (first_assert v pin count) (same ∙ ap (λ e. e.acnt) here, calls ∙ rw here refl)
assert_lem v pin (suc n) inside count =
    let some_held : (suc n == 0) ≡ false = ground arith in
    rw (further_assert v pin n count, some_held)
      (ap (λ e. e.acnt) (entry-counted v pin (pos (suc (suc n))) inside), refl)

deassert_lem :
    (v : Vioapic) (pin n : ℕ)
    → pin < length v.rtbl
    → (entry v pin).acnt ≡ pos (suc n)
    → let w = vioapic_set_pinstate v pin false in ((entry w pin).acnt ≡ pos n) × (w.calls ≡ v.calls)
deassert_lem v pin n inside count =
    rw (deassert v pin n count) (ap (λ e. e.acnt) (entry-counted v pin (pos n) inside), refl)

length-set_pinstate :
    (v : Vioapic) (pin : ℕ) (newstate : Bool)
    → length (vioapic_set_pinstate v pin newstate).rtbl ≡ length v.rtbl
unfolding vioapic_set_pinstate
length-set_pinstate v pin newstate =
    let e = entry v pin in
    let newcnt = if newstate then succ_ℤ e.acnt else pred_ℤ e.acnt in
    ground (
      arith,
      send-length (counted v pin newcnt) pin,
      length-set v.rtbl pin (record e { acnt = newcnt }),
    )

-- A pulse interrupts once if nothing holds the pin and it is not masked, and not at all otherwise,
-- and leaves the counter as it was. `n` devices hold the pin, of a whole table.
pub set_irqstate_pulsed :
    (v : Vioapic) (pin n : ℕ)
    → length v.rtbl ≡ redir_entries
    → pin < redir_entries
    → (entry v pin).acnt ≡ pos n
    → let w = (vioapic_set_irqstate v (pos pin) pulsed).1 in
      ((entry w pin).acnt ≡ pos n)
      × (w.calls ≡ (
          if n == 0 && not (is_masked (entry v pin).reg)
          then deliver (message (entry v pin).reg) ∷ v.calls
          else v.calls))
unfolding vioapic_set_irqstate
set_irqstate_pulsed v pin n whole below count =
    let (up, calls) = assert_lem v pin n (omega arith) count in
    let (down, quiet) =
      deassert_lem (vioapic_set_pinstate v pin true) pin n
        (omega (arith, length-set_pinstate v pin true)) up in
    let valid : ltb pin redir_entries ≡ true = ground arith in rw valid (down, quiet ∙ calls)

send_asserted_effect :
    (w : Vioapic) (pin n : ℕ)
    → pin < length w.rtbl
    → (entry w pin).acnt ≡ pos (suc n)
    → test_bit (entry w pin).reg 14 ≡ false
    → test_bit (entry w pin).reg 16 ≡ false
    → (send_asserted w pin).calls ≡ deliver (message (entry w pin).reg) ∷ w.calls
unfolding send_asserted
send_asserted_effect w pin n inside held over open_ =
    let reg = (entry w pin).reg in
    let over_lem : has_bit reg 14 ≡ false = has_bit-test_bit reg 14 ∙ over in
    let open_lem : has_bit reg 16 ≡ false = has_bit-test_bit reg 16 ∙ open_ in
    let low_lem : is_masked reg ≡ false =
      has_bit-test_bit (low reg) 16 ∙ (test_bit-mod 32 reg 16 (omega arith) ∙ open_) in
    let some_held : ltb 0 (suc n) ≡ true = ground arith in
    let go : (not (has_bit reg 16) && (not (has_bit reg 14) && is_positive (entry w pin).acnt))
        ≡ true =
      rw (over_lem, open_lem, held, some_held) refl in
    let sends : send_asserted w pin ≡ vioapic_send_intr w pin =
      ap (λ c. if c then vioapic_send_intr w pin else w) go in
    ap (λ x. x.calls) sends ∙ ((send_effect w pin inside).1 ∙ rw low_lem refl)

-- The interrupt of a pin that is asserted while it is masked, and whose last interrupt is over,
-- comes with the write of its lower register that lets it through, with the fields that are
-- written. The table is whole, and no other call comes during the rendezvous.
pub vioapic_write_unmasks :
    (v : Vioapic) (addr d n : ℕ)
    → let regnum = bit_and addr 0xff in
      let e = entry v (pin_of regnum) in
      length v.rtbl ≡ redir_entries
      → is_redtbl regnum ≡ true
      → shift_of regnum ≡ 0
      → e.acnt ≡ pos (suc n)
      → test_bit e.reg 14 ≡ false
      → test_bit d 16 ≡ false
      → let reg = merge 0 e.reg d in
        (vioapic_write (λ u. u) v addr d).calls
        ≡ deliver (message reg) ∷ (if needs_update e.reg reg then rendezvous ∷ v.calls else v.calls)
unfolding vioapic_write write_entry
vioapic_write_unmasks v addr d n whole is_entry lower held over open_ =
    let regnum = bit_and addr 0xff in
    let pin = pin_of regnum in
    let e = entry v pin in
    let reg = merge 0 e.reg d in
    let f : Pin = record e { reg = reg } in
    let u = set_entry v pin f in
    let inside : pin < length v.rtbl = ground arith in
    let room : pin < length u.rtbl = omega (arith, length-set v.rtbl pin f) in
    let here : entry u pin ≡ f = get_or-set_self v.rtbl pin f no_pin inside in
    let written : vioapic_write (λ x. x) v addr d ≡ write_entry (λ x. x) v regnum d =
      ground arith in
    let still : test_bit reg 14 ≡ false = merge_inside false e.reg d 14 (omega arith) ∙ over in
    let clear : test_bit reg 16 ≡ false = merge_inside false e.reg d 16 (omega arith) ∙ open_ in
    let sends : (w : Vioapic)
        → w.rtbl ≡ u.rtbl
        → (send_asserted w pin).calls ≡ deliver (message reg) ∷ w.calls =
      λ w table.
        (let at_w : entry w pin ≡ f = ap (λ t. get_or t pin no_pin) table ∙ here in
          send_asserted_effect w pin n (omega (arith, ap length table))
            (ap (λ x. x.acnt) at_w ∙ held) (ap (λ x. test_bit x.reg 14) at_w ∙ still)
            (ap (λ x. test_bit x.reg 16) at_w ∙ clear)
          ∙ ap (λ x. deliver (message x.reg) ∷ w.calls) at_w) in
    let at_shift : ℕ → Vioapic = λ shift.
      (let t = set_entry v pin (record e { reg = merge shift e.reg d }) in
        if needs_update e.reg (merge shift e.reg d)
        then record t { calls = rendezvous ∷ t.calls }
        else t) in
    let ends : write_entry (λ x. x) v regnum d ≡ send_asserted (at_shift 0) pin =
      ap (λ shift. send_asserted (at_shift shift) pin) lower in
    ap (λ w. w.calls) (written ∙ ends) ∙ elim (Bool-cases (needs_update e.reg reg)) [
      | inl update ↦ rw update (sends (record u { calls = rendezvous ∷ v.calls }) refl)
      | inr keep ↦ rw keep (sends u refl)
    ]
