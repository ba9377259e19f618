-- ===== src/Vioapic/Eoi.antt =====
-- The end of an interrupt (`vioapic_process_eoi` of src/vmm/io/vioapic.c).
use xhyve_manager.Base.{
  ℕ, suc, ◌<◌, ◌≡◌, ◌≢◌, refl, sym, ap, ◌∙◌, Bool, false, not, ◌&&◌, arith, if◌then◌else◌, ◌==◌,
  List, [], ◌∷◌, ◌++◌, map, Bool-cases, inl, inr, length, get_or, set, get_or-set_self, set-set,
  set-get_or, bit_and, length-append,
}
use mathlib.Core.List.{append_assoc}
use xhyve_manager.Base.Bits.{
  test_bit, clear_bit, test_bit-set_bit, test_bit-clear_bit, has_bit, has_bit-test_bit,
}
use xhyve_manager.Base.Bits.Shift.{test_bit-mod}
use xhyve_manager.Base.Int.{is_positive}
use xhyve_manager.Vioapic.Device.{
  Pin, Vioapic, Call, deliver, message, entry, set_entry, no_pin, vioapic_send_intr, low, eoi_pin,
  eoi_loop, vioapic_process_eoi, redir_entries,
}
use xhyve_manager.Vioapic.Send.{latched, is_masked, send_lem, latched_bits}

-- Whether an end of interrupt is for an entry: its interrupt is not over and has the vector.
abbrev pub is_for : ℕ → Pin → Bool
is_for vector e = has_bit e.reg 14 && (bit_and e.reg 0xff == vector)

abbrev pub cleared : ℕ → ℕ
cleared reg = clear_bit 64 reg 14

-- Whether the pin, still asserted, interrupts again.
abbrev pub again : Pin → Bool
again e = is_positive e.acnt && not (is_masked (cleared e.reg))

-- An entry after the end of an interrupt, and the calls made for it.
abbrev pub ended : ℕ → Pin → Pin
ended vector e =
    if is_for vector e
    then record e { reg = if again e then latched (cleared e.reg) else cleared e.reg }
    else e

abbrev pub ended_calls : ℕ → Pin → List Call
ended_calls vector e =
    if is_for vector e && again e then deliver (message (cleared e.reg)) ∷ [] else []

-- Those of the whole table, the last one first.
abbrev pub all_calls : ℕ → List Pin → List Call
all_calls vector [] = []
all_calls vector (e ∷ es) = all_calls vector es ++ ended_calls vector e

get_or-middle : (xs ys : List Pin) (e : Pin) → get_or (xs ++ e ∷ ys) (length xs) no_pin ≡ e
get_or-middle [] ys e = refl
get_or-middle (x ∷ xs) ys e = get_or-middle xs ys e

set-middle : (xs ys : List Pin) (e f : Pin) → set (xs ++ e ∷ ys) (length xs) f ≡ xs ++ f ∷ ys
set-middle [] ys e f = refl
set-middle (x ∷ xs) ys e f = ap (λ zs. x ∷ zs) (set-middle xs ys e f)

-- One turn of the loop, on the state with entry and calls replaced.
turned : Vioapic → ℕ → ℕ → Vioapic
turned v vector pin = record v {
  rtbl = set v.rtbl pin (ended vector (entry v pin));
  calls = ended_calls vector (entry v pin) ++ v.calls;
}

resend :
    (v : Vioapic) (pin : ℕ)
    → pin < length v.rtbl
    → let e = entry v pin in
      let u = set_entry v pin (record e { reg = cleared e.reg }) in
      vioapic_send_intr u pin ≡ (
        if is_masked (cleared e.reg) then u else record v {
          rtbl = set v.rtbl pin (record e { reg = latched (cleared e.reg) });
          calls = deliver (message (cleared e.reg)) ∷ v.calls;
        })
resend v pin inside =
    let e = entry v pin in
    let c : Pin = record e { reg = cleared e.reg } in
    let u = set_entry v pin c in
    let here : entry u pin ≡ c = get_or-set_self v.rtbl pin c no_pin inside in
    send_lem u pin
    ∙ rw (here, set-set v.rtbl pin c (record e { reg = latched (cleared e.reg) })) refl

eoi_pin_lem :
    (v : Vioapic) (vector pin : ℕ)
    → pin < length v.rtbl
    → eoi_pin v vector pin ≡ turned v vector pin
unfolding eoi_pin turned
eoi_pin_lem v vector pin inside = elim (Bool-cases (has_bit (entry v pin).reg 14)) [
  | inl waits ↦ elim (Bool-cases (bit_and (entry v pin).reg 0xff == vector)) [
    | inl hit ↦ elim (Bool-cases (is_positive (entry v pin).acnt)) [
      | inl held ↦ elim (Bool-cases (is_masked (cleared (entry v pin).reg))) [
        | inl masked ↦ rw (waits, hit, held, resend v pin inside, masked) refl
        | inr open_ ↦ rw (waits, hit, held, resend v pin inside, open_) refl
      ]
      | inr idle ↦ rw (waits, hit, idle) refl
    ]
    | inr miss ↦ rw (waits, miss, set-get_or v.rtbl pin no_pin) refl
  ]
  | inr over ↦ rw (over, set-get_or v.rtbl pin no_pin) refl
]

turned-middle :
    (v : Vioapic) (vector : ℕ) (before after : List Pin) (e : Pin)
    → v.rtbl ≡ before ++ e ∷ after
    → (length before < length v.rtbl)
      × (turned v vector (length before) ≡ record v {
        rtbl = before ++ ended vector e ∷ after;
        calls = ended_calls vector e ++ v.calls;
      })
unfolding turned
turned-middle v vector before after e table =
    let here : entry v (length before) ≡ e =
      ap (λ xs. get_or xs (length before) no_pin) table ∙ get_or-middle before after e in
    (
      omega (arith, ap length table, length-append before (e ∷ after)),
      rw here (
          ap (λ xs. record v { rtbl = xs; calls = ended_calls vector e ++ v.calls })
            (ap (λ xs. set xs (length before) (ended vector e)) table
              ∙ set-middle before after e (ended vector e))),
    )

-- The loop has dealt with the entries `before` and goes on with `after`.
eoi_loop_lem :
    (after before : List Pin) (v : Vioapic) (vector : ℕ)
    → v.rtbl ≡ before ++ after
    → eoi_loop v vector (length before) (length after) ≡ record v {
      rtbl = before ++ map (ended vector) after;
      calls = all_calls vector after ++ v.calls;
    }
unfolding eoi_loop
eoi_loop_lem [] before v vector table = rw⁻¹ table refl
eoi_loop_lem (e ∷ after) before v vector table =
    let (inside, turn) = turned-middle v vector before after e table in
    let w = eoi_pin v vector (length before) in
    let now : w ≡ record v {
      rtbl = before ++ ended vector e ∷ after;
      calls = ended_calls vector e ++ v.calls;
    } =
      eoi_pin_lem v vector (length before) inside ∙ turn in
    let done = before ++ ended vector e ∷ [] in
    let u : Vioapic = record v {
      rtbl = before ++ ended vector e ∷ after;
      calls = ended_calls vector e ++ v.calls;
    } in
    let place : suc (length before) ≡ length done =
      omega (arith, length-append before (ended vector e ∷ [])) in
    let rest : eoi_loop u vector (length done) (length after) ≡ record u {
      rtbl = done ++ map (ended vector) after;
      calls = all_calls vector after ++ u.calls;
    } =
      eoi_loop_lem after done u vector (sym (append_assoc before (ended vector e ∷ []) after)) in
    ap (λ x. eoi_loop x vector (suc (length before)) (length after)) now
    ∙ (ap (λ n. eoi_loop u vector n (length after)) place
        ∙ (rest
            ∙ rw
                (
                  append_assoc before (ended vector e ∷ []) (map (ended vector) after),
                  append_assoc (all_calls vector after) (ended_calls vector e) v.calls,
                )
                refl))

-- Every entry is ended as `ended` says, and the interrupts that are sent again are those of the
-- pins that are still asserted, in the order of the pins. The condition is that the table is whole.
pub process_eoi_lem :
    (v : Vioapic) (vector : ℕ)
    → length v.rtbl ≡ redir_entries
    → vioapic_process_eoi v vector
      ≡ record v { rtbl = map (ended vector) v.rtbl; calls = all_calls vector v.rtbl ++ v.calls }
unfolding vioapic_process_eoi
process_eoi_lem v vector whole =
    ap (eoi_loop v vector 0) (sym whole) ∙ eoi_loop_lem v.rtbl [] v vector refl

low_bit : (reg k : ℕ) → k < 32 → has_bit (low reg) k ≡ test_bit reg k
low_bit reg k below = has_bit-test_bit (low reg) k ∙ test_bit-mod 32 reg k below

pub cleared_bits :
    (reg i : ℕ) → i < 64 → test_bit (cleared reg) i ≡ (not (14 == i) && test_bit reg i)
cleared_bits reg i below = test_bit-clear_bit 64 reg 14 i (omega arith) below

again_lem : (e : Pin) → again e ≡ (is_positive e.acnt && not (test_bit e.reg 16))
again_lem e =
    ground (arith, low_bit (cleared e.reg) 16 (omega arith) ∙ cleared_bits e.reg 16 (omega arith))

latched-remote : (reg : ℕ) → test_bit reg 14 ≡ false → test_bit (latched reg) 14 ≡ test_bit reg 15
latched-remote reg off = ground (arith, low_bit reg 15 (omega arith), test_bit-set_bit reg 14 14)

-- What becomes of one entry: its counter stays, and of its register at most the remote IRR bit
-- changes. If its interrupt is not over and has the vector, that bit is set afterwards exactly when
-- the pin is level triggered, asserted and not masked, so that its interrupt is sent again.
pub ended_lem :
    (vector : ℕ) (e : Pin) (i : ℕ)
    → i < 64
    → i ≢ 14
    → let f = ended vector e in
      (f.acnt ≡ e.acnt)
      × (test_bit f.reg i ≡ test_bit e.reg i)
      × (test_bit f.reg 14 ≡ (
          if is_for vector e
          then is_positive e.acnt && (not (test_bit e.reg 16) && test_bit e.reg 15)
          else test_bit e.reg 14))
ended_lem vector e i below other = elim (Bool-cases (is_for vector e)) [
  | inl hit ↦ elim (Bool-cases (again e)) [
    | inl more ↦
        rw (hit, more)
          (
            refl,
            latched_bits (cleared e.reg) i other ∙ (cleared_bits e.reg i below ∙ ground arith),
            latched-remote (cleared e.reg) (cleared_bits e.reg 14 (omega arith))
                ∙ (cleared_bits e.reg 15 (omega arith) ∙ ground (arith, again_lem e)),
          )
    | inr no_more ↦
        rw (hit, no_more)
          (
            refl,
            cleared_bits e.reg i below ∙ ground arith,
            cleared_bits e.reg 14 (omega arith) ∙ ground (arith, again_lem e),
          )
  ]
  | inr miss ↦ rw miss (refl, refl, refl)
]
