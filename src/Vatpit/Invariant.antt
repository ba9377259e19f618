-- ===== src/Vatpit/Invariant.antt =====
-- The well-formedness of the timer under its calls (src/vmm/io/vatpit.c).
use xhyve_manager.Base.{
  ℕ, zero, suc, ◌+◌, ◌*◌, ◌^◌, ◌≤◌, ◌<◌, ◌≡◌, ◌∙◌, Bool, true, false, not, ◌&&◌, arith,
  if◌then◌else◌, ◌==◌, List, [], ◌∷◌, Bool-cases, inl, inr, length, get_or, set, length-set,
}
use xhyve_manager.Base.Bits.{has_bit, set_bit-lt, clear_bit-lt, set_bit, clear_bit}
use xhyve_manager.Vatpit.Device.{
  Channel, pit_timer_start_cntr0, with_default, counter, pit_update_counter, pit_readback1,
  read_counter, write_counter, inttc, vatpit_get_out,
}

abbrev pub AreBytes : List ℕ → Type 0
AreBytes [] = Unit
AreBytes (x ∷ xs) = (x < 256) × AreBytes xs

-- The latches hold two bytes, the index of the next byte is inside them, and the registers fit.
pub record IsChannel (c : Channel) : Type 0 where
  pub cr_two : length c.cr ≡ 2
  pub cr_bytes : AreBytes c.cr
  pub ol_two : length c.ol ≡ 2
  pub ol_bytes : AreBytes c.ol
  pub crbyte_lt : c.crbyte < 2
  pub olbyte_le : c.olbyte ≤ 2
  pub frbyte_lt : c.frbyte < 2
  pub initial_lt : c.initial < 2 ^ 16
  pub status_lt : c.status < 256

set-AreBytes : (xs : List ℕ) (i x : ℕ) → x < 256 → AreBytes xs → AreBytes (set xs i x)
set-AreBytes [] i x fits b = b
set-AreBytes (y ∷ xs) zero x fits b = (fits, b.1)
set-AreBytes (y ∷ xs) (suc i) x fits b = (b.0, set-AreBytes xs i x fits b.1)

get_or-byte : (xs : List ℕ) (i : ℕ) → AreBytes xs → get_or xs i 0 < 256
get_or-byte [] i b = omega arith
get_or-byte (x ∷ xs) zero b = b.0
get_or-byte (x ∷ xs) (suc i) b = get_or-byte xs i b.1

pub either-IsChannel :
    (b : Bool) (c d : Channel) → IsChannel c → IsChannel d → IsChannel (if b then c else d)
either-IsChannel true c d v w = v
either-IsChannel false c d v w = w

pub status-IsChannel :
    (c : Channel) (status : ℕ) (latched : Bool)
    → status < 256
    → IsChannel c
    → IsChannel (record c { slatched = latched; status = status })
status-IsChannel c status latched fits w = ground arith

module _ (freq now : ℕ) where
  with_default-IsChannel : (c : Channel) → IsChannel c → IsChannel (with_default freq now c)
  unfolding with_default
  with_default-IsChannel c w = ground (arith, clear_bit-lt 8 c.status 6)

  counter-lt : (c : Channel) → counter freq now c < 2 ^ 16
  counter-lt c = omega arith

  pub update_counter-IsChannel :
      (c : Channel) (latch : Bool) → IsChannel c → IsChannel (pit_update_counter freq now c latch).1
  unfolding pit_update_counter
  update_counter-IsChannel c latch w =
      let d = with_default freq now c in ground (arith, with_default-IsChannel c w, counter-lt d)

  pub readback1-IsChannel :
      (c : Channel) (cmd : ℕ) → IsChannel c → IsChannel (pit_readback1 freq now c cmd)
  unfolding pit_readback1
  readback1-IsChannel c cmd w =
      let first = not (has_bit cmd 5) && (c.olbyte == 0) in
      let latched = (pit_update_counter freq now c true).1 in
      let d = if first then latched else c in
      let v : IsChannel d =
        either-IsChannel first latched c (update_counter-IsChannel c true w) w in
      let e : Channel = record d { slatched = true } in
      let out = (e.mode == inttc) && vatpit_get_out freq now e in
      either-IsChannel (not (has_bit cmd 4) && not d.slatched)
        (if out
          then record e { status = set_bit e.status 7 }
          else record e { status = clear_bit 8 e.status 7 })
        d
        (either-IsChannel out (record e { status = set_bit e.status 7 })
          (record e { status = clear_bit 8 e.status 7 })
          (status-IsChannel d (set_bit d.status 7) true
            (set_bit-lt 8 d.status 7 v.status_lt (omega arith)) v)
          (status-IsChannel d (clear_bit 8 d.status 7) true (clear_bit-lt 8 d.status 7 v.status_lt)
            v))
        v

  pub read_counter-IsChannel : (c : Channel) → IsChannel c → IsChannel (read_counter freq now c).1
  unfolding read_counter
  read_counter-IsChannel c w = ground (arith, update_counter-IsChannel c false w)

  pub timer-IsChannel : (c : Channel) → IsChannel c → IsChannel (pit_timer_start_cntr0 freq now c)
  unfolding pit_timer_start_cntr0
  timer-IsChannel c w = ground arith

  pub write_counter-IsChannel :
      (n : ℕ) (c : Channel) (byte : ℕ)
      → byte < 256
      → IsChannel c
      → IsChannel (write_counter freq now n c byte)
  unfolding write_counter
  write_counter-IsChannel n c byte fits w =
      let d : Channel = record c { cr = set c.cr c.crbyte byte; crbyte = c.crbyte + 1 } in
      let bytes = set-AreBytes c.cr c.crbyte byte fits w.cr_bytes in
      let e : Channel = record d {
        status = clear_bit 8 d.status 6;
        frbyte = 0;
        crbyte = 0;
        initial = get_or d.cr 0 0 + get_or d.cr 1 0 * 256;
        now_sbt = now;
      } in
      let two : length d.cr ≡ 2 = length-set c.cr c.crbyte byte ∙ w.cr_two in
      let v : IsChannel e = record {
        cr_two = two;
        cr_bytes = bytes;
        ol_two = w.ol_two;
        ol_bytes = w.ol_bytes;
        crbyte_lt = omega arith;
        olbyte_le = w.olbyte_le;
        frbyte_lt = omega arith;
        initial_lt = omega (arith, get_or-byte d.cr 0 bytes, get_or-byte d.cr 1 bytes);
        status_lt = clear_bit-lt 8 c.status 6 w.status_lt;
      } in
      let g : Channel = record e { callout_sbt = now } in
      let started = timer-IsChannel g (ground (arith, v)) in
      let f = if n == 0 then pit_timer_start_cntr0 freq now g else e in
      let u : IsChannel f =
        either-IsChannel (n == 0) (pit_timer_start_cntr0 freq now g) e started v in
      elim (Bool-cases (d.crbyte == 2)) [
        | inl loaded ↦ rw loaded (
            either-IsChannel (f.initial == 0) (record f { initial = 0xffff }) f (ground (arith, u))
              u)
        | inr half ↦ rw half (record {
          cr_two = two;
          cr_bytes = bytes;
          ol_two = w.ol_two;
          ol_bytes = w.ol_bytes;
          crbyte_lt = ground (arith, half, w.crbyte_lt);
          olbyte_le = w.olbyte_le;
          frbyte_lt = w.frbyte_lt;
          initial_lt = w.initial_lt;
          status_lt = w.status_lt;
        })
      ]
