-- ===== src/Vatpit/Device.antt =====
-- The channels of the 8254 timer and its port handlers (src/vmm/io/vatpit.c). The lock is held
-- throughout each call, so a call is one step. The clock, `sbinuptime`, is an argument of each call
-- and reads the same throughout it; `freq` is `freq_sbt`, the time of a tick.
use xhyve_manager.Base.{
  ℕ, ◌+◌, ◌-◌, ◌*◌, ◌/◌, ◌%◌, ◌^◌, Bool, true, false, not, ◌&&◌, Option, none, some, List, [], ◌∷◌,
  ◌==◌, ltb, if◌then◌else◌, bit_and, get_or, set, replicate, Status, ok, fail,
}
use xhyve_manager.Base.Bits.{has_bit, clear_bit, set_bit}

-- `struct channel`, less its callout, which `timer` stands for: the time it is set to, if it is
-- active.
pub record Channel : Type 0 where
  pub mode : ℕ
  pub initial : ℕ
  pub now_sbt : ℕ
  pub cr : List ℕ
  pub ol : List ℕ
  pub slatched : Bool
  pub status : ℕ
  pub crbyte : ℕ
  pub olbyte : ℕ
  pub frbyte : ℕ
  pub timer : Option ℕ
  pub callout_sbt : ℕ

-- `struct vatpit`; `pulses` counts the interrupts, each a pulse of IRQ 0 of the 8259A pair and of
-- pin 2 of the I/O APIC.
pub record Vatpit : Type 0 where
  pub channel : List Channel
  pub pulses : ℕ

-- `TIMER_INTTC`, `TIMER_RATEGEN`, `TIMER_SQWAVE` and `TIMER_SWSTROBE`.
abbrev pub inttc : ℕ
inttc = 0

abbrev pub rategen : ℕ
rategen = 4

abbrev pub sqwave : ℕ
sqwave = 6

abbrev pub swstrobe : ℕ
swstrobe = 8

abbrev pub cleared_channel : Channel
cleared_channel = record {
  mode = 0;
  initial = 0;
  now_sbt = 0;
  cr = 0 ∷ 0 ∷ [];
  ol = 0 ∷ 0 ∷ [];
  slatched = false;
  status = 0;
  crbyte = 0;
  olbyte = 0;
  frbyte = 0;
  timer = none;
  callout_sbt = 0;
}

abbrev pub chan : Vatpit → ℕ → Channel
chan p n = get_or p.channel n cleared_channel

abbrev pub set_chan : Vatpit → ℕ → Channel → Vatpit
set_chan p n c = record p { channel = set p.channel n c }

module _ (freq now : ℕ) where
  -- `delta_ticks`.
  abbrev pub delta_ticks : Channel → ℕ
  delta_ticks c = (now - c.now_sbt) / freq

  -- `initial - delta_ticks <= 0`, in signed numbers.
  unfoldable pub vatpit_get_out : Channel → Bool
  vatpit_get_out c = if c.mode == inttc then not (ltb (delta_ticks c) c.initial) else false

  unfoldable pub pit_timer_start_cntr0 : Channel → Channel
  pit_timer_start_cntr0 c =
      if not (c.initial == 0)
      then (let delta = c.initial * freq in
          let next = c.callout_sbt + delta in
          let target = if ltb next now then now + delta else next in
          record c { callout_sbt = target; timer = some target })
      else c

  -- The 100 Hz default, `TIMER_DIV(PIT_8254_FREQ, 100)`; the bit 6 of the status is
  -- `TIMER_STS_NULLCNT`.
  unfoldable pub with_default : Channel → Channel
  with_default c =
      if c.initial == 0
      then record c {
        initial = (1193182 + 50) / 100;
        now_sbt = now;
        status = clear_bit 8 c.status 6;
      }
      else c

  abbrev pub counter : Channel → ℕ
  counter c = (c.initial - delta_ticks c % c.initial) % 2 ^ 16

  unfoldable pub pit_update_counter : Channel → Bool → ℕ × Channel
  unfolding with_default
  pit_update_counter c latch =
      if latch && not (c.olbyte == 0)
      then (0, c)
      else (let d = with_default c in
          let lval = counter d in
          (lval, if latch then record d { olbyte = 2; ol = lval / 256 ∷ lval % 256 ∷ [] } else d))

  -- The bits 5 and 4 of the command, `TIMER_RB_LCTR` and `TIMER_RB_LSTATUS`, are active when clear;
  -- the bit 7 of the status is `TIMER_STS_OUT`.
  unfoldable pub pit_readback1 : Channel → ℕ → Channel
  unfolding pit_update_counter vatpit_get_out
  pit_readback1 c cmd =
      let d = if not (has_bit cmd 5) && c.olbyte == 0 then (pit_update_counter c true).1 else c in
      if not (has_bit cmd 4) && not d.slatched
      then (let e = record d { slatched = true } in
          if e.mode == inttc && vatpit_get_out e
          then record e { status = set_bit e.status 7 }
          else record e { status = clear_bit 8 e.status 7 })
      else d

  abbrev pub readback_if : Bool → Vatpit → ℕ → ℕ → Vatpit
  readback_if selected p n cmd = if selected then set_chan p n (pit_readback1 (chan p n) cmd) else p

  -- `pit_readback1` never fails, so neither does `pit_readback`.
  unfoldable pub pit_readback : Vatpit → ℕ → Vatpit
  unfolding pit_readback1
  pit_readback p cmd =
      let q = readback_if (has_bit cmd 1) p 0 cmd in
      let r = readback_if (has_bit cmd 2) q 1 cmd in readback_if (has_bit cmd 3) r 2 cmd

  -- `TIMER_LATCH` is 0, `TIMER_16BIT` 0x30.
  unfoldable pub vatpit_update_mode : Vatpit → ℕ → Status × Vatpit
  unfolding pit_readback pit_update_counter
  vatpit_update_mode p val =
      let sel = bit_and val 0xc0 in
      let rw_ = bit_and val 0x30 in
      let mode = bit_and val 0x0f in
      let n = sel / 64 in
      let c = chan p n in
      if sel == 0xc0
      then (ok, pit_readback p val)
      else if not (rw_ == 0) && not (rw_ == 0x30)
      then (fail, p)
      else if not (rw_ == 0)
          && ((not (mode == inttc) && not (mode == rategen))
              && (not (mode == sqwave) && not (mode == swstrobe)))
      then (fail, p)
      else if rw_ == 0
      then (ok, set_chan p n (pit_update_counter c true).1)
      else (ok, set_chan p n (record c { mode = mode; olbyte = 0; status = set_bit c.status 6 }))

  -- A read of a counter port: the byte, and the channel.
  unfoldable pub read_counter : Channel → ℕ × Channel
  unfolding pit_update_counter
  read_counter c =
      if c.slatched
      then (c.status, record c { slatched = false; status = 0 })
      else if c.olbyte == 0
      then (let (tmp, d) = pit_update_counter c false in
          (
            if not (d.frbyte == 0) then tmp / 256 % 256 else tmp % 256,
            record d { frbyte = 1 - d.frbyte },
          ))
      else (get_or c.ol (c.olbyte - 1) 0, record c { olbyte = c.olbyte - 1 })

  -- A write of a byte to the port of counter `n`. A count of 0 is loaded as 0xffff, but after the
  -- timer of channel 0 is started.
  unfoldable pub write_counter : ℕ → Channel → ℕ → Channel
  unfolding pit_timer_start_cntr0
  write_counter n c byte =
      let d = record c { cr = set c.cr c.crbyte byte; crbyte = c.crbyte + 1 } in
      if d.crbyte == 2
      then (let e = record d {
        status = clear_bit 8 d.status 6;
        frbyte = 0;
        crbyte = 0;
        initial = get_or d.cr 0 0 + get_or d.cr 1 0 * 256;
        now_sbt = now;
      } in
          let f =
            if n == 0 then pit_timer_start_cntr0 (record e { callout_sbt = e.now_sbt }) else e in
          if f.initial == 0 then record f { initial = 0xffff } else f)
      else d

  -- `vatpit_handler`: the status, `*eax` and the state. `TIMER_CNTR0` is 0x40, `TIMER_MODE` 0x43.
  unfoldable pub vatpit_handler : Vatpit → Bool → ℕ → ℕ → ℕ → Status × ℕ × Vatpit
  unfolding vatpit_update_mode read_counter write_counter
  vatpit_handler p input port bytes eax =
      let n = port - 0x40 in
      let (value, after) = read_counter (chan p n) in
      let (error, moded) = vatpit_update_mode p (eax % 256) in
      if not (bytes == 1)
      then (fail, eax, p)
      else if port == 0x43
      then if input then (fail, eax, p) else (error, eax, moded)
      else if input
      then (ok, value, set_chan p n after)
      else (ok, eax, set_chan p n (write_counter n (chan p n) (eax % 256)))

  -- `vatpit_nmisc_handler`: `*eax`; `TMR2_OUT_STS` is 0x20.
  unfoldable pub vatpit_nmisc_handler : Vatpit → Bool → ℕ → ℕ
  unfolding vatpit_get_out
  vatpit_nmisc_handler p input eax =
      if input then if vatpit_get_out (chan p 2) then 0x20 else 0 else eax

  -- `vatpit_callout_handler` of channel 0. `pending` is `callout_pending`, of a callout that was set
  -- again after it fired.
  unfoldable pub vatpit_callout_handler : Bool → Vatpit → Vatpit
  unfolding pit_timer_start_cntr0
  vatpit_callout_handler pending p =
      let c = chan p 0 in
      if pending
      then p
      else if elim c.timer [ none ↦ true | some t ↦ false ]
      then p
      else (let d = record c { timer = none } in
          let e = if d.mode == rategen then pit_timer_start_cntr0 d else d in
          record p { channel = set p.channel 0 e; pulses = p.pulses + 1 })

unfoldable pub vatpit_init : Vatpit
vatpit_init = record { channel = replicate 3 cleared_channel; pulses = 0 }
