-- ===== src/Vatpit/Runs.antt =====
-- Runs of the timer from `vatpit_init` on (src/vmm/io/vatpit.c).
use xhyve_manager.Base.{
  ℕ, zero, suc, ◌+◌, ◌-◌, ◌/◌, ◌%◌, ◌≡◌, ◌∙◌, Bool, true, false, arith, if◌then◌else◌, ◌==◌, List,
  [], ◌∷◌, length, get_or, set, length-set, none, some, bit_and,
}
use xhyve_manager.Base.Bits.{set_bit-lt, set_bit, has_bit}
use xhyve_manager.Vatpit.Device.{
  Channel, Vatpit, cleared_channel, chan, set_chan, pit_timer_start_cntr0, pit_update_counter,
  pit_readback1, readback_if, pit_readback, vatpit_update_mode, read_counter, write_counter,
  vatpit_handler, vatpit_callout_handler, vatpit_init, rategen,
}
use xhyve_manager.Vatpit.Invariant.{
  IsChannel, update_counter-IsChannel, readback1-IsChannel, read_counter-IsChannel, timer-IsChannel,
  write_counter-IsChannel, either-IsChannel,
}

abbrev pub AreChannels : List Channel → Type 0
AreChannels [] = Unit
AreChannels (c ∷ cs) = IsChannel c × AreChannels cs

-- Three well-formed channels.
pub record IsSound (p : Vatpit) : Type 0 where
  pub three : length p.channel ≡ 3
  pub channels : AreChannels p.channel

cleared-IsChannel : IsChannel cleared_channel
cleared-IsChannel = ground arith

get_or-IsChannel :
    (cs : List Channel) (n : ℕ) → AreChannels cs → IsChannel (get_or cs n cleared_channel)
get_or-IsChannel [] n w = cleared-IsChannel
get_or-IsChannel (c ∷ cs) zero w = w.0
get_or-IsChannel (c ∷ cs) (suc n) w = get_or-IsChannel cs n w.1

set-AreChannels :
    (cs : List Channel) (n : ℕ) (d : Channel)
    → IsChannel d
    → AreChannels cs
    → AreChannels (set cs n d)
set-AreChannels [] n d v w = w
set-AreChannels (c ∷ cs) zero d v w = (v, w.1)
set-AreChannels (c ∷ cs) (suc n) d v w = (w.0, set-AreChannels cs n d v w.1)

set_chan-IsSound :
    (p : Vatpit) (n : ℕ) (d : Channel) → IsChannel d → IsSound p → IsSound (set_chan p n d)
set_chan-IsSound p n d v w = record {
  three = length-set p.channel n d ∙ w.three;
  channels = set-AreChannels p.channel n d v w.channels;
}

either-IsSound : (b : Bool) (p q : Vatpit) → IsSound p → IsSound q → IsSound (if b then p else q)
either-IsSound true p q v w = v
either-IsSound false p q v w = w

module _ (freq now : ℕ) where
  readback_if-IsSound :
      (selected : Bool) (p : Vatpit) (n cmd : ℕ)
      → IsSound p
      → IsSound (readback_if freq now selected p n cmd)
  readback_if-IsSound selected p n cmd w =
      either-IsSound selected (set_chan p n (pit_readback1 freq now (chan p n) cmd)) p
        (set_chan-IsSound p n _
          (readback1-IsChannel freq now (chan p n) cmd (get_or-IsChannel p.channel n w.channels)) w)
        w

  readback-IsSound : (p : Vatpit) (cmd : ℕ) → IsSound p → IsSound (pit_readback freq now p cmd)
  unfolding pit_readback
  readback-IsSound p cmd w =
      readback_if-IsSound (has_bit cmd 3) _ 2 cmd (
        readback_if-IsSound (has_bit cmd 2) _ 1 cmd (readback_if-IsSound (has_bit cmd 1) p 0 cmd w))

  update_mode-IsSound :
      (p : Vatpit) (val : ℕ) → IsSound p → IsSound (vatpit_update_mode freq now p val).1
  unfolding vatpit_update_mode
  update_mode-IsSound p val w =
      let n = bit_and val 0xc0 / 64 in
      let c = chan p n in
      let v = get_or-IsChannel p.channel n w.channels in
      let mode = bit_and val 0x0f in
      let programmed : Channel = record c {
        mode = mode;
        olbyte = 0;
        status = set_bit c.status 6;
      } in
      let programmed-IsChannel : IsChannel programmed =
        ground (arith, set_bit-lt 8 c.status 6, v) in
      ground (
        arith,
        readback-IsSound p val w,
        set_chan-IsSound p n (pit_update_counter freq now c true).1
            (update_counter-IsChannel freq now c true v) w,
        set_chan-IsSound p n programmed programmed-IsChannel w,
      )

  handler-IsSound :
      (p : Vatpit) (input : Bool) (port bytes eax : ℕ)
      → IsSound p
      → IsSound (vatpit_handler freq now p input port bytes eax).2
  unfolding vatpit_handler
  handler-IsSound p input port bytes eax w =
      let n = port - 0x40 in
      let v = get_or-IsChannel p.channel n w.channels in
      ground (
        arith,
        update_mode-IsSound p (eax % 256) w,
        set_chan-IsSound p n (read_counter freq now (chan p n)).1
            (read_counter-IsChannel freq now (chan p n) v) w,
        set_chan-IsSound p n (write_counter freq now n (chan p n) (eax % 256))
            (write_counter-IsChannel freq now n (chan p n) (eax % 256) (omega arith) v) w,
      )

  callout_handler-IsSound :
      (pending : Bool) (p : Vatpit)
      → IsSound p
      → IsSound (vatpit_callout_handler freq now pending p)
  unfolding vatpit_callout_handler
  callout_handler-IsSound pending p w =
      let c = chan p 0 in
      let v = get_or-IsChannel p.channel 0 w.channels in
      let d : Channel = record c { timer = none } in
      let dw : IsChannel d = ground (arith, v) in
      let e = if d.mode == rategen then pit_timer_start_cntr0 freq now d else d in
      let ew : IsChannel e =
        either-IsChannel (d.mode == rategen) (pit_timer_start_cntr0 freq now d) d
          (timer-IsChannel freq now d dw) dw in
      let s = set_chan-IsSound p 0 e ew w in
      let q : Vatpit = record p { channel = set p.channel 0 e; pulses = p.pulses + 1 } in
      let qw : IsSound q = record { three = s.three; channels = s.channels } in
      either-IsSound pending p _ w
        (either-IsSound (elim c.timer [ none ↦ true | some t ↦ false ]) p q w qw)

-- What the rest of the virtual machine does to the timer, each at a time of its own: a port access,
-- and the callout when it fires.
pub data Op : Type 0 where
  access : Bool → ℕ → ℕ → ℕ → Op
  fire : Bool → Op

unfoldable pub vatpit_run : ℕ → Vatpit → List (ℕ × Op) → Vatpit
vatpit_run freq p [] = p
vatpit_run freq p ((now, access input port bytes eax) ∷ ops) =
    vatpit_run freq (vatpit_handler freq now p input port bytes eax).2 ops
vatpit_run freq p ((now, fire pending) ∷ ops) =
    vatpit_run freq (vatpit_callout_handler freq now pending p) ops

run-IsSound_from :
    (freq : ℕ) (p : Vatpit) (ops : List (ℕ × Op)) → IsSound p → IsSound (vatpit_run freq p ops)
unfolding vatpit_run
run-IsSound_from freq p [] w = w
run-IsSound_from freq p ((now, access input port bytes eax) ∷ ops) w =
    run-IsSound_from freq (vatpit_handler freq now p input port bytes eax).2 ops
      (handler-IsSound freq now p input port bytes eax w)
run-IsSound_from freq p ((now, fire pending) ∷ ops) w =
    run-IsSound_from freq (vatpit_callout_handler freq now pending p) ops
      (callout_handler-IsSound freq now pending p w)

init-IsSound : IsSound vatpit_init
unfolding vatpit_init
init-IsSound = ground arith

-- After any sequence of port accesses and callouts, at whatever times, the three channels are well
-- formed: both byte arrays have two bytes, the indices of the next byte to write and to read are
-- inside them, and the registers are in range.
pub vatpit_run-IsSound :
    (freq : ℕ) (ops : List (ℕ × Op)) → IsSound (vatpit_run freq vatpit_init ops)
vatpit_run-IsSound freq ops = run-IsSound_from freq vatpit_init ops init-IsSound
