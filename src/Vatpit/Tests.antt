-- ===== src/Vatpit/Tests.antt =====
-- Runs of the timer, and the theorems at concrete states (src/vmm/io/vatpit.c).
use xhyve_manager.Base.{ℕ, ◌+◌, ◌*◌, ◌≡◌, refl, true, false, none, some, List, [], ◌∷◌, arith}
use xhyve_manager.Vatpit.Device.{
  cleared_channel, chan, pit_timer_start_cntr0, pit_update_counter, with_default, pit_readback,
  pit_readback1, vatpit_get_out, vatpit_update_mode, read_counter, write_counter, vatpit_handler,
  vatpit_callout_handler, vatpit_init,
}
use xhyve_manager.Vatpit.Latch.{IsIdle, read_counter-latched}
use xhyve_manager.Vatpit.Runs.{IsSound, Op, access, fire, vatpit_run, vatpit_run-IsSound}

-- The guest programs channel 0 as a rate generator of 0x0100 ticks, the timer fires, and the guest
-- latches the count and reads a byte of it. A tick takes 10 units of time.
abbrev script : List (ℕ × Op)
script =
    (100, access false 0x43 1 0x34)
    ∷ (110, access false 0x40 1 0x00)
    ∷ (120, access false 0x40 1 0x01)
    ∷ (2690, fire false)
    ∷ (2700, access false 0x43 1 0x00)
    ∷ (2710, access true 0x40 1 0)
    ∷ []

script_runs :
    let p = vatpit_run 10 vatpit_init script in
    (p.pulses ≡ 1)
    × ((chan p 0).timer ≡ some 5240)
    × ((chan p 0).olbyte ≡ 1)
    × ((chan p 0).ol ≡ 0 ∷ 0xfe ∷ [])
unfolding vatpit_run vatpit_init vatpit_handler vatpit_callout_handler vatpit_update_mode
    pit_update_counter with_default pit_timer_start_cntr0 read_counter write_counter pit_readback
    pit_readback1 vatpit_get_out
script_runs = (refl, refl, refl, refl)

-- A count of 0 does not start the timer of channel 0.
zero_not_started : (write_counter 10 100 0 (write_counter 10 90 0 cleared_channel 0) 0).timer ≡ none
unfolding write_counter pit_timer_start_cntr0
zero_not_started = refl

vatpit_run-IsSound_example : IsSound (vatpit_run 10 vatpit_init script)
vatpit_run-IsSound_example = vatpit_run-IsSound 10 script

cleared-IsIdle : IsIdle cleared_channel
cleared-IsIdle = record { cr_two = refl; no_byte = refl; no_count = refl; no_status = refl }

read_counter-latched_example :
    let loaded = write_counter 10 100 2 (write_counter 10 90 2 cleared_channel 0x34) 0x12 in
    let latched = (pit_update_counter 10 200 loaded true).1 in
    let (low, d) = read_counter 10 210 latched in
    let (high, e) = read_counter 10 220 d in (low + high * 256 ≡ 0x122a) × (e.olbyte ≡ 0)
read_counter-latched_example =
    read_counter-latched 10 90 100 200 210 220 2 cleared_channel 0x34 0x12 cleared-IsIdle
      (omega arith) (omega arith) (omega arith)
