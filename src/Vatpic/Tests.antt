-- ===== src/Vatpic/Tests.antt =====
-- Runs of the pair, and the theorems at concrete states (src/vmm/io/vatpic.c).
use xhyve_manager.Base.{
  ◌<◌, ◌≡◌, ◌↔◌, refl, true, false, some, List, [], ◌∷◌, arith, inl, ok, einval, set, replicate,
}
use xhyve_manager.Base.Bits.{has_bit}
use xhyve_manager.Base.Int.{pos}
use xhyve_manager.Vatpic.Chip.{
  Chip, zeroed, irr_scan, isr_scan, serviced, get_highest_irrpin, get_highest_isrpin, move_pin,
  pin_accepted,
}
use xhyve_manager.Vatpic.Command.{icw1, icw2, icw3, icw4}
use xhyve_manager.Vatpic.Device.{
  Vatpic, master, lint0, ioapic_pulse, notify_with, notify_intr, notify_master, set_pinstate,
  set_pinstate_with, set_irqstate, asserted, pulsed, pending_intr, intr_accepted, handler,
  elc_handler, write, write_chip, init, elc,
}
use xhyve_manager.Vatpic.Priority.{rank, IsDeliverable, get_highest_irrpin_iff}
use xhyve_manager.Vatpic.Eoi.{IsEnding, get_highest_isrpin_iff}
use xhyve_manager.Vatpic.Invariant.{IsValid}
use xhyve_manager.Vatpic.Notify.{notify_intr_lem}
use xhyve_manager.Vatpic.Pair.{IsElc, IsSound}
use xhyve_manager.Vatpic.Runs.{
  Op, irq, accept, chip_port, elc_port, step, run, run-IsSound, run-edge_only,
}
use xhyve_manager.Vatpic.Signals.{SignalsOnce, notify_intr-SignalsOnce}
use xhyve_manager.Vatpic.Service.{intr_accepted-pending_intr_slave, pin_accepted-blocks}
use xhyve_manager.Vatpic.Lines.{IsLevelLine}

-- The pins 1 and 4 ask, and the pin 5 is in service.
abbrev busy : Chip
busy = record {
  ready = true;
  icw_num = 0;
  rd_cmd_reg = 0;
  aeoi = false;
  poll = false;
  rotate = false;
  sfn = false;
  irq_base = 0x30;
  request = 0x12;
  service = 0x20;
  mask = 0;
  smm = false;
  acnt = replicate 8 (pos 0);
  lowprio = 7;
  intr_raised = false;
}

-- The slave of a pair, with its pin 3 asking.
abbrev asking : Chip
asking = record busy { irq_base = 0x38; request = 0x08; service = 0 }

abbrev pair : Vatpic
pair = record { chip0 = busy; chip1 = asking; elc0 = 0; elc1 = 0; sent = [] }

busy-IsValid : IsValid busy
busy-IsValid = ground arith

pair-IsSound : IsSound pair
unfolding IsElc
pair-IsSound = ground arith

busy_found : get_highest_irrpin busy ≡ some 1
unfolding get_highest_irrpin irr_scan serviced
busy_found = refl

busy-IsDeliverable : IsDeliverable busy 1
busy-IsDeliverable = (get_highest_irrpin_iff busy (omega arith) 1).0 busy_found

busy-IsEnding : IsEnding busy 5
unfolding get_highest_isrpin isr_scan
busy-IsEnding = (get_highest_isrpin_iff busy (omega arith) 5).0 refl

-- A notification of `pair`: the slave's request goes through pin 2, and the master is signalled.
pair_notified :
    let u = notify_intr pair in
    (u.sent ≡ ioapic_pulse ∷ lint0 ∷ []) × (u.chip0.request ≡ 0x16) × (u.chip1.intr_raised ≡ true)
unfolding notify_intr notify_with notify_master set_pinstate_with move_pin get_highest_irrpin
    irr_scan serviced
pair_notified = (refl, refl, refl)

unready_ignored : set_irqstate init (pos 4) pulsed ≡ (ok, init)
unfolding set_irqstate init
unready_ignored = refl

bad_irq : set_irqstate init (pos 16) asserted ≡ (einval, init)
unfolding set_irqstate
bad_irq = refl

get_highest_irrpin_iff_example : (get_highest_irrpin busy ≡ some 1) ↔ IsDeliverable busy 1
get_highest_irrpin_iff_example = get_highest_irrpin_iff busy (omega arith) 1

abbrev script : List Op
script =
    chip_port master false 0x20 1 0x11
    ∷ chip_port master false 0x21 1 0x30
    ∷ chip_port master false 0x21 1 4
    ∷ chip_port master false 0x21 1 1
    ∷ elc_port false 0x4d0 1 0xff
    ∷ irq (pos 4) asserted
    ∷ accept 0x34
    ∷ []

script_runs :
    let v = run init script in
    (v.chip0.ready ≡ true)
    × (v.chip0.service ≡ 0x10)
    × (v.elc0 ≡ 0xf8)
    × (v.sent ≡ ioapic_pulse ∷ lint0 ∷ [])
unfolding run step init zeroed handler write write_chip icw1 icw2 icw3 icw4 elc_handler set_irqstate
    set_pinstate set_pinstate_with notify_intr notify_with notify_master move_pin get_highest_irrpin
    irr_scan serviced intr_accepted pin_accepted
script_runs = (refl, refl, refl, refl)

run-IsSound_example : IsSound (run init script)
run-IsSound_example = run-IsSound script

run-edge_only_example : has_bit (elc (run init script) master) 2 ≡ false
run-edge_only_example = run-edge_only script 2 refl

notify_intr-SignalsOnce_example : SignalsOnce pair (notify_intr pair)
notify_intr-SignalsOnce_example = notify_intr-SignalsOnce pair

-- The slave's request has come through.
abbrev cascading : Chip
cascading = record busy { request = 0x04 }

abbrev through : Vatpic
through = record pair { chip0 = cascading }

through-IsSound : IsSound through
unfolding IsElc
through-IsSound = ground arith

cascading-IsDeliverable : IsDeliverable cascading 2
unfolding get_highest_irrpin irr_scan serviced
cascading-IsDeliverable = (get_highest_irrpin_iff cascading (omega arith) 2).0 refl

asking-IsDeliverable : IsDeliverable asking 3
unfolding get_highest_irrpin irr_scan serviced
asking-IsDeliverable = (get_highest_irrpin_iff asking (omega arith) 3).0 refl

intr_accepted-pending_intr_slave_example :
    intr_accepted through (pending_intr through)
    ≡ notify_intr
        (record through { chip0 = pin_accepted cascading 2; chip1 = pin_accepted asking 3 })
intr_accepted-pending_intr_slave_example =
    intr_accepted-pending_intr_slave through through-IsSound 3 cascading-IsDeliverable
      asking-IsDeliverable

-- With the pin 5 in service, the pin 1 is delivered over it.
quiet_after : IsDeliverable (pin_accepted busy 5) 1
unfolding pin_accepted get_highest_irrpin irr_scan serviced
quiet_after = (get_highest_irrpin_iff (pin_accepted busy 5) (omega arith) 1).0 refl

pin_accepted-blocks_example : rank busy 1 < rank busy 5
pin_accepted-blocks_example =
    pin_accepted-blocks busy 5 1 (omega arith) refl refl (inl refl) quiet_after

-- Two devices hold the pin 4.
abbrev held : Chip
held = record busy { acnt = set (replicate 8 (pos 0)) 4 (pos 2) }

held-IsValid : IsValid held
held-IsValid = ground arith

held-IsLevelLine : IsLevelLine 4 2 held
held-IsLevelLine = record { count = refl; request = refl }

notify_intr_lem_example : notify_intr pair ≡ notify_with notify_intr pair
notify_intr_lem_example = notify_intr_lem pair
