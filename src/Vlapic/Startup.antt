-- ===== src/Vlapic/Startup.antt =====
-- How the boot CPU starts another one (src/vmm/io/vlapic.c).
use xhyve_manager.Base.{
  ℕ, ◌+◌, ◌*◌, ◌/◌, ◌%◌, ◌^◌, ◌<◌, ◌≡◌, refl, ap, ◌∙◌, Bool, true, false, ◌&&◌, none, some, ◌==◌,
  ltb, all_below_lem, bit_and, arith,
}
use xhyve_manager.Base.Bits.{has_bit, clear_bit}
use xhyve_manager.Vlapic.Device.{bs_init, bs_sipi, bs_running, Vlapic, x2apic}
use xhyve_manager.Vlapic.Ipi.{
  Vm, put_lapic, IcrResult, handled, sipi_from, to_sipi, started, start_from, start_up,
  vlapic_icrlo_write_handler,
}
use xhyve_manager.Vlapic.Boot.{boot, put-boot, pick_first}

-- The register as the handler reads it.
abbrev sent_by : Vm → Vlapic
sent_by vm = record (vm.lapics 0) { icr_lo = clear_bit 32 (vm.lapics 0).icr_lo 12 }

module _ (vm : Vm) (dest : ℕ) where
  init_sent :
      bit_and (sent_by vm).icr_lo 0x700 ≡ 0x500
      → has_bit (sent_by vm).icr_lo 14 ≡ true
      → x2apic (vm.lapics 0) ≡ false
      → (vm.lapics 0).icr_hi / 2 ^ 24 ≡ dest
      → (dest == 0) ≡ false
      → ltb dest 16 ≡ true
      → vlapic_icrlo_write_handler vm 0 ≡ handled (to_sipi (put_lapic vm 0 (sent_by vm)) dest)
  unfolding vlapic_icrlo_write_handler
  init_sent mode level xapic hi other small = rw (mode, level, xapic, hi, other, small) refl

  startup_sent :
      bit_and (sent_by vm).icr_lo 0x700 ≡ 0x600
      → x2apic (vm.lapics 0) ≡ false
      → (vm.lapics 0).icr_hi / 2 ^ 24 ≡ dest
      → (dest == 0) ≡ false
      → ltb dest 16 ≡ true
      → vlapic_icrlo_write_handler vm 0
        ≡ start_up (put_lapic vm 0 (sent_by vm)) dest (bit_and (sent_by vm).icr_lo 0xff)
  unfolding vlapic_icrlo_write_handler
  startup_sent mode xapic hi other small = rw (mode, xapic, hi, other, small) refl

-- The two writes of the command register: an INIT that is asserted, and the startup interrupt with
-- a vector, both for the APIC in the high word.
abbrev pub command : Vm → ℕ → ℕ → Vm
command vm dest icr = put_lapic vm 0 (record (vm.lapics 0) { icr_lo = icr; icr_hi = dest * 2 ^ 24 })

unfoldable pub init_ipi : Vm → ℕ → IcrResult
unfolding vlapic_icrlo_write_handler
init_ipi vm dest = vlapic_icrlo_write_handler (command vm dest 0x4500) 0

unfoldable pub startup_ipi : Vm → ℕ → ℕ → IcrResult
unfolding vlapic_icrlo_write_handler
startup_ipi vm dest vec = vlapic_icrlo_write_handler (command vm dest (0x4600 + vec)) 0

-- The mode and the vector of the second one.
abbrev is_startup : ℕ → Bool
is_startup vec =
    let icr = clear_bit 32 (0x4600 + vec) 12 in
    bit_and icr 0x700 == 0x600 && bit_and icr 0xff == vec

startup_fields :
    (vec : ℕ)
    → vec < 256
    → let icr = clear_bit 32 (0x4600 + vec) 12 in
      (bit_and icr 0x700 ≡ 0x600) × (bit_and icr 0xff ≡ vec)
startup_fields vec fits =
    let tested = all_below_lem 256 is_startup vec refl fits in
    (ground (arith, tested), ground (arith, tested))

to_sipi-init :
    (vm : Vm) (dest : ℕ)
    → boot vm dest ≡ bs_init
    → to_sipi vm dest ≡ put_lapic vm dest (record (vm.lapics dest) { boot_state = bs_sipi })
unfolding to_sipi
to_sipi-init vm dest at_init = ap (λ b. sipi_from b vm dest) at_init

to_sipi-waits :
    (vm : Vm) (dest : ℕ) → boot vm dest ≡ bs_init → boot (to_sipi vm dest) dest ≡ bs_sipi
to_sipi-waits vm dest at_init =
    let here : (dest == dest) ≡ true = ground arith in
    ap (λ v. boot v dest) (to_sipi-init vm dest at_init)
    ∙ pick_first (dest == dest) _ (vm.lapics dest) here

start_up-runs :
    (vm : Vm) (dest vec : ℕ) → boot vm dest ≡ bs_sipi → start_up vm dest vec ≡ started vm dest vec
unfolding start_up
start_up-runs vm dest vec at_sipi = ap (λ b. start_from b vm dest vec) at_sipi

-- The destination waits for an INIT: it is sent one, and waits for the startup interrupt.
module _ (vm : Vm) (dest : ℕ) (other : 0 < dest) (small : dest < 16) where
  high_word : dest * 2 ^ 24 / 2 ^ 24 ≡ dest
  high_word = omega arith

  not_zero : (dest == 0) ≡ false
  not_zero = ground (arith, other)

  in_range : ltb dest 16 ≡ true
  in_range = ground (arith, small)

  init_ipi-waits :
      x2apic (vm.lapics 0) ≡ false
      → boot vm dest ≡ bs_init
      → (boot (init_ipi vm dest).vm dest ≡ bs_sipi)
        × (x2apic ((init_ipi vm dest).vm.lapics 0) ≡ false)
  unfolding init_ipi
  init_ipi-waits xapic at_init =
      let c = command vm dest 0x4500 in
      let w = put_lapic c 0 (sent_by c) in
      let sent = init_sent c dest refl refl xapic high_word not_zero in_range in
      let same : boot w dest ≡ boot vm dest =
        put-boot c 0 (sent_by c) dest refl
        ∙ put-boot vm 0 (record (vm.lapics 0) { icr_lo = 0x4500; icr_hi = dest * 2 ^ 24 }) dest
            refl in
      let apart : (0 == dest) ≡ false = ground (arith, other) in
      (
        ap (λ r. boot r.vm dest) sent ∙ to_sipi-waits w dest (same ∙ at_init),
        ap (λ r. x2apic (r.vm.lapics 0)) sent
            ∙ (ap (λ v. x2apic (v.lapics 0)) (to_sipi-init w dest (same ∙ at_init))
                ∙ rw apart xapic),
      )

  -- The register that the handler reads leaves the states as they are.
  at_command : ℕ → Vm
  at_command icr = put_lapic (command vm dest icr) 0 (sent_by (command vm dest icr))

  at_command-boot : (icr : ℕ) → boot (at_command icr) dest ≡ boot vm dest
  unfolding at_command
  at_command-boot icr =
      put-boot (command vm dest icr) 0 (sent_by (command vm dest icr)) dest refl
      ∙ put-boot vm 0 (record (vm.lapics 0) { icr_lo = icr; icr_hi = dest * 2 ^ 24 }) dest refl

  startup_ipi-start_up :
      (vec : ℕ)
      → vec < 256
      → x2apic (vm.lapics 0) ≡ false
      → startup_ipi vm dest vec ≡ start_up (at_command (0x4600 + vec)) dest vec
  unfolding at_command startup_ipi
  startup_ipi-start_up vec fits xapic =
      let (mode, vector) = startup_fields vec fits in
      startup_sent (command vm dest (0x4600 + vec)) dest mode xapic high_word not_zero in_range
      ∙ ap (λ v. start_up (at_command (0x4600 + vec)) dest v) vector

  startup_ipi-runs :
      (vec : ℕ)
      → vec < 256
      → x2apic (vm.lapics 0) ≡ false
      → boot vm dest ≡ bs_sipi
      → ((startup_ipi vm dest vec).spinup ≡ some (dest, vec * 2 ^ 12))
        × (boot (startup_ipi vm dest vec).vm dest ≡ bs_running)
        × (x2apic ((startup_ipi vm dest vec).vm.lapics 0) ≡ false)
  unfolding at_command
  startup_ipi-runs vec fits xapic at_sipi =
      let w = at_command (0x4600 + vec) in
      let run : startup_ipi vm dest vec ≡ started w dest vec =
        startup_ipi-start_up vec fits xapic
        ∙ start_up-runs w dest vec (at_command-boot (0x4600 + vec) ∙ at_sipi) in
      let here : (dest == dest) ≡ true = ground arith in
      let apart : (0 == dest) ≡ false = ground (arith, other) in
      let word : vec * 2 ^ 12 % 2 ^ 32 ≡ vec * 2 ^ 12 = omega (arith, fits) in
      (
        ap (λ r. r.spinup) run ∙ ap (λ ip. some (dest, ip)) word,
        ap (λ r. boot r.vm dest) run ∙ pick_first (dest == dest) _ (w.lapics dest) here,
        ap (λ r. x2apic (r.vm.lapics 0)) run ∙ rw apart xapic,
      )

  startup_ipi-ignored :
      (vec : ℕ)
      → vec < 256
      → x2apic (vm.lapics 0) ≡ false
      → boot vm dest ≡ bs_running
      → (startup_ipi vm dest vec).spinup ≡ none
  unfolding start_up
  startup_ipi-ignored vec fits xapic running =
      let w = at_command (0x4600 + vec) in
      ap (λ r. r.spinup) (startup_ipi-start_up vec fits xapic)
      ∙ ap (λ b. (start_from b w dest vec).spinup) (at_command-boot (0x4600 + vec) ∙ running)

-- The boot CPU starts another one by an INIT and two startup interrupts: for an APIC that waits for
-- an INIT, with a number from 1 to 15, and a boot CPU in xAPIC mode, the first startup interrupt
-- starts that CPU at the page that its vector names and leaves it running, and the second one starts
-- nothing.
pub startup_ipi-init_ipi :
    (vm : Vm) (dest vec : ℕ)
    → 0 < dest
    → dest < 16
    → vec < 256
    → x2apic (vm.lapics 0) ≡ false
    → boot vm dest ≡ bs_init
    → let first = startup_ipi (init_ipi vm dest).vm dest vec in
      (first.spinup ≡ some (dest, vec * 2 ^ 12))
      × (boot first.vm dest ≡ bs_running)
      × ((startup_ipi first.vm dest vec).spinup ≡ none)
startup_ipi-init_ipi vm dest vec other small fits xapic at_init =
    let (waits, xapic1) = init_ipi-waits vm dest other small xapic at_init in
    let (spun, running, xapic2) =
      startup_ipi-runs (init_ipi vm dest).vm dest other small vec fits xapic1 waits in
    (
      spun,
      running,
      startup_ipi-ignored (startup_ipi (init_ipi vm dest).vm dest vec).vm dest other small vec fits
          xapic2 running,
    )
