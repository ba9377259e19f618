-- ===== src/Vrtc/Tests.antt =====
-- Runs of the clock, and the theorems at concrete states (src/vmm/io/vrtc.c).
use xhyve_manager.Base.{
  ℕ, ◌+◌, ◌-◌, ◌*◌, ◌/◌, ◌^◌, ◌≡◌, refl, true, false, none, some, List, [], ◌∷◌, not, ◌&&◌, ◌||◌,
  ◌==◌, if◌then◌else◌, arith, ok,
}
use xhyve_manager.Base.Bits.{has_bit}
use xhyve_manager.Vrtc.Calendar.{
  Clocktime, Timespec, clock_ct_to_ts, clock_ts_to_ct, days_before_year, day_of_week, days_in_month,
  leapyear,
}
use xhyve_manager.Vrtc.RoundTrip.{IsClocktime, secs_of, clock_ts_to_ct-clock_ct_to_ts}
use xhyve_manager.Vrtc.Leaps.{leaps_to, days_before_year_closed}
use xhyve_manager.Vrtc.Registers.{
  Vrtc, Rtcdev, put, put_reg, reg_a, reg_b, reg_c, ct_to_rtc, rtc_to_secs, secs_to_rtc,
  update_enabled, divider_enabled,
}
use xhyve_manager.Vrtc.Formats.{rtc_to_secs-ct_to_rtc}
use xhyve_manager.Vrtc.Device.{vrtc_curtime, irqf, vrtc_set_reg_c, vrtc_set_reg_b, vrtc_time_update}
use xhyve_manager.Vrtc.Ports.{cleared, vrtc_init, vrtc_data_handler}
use xhyve_manager.Vrtc.Update.{
  vrtc_time_update-forward, vrtc_time_update-endless, vrtc_time_update-vrtc_curtime,
}
use xhyve_manager.Vrtc.Invariant.{IsVrtc, Ends}
use xhyve_manager.Vrtc.Runs.{Op, address, access, fire, store, reset, vrtc_steps, vrtc_steps-IsVrtc}
use xhyve_manager.Vrtc.Interrupts.{asks, vrtc_set_reg_c_lem}
use xhyve_manager.Vrtc.Halted.{read-write_halted}
use xhyve_manager.Vrtc.Resume.{vrtc_set_reg_b-resumed, secs_to_rtc_host}

-- The last second of 2024, and its fields.
abbrev eve : Timespec
eve = record { tv_sec = 1735689599; tv_nsec = 0 }

abbrev eve_fields : Clocktime
eve_fields = record {
  year = 2024;
  mon = 12;
  day = 31;
  hour = 23;
  min = 59;
  sec = 59;
  dow = 2;
  nsec = 0;
}

eve_shown : clock_ts_to_ct eve ≡ eve_fields
unfolding clock_ts_to_ct
eve_shown = refl

-- The leap day of 2024.
abbrev leap_day : Clocktime
leap_day = record { year = 2024; mon = 2; day = 29; hour = 12; min = 0; sec = 1; dow = 4; nsec = 0 }

leap_day-IsClocktime : IsClocktime leap_day
unfolding days_in_month leapyear
leap_day-IsClocktime = ground arith

clock_ts_to_ct-clock_ct_to_ts_example :
    (ts : Timespec) × (clock_ct_to_ts leap_day ≡ some ts)
    × (clock_ts_to_ct ts ≡ record leap_day { dow = day_of_week (ts.tv_sec / 86400) })
clock_ts_to_ct-clock_ct_to_ts_example = clock_ts_to_ct-clock_ct_to_ts leap_day leap_day-IsClocktime

days_before_year_closed_example :
    days_before_year 2101 ≡ 365 * (2101 - 1970) + (leaps_to (2101 - 1) - leaps_to 1969)
days_before_year_closed_example = days_before_year_closed 2101 (omega arith)

-- Register B selects binary numbers and the 12-hour format.
abbrev twelve_hours : Rtcdev
twelve_hours = put (λ j. 0) 11 4

rtc_to_secs-ct_to_rtc_example :
    rtc_to_secs (ct_to_rtc twelve_hours leap_day) ≡ some (secs_of leap_day)
rtc_to_secs-ct_to_rtc_example =
    rtc_to_secs-ct_to_rtc twelve_hours leap_day leap_day-IsClocktime (omega arith)

-- A clock that shows 100 seconds, with the alarm interrupt enabled.
abbrev running : Vrtc
running = record (put_reg cleared 11 0x22) { base_rtctime = some 100 }

vrtc_set_reg_c_lem_example :
    let w = vrtc_set_reg_c running 0x20 in
    (has_bit (reg_c w) 7 ≡ (
      if 7 == 7
      then asks running 0x20 4 || (asks running 0x20 5 || asks running 0x20 6)
      else has_bit 0x20 7 && (4 == 7 || (5 == 7 || 6 == 7))))
    × (w.rtcdev 11 ≡ (if 11 == 12 then reg_c w else running.rtcdev 11))
    × (w.pulses
        ≡ running.pulses
          + (if not (has_bit (reg_c running) 7) && has_bit (reg_c w) 7 then 1 else 0))
vrtc_set_reg_c_lem_example = vrtc_set_reg_c_lem running 0x20 7 11 (omega arith)

alarm_pulses : (vrtc_set_reg_c running 0x20).pulses ≡ 1
unfolding vrtc_set_reg_c irqf
alarm_pulses = refl

vrtc_time_update-forward_example :
    (w : Vrtc) × (vrtc_time_update eve 5 running (some 103) 7 ≡ some (ok, w))
    × (w.base_rtctime ≡ some 103)
    × (w.base_uptime ≡ 7)
    × (reg_a w ≡ reg_a running)
    × (reg_b w ≡ reg_b running)
vrtc_time_update-forward_example =
    vrtc_time_update-forward eve 5 running 100 103 7 refl refl (omega arith) (omega arith)

vrtc_time_update-endless_example : vrtc_time_update eve 1000 running (some 99) 7 ≡ none
vrtc_time_update-endless_example =
    vrtc_time_update-endless eve 1000 running 100 99 7 refl refl refl (omega arith)

running_enabled : update_enabled running ≡ true
unfolding update_enabled divider_enabled
running_enabled = refl

vrtc_time_update-vrtc_curtime_example :
    let (curtime, basetime) = vrtc_curtime (5 * 2 ^ 32 + 9) running in
    (w : Vrtc) × (vrtc_time_update eve 5 running curtime basetime ≡ some (ok, w))
    × (vrtc_curtime (9 * 2 ^ 32) w ≡ vrtc_curtime (9 * 2 ^ 32) running)
vrtc_time_update-vrtc_curtime_example =
    vrtc_time_update-vrtc_curtime eve 5 (5 * 2 ^ 32 + 9) (9 * 2 ^ 32) running running_enabled
      (omega arith) (omega arith) (omega arith)

-- The guest halts updates, writes the seconds, and resumes; the callout fires; a reset.
abbrev script : List (Timespec × ℕ × Op)
script =
    (eve, 10, address false 1 11)
    ∷ (eve, 11, access false 1 0x82)
    ∷ (eve, 12, address false 1 0)
    ∷ (eve, 13, access false 1 0x30)
    ∷ (eve, 14, address false 1 11)
    ∷ (eve, 15, access false 1 0x42)
    ∷ (eve, 2 ^ 32, fire false)
    ∷ (eve, 2 ^ 33, store 20 7)
    ∷ (eve, 2 ^ 34, reset)
    ∷ []

vrtc_steps-IsVrtc_example : Ends IsVrtc (vrtc_steps 10 (vrtc_init eve 10 1) script)
vrtc_steps-IsVrtc_example = vrtc_steps-IsVrtc eve 10 1 script

-- A clock whose updates are halted, with the fields of the leap day.
abbrev halted : Vrtc
halted = record (put_reg cleared 11 0x82) {
  rtcdev = ct_to_rtc (put cleared.rtcdev 11 0x82) leap_day;
}

halted-IsVrtc : IsVrtc halted
unfolding ct_to_rtc
halted-IsVrtc = record {
  addr_lt = omega arith;
  not_updating = refl;
  powered = refl;
  halted_broken = refl;
}

abbrev at_minutes : Vrtc
at_minutes = record halted { addr = 2 }

at_minutes-IsVrtc : IsVrtc at_minutes
unfolding ct_to_rtc
at_minutes-IsVrtc = record {
  addr_lt = omega arith;
  not_updating = refl;
  powered = refl;
  halted_broken = refl;
}

read-write_halted_example :
    let w = put_reg at_minutes 2 0x45 in
    (vrtc_data_handler eve 1 5 at_minutes false 1 0x45 ≡ some (ok, 0x45, w))
    × (vrtc_data_handler eve 1 900 w true 1 0 ≡ some (ok, 0x45, w))
unfolding ct_to_rtc
read-write_halted_example =
    read-write_halted eve eve 1 1 5 900 at_minutes 0x45 0 at_minutes-IsVrtc refl refl

halted_fields : rtc_to_secs (put halted.rtcdev 11 0x02) ≡ some 1709208001
unfolding rtc_to_secs ct_to_rtc
halted_fields = refl

vrtc_set_reg_b-resumed_example :
    (w : Vrtc) × (vrtc_set_reg_b eve 1 500 halted 0x02 ≡ some (ok, w))
    × (w.base_rtctime ≡ some 1709208001)
    × (w.base_uptime ≡ 500)
    × (reg_b w ≡ 0x02)
unfolding ct_to_rtc
vrtc_set_reg_b-resumed_example =
    vrtc_set_reg_b-resumed eve 0 500 halted 0x02 1709208001 halted-IsVrtc refl refl halted_fields

secs_to_rtc_host_example :
    rtc_to_secs (secs_to_rtc eve (some 1709208001) running false).rtcdev ≡ some 1735689599
unfolding clock_ts_to_ct
secs_to_rtc_host_example = secs_to_rtc_host eve 1709208001 running refl (omega arith)
