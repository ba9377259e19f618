-- ===== src/Vrtc/Formats.antt =====
-- What the clock stores in its date and time registers, it reads back, in each of the formats that
-- register B selects (src/vmm/io/vrtc.c).
use xhyve_manager.Base.{
  ℕ, ◌+◌, ◌-◌, ◌*◌, ◌/◌, ◌%◌, ◌^◌, ◌≤◌, ◌<◌, ◌≡◌, refl, ◌∙◌, Bool, true, false, none, some, ◌==◌,
  ltb, all_below_lem, get_or, arith, inl, inr, Bool-cases,
}
use xhyve_manager.Vrtc.Calendar.{Clocktime, days_in_month, leapyear}
use xhyve_manager.Vrtc.RoundTrip.{IsClocktime, secs_of, clock_ct_to_ts_valid}
use xhyve_manager.Vrtc.Registers.{
  bin2bcd_data, Rtcdev, is_24hr, is_binary, rtcset, rtcget, rtc_field, hour_to_rtc, hour_from_rtc,
  ct_to_rtc, rtc_to_secs,
}

abbrev tens_and_ones : ℕ → Bool
tens_and_ones v = get_or bin2bcd_data v 0 == v / 10 * 16 + v % 10

bcd : (v : ℕ) → v < 100 → get_or bin2bcd_data v 0 ≡ v / 10 * 16 + v % 10
bcd v below = ground (arith, all_below_lem 100 tens_and_ones v refl below)

-- A number below 100 is read as it was stored.
pub rtcget-rtcset : (b v : ℕ) → v < 100 → rtcget b (rtcset b v) ≡ some v
unfolding rtcget rtcset
rtcget-rtcset b v below = ground (arith, bcd v below)

pub rtc_field-rtcset :
    (b v low high : ℕ) → v < 100 → low ≤ v → v ≤ high → rtc_field b (rtcset b v) low high ≡ some v
unfolding rtc_field
rtc_field-rtcset b v low high below from to = rw (rtcget-rtcset b v below) (ground arith)

-- An hour that is read as it was stored.
abbrev is_kept : ℕ → ℕ → Bool
is_kept b hour = elim (hour_from_rtc b (hour_to_rtc b hour)) [ none ↦ false | some h ↦ h == hour ]

is_kept_lem :
    (b hour : ℕ) → is_kept b hour ≡ true → hour_from_rtc b (hour_to_rtc b hour) ≡ some hour
is_kept_lem b hour kept = ground (arith, kept)

-- Only the two bits of the formats matter.
same_format :
    (b c hour : ℕ)
    → is_24hr b ≡ is_24hr c
    → is_binary b ≡ is_binary c
    → hour_from_rtc b (hour_to_rtc b hour) ≡ hour_from_rtc c (hour_to_rtc c hour)
unfolding hour_from_rtc hour_to_rtc rtcset rtcget
same_format b c hour hours numbers = rw (hours, numbers) refl

module _ (hour : ℕ) (in_day : hour < 24) where
  binary_24 : is_kept 6 hour ≡ true
  unfolding hour_from_rtc hour_to_rtc rtcset rtcget
  binary_24 = all_below_lem 24 (is_kept 6) hour refl in_day

  bcd_24 : is_kept 2 hour ≡ true
  unfolding hour_from_rtc hour_to_rtc rtcset rtcget
  bcd_24 = all_below_lem 24 (is_kept 2) hour refl in_day

  binary_12 : is_kept 4 hour ≡ true
  unfolding hour_from_rtc hour_to_rtc rtcset rtcget
  binary_12 = all_below_lem 24 (is_kept 4) hour refl in_day

  bcd_12 : is_kept 0 hour ≡ true
  unfolding hour_from_rtc hour_to_rtc rtcset rtcget
  bcd_12 = all_below_lem 24 (is_kept 0) hour refl in_day

  kept_as :
      (b c : ℕ)
      → is_24hr b ≡ is_24hr c
      → is_binary b ≡ is_binary c
      → is_kept c hour ≡ true
      → hour_from_rtc b (hour_to_rtc b hour) ≡ some hour
  kept_as b c hours numbers kept = same_format b c hour hours numbers ∙ is_kept_lem c hour kept

-- An hour of the day is read as it was stored, in the 12-hour and the 24-hour format.
pub hour_from_rtc-hour_to_rtc :
    (b hour : ℕ) → hour < 24 → hour_from_rtc b (hour_to_rtc b hour) ≡ some hour
hour_from_rtc-hour_to_rtc b hour in_day = elim (Bool-cases (is_24hr b)) [
  | inl hours ↦ elim (Bool-cases (is_binary b)) [
    | inl numbers ↦ kept_as hour in_day b 6 hours numbers (binary_24 hour in_day)
    | inr numbers ↦ kept_as hour in_day b 2 hours numbers (bcd_24 hour in_day)
  ]
  | inr hours ↦ elim (Bool-cases (is_binary b)) [
    | inl numbers ↦ kept_as hour in_day b 4 hours numbers (binary_12 hour in_day)
    | inr numbers ↦ kept_as hour in_day b 0 hours numbers (bcd_12 hour in_day)
  ]
]

-- What `ct_to_rtc` leaves in each register that `rtc_to_secs` reads.
stored :
    (rtc : Rtcdev) (ct : Clocktime)
    → let r = ct_to_rtc rtc ct in
      let b = rtc 11 in
      (r 11 ≡ b)
      × (r 0 ≡ rtcset b ct.sec)
      × (r 2 ≡ rtcset b ct.min)
      × (r 4 ≡ hour_to_rtc b ct.hour)
      × (r 7 ≡ rtcset b ct.day)
      × (r 8 ≡ rtcset b ct.mon)
      × (r 9 ≡ rtcset b (ct.year % 100))
      × (r 0x32 ≡ rtcset b (ct.year / 100))
unfolding ct_to_rtc
stored rtc ct = (refl, refl, refl, refl, refl, refl, refl, refl)

month_short : (y m : ℕ) → days_in_month y m ≤ 31
unfolding days_in_month leapyear
month_short y m = ground arith

-- A valid date and time from 1970 to 9999, stored in the registers in any of the formats, is read
-- back as the seconds it stands for.
pub rtc_to_secs-ct_to_rtc :
    (rtc : Rtcdev) (ct : Clocktime)
    → IsClocktime ct
    → ct.year < 10000
    → rtc_to_secs (ct_to_rtc rtc ct) ≡ some (secs_of ct)
unfolding rtc_to_secs
rtc_to_secs-ct_to_rtc rtc ct w small =
    let b = rtc 11 in
    let s = stored rtc ct in
    let short = month_short ct.year ct.mon in
    let read : Clocktime = record ct { dow = 2 ^ 32 - 1; nsec = 0 } in
    let whole : ct.year / 100 * 100 + ct.year % 100 ≡ ct.year = omega arith in
    let recent : ltb ct.year 1900 ≡ false = ground (arith, w.after_1970) in
    rw
      (
        s.0,
        s.1,
        s.2,
        s.3,
        s.4,
        s.5,
        s.6,
        s.7,
        rtc_field-rtcset b ct.sec 0 59 (omega (arith, w.sec_to)) (omega arith) w.sec_to,
        rtc_field-rtcset b ct.min 0 59 (omega (arith, w.min_to)) (omega arith) w.min_to,
        hour_from_rtc-hour_to_rtc b ct.hour (omega (arith, w.hour_to)),
        rtc_field-rtcset b ct.day 1 31 (omega (arith, short, w.day_to)) w.day_from
            (omega (arith, short, w.day_to)),
        rtc_field-rtcset b ct.mon 1 12 (omega (arith, w.mon_to)) w.mon_from w.mon_to,
        rtc_field-rtcset b (ct.year % 100) 0 99 (omega arith) (omega arith) (omega arith),
        rtcget-rtcset b (ct.year / 100) (omega (arith, small)),
        whole,
        recent,
        clock_ct_to_ts_valid read (ground (arith, w)),
      )
      refl
