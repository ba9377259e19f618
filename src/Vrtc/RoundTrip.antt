-- ===== src/Vrtc/RoundTrip.antt =====
-- The conversions of the calendar invert each other (src/vmm/io/vrtc.c).
use xhyve_manager.Base.{
  ℕ, zero, suc, ◌+◌, ◌-◌, ◌*◌, ◌/◌, ◌%◌, ◌≤◌, ◌<◌, ◌≡◌, ap, refl, ◌∙◌, false, arith, some,
}
use xhyve_manager.Vrtc.Loops.{
  add_whole, add_whole_start, add_whole_first, subtract_whole_total, subtract_whole_within,
  subtract_whole-add_whole, add_whole_within,
}
use xhyve_manager.Vrtc.Calendar.{
  Clocktime, Timespec, leapyear, days_in_year, days_in_month, days_before_year, days_before_month,
  is_invalid, clock_ct_to_ts, year_of, month_of, clock_ts_to_ct, base_year, secday, day_of_week,
}

days_in_year_positive : (y : ℕ) → 1 ≤ days_in_year y
unfolding days_in_year
days_in_year_positive y = ground arith

-- So many years have at least so many days.
enough_years : (k i : ℕ) → k ≤ add_whole days_in_year k i 0
enough_years zero i = omega arith
enough_years (suc k) i =
    omega (arith, add_whole_first days_in_year k i, enough_years k (suc i), days_in_year_positive i)

-- The twelve months make a year.
twelve_months : (y : ℕ) → add_whole (days_in_month y) 12 1 0 ≡ days_in_year y
unfolding days_in_year days_in_month leapyear
twelve_months y = ground arith

year_of_lem :
    (days : ℕ)
    → let (year, rest) = year_of days in
      (base_year ≤ year) × (days_before_year year + rest ≡ days) × (rest < days_in_year year)
unfolding year_of days_before_year
year_of_lem days =
    let (above, total) = subtract_whole_total days_in_year (suc days) base_year days in
    let (within, less) =
      subtract_whole_within days_in_year (suc days) base_year days
        (omega (arith, enough_years (suc days) base_year)) in
    (above, total, less)

month_of_lem :
    (year days : ℕ)
    → days < days_in_year year
    → let (mon, rest) = month_of year days in
      (1 ≤ mon)
      × (mon ≤ 12)
      × (days_before_month year mon 0 + rest ≡ days)
      × (rest < days_in_month year mon)
unfolding month_of days_before_month
month_of_lem year days fits =
    let (above, total) = subtract_whole_total (days_in_month year) 12 1 days in
    let (within, less) =
      subtract_whole_within (days_in_month year) 12 1 days (omega (arith, twelve_months year)) in
    (above, omega (arith, within), total, less)

-- A date and time that the clock can show.
pub record IsClocktime (ct : Clocktime) : Type 0 where
  pub after_1970 : base_year ≤ ct.year
  pub mon_from : 1 ≤ ct.mon
  pub mon_to : ct.mon ≤ 12
  pub day_from : 1 ≤ ct.day
  pub day_to : ct.day ≤ days_in_month ct.year ct.mon
  pub hour_to : ct.hour ≤ 23
  pub min_to : ct.min ≤ 59
  pub sec_to : ct.sec ≤ 59

pub clock_ts_to_ct-IsClocktime : (ts : Timespec) → IsClocktime (clock_ts_to_ct ts)
unfolding clock_ts_to_ct
clock_ts_to_ct-IsClocktime ts =
    let y = year_of_lem (ts.tv_sec / secday) in
    let (year, in_year) = year_of (ts.tv_sec / secday) in
    let m = month_of_lem year in_year y.2 in
    record {
      after_1970 = y.0;
      mon_from = m.0;
      mon_to = m.1;
      day_from = omega arith;
      day_to = omega (arith, m.3);
      hour_to = omega arith;
      min_to = omega arith;
      sec_to = omega arith;
    }

valid_lem : (ct : Clocktime) → IsClocktime ct → is_invalid ct ≡ false
unfolding is_invalid
valid_lem ct w = ground (arith, w)

-- The days that `clock_ct_to_ts` counts, and its seconds.
abbrev pub days_of : Clocktime → ℕ
days_of ct = days_before_month ct.year ct.mon (days_before_year ct.year) + (ct.day - 1)

abbrev pub secs_of : Clocktime → ℕ
secs_of ct = ((days_of ct * 24 + ct.hour) * 60 + ct.min) * 60 + ct.sec

pub clock_ct_to_ts_valid :
    (ct : Clocktime)
    → IsClocktime ct
    → clock_ct_to_ts ct ≡ some (record { tv_sec = secs_of ct; tv_nsec = ct.nsec })
unfolding clock_ct_to_ts
clock_ct_to_ts_valid ct w = rw (valid_lem ct w) refl

days_before_month_start :
    (year mon days : ℕ) → days_before_month year mon days ≡ days + days_before_month year mon 0
unfolding days_before_month
days_before_month_start year mon days = add_whole_start (days_in_month year) (mon - 1) 1 days

days_of-clock_ts_to_ct : (ts : Timespec) → days_of (clock_ts_to_ct ts) ≡ ts.tv_sec / secday
unfolding clock_ts_to_ct
days_of-clock_ts_to_ct ts =
    let y = year_of_lem (ts.tv_sec / secday) in
    let (year, in_year) = year_of (ts.tv_sec / secday) in
    let m = month_of_lem year in_year y.2 in
    let (mon, in_month) = month_of year in_year in
    omega (arith, y.1, m.2, days_before_month_start year mon (days_before_year year))

fields_of-clock_ts_to_ct :
    (ts : Timespec)
    → let ct = clock_ts_to_ct ts in
      (((ts.tv_sec / secday * 24 + ct.hour) * 60 + ct.min) * 60 + ct.sec ≡ ts.tv_sec)
      × (ct.nsec ≡ ts.tv_nsec)
unfolding clock_ts_to_ct
fields_of-clock_ts_to_ct ts = (omega arith, refl)

pub secs_of-clock_ts_to_ct : (ts : Timespec) → secs_of (clock_ts_to_ct ts) ≡ ts.tv_sec
secs_of-clock_ts_to_ct ts = rw (days_of-clock_ts_to_ct ts) (fields_of-clock_ts_to_ct ts).0

-- The fields that any number of seconds is shown as are a valid date and time, and converting
-- them back gives the seconds.
pub clock_ct_to_ts-clock_ts_to_ct : (ts : Timespec) → clock_ct_to_ts (clock_ts_to_ct ts) ≡ some ts
clock_ct_to_ts-clock_ts_to_ct ts =
    rw (clock_ct_to_ts_valid (clock_ts_to_ct ts) (clock_ts_to_ct-IsClocktime ts))
      (rw (secs_of-clock_ts_to_ct ts, (fields_of-clock_ts_to_ct ts).1) refl)

year_of-days_before_year :
    (year rest : ℕ)
    → base_year ≤ year
    → rest < days_in_year year
    → year_of (days_before_year year + rest) ≡ (year, rest)
unfolding year_of days_before_year
year_of-days_before_year year rest above less =
    let back : base_year + (year - base_year) ≡ year = omega arith in
    subtract_whole-add_whole days_in_year (year - base_year) (suc (days_before_year year + rest))
      base_year rest (omega (arith, enough_years (year - base_year) base_year)) (rw back less)
    ∙ ap (λ y. (y, rest)) back

month_of-days_before_month :
    (year mon rest : ℕ)
    → 1 ≤ mon
    → mon ≤ 12
    → rest < days_in_month year mon
    → (month_of year (days_before_month year mon 0 + rest) ≡ (mon, rest))
      × (days_before_month year mon 0 + rest < days_in_year year)
unfolding month_of days_before_month
month_of-days_before_month year mon rest from to less =
    let back : 1 + (mon - 1) ≡ mon = omega arith in
    (
      subtract_whole-add_whole (days_in_month year) (mon - 1) 12 1 rest (omega arith) (rw back less)
          ∙ ap (λ m. (m, rest)) back,
      omega (
        arith,
        twelve_months year,
        add_whole_within (days_in_month year) (mon - 1) 12 1 rest (omega arith) (rw back less),
      ),
    )

parts :
    (ct : Clocktime)
    → IsClocktime ct
    → (year_of (days_of ct) ≡ (ct.year, days_before_month ct.year ct.mon 0 + (ct.day - 1)))
      × (month_of ct.year (days_before_month ct.year ct.mon 0 + (ct.day - 1))
          ≡ (ct.mon, ct.day - 1))
parts ct w =
    let rest : ℕ = days_before_month ct.year ct.mon 0 + (ct.day - 1) in
    let m =
      month_of-days_before_month ct.year ct.mon (ct.day - 1) w.mon_from w.mon_to
        (omega (arith, w.day_from, w.day_to)) in
    let sum : days_of ct ≡ days_before_year ct.year + rest =
      omega (arith, days_before_month_start ct.year ct.mon (days_before_year ct.year)) in
    (rw sum (year_of-days_before_year ct.year rest w.after_1970 m.1), m.0)

-- The time of day that the seconds are shown as.
time_of_day :
    (days h m s : ℕ)
    → h ≤ 23
    → m ≤ 59
    → s ≤ 59
    → let secs = ((days * 24 + h) * 60 + m) * 60 + s in
      (secs / secday ≡ days)
      × (secs % secday / 3600 ≡ h)
      × (secs % secday % 3600 / 60 ≡ m)
      × (secs % secday % 3600 % 60 ≡ s)
time_of_day days h m s hh hm hs = (omega arith, omega arith, omega arith, omega arith)

-- A valid date and time from 1970 on is converted to seconds, and the seconds are shown as that
-- date and time, with the day of the week that follows from it.
pub clock_ts_to_ct-clock_ct_to_ts :
    (ct : Clocktime)
    → IsClocktime ct
    → (ts : Timespec) × (clock_ct_to_ts ct ≡ some ts)
      × (clock_ts_to_ct ts ≡ record ct { dow = day_of_week (ts.tv_sec / secday) })
unfolding clock_ts_to_ct
clock_ts_to_ct-clock_ct_to_ts ct w =
    let t = time_of_day (days_of ct) ct.hour ct.min ct.sec w.hour_to w.min_to w.sec_to in
    let (y, m) = parts ct w in
    let day : ct.day - 1 + 1 ≡ ct.day = omega (arith, w.day_from) in
    (
      record { tv_sec = secs_of ct; tv_nsec = ct.nsec },
      clock_ct_to_ts_valid ct w,
      rw (t.0, y, m, t.1, t.2, t.3, day) refl,
    )
