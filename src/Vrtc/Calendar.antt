-- ===== src/Vrtc/Calendar.antt =====
-- The calendar of the clock: dates and times as fields and as seconds since 1970
-- (src/vmm/io/vrtc.c). The fields are never negative where the clock uses them.
use xhyve_manager.Base.{
  ℕ, suc, ◌+◌, ◌-◌, ◌*◌, ◌/◌, ◌%◌, Bool, not, ◌||◌, Option, none, some, List, [], ◌∷◌, ◌==◌, ltb,
  if◌then◌else◌, bit_and, get_or,
}
use xhyve_manager.Vrtc.Loops.{add_whole, subtract_whole}

-- `struct clocktime` and `struct timespec`.
pub record Clocktime : Type 0 where
  pub year : ℕ
  pub mon : ℕ
  pub day : ℕ
  pub hour : ℕ
  pub min : ℕ
  pub sec : ℕ
  pub dow : ℕ
  pub nsec : ℕ

pub record Timespec : Type 0 where
  pub tv_sec : ℕ
  pub tv_nsec : ℕ

-- `POSIX_BASE_YEAR`, `FEBRUARY` and `SECDAY`.
abbrev pub base_year : ℕ
base_year = 1970

abbrev pub february : ℕ
february = 2

abbrev pub secday : ℕ
secday = 24 * 60 * 60

unfoldable pub leapyear : ℕ → ℕ
leapyear year =
    if bit_and year 3 == 0
    then if year % 100 == 0 then if year % 400 == 0 then 1 else 0 else 1
    else 0

unfoldable pub days_in_year : ℕ → ℕ
unfolding leapyear
days_in_year y = if not (leapyear y == 0) then 366 else 365

abbrev pub month_days : List ℕ
month_days = 31 ∷ 28 ∷ 31 ∷ 30 ∷ 31 ∷ 30 ∷ 31 ∷ 31 ∷ 30 ∷ 31 ∷ 30 ∷ 31 ∷ []

-- Only ever used at the months 1 to 12.
unfoldable pub days_in_month : ℕ → ℕ → ℕ
unfolding leapyear
days_in_month y m = get_or month_days (m - 1) 0 + (if m == february then leapyear y else 0)

abbrev pub day_of_week : ℕ → ℕ
day_of_week days = (days + 4) % 7

-- The two loops of `clock_ct_to_ts`.
unfoldable pub days_before_year : ℕ → ℕ
unfolding days_in_year
days_before_year year = add_whole days_in_year (year - base_year) base_year 0

unfoldable pub days_before_month : ℕ → ℕ → ℕ → ℕ
unfolding days_in_month
days_before_month year mon days = add_whole (days_in_month year) (mon - 1) 1 days

-- The sanity checks; `time_t` has eight bytes.
unfoldable pub is_invalid : Clocktime → Bool
unfolding days_in_month
is_invalid ct =
    (ltb ct.mon 1 || ltb 12 ct.mon)
    || ((ltb ct.day 1 || ltb (days_in_month ct.year ct.mon) ct.day)
        || (ltb 23 ct.hour || (ltb 59 ct.min || ltb 59 ct.sec)))

-- `clock_ct_to_ts`: none is EINVAL.
unfoldable pub clock_ct_to_ts : Clocktime → Option Timespec
unfolding is_invalid days_before_year days_before_month
clock_ct_to_ts ct =
    let days = days_before_month ct.year ct.mon (days_before_year ct.year) + (ct.day - 1) in
    if is_invalid ct
    then none
    else some
        (record { tv_sec = ((days * 24 + ct.hour) * 60 + ct.min) * 60 + ct.sec; tv_nsec = ct.nsec })

-- The two loops of `clock_ts_to_ct`: the year and the month, each with the days left.
unfoldable pub year_of : ℕ → ℕ × ℕ
unfolding days_in_year
year_of days = subtract_whole days_in_year (suc days) base_year days

unfoldable pub month_of : ℕ → ℕ → ℕ × ℕ
unfolding days_in_month
month_of year days = subtract_whole (days_in_month year) 12 1 days

unfoldable pub clock_ts_to_ct : Timespec → Clocktime
unfolding year_of month_of
clock_ts_to_ct ts =
    let days = ts.tv_sec / secday in
    let rsec = ts.tv_sec % secday in
    let in_hour = rsec % 3600 in
    let (year, in_year) = year_of days in
    let (mon, in_month) = month_of year in_year in
    record {
      year = year;
      mon = mon;
      day = in_month + 1;
      hour = rsec / 3600;
      min = in_hour / 60;
      sec = in_hour % 60;
      dow = day_of_week days;
      nsec = ts.tv_nsec;
    }
