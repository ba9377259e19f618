-- ===== src/Vrtc/Leaps.antt =====
-- The days before a year in closed form (src/vmm/io/vrtc.c).
use xhyve_manager.Base.{ℕ, zero, suc, ◌+◌, ◌-◌, ◌*◌, ◌/◌, ◌≤◌, ◌≡◌, arith}
use xhyve_manager.Base.Bits.Masks.{bit_and-ones}
use xhyve_manager.Vrtc.Loops.{add_whole, add_whole_first}
use xhyve_manager.Vrtc.Calendar.{leapyear, days_in_year, days_before_year, base_year}

-- The leap years of the Gregorian calendar up to a year.
abbrev pub leaps_to : ℕ → ℕ
leaps_to y = y / 4 + y / 400 - y / 100

days_in_year_step : (y : ℕ) → days_in_year (suc y) + leaps_to y ≡ 365 + leaps_to (suc y)
unfolding days_in_year leapyear
days_in_year_step y = ground (arith, bit_and-ones 2 (suc y))

years_from :
    (n y : ℕ) → add_whole days_in_year n (suc y) 0 + leaps_to y ≡ 365 * n + leaps_to (y + n)
years_from zero y = omega arith
years_from (suc n) y =
    omega (arith, add_whole_first days_in_year n (suc y), days_in_year_step y, years_from n (suc y))

-- The loop over the years since 1970 counts 365 days for each and one more for each year that the
-- Gregorian rule makes a leap year.
pub days_before_year_closed :
    (year : ℕ)
    → base_year ≤ year
    → days_before_year year ≡ 365 * (year - 1970) + (leaps_to (year - 1) - leaps_to 1969)
unfolding days_before_year
days_before_year_closed year above =
    let last : 1969 + (year - 1970) ≡ year - 1 = omega arith in
    omega (arith, years_from (year - 1970) 1969)
