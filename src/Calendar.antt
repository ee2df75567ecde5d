-- ===== src/Calendar.antt =====
-- Calendar dates, as the code uses package time: a date is a day number, 0 for 1970-01-01. These
-- are getISOWeekday and endOfMonth of internal/usecase/schedule_usecase.go, and the Gregorian months
-- that time.Date and AddDate count in.
pub mod Bounds
use kelolakelas_academic_ser.Domain.{Day}
use kelolakelas_academic_ser.Prelude.{
  ltb, ◌==◌, if◌then◌else◌, ℕ, zero, suc, ◌+◌, ◌-◌, ◌%◌, Bool, not, ◌&&◌, ◌||◌, List, [], ◌∷◌,
}

abbrev pub is_leap : ℕ → Bool
is_leap y = (y % 4 == 0) && (not (y % 100 == 0) || (y % 400 == 0))

abbrev pub year_length : ℕ → ℕ
year_length y = if is_leap y then 366 else 365

abbrev pub february : ℕ → ℕ
february y = if is_leap y then 29 else 28

abbrev pub month_lengths : ℕ → List ℕ
month_lengths y = 31 ∷ february y ∷ 31 ∷ 30 ∷ 31 ∷ 30 ∷ 31 ∷ 31 ∷ 30 ∷ 31 ∷ 30 ∷ 31 ∷ []

-- The year of a date, and the date within it: years are taken off while they fit. A year has more
-- than one day, so the date itself is fuel enough.
unfoldable pub year_from : ℕ → ℕ → ℕ → ℕ × ℕ
year_from zero y d = (y, d)
year_from (suc fuel) y d =
    let later = year_from fuel (y + 1) (d - year_length y) in
    if ltb d (year_length y) then (y, d) else later

-- Of a date within a year: how many days its month still has after it, and how many before it.
unfoldable pub days_after : List ℕ → ℕ → ℕ
days_after [] d = 0
days_after (n ∷ months) d =
    let later = days_after months (d - n) in if ltb d n then n - 1 - d else later

unfoldable pub days_before : List ℕ → ℕ → ℕ
days_before [] d = 0
days_before (n ∷ months) d = let later = days_before months (d - n) in if ltb d n then d else later

-- endOfMonth: the day before the first of the next month.
unfoldable pub end_of_month : Day → Day
unfolding year_from days_after
end_of_month d = let (y, r) = year_from d 1970 d in d + days_after (month_lengths y) r

-- time.Date(y, m, 1): the first of the month of a date.
unfoldable pub month_start : Day → Day
unfolding year_from days_before
month_start d = let (y, r) = year_from d 1970 d in d - days_before (month_lengths y) r

-- AddDate(0, n, 0) from the first of a month.
unfoldable pub add_months : ℕ → Day → Day
unfolding end_of_month
add_months zero d = d
add_months (suc n) d = add_months n (end_of_month d + 1)

-- getISOWeekday: 1 for Monday to 7 for Sunday. Day 0 is a Thursday.
unfoldable pub iso_weekday : Day → ℕ
iso_weekday d = (d + 3) % 7 + 1
