-- ===== src/Calendar/Bounds.antt =====
-- Where the ends of a month lie.
use kelolakelas_academic_ser.Calendar.{
  month_lengths, year_from, days_after, end_of_month, iso_weekday,
}
use kelolakelas_academic_ser.Domain.{Day}
use kelolakelas_academic_ser.Prelude.{leb, all, ℕ, ◌+◌, ◌-◌, ◌≤◌, ◌≡◌, true, List, [], ◌∷◌, arith}

days_after-lt :
    (b : ℕ) (months : List ℕ) (d : ℕ) → all (λ n. leb n b) months ≡ true → days_after months d ≤ b
unfolding days_after all
days_after-lt b [] d h = omega arith
days_after-lt b (n ∷ months) d h = ground (arith, days_after-lt b months (d - n))

pub end_of_month-ge : (d : Day) → d ≤ end_of_month d
unfolding end_of_month
end_of_month-ge d = ground arith

short_months : (y : ℕ) → all (λ n. leb n 31) (month_lengths y) ≡ true
unfolding all
short_months y = ground arith

-- The last day of a month is less than 32 days away.
pub end_of_month-near : (d : Day) → end_of_month d ≤ d + 31
unfolding end_of_month
end_of_month-near d =
    let (y, r) = year_from d 1970 d in
    omega (arith, days_after-lt 31 (month_lengths y) r (short_months y))

pub iso_weekday_range : (d : Day) → (1 ≤ iso_weekday d) × (iso_weekday d ≤ 7)
unfolding iso_weekday
iso_weekday_range d = (omega arith, omega arith)
