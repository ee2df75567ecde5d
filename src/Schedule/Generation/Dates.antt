-- ===== src/Schedule/Generation/Dates.antt =====
-- The dates of the generated sessions.
use kelolakelas_academic_ser.Calendar.{iso_weekday}
use kelolakelas_academic_ser.Domain.{Day, ClassSchedule}
use kelolakelas_academic_ser.Prelude.{
  ltb, leb, ◌==◌, if◌then◌else◌, ℕ, zero, suc, ◌+◌, ◌-◌, ◌<◌, ◌≡◌, refl, Bool, true, false, ◌&&◌,
  Option, none, some, List, [], ◌∷◌, arith,
}
use kelolakelas_academic_ser.Schedule.Generation.{
  window_from, window_until, matching_days, meeting_days,
}

unfoldable pub holds_day : Day → List Day → Bool
holds_day x [] = false
holds_day x (d ∷ days) = if d == x then true else holds_day x days

-- The schedule meets on a day: it is in the range and in the validity window, on the weekday.
abbrev pub after_valid_from : Option Day → Day → Bool
after_valid_from none x = true
after_valid_from (some valid) x = leb valid x

abbrev pub before_valid_until : Option Day → Day → Bool
before_valid_until none x = true
before_valid_until (some valid) x = leb x valid

abbrev pub meets_on : ClassSchedule → Day → Day → Day → Bool
meets_on s from until x =
    leb from x
    && leb x until
    && after_valid_from s.valid_from x
    && before_valid_until s.valid_until x
    && iso_weekday x == s.day_of_week

matching_days-holds :
    (weekday n d x : ℕ)
    → holds_day x (matching_days weekday n d)
      ≡ (leb d x && ltb x (d + n) && iso_weekday x == weekday)
unfolding holds_day matching_days
matching_days-holds weekday zero d x = ground arith
matching_days-holds weekday (suc n) d x = ground (arith, matching_days-holds weekday n (d + 1) x)

-- Sessions are generated exactly on the days of the range on which the schedule meets.
pub meeting_days-exact :
    (s : ClassSchedule) (from until x : Day)
    → holds_day x (meeting_days s from until) ≡ meets_on s from until x
unfolding meeting_days
meeting_days-exact s from until x = ground (
  arith,
  matching_days-holds s.day_of_week
      (window_until s.valid_until until + 1 - window_from s.valid_from from)
      (window_from s.valid_from from) x,
)

-- Each day stands once.
unfoldable pub all_after : Day → List Day → Bool
all_after x [] = true
all_after x (d ∷ days) = ltb x d && all_after x days

unfoldable pub ascending : List Day → Bool
unfolding all_after
ascending [] = true
ascending (d ∷ days) = all_after d days && ascending days

matching_days-after : (weekday n d x : ℕ) → x < d → all_after x (matching_days weekday n d) ≡ true
unfolding all_after matching_days
matching_days-after weekday zero d x h = refl
matching_days-after weekday (suc n) d x h = ground (arith, matching_days-after weekday n (d + 1) x)

matching_days-ascending : (weekday n d : ℕ) → ascending (matching_days weekday n d) ≡ true
unfolding ascending matching_days
matching_days-ascending weekday zero d = refl
matching_days-ascending weekday (suc n) d =
    ground
      (arith, matching_days-ascending weekday n (d + 1), matching_days-after weekday n (d + 1) d)

-- The generated days are in order, and no day stands twice.
pub meeting_days-ascending :
    (s : ClassSchedule) (from until : Day) → ascending (meeting_days s from until) ≡ true
unfolding meeting_days
meeting_days-ascending s from until = matching_days-ascending _ _ _
