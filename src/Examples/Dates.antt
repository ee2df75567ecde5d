-- ===== src/Examples/Dates.antt =====
-- Dates: 2026-11-26 is a Thursday in a month of thirty days, and 2028-02-01 is in a leap year.
use kelolakelas_academic_ser.Calendar.{end_of_month, iso_weekday}
use kelolakelas_academic_ser.Examples.{mondays}
use kelolakelas_academic_ser.Prelude.{◌≡◌, refl, true, none, some}
use kelolakelas_academic_ser.Schedule.Clock.{
  codes, number, optional_fraction, parse_seconds, parse_minutes, without_seconds,
  parse_schedule_time, format_time,
}
use kelolakelas_academic_ser.Schedule.Generation.{meeting_days}
use kelolakelas_academic_ser.Schedule.Generation.Dates.{
  holds_day, meets_on, meeting_days-exact, ascending, meeting_days-ascending,
}
use mathlib.Core.Option.{bind}

end_of_november : end_of_month 20783 ≡ 20787
unfolding end_of_month
end_of_november = refl

thursday : iso_weekday 20783 ≡ 4
unfolding iso_weekday
thursday = refl

february_2028 : end_of_month 21215 ≡ 21243
unfolding end_of_month
february_2028 = refl

half_past_nine : parse_schedule_time "9:30" ≡ some 34200000000000
unfolding parse_schedule_time parse_minutes bind number codes parse_seconds without_seconds
    optional_fraction
half_past_nine = refl

no_such_hour : parse_schedule_time "24:00" ≡ none
unfolding parse_schedule_time parse_minutes bind number codes parse_seconds without_seconds
    optional_fraction
no_such_hour = refl

formatted : format_time 34200000000000 ≡ "09:30:00"
unfolding format_time
formatted = refl

meeting_days-exact_example :
    holds_day 20786 (meeting_days mondays 20783 20800) ≡ meets_on mondays 20783 20800 20786
meeting_days-exact_example = meeting_days-exact mondays 20783 20800 20786

meeting_days-ascending_example : ascending (meeting_days mondays 20783 20800) ≡ true
meeting_days-ascending_example = meeting_days-ascending mondays 20783 20800
