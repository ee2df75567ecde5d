-- ===== src/Schedule/Generation.antt =====
-- sessionsForScheduleBetween of internal/usecase/schedule_usecase.go. Its loop over the dates is
-- written in two parts: the dates on which the schedule meets, and a session for each.
pub mod Dates
use kelolakelas_academic_ser.App.{App, pure, ◌>>=◌, ◌>>◌, new_uuid}
use kelolakelas_academic_ser.Calendar.{end_of_month, iso_weekday}
use kelolakelas_academic_ser.Domain.{Uuid, uuid_nil, Day, ClassSchedule, scheduled, ClassSession}
use kelolakelas_academic_ser.Enrollment.Rows.{enrollment_id, class_id, schedule_id}
use kelolakelas_academic_ser.Prelude.{
  ltb, ◌==◌, if◌then◌else◌, first, ℕ, zero, suc, ◌+◌, ◌-◌, false, Option, none, some, List, [], ◌∷◌,
}

-- The window of a schedule within a range: its validity can only narrow the range.
abbrev pub window_from : Option Day → Day → Day
window_from none from = from
window_from (some valid) from = if ltb from valid then valid else from

abbrev pub window_until : Option Day → Day → Day
window_until none until = until
window_until (some valid) until = if ltb valid until then valid else until

-- `for d := fromDate; !d.After(endDate); d = d.AddDate(0, 0, 1)`, over the days that are left
unfoldable pub matching_days : ℕ → ℕ → Day → List Day
matching_days weekday zero d = []
matching_days weekday (suc n) d =
    let rest = matching_days weekday n (d + 1) in
    if iso_weekday d == weekday then d ∷ rest else rest

unfoldable pub meeting_days : ClassSchedule → Day → Day → List Day
unfolding matching_days
meeting_days s from until =
    let first = window_from s.valid_from from in
    let last = window_until s.valid_until until in
    matching_days s.day_of_week (last + 1 - first) first

abbrev pub tutor_or_nil : Option Uuid → Uuid
tutor_or_nil none = uuid_nil
tutor_or_nil (some t) = t

unfoldable pub session_on : ClassSchedule → Uuid → Day → ClassSession
session_on s i d = record {
  id = i;
  class_id = s.class_id;
  schedule_id = some s.id;
  enrollment_id = s.enrollment_id;
  rescheduled_from_session_id = none;
  tutor_id = tutor_or_nil s.tutor_id;
  session_date = d;
  start_time = s.start_time;
  end_time = s.end_time;
  status = scheduled;
  deleted = false;
}

unfoldable pub sessions_on : ClassSchedule → List Day → App (List ClassSession)
sessions_on s [] = pure []
sessions_on s (d ∷ days) = do
  i ← new_uuid
  rest ← sessions_on s days
  pure (session_on s i d ∷ rest)

unfoldable pub sessions_between : ClassSchedule → Day → Day → App (List ClassSession)
sessions_between s from until = sessions_on s (meeting_days s from until)

-- generateSessionsForSchedule
unfoldable pub generate_sessions : ClassSchedule → Day → App (List ClassSession)
generate_sessions s from = sessions_between s from (end_of_month from)
