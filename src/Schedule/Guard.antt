-- ===== src/Schedule/Guard.antt =====
-- ValidateChange of internal/repository/schedule_change_guard.go, and the checks of a schedule
-- change in internal/usecase/schedule_usecase.go.
use kelolakelas_academic_ser.App.{
  Db, Result, ok, err, App, pure, raise, ◌>>=◌, ◌>>◌, query, lookup, map_error, attempt,
  today_jakarta,
}
use kelolakelas_academic_ser.Domain.{
  Uuid, Day, ClassSchedule, is_session_completed, ClassSession, Attendance,
}
use kelolakelas_academic_ser.Enrollment.Rows.{seated}
use kelolakelas_academic_ser.Errors.{
  schedule_not_found, UsecaseError, session_not_found, invalid_effective_date,
  substitute_tutor_not_eligible, substitute_tutor_unavailable, schedule_history_conflict,
  schedule_seats_conflict, Error, usecase, is_not_found,
}
use kelolakelas_academic_ser.Prelude.{
  ltb, leb, ◌==◌, if◌then◌else◌, is_some_eq, count, any, ℕ, Bool, true, false, not, ◌&&◌, ◌||◌,
  Option, none, some, List,
}
use kelolakelas_academic_ser.Schedule.Rows.{find_schedule_for_tenant, find_session_for_tenant}

abbrev attended : Uuid → List Attendance → Bool
attended session rows = any (λ a. a.session_id == session) rows

-- The sessions from a date on that are completed or have attendance.
unfoldable pub history : Uuid → Day → Db → ℕ
history schedule from d =
    count
      (λ s.
        is_some_eq schedule s.schedule_id
        && leb from s.session_date
        && not s.deleted
        && (is_session_completed s.status || attended s.id d.attendances))
      d.sessions

unfoldable pub occupied : Uuid → Uuid → Db → ℕ
occupied tenant schedule d = count (λ e. seated schedule e && e.tenant_id == tenant) d.enrollments

-- The first of the queries only locks the sessions.
unfoldable pub validate_change : Uuid → Uuid → Day → ℕ → Bool → App (Unit {0})
validate_change tenant schedule effective capacity deleting = do
  now ← today_jakarta
  if ltb effective now then raise (usecase schedule_history_conflict) else do
    query (λ d. tt)
    past ← query (history schedule effective)
    if ltb 0 past then raise (usecase schedule_history_conflict) else do
      n ← query (occupied tenant schedule)
      if ltb capacity n || (deleting && ltb 0 n)
          then raise (usecase schedule_seats_conflict)
          else pure tt

-- validateReplacementDate
abbrev pub starts_after : Option Day → Day → Bool
starts_after none d = false
starts_after (some from) d = ltb d from

abbrev pub ended_before : Option Day → Day → Bool
ended_before none d = false
ended_before (some until) d = ltb until d

unfoldable pub validate_replacement_date : ClassSchedule → Day → App (Unit {0})
validate_replacement_date s effective =
    if starts_after s.valid_from effective || ended_before s.valid_until effective
    then raise (usecase invalid_effective_date)
    else pure tt

-- grpcclient.MembershipClient: whether the member is active in the tenant. No client is `none`.
abbrev pub Membership : Type 0
Membership = Option (Uuid → Uuid → App Bool)

abbrev pub membership_answer : Result Bool → App (Unit {0})
membership_answer (err _) = raise (usecase substitute_tutor_unavailable)
membership_answer (ok false) = raise (usecase substitute_tutor_not_eligible)
membership_answer (ok true) = pure tt

unfoldable pub check_tutor : Membership → Uuid → Uuid → App (Unit {0})
check_tutor none tenant tutor = raise (usecase substitute_tutor_unavailable)
check_tutor (some check_active_member) tenant tutor = do
  answered ← attempt (check_active_member tenant tutor)
  membership_answer answered

-- A missing row is answered with the error of the use case.
abbrev pub missing_as : UsecaseError → Error → Error
missing_as x e = if is_not_found e then usecase x else e

abbrev pub always : UsecaseError → Error → Error
always x e = usecase x

unfoldable pub get_schedule_for_tenant : Uuid → Uuid → App ClassSchedule
get_schedule_for_tenant tenant i =
    map_error (missing_as schedule_not_found) (lookup (find_schedule_for_tenant tenant i))

unfoldable pub get_session_for_tenant : Uuid → Uuid → App ClassSession
get_session_for_tenant tenant i =
    map_error (missing_as session_not_found) (lookup (find_session_for_tenant tenant i))
