-- ===== src/Attendance/Cohort.antt =====
-- resolveSessionCohort and checkCohort of internal/usecase/attendance_usecase.go.
use kelolakelas_academic_ser.App.{App, pure, raise, ◌>>=◌, query, lookup, map_error}
use kelolakelas_academic_ser.Domain.{Uuid, is_suspended, Enrollment, is_cancelled, ClassSession}
use kelolakelas_academic_ser.Enrollment.Repository.{get_by_id_for_access, get_active_by_schedule_id}
use kelolakelas_academic_ser.Errors.{
  attendance_session_not_found, attendance_session_cancelled, attendance_enrollment_mismatch, Error,
  usecase,
}
use kelolakelas_academic_ser.Prelude.{
  ◌==◌, if◌then◌else◌, any, all, Bool, not, Option, none, some, List, [], ◌∷◌,
}
use kelolakelas_academic_ser.Schedule.Attendees.{rescheduled_in_class}
use kelolakelas_academic_ser.Schedule.Guard.{missing_as}
use kelolakelas_academic_ser.Schedule.Rows.{find_session_for_tenant}

-- The schedule whose enrollments attend the session; none for a private session.
abbrev pub known_schedule : Option Uuid → App (Option Uuid)
known_schedule none = raise (usecase attendance_session_not_found)
known_schedule (some s) = pure (some s)

abbrev pub only_rescheduled : List ClassSession → App (Option Uuid)
only_rescheduled [] = raise (usecase attendance_session_not_found)
only_rescheduled (s ∷ []) = known_schedule s.schedule_id
only_rescheduled (s ∷ _ ∷ _) = raise (usecase attendance_session_not_found)

unfoldable pub find_session_for_attendance : Uuid → Uuid → App ClassSession
find_session_for_attendance tenant i =
    map_error (missing_as attendance_session_not_found) (lookup (find_session_for_tenant tenant i))

unfoldable pub replaced_schedule : Uuid → ClassSession → Option Uuid → App (Option Uuid)
replaced_schedule tenant session (some i) = do
  origin ← find_session_for_attendance tenant i
  known_schedule origin.schedule_id
replaced_schedule tenant session none = do
  origins ← query (rescheduled_in_class tenant session.class_id)
  only_rescheduled origins

unfoldable pub cohort_of : Uuid → ClassSession → Option Uuid → Option Uuid → App (Option Uuid)
cohort_of tenant session (some e) schedule = pure none
cohort_of tenant session none (some s) = pure (some s)
cohort_of tenant session none none =
    replaced_schedule tenant session session.rescheduled_from_session_id

unfoldable pub resolve_session_cohort : Uuid → Uuid → App (ClassSession × Option Uuid)
resolve_session_cohort tenant i = do
  session ← find_session_for_attendance tenant i
  if is_cancelled session.status then raise (usecase attendance_session_cancelled) else do
    cohort ← cohort_of tenant session session.enrollment_id session.schedule_id
    pure (session, cohort)

abbrev mismatch : Error
mismatch = usecase attendance_enrollment_mismatch

abbrev pub member : List Enrollment → Uuid → Bool
member cohort i = any (λ e. e.id == i) cohort

unfoldable pub check_cohort : Uuid → Option Uuid → Option Uuid → List Uuid → App (Unit {0})
check_cohort tenant (some e) cohort ids = if not (all (λ i. i == e) ids) then raise mismatch else do
  found ←
      map_error (missing_as attendance_enrollment_mismatch)
        (get_by_id_for_access (some tenant) none e)
  if is_suspended found.status then raise mismatch else pure tt
check_cohort tenant none none ids = raise (usecase attendance_session_not_found)
check_cohort tenant none (some s) ids = do
  cohort ← get_active_by_schedule_id tenant s
  if all (member cohort) ids then pure tt else raise mismatch
