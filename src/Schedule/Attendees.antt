-- ===== src/Schedule/Attendees.antt =====
-- GetSessionAttendees and GetSessionAttendeesForParent of internal/usecase/schedule_usecase.go, and
-- the parent's ownership predicate of internal/repository/session_repository.go.
pub mod Privacy
use kelolakelas_academic_ser.App.{Db, App, pure, raise, ◌>>=◌, query, lookup, map_error}
use kelolakelas_academic_ser.Domain.{Uuid, holds_seat, Enrollment, is_rescheduled, ClassSession}
use kelolakelas_academic_ser.Enrollment.Repository.{
  child_of, get_by_id_for_access, get_active_by_schedule_id, get_active_by_schedule_id_for_parent,
}
use kelolakelas_academic_ser.Enrollment.Rows.{class_id}
use kelolakelas_academic_ser.Errors.{
  schedule_not_found, session_not_found, enrollment_not_found, usecase,
}
use kelolakelas_academic_ser.Prelude.{
  ◌==◌, if◌then◌else◌, is_some_eq, is_some, select, any, by_id, Bool, false, not, ◌&&◌, ◌||◌,
  Option, none, some, List, [], ◌∷◌,
}
use kelolakelas_academic_ser.Schedule.Guard.{missing_as, always, get_session_for_tenant}
use kelolakelas_academic_ser.Schedule.Rows.{class_of_tenant, find_session, find_session_for_tenant}

-- A live enrollment of a child of the parent. The join with `students` takes a deleted student too.
unfoldable pub live_for_parent : Uuid → Db → Enrollment → Bool
live_for_parent parent d e = child_of parent e.student_id d && holds_seat e.status && not e.deleted

abbrev owns_enrollment : Uuid → Db → Option Uuid → Bool
owns_enrollment parent d none = false
owns_enrollment parent d (some i) = any (λ e. e.id == i && live_for_parent parent d e) d.enrollments

abbrev owns_seat : Uuid → Db → Option Uuid → Bool
owns_seat parent d none = false
owns_seat parent d (some s) =
    any (λ e. is_some_eq s e.schedule_id && live_for_parent parent d e) d.enrollments

-- The session is of an enrollment, or of a schedule, of the parent.
unfoldable pub attended_by_child : Uuid → Db → ClassSession → Bool
attended_by_child parent d s =
    owns_enrollment parent d s.enrollment_id || owns_seat parent d s.schedule_id

abbrev origin_owned : Uuid → Db → Option Uuid → Bool
origin_owned parent d none = false
origin_owned parent d (some i) = any (λ o. o.id == i && attended_by_child parent d o) d.sessions

-- parentSessionOwnership: also a replacement, without a schedule, of such a session.
unfoldable pub owned_by_parent : Uuid → Db → ClassSession → Bool
owned_by_parent parent d s =
    attended_by_child parent d s
    || (not (is_some s.schedule_id) && origin_owned parent d s.rescheduled_from_session_id)

abbrev session_of_parent : Uuid → Db → Option ClassSession → Option ClassSession
session_of_parent parent d none = none
session_of_parent parent d (some s) =
    if is_some (by_id class_id s.class_id d.classes) && owned_by_parent parent d s
    then some s
    else none

-- GetSessionForParent
unfoldable pub find_session_for_parent : Uuid → Uuid → Db → Option ClassSession
find_session_for_parent parent i d = session_of_parent parent d (find_session i d)

unfoldable pub get_session_for_parent : Uuid → Uuid → App ClassSession
get_session_for_parent parent i =
    map_error (missing_as session_not_found) (lookup (find_session_for_parent parent i))

-- ListSessionsForAttendanceCohort, for the status 'rescheduled'
unfoldable pub rescheduled_in_class : Uuid → Uuid → Db → List ClassSession
rescheduled_in_class tenant class d =
    select
      (λ s.
        s.class_id == class
        && is_rescheduled s.status
        && not s.deleted
        && class_of_tenant tenant s.class_id d)
      d.sessions

abbrev pub require_schedule : Option Uuid → App Uuid
require_schedule none = raise (usecase schedule_not_found)
require_schedule (some s) = pure s

abbrev only_origin : List ClassSession → App Uuid
only_origin [] = raise (usecase schedule_not_found)
only_origin (s ∷ []) = require_schedule s.schedule_id
only_origin (s ∷ _ ∷ _) = raise (usecase schedule_not_found)

-- The schedule that a session without one stands in for.
unfoldable pub origin_schedule : Uuid → ClassSession → Option Uuid → App Uuid
origin_schedule tenant session (some i) = do
  origin ← map_error (always session_not_found) (lookup (find_session_for_tenant tenant i))
  require_schedule origin.schedule_id
origin_schedule tenant session none = do
  origins ← query (rescheduled_in_class tenant session.class_id)
  only_origin origins

unfoldable pub cohort_schedule : Uuid → ClassSession → Option Uuid → App Uuid
cohort_schedule tenant session (some s) = pure s
cohort_schedule tenant session none =
    origin_schedule tenant session session.rescheduled_from_session_id

unfoldable pub attendees_of : Uuid → ClassSession → Option Uuid → App (List Enrollment)
attendees_of tenant session (some i) = do
  e ← map_error (always enrollment_not_found) (get_by_id_for_access (some tenant) none i)
  pure (e ∷ [])
attendees_of tenant session none = do
  s ← cohort_schedule tenant session session.schedule_id
  get_active_by_schedule_id tenant s

unfoldable pub get_session_attendees : Uuid → Uuid → App (List Enrollment)
get_session_attendees tenant i = do
  session ← get_session_for_tenant tenant i
  attendees_of tenant session session.enrollment_id

-- The same for a parent, without the lookup by class.
unfoldable pub origin_schedule_for_parent : Uuid → Option Uuid → App Uuid
origin_schedule_for_parent parent none = raise (usecase schedule_not_found)
origin_schedule_for_parent parent (some i) = do
  origin ← map_error (always session_not_found) (lookup (find_session_for_parent parent i))
  require_schedule origin.schedule_id

unfoldable pub cohort_schedule_for_parent : Uuid → ClassSession → Option Uuid → App Uuid
cohort_schedule_for_parent parent session (some s) = pure s
cohort_schedule_for_parent parent session none =
    origin_schedule_for_parent parent session.rescheduled_from_session_id

unfoldable pub attendees_for_parent : Uuid → ClassSession → Option Uuid → App (List Enrollment)
attendees_for_parent parent session (some i) = do
  e ← map_error (always enrollment_not_found) (get_by_id_for_access none (some parent) i)
  pure (e ∷ [])
attendees_for_parent parent session none = do
  s ← cohort_schedule_for_parent parent session session.schedule_id
  get_active_by_schedule_id_for_parent parent s

unfoldable pub get_session_attendees_for_parent : Uuid → Uuid → App (List Enrollment)
get_session_attendees_for_parent parent i = do
  session ← get_session_for_parent parent i
  attendees_for_parent parent session session.enrollment_id
