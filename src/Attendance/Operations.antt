-- ===== src/Attendance/Operations.antt =====
-- The writes and reads of internal/usecase/attendance_usecase.go that address a session by its id.
pub mod Guards
use kelolakelas_academic_ser.App.{
  App, pure, raise, ◌>>=◌, ◌>>◌, lookup, execute, map_error, new_uuid, time_now,
}
use kelolakelas_academic_ser.Attendance.Bulk.{BulkAttendanceItem, dedupe_bulk_items, enrollment_ids}
use kelolakelas_academic_ser.Attendance.Cohort.{
  find_session_for_attendance, resolve_session_cohort, member, check_cohort,
}
use kelolakelas_academic_ser.Attendance.Repository.{
  get_by_session_enrollment, insert_attendance, find_attendance, save_attendance,
  is_tutor_for_session, upsert_bulk,
}
use kelolakelas_academic_ser.Domain.{Uuid, Timestamp, ClassSession, Attendance}
use kelolakelas_academic_ser.Enrollment.Repository.{get_by_id_for_access}
use kelolakelas_academic_ser.Enrollment.Rows.{enrollment_id}
use kelolakelas_academic_ser.Errors.{
  attendance_not_found, attendance_duplicate, attendance_forbidden, attendance_session_not_found,
  Error, domain, is_not_found,
}
use kelolakelas_academic_ser.Prelude.{
  if◌then◌else◌, is_some, String, Bool, false, Option, none, some, List, [], ◌∷◌,
}
use kelolakelas_academic_ser.Schedule.Attendees.{find_session_for_parent}
use kelolakelas_academic_ser.Schedule.Guard.{missing_as}
use kelolakelas_academic_ser.Schedule.Rows.{session_id}

-- errors.Is(err, gorm.ErrDuplicatedKey): pkg/database/db.go opens GORM without TranslateError, so a
-- write that violates an index returns the driver's own error, which is another one.
abbrev pub is_duplicated_key : Error → Bool
is_duplicated_key _ = false

abbrev pub duplicate_as_attendance : Error → Error
duplicate_as_attendance e = if is_duplicated_key e then domain attendance_duplicate else e

unfoldable pub require_tutor : Uuid → Uuid → Uuid → App (Unit {0})
require_tutor tenant session member = do
  assigned ← is_tutor_for_session tenant session member
  if assigned then pure tt else raise (domain attendance_forbidden)

-- A new row; GORM sets UpdatedAt where it creates one.
abbrev pub attendance_row : Uuid → Timestamp → Uuid → ClassSession → String → Attendance
attendance_row i now enrollment s status = record {
  id = i;
  enrollment_id = enrollment;
  session_id = s.id;
  date = s.session_date;
  status = status;
  updated_at = now;
}

unfoldable pub create_for_session : Uuid → Uuid → Uuid → Uuid → String → App Attendance
create_for_session tenant member enrollment i status = do
  resolved ← resolve_session_cohort tenant i
  let session = resolved.0
  require_tutor tenant session.id member
  check_cohort tenant session.enrollment_id resolved.1 (enrollment ∷ [])
  existing ← get_by_session_enrollment session.id enrollment
  if is_some existing then raise (domain attendance_duplicate) else do
    new ← new_uuid
    now ← time_now
    let item = attendance_row new now enrollment session status
    map_error duplicate_as_attendance (execute (insert_attendance item))
    pure item

pub record BulkAttendanceRequest : Type 0 where
  pub session_id : Uuid
  pub items : List BulkAttendanceItem

unfoldable pub create_bulk : Uuid → Uuid → BulkAttendanceRequest → App (Uuid × List Attendance)
create_bulk tenant member req = do
  resolved ← resolve_session_cohort tenant req.session_id
  let session = resolved.0
  require_tutor tenant session.id member
  let deduped = dedupe_bulk_items req.items
  check_cohort tenant session.enrollment_id resolved.1 (enrollment_ids deduped)
  rows ← map_error (missing_as attendance_session_not_found) (upsert_bulk tenant session.id deduped)
  pure (session.id, rows)

abbrev found_attendance : Option Attendance → App Attendance
found_attendance none = raise (domain attendance_not_found)
found_attendance (some a) = pure a

unfoldable pub get_by_session : Uuid → Uuid → Uuid → App Attendance
get_by_session tenant session enrollment = do
  find_session_for_attendance tenant session
  item ← get_by_session_enrollment session enrollment
  found_attendance item

abbrev missing_attendance : Error → Error
missing_attendance e = if is_not_found e then domain attendance_not_found else e

unfoldable pub get_by_session_for_parent : Uuid → Uuid → Uuid → App Attendance
get_by_session_for_parent parent session enrollment = do
  map_error (missing_as attendance_session_not_found)
      (lookup (find_session_for_parent parent session))
  map_error missing_attendance (get_by_id_for_access none (some parent) enrollment)
  item ← get_by_session_enrollment session enrollment
  found_attendance item

unfoldable pub update_attendance : Uuid → Uuid → Uuid → String → App Attendance
update_attendance tenant member i status = do
  item ← lookup (find_attendance tenant i)
  require_tutor tenant item.session_id member
  now ← time_now
  let updated = record item { status = status; updated_at = now }
  execute (save_attendance updated)
  pure updated
