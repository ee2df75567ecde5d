-- ===== src/Attendance/Repository.antt =====
-- internal/repository/attendance_repository.go, and IsTutorForSession of session_repository.go. The
-- unique index of `attendances` is on the session and the enrollment.
pub mod Upsert
use kelolakelas_academic_ser.App.{
  Db, Result, ok, err, App, pure, raise, ◌>>=◌, ◌>>◌, query, lookup, execute, with_transaction,
  new_uuid, time_now,
}
use kelolakelas_academic_ser.Attendance.Bulk.{BulkAttendanceItem, enrollment_ids}
use kelolakelas_academic_ser.Domain.{Uuid, ClassSession, Attendance}
use kelolakelas_academic_ser.Enrollment.Rows.{enrollment_id}
use kelolakelas_academic_ser.Errors.{primary_key, session_enrollment, unique_violation, message}
use kelolakelas_academic_ser.Prelude.{
  leb, ◌==◌, if◌then◌else◌, select, first, update_where, any, by_id, Bool, false, ◌&&◌, ◌||◌,
  Option, none, some, List, [], ◌∷◌,
}
use kelolakelas_academic_ser.Schedule.Rows.{class_of_tenant, session_id}

abbrev pub of_session : Uuid → Uuid → Attendance → Bool
of_session session enrollment a = a.session_id == session && a.enrollment_id == enrollment

-- GetBySessionEnrollment: no row is no error.
unfoldable pub get_by_session_enrollment : Uuid → Uuid → App (Option Attendance)
get_by_session_enrollment session enrollment =
    query (λ d. first (of_session session enrollment) d.attendances)

-- db.Create(attendance)
unfoldable pub insert_attendance : Attendance → Db → Result Db
insert_attendance a d =
    if any (λ b. b.id == a.id) d.attendances
    then err (unique_violation primary_key)
    else if any (of_session a.session_id a.enrollment_id) d.attendances
    then err (unique_violation session_enrollment)
    else ok (record d { attendances = a ∷ d.attendances })

-- The JOIN with class_sessions and classes: deleted rows count too.
abbrev session_tenant : Uuid → Db → Option ClassSession → Bool
session_tenant tenant d none = false
session_tenant tenant d (some s) = class_of_tenant tenant s.class_id d

unfoldable pub attendance_of_tenant : Uuid → Db → Attendance → Bool
attendance_of_tenant tenant d a = session_tenant tenant d (by_id session_id a.session_id d.sessions)

-- GetByIDForTenant
unfoldable pub find_attendance : Uuid → Uuid → Db → Option Attendance
find_attendance tenant i d = first (λ a. a.id == i && attendance_of_tenant tenant d a) d.attendances

-- db.Save(attendance), of a row that is in the table
unfoldable pub save_attendance : Attendance → Db → Result Db
save_attendance a d =
    ok (record d { attendances = update_where (λ r. r.id == a.id) (λ _. a) d.attendances })

-- IsTutorForSession, on the table itself
abbrev pub tutored_by : Uuid → Uuid → Db → Option ClassSession → Bool
tutored_by tenant member d none = false
tutored_by tenant member d (some s) = s.tutor_id == member && class_of_tenant tenant s.class_id d

unfoldable pub is_tutor_for_session : Uuid → Uuid → Uuid → App Bool
is_tutor_for_session tenant session member =
    query (λ d. tutored_by tenant member d (by_id session_id session d.sessions))

-- INSERT ... ON CONFLICT (session_id, enrollment_id) DO UPDATE, for one item
unfoldable pub upsert_row : Attendance → List Attendance → List Attendance
upsert_row a [] = a ∷ []
upsert_row a (r ∷ rows) =
    let rest = upsert_row a rows in
    if of_session a.session_id a.enrollment_id r
    then record r { status = a.status; date = a.date; updated_at = a.updated_at } ∷ rows
    else r ∷ rest

unfoldable pub upsert_rows : List Attendance → List Attendance → List Attendance
upsert_rows [] rows = rows
upsert_rows (a ∷ rest) rows = upsert_rows rest (upsert_row a rows)

-- The rows of the VALUES list, each with a new id.
unfoldable pub value_rows : ClassSession → List BulkAttendanceItem → App (List Attendance)
value_rows session [] = pure []
value_rows session (item ∷ items) = do
  i ← new_uuid
  now ← time_now
  let row : Attendance = record {
    id = i;
    enrollment_id = item.enrollment_id;
    session_id = session.id;
    date = session.session_date;
    status = item.status;
    updated_at = now;
  }
  rest ← value_rows session items
  pure (row ∷ rest)

-- Postgres refuses a statement that would update a row twice.
unfoldable pub repeats : List Attendance → Bool
repeats [] = false
repeats (a ∷ rest) = any (of_session a.session_id a.enrollment_id) rest || repeats rest

unfoldable pub upsert : List Attendance → Db → Result Db
upsert values d =
    if repeats values
    then err (message "ON CONFLICT DO UPDATE command cannot affect row a second time")
    else ok (record d { attendances = upsert_rows values d.attendances })

-- The guard on the session: its row, deleted or not, if it is of the tenant.
abbrev guarded : Uuid → Db → Option ClassSession → Option ClassSession
guarded tenant d none = none
guarded tenant d (some s) = if class_of_tenant tenant s.class_id d then some s else none

unfoldable pub find_guarded_session : Uuid → Uuid → Db → Option ClassSession
find_guarded_session tenant i d = guarded tenant d (by_id session_id i d.sessions)

-- ORDER BY enrollment_id
unfoldable pub insert_ordered : Attendance → List Attendance → List Attendance
insert_ordered a [] = a ∷ []
insert_ordered a (r ∷ rows) =
    let rest = insert_ordered a rows in
    if leb a.enrollment_id r.enrollment_id then a ∷ r ∷ rows else r ∷ rest

unfoldable pub order_by_enrollment : List Attendance → List Attendance
order_by_enrollment [] = []
order_by_enrollment (a ∷ rows) = insert_ordered a (order_by_enrollment rows)

unfoldable pub written_rows : Uuid → List Uuid → Db → List Attendance
written_rows session ids d =
    order_by_enrollment
      (select (λ a. a.session_id == session && any (λ i. i == a.enrollment_id) ids) d.attendances)

unfoldable pub upsert_items : Uuid → Uuid → List BulkAttendanceItem → App (List Attendance)
upsert_items tenant session items = do
  guard ← lookup (find_guarded_session tenant session)
  values ← value_rows guard items
  execute (upsert values)
  query (written_rows session (enrollment_ids items))

unfoldable pub upsert_bulk : Uuid → Uuid → List BulkAttendanceItem → App (List Attendance)
upsert_bulk tenant session [] = raise (message "no attendance items")
upsert_bulk tenant session (item ∷ items) =
    with_transaction (upsert_items tenant session (item ∷ items))
