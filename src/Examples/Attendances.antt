-- ===== src/Examples/Attendances.antt =====
-- Attendance: the properties of the writes on the academy.
use kelolakelas_academic_ser.Attendance.Bulk.{BulkAttendanceItem, dedupe_bulk_items}
use kelolakelas_academic_ser.Attendance.Bulk.Dedupe.{
  occurrences, last_status, status_of, dedupe_bulk_items_lem,
}
use kelolakelas_academic_ser.Attendance.Operations.{attendance_row, create_for_session}
use kelolakelas_academic_ser.Attendance.Operations.Guards.{Recorded, create_for_session-Recorded}
use kelolakelas_academic_ser.Attendance.Repository.{of_session, upsert_rows}
use kelolakelas_academic_ser.Attendance.Repository.Upsert.{recorded, last_written, upsert_rows_lem}
use kelolakelas_academic_ser.Domain.{Attendance}
use kelolakelas_academic_ser.Examples.{tenant, teacher, lesson, academy, monday_world}
use kelolakelas_academic_ser.Prelude.{count, ◌≤◌, ◌≡◌, none, [], ◌∷◌, arith}

create_for_session-Recorded_example :
    let (r, w') = create_for_session tenant teacher 40 50 "present" monday_world in
    Recorded tenant teacher 40 50 academy r w'.db
create_for_session-Recorded_example =
    create_for_session-Recorded tenant teacher 40 50 "present" monday_world

abbrev late_item : BulkAttendanceItem
late_item = record { enrollment_id = 40; status = "late" }

abbrev present_item : BulkAttendanceItem
present_item = record { enrollment_id = 40; status = "present" }

dedupe_bulk_items_lem_example :
    (occurrences 40 (dedupe_bulk_items (late_item ∷ present_item ∷ [])) ≤ 1)
    × (status_of 40 (dedupe_bulk_items (late_item ∷ present_item ∷ []))
        ≡ last_status 40 none (late_item ∷ present_item ∷ []))
dedupe_bulk_items_lem_example = dedupe_bulk_items_lem 40 (late_item ∷ present_item ∷ [])

abbrev late_row : Attendance
late_row = attendance_row 70 0 40 lesson "late"

abbrev present_row : Attendance
present_row = attendance_row 71 0 40 lesson "present"

upsert_rows_lem_example :
    (count (of_session 50 40) (upsert_rows (present_row ∷ []) (late_row ∷ [])) ≤ 1)
    × (recorded 50 40 (upsert_rows (present_row ∷ []) (late_row ∷ []))
        ≡ last_written 50 40 (recorded 50 40 (late_row ∷ [])) (present_row ∷ []))
upsert_rows_lem_example =
    upsert_rows_lem 50 40 (present_row ∷ []) (late_row ∷ []) (unfold count in omega arith)
