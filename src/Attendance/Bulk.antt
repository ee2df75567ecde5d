-- ===== src/Attendance/Bulk.antt =====
-- dedupeBulkItems of internal/usecase/attendance_usecase.go.
pub mod Dedupe
use kelolakelas_academic_ser.Domain.{Uuid}
use kelolakelas_academic_ser.Enrollment.Rows.{enrollment_id}
use kelolakelas_academic_ser.Prelude.{◌==◌, if◌then◌else◌, String, List, [], ◌∷◌}

pub record BulkAttendanceItem : Type 0 where
  pub enrollment_id : Uuid
  pub status : String

-- One step of the loop: an item of an enrollment that was seen takes its place, and any other item
-- goes to the end. The map of positions is the search for the place.
unfoldable pub place : BulkAttendanceItem → List BulkAttendanceItem → List BulkAttendanceItem
place item [] = item ∷ []
place item (o ∷ out) =
    let rest = place item out in
    if o.enrollment_id == item.enrollment_id then item ∷ out else o ∷ rest

unfoldable pub place_all :
    List BulkAttendanceItem → List BulkAttendanceItem → List BulkAttendanceItem
place_all [] out = out
place_all (item ∷ items) out = place_all items (place item out)

unfoldable pub dedupe_bulk_items : List BulkAttendanceItem → List BulkAttendanceItem
unfolding place_all
dedupe_bulk_items items = place_all items []

unfoldable pub enrollment_ids : List BulkAttendanceItem → List Uuid
enrollment_ids [] = []
enrollment_ids (item ∷ items) = item.enrollment_id ∷ enrollment_ids items
