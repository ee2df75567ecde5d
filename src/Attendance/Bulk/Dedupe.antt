-- ===== src/Attendance/Bulk/Dedupe.antt =====
-- What dedupeBulkItems keeps.
use kelolakelas_academic_ser.Attendance.Bulk.{
  BulkAttendanceItem, place, place_all, dedupe_bulk_items,
}
use kelolakelas_academic_ser.Domain.{Uuid}
use kelolakelas_academic_ser.Prelude.{
  ◌==◌, if◌then◌else◌, count, ℕ, ◌≤◌, String, ◌≡◌, refl, ap, ◌∙◌, Bool, ◌&&◌, Option, none, some,
  List, [], ◌∷◌, arith,
}

-- The number of the items of an enrollment.
abbrev pub of_enrollment : Uuid → BulkAttendanceItem → Bool
of_enrollment i item = item.enrollment_id == i

abbrev pub occurrences : Uuid → List BulkAttendanceItem → ℕ
occurrences i items = count (of_enrollment i) items

-- The status that the last item of an enrollment gives, or the given one.
unfoldable pub last_status : Uuid → Option String → List BulkAttendanceItem → Option String
last_status i s [] = s
last_status i s (item ∷ items) =
    last_status i (if item.enrollment_id == i then some item.status else s) items

-- The status that the first item of an enrollment has.
unfoldable pub status_of : Uuid → List BulkAttendanceItem → Option String
status_of i [] = none
status_of i (item ∷ items) =
    let rest = status_of i items in if item.enrollment_id == i then some item.status else rest

-- An item is added only if its enrollment has none yet.
occurrences-place :
    (i : Uuid) (item : BulkAttendanceItem) (out : List BulkAttendanceItem)
    → occurrences i (place item out)
      ≡ (if item.enrollment_id == i && occurrences i out == 0 then 1 else occurrences i out)
unfolding place count
occurrences-place i item [] = ground arith
occurrences-place i item (o ∷ out) = ground (arith, occurrences-place i item out)

occurrences-place_all :
    (i : Uuid) (items out : List BulkAttendanceItem)
    → occurrences i out ≤ 1
    → occurrences i (place_all items out) ≤ 1
unfolding place_all
occurrences-place_all i [] out h = h
occurrences-place_all i (item ∷ items) out h =
    occurrences-place_all i items (place item out) (ground (arith, occurrences-place i item out))

status_of-place :
    (i : Uuid) (item : BulkAttendanceItem) (out : List BulkAttendanceItem)
    → status_of i (place item out)
      ≡ (if item.enrollment_id == i then some item.status else status_of i out)
unfolding place status_of
status_of-place i item [] = ground arith
status_of-place i item (o ∷ out) = ground (arith, status_of-place i item out)

status_of-place_all :
    (i : Uuid) (items out : List BulkAttendanceItem)
    → status_of i (place_all items out) ≡ last_status i (status_of i out) items
unfolding place_all last_status
status_of-place_all i [] out = refl
status_of-place_all i (item ∷ items) out =
    status_of-place_all i items (place item out)
    ∙ ap (λ s. last_status i s items) (status_of-place i item out)

-- The deduplicated items hold every enrollment at most once, with the status that the last item of
-- the request gives it, and hold no other enrollment.
pub dedupe_bulk_items_lem :
    (i : Uuid) (items : List BulkAttendanceItem)
    → (occurrences i (dedupe_bulk_items items) ≤ 1)
      × (status_of i (dedupe_bulk_items items) ≡ last_status i none items)
unfolding dedupe_bulk_items count status_of
dedupe_bulk_items_lem i items =
    (occurrences-place_all i items [] (omega arith), status_of-place_all i items [])
