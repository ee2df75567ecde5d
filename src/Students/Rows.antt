-- ===== src/Students/Rows.antt =====
-- internal/repository/student_repository.go, and the creation of a note by
-- internal/repository/student_note_repository.go.
use kelolakelas_academic_ser.App.{Db, Result, ok, err, App, pure, ◌>>◌, lookup, execute, map_error}
use kelolakelas_academic_ser.Domain.{Uuid, is_active, Enrollment, Student, StudentNote}
use kelolakelas_academic_ser.Enrollment.Checkout.{student_key, find_student, student_missing}
use kelolakelas_academic_ser.Errors.{primary_key, unique_violation}
use kelolakelas_academic_ser.Prelude.{
  ◌==◌, if◌then◌else◌, is_some, update_where, any, by_id, replace, Bool, true, not, ◌&&◌, Option,
  none, some, List, [], ◌∷◌,
}

unfoldable pub insert_student : Student → Db → Result Db
insert_student s d =
    if is_some (by_id student_key s.id d.students)
    then err (unique_violation primary_key)
    else ok (record d { students = s ∷ d.students })

abbrev pub put_student : Student → List Student → Option Student → List Student
put_student s rows none = s ∷ rows
put_student s rows (some _) = replace student_key s rows

-- db.Save(student)
unfoldable pub save_student : Student → Db → Result Db
save_student s d =
    ok (record d { students = put_student s d.students (by_id student_key s.id d.students) })

unfoldable pub delete_student_row : Uuid → Db → Result Db
delete_student_row i d = ok (record d {
  students =
      update_where (λ s. s.id == i && not s.deleted) (λ s. record s { deleted = true }) d.students;
})

abbrev pub note_key : StudentNote → Uuid
note_key n = n.id

unfoldable pub insert_note : StudentNote → Db → Result Db
insert_note n d =
    if is_some (by_id note_key n.id d.student_notes)
    then err (unique_violation primary_key)
    else ok (record d { student_notes = n ∷ d.student_notes })

unfoldable pub insert_notes : List StudentNote → App (Unit {0})
insert_notes [] = pure tt
insert_notes (n ∷ rest) = do execute (insert_note n); insert_notes rest

-- accessQuery: of the parent, and enrolled with the tenant.
abbrev pub of_parent : Option Uuid → Uuid → Bool
of_parent none i = true
of_parent (some parent) i = i == parent

abbrev pub enrolled_with : Option Uuid → Uuid → Db → Bool
enrolled_with none student d = true
enrolled_with (some tenant) student d =
    any (λ e. e.student_id == student && e.tenant_id == tenant && not e.deleted) d.enrollments

abbrev pub accessible : Option Uuid → Option Uuid → Db → Option Student → Option Student
accessible tenant parent d none = none
accessible tenant parent d (some s) =
    if of_parent parent s.parent_id && enrolled_with tenant s.id d then some s else none

unfoldable pub find_student_for_access : Uuid → Option Uuid → Option Uuid → Db → Option Student
find_student_for_access i tenant parent d = accessible tenant parent d (find_student i d)

-- GetByIDForAccess
unfoldable pub get_student_for_access : Option Uuid → Option Uuid → Uuid → App Student
get_student_for_access tenant parent i =
    map_error student_missing (lookup (find_student_for_access i tenant parent))

-- CountActiveEnrollments reads the table, with the rows that are soft-deleted.
abbrev pub active_enrollment_of : Uuid → Enrollment → Bool
active_enrollment_of i e = e.student_id == i && is_active e.status
