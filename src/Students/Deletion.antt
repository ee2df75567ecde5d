-- ===== src/Students/Deletion.antt =====
-- What the deletion of a student leaves.
use kelolakelas_academic_ser.App.{Db, World, ok, err}
use kelolakelas_academic_ser.App.Run.{
  Post, Run, Run-raise, Run-if, Run-query, Run-lookup_last, Run-execute_last, Run-map_error-then,
}
use kelolakelas_academic_ser.Domain.{Uuid, Student}
use kelolakelas_academic_ser.Enrollment.Checkout.{student_key, find_student}
use kelolakelas_academic_ser.Enrollment.Rows.{live_row}
use kelolakelas_academic_ser.Prelude.{
  ltb, ◌==◌, is_some, count, update_where, by_id, ◌≡◌, refl, true, false, not, ◌&&◌, Option, none,
  some, List, [], ◌∷◌, arith,
}
use kelolakelas_academic_ser.Students.Operations.{delete_student}
use kelolakelas_academic_ser.Students.Rows.{
  delete_student_row, find_student_for_access, get_student_for_access, active_enrollment_of,
}

-- The student was one that the caller may see; it is gone, it has no active enrollment, and
-- every other student is as before. A refusal leaves the database as it was.
abbrev pub Removed : Option Uuid → Option Uuid → Uuid → Db → Post (Unit {0})
Removed tenant parent i before (ok _) d =
    (is_some (find_student_for_access i tenant parent before) ≡ true)
    × (find_student i d ≡ none)
    × (count (active_enrollment_of i) d.enrollments ≡ 0)
    × ((j : Uuid)
        → (j == i) ≡ false
        → by_id student_key j d.students ≡ by_id student_key j before.students)
Removed tenant parent i before (err x) d = d ≡ before

abbrev pub as_deleted : Uuid → List Student → List Student
as_deleted i rows =
    update_where (λ s. s.id == i && not s.deleted) (λ s. record s { deleted = true }) rows

by_id-deleted :
    (i : Uuid) (rows : List Student)
    → live_row (λ s. s.deleted) (by_id student_key i (as_deleted i rows)) ≡ none
unfolding by_id update_where
by_id-deleted i [] = refl
by_id-deleted i (s ∷ rows) = ground (arith, by_id-deleted i rows)

by_id-others :
    (i j : Uuid) (rows : List Student)
    → (j == i) ≡ false
    → by_id student_key j (as_deleted i rows) ≡ by_id student_key j rows
unfolding by_id update_where
by_id-others i j [] other = refl
by_id-others i j (s ∷ rows) other = ground (arith, by_id-others i j rows)

row_removed :
    (tenant parent : Option Uuid) (i : Uuid) (d d' : Db) (s : Student)
    → find_student_for_access i tenant parent d ≡ some s
    → count (active_enrollment_of i) d.enrollments ≡ 0
    → delete_student_row i d ≡ ok d'
    → Removed tenant parent i d (ok tt) d'
unfolding find_student
row_removed tenant parent i d d' s found idle h =
    rw (effect h) (
      rw found refl,
      by_id-deleted i d.students,
      idle,
      λ j other. by_id-others i j d.students other,
    )
  where
    effect : delete_student_row i d ≡ ok d' → d' ≡ record d { students = as_deleted i d.students }
    effect k = unfold delete_student_row in ground arith

delete-Removed :
    (tenant parent : Option Uuid) (i : Uuid) (d : Db)
    → Run false d (delete_student tenant parent i) (Removed tenant parent i d)
unfolding delete_student get_student_for_access
delete-Removed tenant parent i d = Run-map_error-then _ _ _ (
    Run-lookup_last _ (λ _. refl) (λ _. refl)
      λ s found.
        Run-query _ _ (λ _. refl)
          (Run-if (ltb 0 (count (active_enrollment_of i) d.enrollments)) _ _ (λ _. Run-raise _ refl)
            λ idle.
              Run-execute_last _ (λ _. refl) (λ x _. refl)
                λ d' h. row_removed tenant parent i d d' s found (ground (arith, idle)) h))

-- A deletion that succeeds was of a student that the caller may see, leaves no such student and no
-- active enrollment of it, and every other student as it was. A deletion that is refused or fails
-- leaves the database as it was, whichever call fails.
pub delete_student-Removed :
    (tenant parent : Option Uuid) (i : Uuid) (w : World)
    → let (r, w') = delete_student tenant parent i w in Removed tenant parent i w.db r w'.db
delete_student-Removed tenant parent i w =
    ((delete-Removed tenant parent i w.db).at w.env (λ r. cc)).0
