-- ===== src/Enrollment/Rows.antt =====
-- The rows of `enrollments`, `classes` and `class_schedules`: the WHERE clauses of the repositories
-- and the writes under the unique indexes of the migrations. A query by primary key is the row with
-- that key, filtered by the rest of its WHERE clause.
use kelolakelas_academic_ser.App.{Db, Result, ok, err}
use kelolakelas_academic_ser.Domain.{Uuid, holds_seat, Enrollment, Class, ClassSchedule}
use kelolakelas_academic_ser.Errors.{
  Constraint, primary_key, idempotency_key_index, student_class_active, unique_violation,
}
use kelolakelas_academic_ser.Prelude.{
  ◌==◌, same_text, if◌then◌else◌, is_some_eq, is_some, count, any, by_id, replace, ℕ, String, Bool,
  false, not, ◌&&◌, Option, none, some, List, ◌∷◌,
}

abbrev pub enrollment_id : Enrollment → Uuid
enrollment_id e = e.id

abbrev pub class_id : Class → Uuid
class_id c = c.id

abbrev pub schedule_id : ClassSchedule → Uuid
schedule_id s = s.id

abbrev pub live_row : {A : Type 0} → (A → Bool) → Option A → Option A
live_row deleted none = none
live_row deleted (some a) = if deleted a then none else some a

-- First(&class, "id = ? AND deleted_at IS NULL")
unfoldable pub find_class : Uuid → Db → Option Class
find_class i d = live_row (λ c. c.deleted) (by_id class_id i d.classes)

-- First(&schedule, "id = ? AND deleted_at IS NULL")
unfoldable pub find_schedule : Uuid → Db → Option ClassSchedule
find_schedule i d = live_row (λ s. s.deleted) (by_id schedule_id i d.schedules)

-- First(&enrollment, "id = ?"), with GORM's soft-delete scope
unfoldable pub find_enrollment : Uuid → Db → Option Enrollment
find_enrollment i d = live_row (λ e. e.deleted) (by_id enrollment_id i d.enrollments)

-- WHERE schedule_id = ? AND status IN ('pending', 'active') AND deleted_at IS NULL
unfoldable pub seated : Uuid → Enrollment → Bool
seated s e = is_some_eq s e.schedule_id && holds_seat e.status && not e.deleted

-- The predicate of the partial unique index idx_student_class_active.
unfoldable pub live_in_class : Uuid → Uuid → Enrollment → Bool
live_in_class student class e =
    e.student_id == student && e.class_id == class && holds_seat e.status && not e.deleted

unfoldable pub seats : Uuid → Db → ℕ
seats s d = count (seated s) d.enrollments

-- Another row that idx_student_class_active sets against the row `e`, and one with its key.
unfoldable pub clashes : Enrollment → Enrollment → Bool
unfolding live_in_class
clashes e r =
    not (r.id == e.id)
    && (holds_seat e.status && not e.deleted)
    && live_in_class e.student_id e.class_id r

abbrev pub same_key : Option String → Option String → Bool
same_key none k = false
same_key (some j) none = false
same_key (some j) (some k) = same_text j k

unfoldable pub reuses_key : Enrollment → Enrollment → Bool
reuses_key e r = not (r.id == e.id) && same_key e.idempotency_key r.idempotency_key

-- The indexes on `enrollments` as one check of a row that is written.
unfoldable pub index_violation : Enrollment → List Enrollment → Option Constraint
index_violation e rows =
    if any (reuses_key e) rows
    then some idempotency_key_index
    else if any (clashes e) rows
    then some student_class_active
    else none

abbrev refuse_violation : Option Constraint → Db → Result Db
refuse_violation none d = ok d
refuse_violation (some c) d = err (unique_violation c)

-- INSERT INTO enrollments. New rows stand first; no query relies on the order.
unfoldable pub insert_enrollment : Enrollment → Db → Result Db
insert_enrollment e d =
    if is_some (by_id enrollment_id e.id d.enrollments)
    then err (unique_violation primary_key)
    else refuse_violation (index_violation e d.enrollments)
        (record d { enrollments = e ∷ d.enrollments })

-- db.Save(enrollment): GORM updates the row by its primary key, and inserts it if no row has it.
abbrev pub put_row : Enrollment → List Enrollment → Option Enrollment → List Enrollment
put_row e rows none = e ∷ rows
put_row e rows (some _) = replace enrollment_id e rows

unfoldable pub save_row : Enrollment → Db → Result Db
save_row e d =
    refuse_violation (index_violation e d.enrollments)
      (record d { enrollments = put_row e d.enrollments (by_id enrollment_id e.id d.enrollments) })
