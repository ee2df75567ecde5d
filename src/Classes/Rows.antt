-- ===== src/Classes/Rows.antt =====
-- internal/repository/class_repository.go, category_repository.go and class_teacher_repository.go,
-- CategoryForCreation of class_creation_store.go, and the slot limit of internal/domain/class.go.
-- GORM leaves soft-deleted rows out.
use kelolakelas_academic_ser.App.{
  Db, Result, ok, err, App, pure, raise, ◌>>=◌, ◌>>◌, statement, lookup, execute,
}
use kelolakelas_academic_ser.Domain.{
  Uuid, Day, is_active, Enrollment, ClassType, private, group, is_private, Class, Category,
  ClassTeacher, ℤ, pos, negsuc, cancelled, is_scheduled,
}
use kelolakelas_academic_ser.Enrollment.Rows.{class_id, live_row, find_class}
use kelolakelas_academic_ser.Errors.{primary_key, record_not_found, unique_violation}
use kelolakelas_academic_ser.Prelude.{
  ltb, leb, ◌==◌, if◌then◌else◌, is_some, count, select, first, update_where, any, by_id, ℕ, Bool,
  true, not, ◌&&◌, ◌||◌, Option, none, some, List, [], ◌∷◌,
}
use kelolakelas_academic_ser.Schedule.Rows.{class_of_tenant}

abbrev pub category_key : Category → Uuid
category_key c = c.id

unfoldable pub find_category : Uuid → Db → Option Category
find_category i d = live_row (λ c. c.deleted) (by_id category_key i d.categories)

unfoldable pub insert_category : Category → Db → Result Db
insert_category c d =
    if is_some (by_id category_key c.id d.categories)
    then err (unique_violation primary_key)
    else ok (record d { categories = c ∷ d.categories })

abbrev pub tenant_category : Uuid → Uuid → Category → Bool
tenant_category tenant i c = c.id == i && c.tenant_id == tenant && not c.deleted

abbrev pub with_category_columns : Category → Category → Category
with_category_columns c row = record row { name = c.name; description = c.description }

-- UpdateByTenant
unfoldable pub update_category_row : Category → App (Unit {0})
update_category_row c = do
  affected ← statement λ d. ok (
    count (tenant_category c.tenant_id c.id) d.categories,
    record d {
      categories =
          update_where (tenant_category c.tenant_id c.id) (with_category_columns c) d.categories;
    },
  )
  if affected == 0 then raise record_not_found else pure tt

-- CountActiveClasses: the classes of the category that are not deleted.
unfoldable pub classes_of : Uuid → Db → ℕ
classes_of i d = count (λ c. c.category_id == i && not c.deleted) d.classes

unfoldable pub delete_category_row : Uuid → Uuid → Db → Result Db
delete_category_row tenant i d = ok (record d {
  categories =
      update_where (tenant_category tenant i) (λ c. record c { deleted = true }) d.categories;
})

unfoldable pub insert_class : Class → Db → Result Db
insert_class c d =
    if is_some (by_id class_id c.id d.classes)
    then err (unique_violation primary_key)
    else ok (record d { classes = c ∷ d.classes })

abbrev pub tenant_class : Uuid → Uuid → Class → Bool
tenant_class tenant i c = c.id == i && c.tenant_id == tenant && not c.deleted

abbrev pub with_class_columns : Class → Class → Class
with_class_columns c row = record row {
  category_id = c.category_id;
  name = c.name;
  description = c.description;
  type = c.type;
  price = c.price;
  private_slot_limit = c.private_slot_limit;
  is_published = c.is_published;
  enrollment_status = c.enrollment_status;
}

unfoldable pub update_classes : (Class → Bool) → (Class → Class) → App ℕ
update_classes p f =
    statement λ d. ok (count p d.classes, record d { classes = update_where p f d.classes })

-- UpdateByTenant
unfoldable pub update_class_row : Class → App (Unit {0})
update_class_row c = do
  affected ← update_classes (tenant_class c.tenant_id c.id) (with_class_columns c)
  if affected == 0 then raise record_not_found else pure tt

-- UpdatePublicationStatus
unfoldable pub update_publication_status : Uuid → Uuid → Bool → App Class
update_publication_status i tenant published = do
  affected ← update_classes (tenant_class tenant i) (λ c. record c { is_published = published })
  if affected == 0 then raise record_not_found else lookup (find_class i)

-- DeleteByTenant
unfoldable pub delete_class_row : Uuid → Uuid → Db → Result Db
delete_class_row tenant i d = ok (record d {
  classes = update_where (tenant_class tenant i) (λ c. record c { deleted = true }) d.classes;
})

-- GetActiveByClassID
abbrev pub active_in : Uuid → Enrollment → Bool
active_in i e = e.class_id == i && is_active e.status && not e.deleted

-- DeleteByClass of schedule_repository.go
unfoldable pub delete_schedules_of : Uuid → Uuid → Db → Result Db
delete_schedules_of tenant i d = ok (record d {
  schedules =
      update_where (λ s. s.class_id == i && class_of_tenant tenant i d && not s.deleted)
        (λ s. record s { deleted = true }) d.schedules;
})

-- CancelFutureSessionsByClass of session_repository.go
unfoldable pub cancel_sessions_of : Uuid → Uuid → Day → Db → Result Db
cancel_sessions_of tenant i from d = ok (record d {
  sessions =
      update_where
        (λ s.
          s.class_id == i
          && leb from s.session_date
          && is_scheduled s.status
          && class_of_tenant tenant i d
          && not s.deleted)
        (λ s. record s { status = cancelled }) d.sessions;
})

-- The primary key of class_teachers is the pair.
abbrev pub same_assignment : ClassTeacher → ClassTeacher → Bool
same_assignment a b = a.class_id == b.class_id && a.teacher_id == b.teacher_id

-- Assign
unfoldable pub insert_teacher : ClassTeacher → Db → Result Db
insert_teacher t d =
    if any (same_assignment t) d.class_teachers
    then err (unique_violation primary_key)
    else ok (record d { class_teachers = t ∷ d.class_teachers })

unfoldable pub assign_teachers : Uuid → List Uuid → App (Unit {0})
assign_teachers class [] = pure tt
assign_teachers class (teacher ∷ rest) = do
  execute (insert_teacher (record { class_id = class; teacher_id = teacher }))
  assign_teachers class rest

-- DELETE FROM class_teachers WHERE class_id = ? AND EXISTS (the class, of the tenant)
unfoldable pub clear_teachers : Uuid → Uuid → Db → Result Db
clear_teachers tenant class d = ok (record d {
  class_teachers =
      select (λ t. not (t.class_id == class && any (tenant_class tenant class) d.classes))
        d.class_teachers;
})

-- ReplaceTeachers
unfoldable pub replace_teachers : Uuid → Uuid → List Uuid → App (Unit {0})
replace_teachers tenant class teachers = do
  execute (clear_teachers tenant class)
  assign_teachers class teachers

-- ValidatePrivateSlotLimit
abbrev pub beyond_integer : ℤ → Bool
beyond_integer (pos n) = ltb n 1 || ltb 2147483647 n
beyond_integer (negsuc n) = true

unfoldable pub valid_slot_limit : ClassType → Option ℤ → Bool
valid_slot_limit t none = true
valid_slot_limit t (some limit) = is_private t && not (beyond_integer limit)

abbrev pub natural : ℤ → ℕ
natural (pos n) = n
natural (negsuc n) = 0

abbrev pub stored_limit : Option ℤ → Option ℕ
stored_limit none = none
stored_limit (some limit) = some (natural limit)

-- NewPrivateSlotLimit
unfoldable pub new_private_slot_limit : ClassType → Option ℤ → Option ℕ
new_private_slot_limit private none = some 1
new_private_slot_limit private (some limit) = some (natural limit)
new_private_slot_limit group limit = stored_limit limit

-- CategoryForCreation
unfoldable pub find_tenant_category : Uuid → Uuid → Db → Option Category
find_tenant_category tenant i d = first (tenant_category tenant i) d.categories
