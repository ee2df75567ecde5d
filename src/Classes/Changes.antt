-- ===== src/Classes/Changes.antt =====
-- UpdateClass, UpdateClassPublication and DeleteClass of internal/usecase/class_usecase.go. The
-- teachers of the response are left out.
use kelolakelas_academic_ser.App.{
  App, pure, raise, ◌>>=◌, ◌>>◌, query, lookup, execute, with_transaction, map_error, new_uuid,
  today,
}
use kelolakelas_academic_ser.Classes.Categories.{
  CreateCategoryRequest, new_category, own_category, blank,
}
use kelolakelas_academic_ser.Classes.Rows.{
  insert_category, update_class_row, update_publication_status, delete_class_row, active_in,
  delete_schedules_of, cancel_sessions_of, replace_teachers, valid_slot_limit, natural,
}
use kelolakelas_academic_ser.Domain.{
  Uuid, uuid_nil, ClassType, private, group, ClassEnrollmentStatus, opened, closed, full, archived,
  Class, ℤ, pos, negsuc,
}
use kelolakelas_academic_ser.Enrollment.Rows.{find_class}
use kelolakelas_academic_ser.Errors.{
  DomainError, class_forbidden, class_not_enrollable, class_active_enrollments,
  class_type_immutable, class_name_required, invalid_class_price, invalid_private_slot_limit,
  category_name_required, substitute_tutor_not_eligible, substitute_tutor_unavailable, Error,
  domain, usecase, is_not_found,
}
use kelolakelas_academic_ser.Prelude.{
  ltb, ◌==◌, same_text, if◌then◌else◌, is_some, length, count, any, String, Bool, false, not, ◌&&◌,
  ◌||◌, Option, none, some, List, [], ◌∷◌,
}
use kelolakelas_academic_ser.Schedule.Clock.{codes}
use kelolakelas_academic_ser.Schedule.Guard.{Membership, check_tutor}

-- The status and the type are the texts of the request.
pub record UpdateClassRequest : Type 0 where
  pub private_slot_limit : Option ℤ
  pub teacher_ids : Option (List Uuid)
  pub category : Option CreateCategoryRequest
  pub is_published : Option Bool
  pub enrollment_status : Option String
  pub category_id : Option Uuid
  pub name : Option String
  pub description : Option String
  pub type : Option String
  pub price : Option ℤ

abbrev pub type_text : ClassType → String
type_text private = "private"
type_text group = "group"

abbrev pub other_type : Option String → ClassType → Bool
other_type none t = false
other_type (some text) t = not (same_text text (type_text t))

abbrev pub with_limit : Option ℤ → Class → Class
with_limit none c = c
with_limit (some limit) c = record c { private_slot_limit = some (natural limit) }

-- len([]rune(name)) > 255
unfoldable pub too_long_name : String → Bool
too_long_name name = ltb 255 (length (codes name))

-- A category that is made with the update of its class.
unfoldable pub apply_category : Uuid → Option CreateCategoryRequest → Class → App Class
apply_category tenant none c = pure c
apply_category tenant (some req) c =
    if blank req.name || too_long_name req.name then raise (domain category_name_required) else do
      i ← new_uuid
      execute (insert_category (new_category i tenant req))
      pure (record c { category_id = i })

abbrev pub with_publication : Option Bool → Class → Class
with_publication none c = c
with_publication (some published) c = record c { is_published = published }

abbrev pub class_status_named : String → Option ClassEnrollmentStatus
class_status_named s =
    if same_text s "open"
    then some opened
    else if same_text s "closed"
    then some closed
    else if same_text s "full"
    then some full
    else if same_text s "archived"
    then some archived
    else none

abbrev pub set_status_of : Option ClassEnrollmentStatus → Class → App Class
set_status_of none c = raise (domain class_not_enrollable)
set_status_of (some s) c = pure (record c { enrollment_status = s })

unfoldable pub apply_status : Option String → Class → App Class
apply_status none c = pure c
apply_status (some text) c = set_status_of (class_status_named text) c

-- A category that is there; here too every error of GetByID is a category that is not found.
unfoldable pub apply_category_id : Uuid → Option Uuid → Class → App Class
apply_category_id tenant none c = pure c
apply_category_id tenant (some i) c =
    if i == c.category_id
    then pure c
    else do own_category tenant i; pure (record c { category_id = i })

unfoldable pub apply_name : Option String → Class → App Class
apply_name none c = pure c
apply_name (some name) c =
    if blank name then raise (domain class_name_required) else pure (record c { name = name })

abbrev pub with_description : Option String → Class → Class
with_description none c = c
with_description (some text) c = record c { description = some text }

unfoldable pub apply_price : Option ℤ → Class → App Class
apply_price none c = pure c
apply_price (some (pos n)) c = pure (record c { price = n })
apply_price (some (negsuc n)) c = raise (domain invalid_class_price)

-- The loop over the teachers: none twice, and each an active member of the tenant.
unfoldable pub check_teachers : Membership → Uuid → List Uuid → List Uuid → App (Unit {0})
check_teachers membership tenant seen [] = pure tt
check_teachers membership tenant seen (teacher ∷ rest) =
    if teacher == uuid_nil || any (λ t. t == teacher) seen
    then raise (usecase substitute_tutor_not_eligible)
    else do
      check_tutor membership tenant teacher
      check_teachers membership tenant (teacher ∷ seen) rest

unfoldable pub change_teachers : Membership → Uuid → Uuid → List Uuid → App (Unit {0})
change_teachers none tenant i teachers = raise (usecase substitute_tutor_unavailable)
change_teachers (some check_active_member) tenant i [] =
    raise (usecase substitute_tutor_not_eligible)
change_teachers (some check_active_member) tenant i (teacher ∷ rest) = do
  check_teachers (some check_active_member) tenant [] (teacher ∷ rest)
  replace_teachers tenant i (teacher ∷ rest)

unfoldable pub apply_teachers : Membership → Uuid → Uuid → Option (List Uuid) → App (Unit {0})
apply_teachers membership tenant i none = pure tt
apply_teachers membership tenant i (some teachers) = change_teachers membership tenant i teachers

abbrev pub missing_class : Error → Error
missing_class e = if is_not_found e then domain DomainError.class_not_found else e

unfoldable pub patch_class : Membership → Uuid → Uuid → UpdateClassRequest → Class → App Class
patch_class membership tenant i req c = do
  c1 ← apply_category tenant req.category c
  c2 ← apply_status req.enrollment_status (with_publication req.is_published c1)
  c3 ← apply_category_id tenant req.category_id c2
  c4 ← apply_name req.name c3
  c5 ← apply_price req.price (with_description req.description c4)
  apply_teachers membership tenant i req.teacher_ids
  pure c5

unfoldable pub update_locked_class : Membership → Uuid → Uuid → UpdateClassRequest → App Class
update_locked_class membership tenant i req = do
  c ← map_error missing_class (lookup (find_class i))
  if not (c.tenant_id == tenant)
      then raise (domain DomainError.class_not_found)
      else if other_type req.type c.type
      then raise (domain class_type_immutable)
      else if not (valid_slot_limit c.type req.private_slot_limit)
      then raise (domain invalid_private_slot_limit)
      else if is_some req.category && is_some req.category_id
      then raise (domain category_name_required)
      else do
        patched ← patch_class membership tenant i req (with_limit req.private_slot_limit c)
        map_error missing_class (update_class_row patched)
        pure patched

unfoldable pub update_class : Membership → Uuid → Uuid → UpdateClassRequest → App Class
update_class membership tenant i req =
    with_transaction (update_locked_class membership tenant i req)

unfoldable pub update_class_publication : Uuid → Uuid → Bool → App Class
update_class_publication tenant i published =
    map_error missing_class (update_publication_status i tenant published)

-- GetByID answers no class with every error, so that each is a class that is not found.
unfoldable pub delete_locked_class : Uuid → Uuid → App (Unit {0})
delete_locked_class tenant i = do
  c ← map_error (λ e. domain DomainError.class_not_found) (lookup (find_class i))
  if not (c.tenant_id == tenant) then raise (domain class_forbidden) else do
    n ← query (λ d. count (active_in i) d.enrollments)
    if ltb 0 n then raise (domain class_active_enrollments) else do
      execute (delete_schedules_of tenant i)
      now ← today
      execute (cancel_sessions_of tenant i now)
      execute (delete_class_row tenant i)

unfoldable pub delete_class : Uuid → Uuid → App (Unit {0})
delete_class tenant i = with_transaction (delete_locked_class tenant i)
