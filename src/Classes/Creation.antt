-- ===== src/Classes/Creation.antt =====
-- CreateClass of internal/usecase/class_usecase.go, and internal/usecase/class_creation_usecase.go:
-- a class with its category, teachers, schedules and sessions in one transaction, under an
-- idempotency key. The handlers' bindings leave two types of class. The fingerprint of a payload, the
-- hexadecimal SHA-256 of its JSON, is a parameter; the teachers, a Go map, are checked in the
-- order of the request.
pub mod Kept
pub mod Replay
pub mod Once
use kelolakelas_academic_ser.App.{
  App, pure, raise, ◌>>=◌, ◌>>◌, lookup, execute, with_transaction, map_error, new_uuid, today,
}
use kelolakelas_academic_ser.Calendar.{end_of_month}
use kelolakelas_academic_ser.Classes.Categories.{
  CreateCategoryRequest, TenantClient, require_tenant, new_category, own_category,
}
use kelolakelas_academic_ser.Classes.Payload.{
  CreateClassPayload, CreateClassWithCategoryRequest, status_or_open, validate_class_creation,
}
use kelolakelas_academic_ser.Classes.Rows.{
  insert_category, insert_class, assign_teachers, valid_slot_limit, natural, new_private_slot_limit,
  find_tenant_category,
}
use kelolakelas_academic_ser.Classes.Store.{begin_creation, complete_creation}
use kelolakelas_academic_ser.Domain.{
  Uuid, uuid_nil, Day, ClassType, ClassEnrollmentStatus, opened, Class, Category, ℤ, ClassSchedule,
  ClassSession, CreateClassWithCategoryResponse,
}
use kelolakelas_academic_ser.Enrollment.Rows.{enrollment_id, class_id}
use kelolakelas_academic_ser.Errors.{
  invalid_private_slot_limit, category_not_found, category_forbidden, invalid_class_creation, Error,
  domain, usecase, is_not_found,
}
use kelolakelas_academic_ser.Prelude.{
  ◌==◌, same_text, if◌then◌else◌, Option-else, any, all, ℕ, String, Bool, true, false, not, ◌&&◌,
  ◌||◌, Option, none, some, List, [], ◌∷◌, ◌++◌,
}
use kelolakelas_academic_ser.Schedule.Clock.{parse_schedule_time, format_time}
use kelolakelas_academic_ser.Schedule.Generation.{generate_sessions}
use kelolakelas_academic_ser.Schedule.Guard.{Membership, check_tutor}
use kelolakelas_academic_ser.Schedule.Initial.{ScheduleItem}
use kelolakelas_academic_ser.Schedule.Rows.{create_schedule, batch_create}
use Prim.Native.String.{String as Text}

-- A status that is left out is open.
pub record CreateClassRequest : Type 0 where
  pub private_slot_limit : Option ℤ
  pub category_id : Uuid
  pub name : String
  pub description : Option String
  pub type : ClassType
  pub price : ℕ
  pub is_published : Bool
  pub enrollment_status : Option ClassEnrollmentStatus

unfoldable pub new_class : Uuid → Uuid → CreateClassRequest → Class
new_class i tenant req = record {
  private_slot_limit = new_private_slot_limit req.type req.private_slot_limit;
  id = i;
  tenant_id = tenant;
  category_id = req.category_id;
  name = req.name;
  description = req.description;
  type = req.type;
  price = req.price;
  is_published = req.is_published;
  enrollment_status = Option-else req.enrollment_status opened;
  deleted = false;
}

unfoldable pub create_class : TenantClient → Uuid → CreateClassRequest → App Class
create_class client tenant req =
    if not (valid_slot_limit req.type req.private_slot_limit)
    then raise (domain invalid_private_slot_limit)
    else do
      require_tenant client tenant
      own_category tenant req.category_id
      i ← new_uuid
      execute (insert_class (new_class i tenant req))
      pure (new_class i tenant req)

abbrev pub Fingerprint : Type 0
Fingerprint = CreateClassWithCategoryRequest → String

-- `if id == uuid.Nil || teachers[id]`, over the list
unfoldable pub distinct_teachers : List Uuid → Bool
distinct_teachers [] = true
distinct_teachers (t ∷ rest) =
    not (t == uuid_nil) && not (any (λ u. u == t) rest) && distinct_teachers rest

abbrev tutor_among : List Uuid → Option Uuid → Bool
tutor_among teachers none = true
tutor_among teachers (some t) = any (λ u. u == t) teachers

abbrev pub taught : List Uuid → ScheduleItem → Bool
taught teachers item = tutor_among teachers item.tutor_id

unfoldable pub check_members : Membership → Uuid → List Uuid → App (Unit {0})
check_members membership tenant [] = pure tt
check_members membership tenant (t ∷ rest) = do
  check_tutor membership tenant t
  check_members membership tenant rest

abbrev pub missing_is_category : Error → Error
missing_is_category e = if is_not_found e then domain category_not_found else e

unfoldable pub choose_category :
    Uuid → CreateClassWithCategoryRequest → Option CreateCategoryRequest → App Category
choose_category tenant req (some c) = do
  i ← new_uuid
  execute (insert_category (new_category i tenant c))
  pure (new_category i tenant c)
choose_category tenant req none =
    map_error missing_is_category (lookup (find_tenant_category tenant req.category_id))

abbrev pub payload_class : Uuid → Uuid → Category → CreateClassPayload → Class
payload_class i tenant category p = record {
  private_slot_limit = new_private_slot_limit p.type p.private_slot_limit;
  id = i;
  tenant_id = tenant;
  category_id = category.id;
  name = p.name;
  description = p.description;
  type = p.type;
  price = natural p.price;
  is_published = p.is_published;
  enrollment_status = Option-else (status_or_open p.enrollment_status) opened;
  deleted = false;
}

-- The zero time, where the text cannot be parsed.
abbrev pub clock_text : String → String
clock_text t = format_time (Option-else (parse_schedule_time t) 0)

unfoldable pub slot_of : Uuid → Uuid → Day → ScheduleItem → ClassSchedule
slot_of i class from item = record {
  id = i;
  class_id = class;
  enrollment_id = none;
  tutor_id = item.tutor_id;
  capacity = item.capacity;
  location = item.location;
  day_of_week = item.day_of_week;
  start_time = clock_text item.start_time;
  end_time = clock_text item.end_time;
  valid_from = some from;
  valid_until = item.valid_until;
  sessions_generated_until = some (end_of_month from);
  deleted = false;
}

unfoldable pub create_class_slots :
    Uuid → List ScheduleItem → App (List ClassSchedule × List ClassSession)
create_class_slots class [] = pure ([], [])
create_class_slots class (item ∷ rest) = do
  now ← today
  i ← new_uuid
  let slot = slot_of i class (Option-else item.valid_from now) item
  execute (create_schedule slot)
  sessions ← generate_sessions slot (Option-else item.valid_from now)
  batch_create sessions
  others ← create_class_slots class rest
  pure (slot ∷ others.0, sessions ++ others.1)

-- The domain writes of the transaction.
unfoldable pub make_class :
    Membership → Uuid → CreateClassWithCategoryRequest → App CreateClassWithCategoryResponse
make_class membership tenant req =
    if not (distinct_teachers req.teacher_ids) || not (all (taught req.teacher_ids) req.schedules)
    then raise (usecase invalid_class_creation)
    else do
      check_members membership tenant req.teacher_ids
      category ← choose_category tenant req req.category
      if not (category.tenant_id == tenant) then raise (domain category_forbidden) else do
        i ← new_uuid
        execute (insert_class (payload_class i tenant category req.class))
        assign_teachers i req.teacher_ids
        slots ← create_class_slots i req.schedules
        pure (record {
          class = payload_class i tenant category req.class;
          category = category;
          schedules = slots.0;
          sessions = slots.1;
        })

-- A replay answers the stored response.
abbrev pub answer_or_make :
    Membership
    → Uuid
    → CreateClassWithCategoryRequest
    → Option CreateClassWithCategoryResponse
    → App CreateClassWithCategoryResponse
answer_or_make membership tenant req (some response) = pure response
answer_or_make membership tenant req none = do
  response ← make_class membership tenant req
  execute (complete_creation tenant req.idempotency_key response)
  pure response

unfoldable pub create_in_transaction :
    Fingerprint
    → Membership
    → Uuid
    → CreateClassWithCategoryRequest
    → App CreateClassWithCategoryResponse
create_in_transaction fingerprint membership tenant req =
    if same_text req.idempotency_key "" then make_class membership tenant req else do
      replay ← begin_creation tenant req.idempotency_key (fingerprint req)
      answer_or_make membership tenant req replay

unfoldable pub create_class_with_category :
    Fingerprint
    → TenantClient
    → Membership
    → Uuid
    → CreateClassWithCategoryRequest
    → App CreateClassWithCategoryResponse
create_class_with_category fingerprint client membership tenant req = do
  validate_class_creation req
  require_tenant client tenant
  with_transaction (create_in_transaction fingerprint membership tenant req)
