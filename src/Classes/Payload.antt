-- ===== src/Classes/Payload.antt =====
-- The payload of a class with its category, and validateClassCreation of
-- internal/usecase/class_creation_usecase.go.
use kelolakelas_academic_ser.App.{App, pure, raise, ◌>>=◌, today}
use kelolakelas_academic_ser.Classes.Categories.{CreateCategoryRequest, blank}
use kelolakelas_academic_ser.Classes.Changes.{too_long_name, class_status_named}
use kelolakelas_academic_ser.Classes.Rows.{valid_slot_limit}
use kelolakelas_academic_ser.Domain.{
  Uuid, uuid_nil, ClassType, is_private, ClassEnrollmentStatus, opened, ℤ, pos, negsuc,
}
use kelolakelas_academic_ser.Errors.{
  invalid_class_creation, private_schedules_not_allowed, Error, usecase, wrap,
}
use kelolakelas_academic_ser.Prelude.{
  ltb, ◌==◌, same_text, if◌then◌else◌, is_some, Option-else, length, String, Bool, true, false, not,
  ◌&&◌, ◌||◌, Option, none, some, List, [], ◌∷◌,
}
use kelolakelas_academic_ser.Requests.Decisions.{trim_left, trim_right}
use kelolakelas_academic_ser.Schedule.Clock.{codes, time_range}
use kelolakelas_academic_ser.Schedule.Initial.{ScheduleItem, invalid_item, ends_before}
use Prim.Native.String.{String as Text}

pub record CreateClassPayload : Type 0 where
  pub private_slot_limit : Option ℤ
  pub name : String
  pub description : Option String
  pub type : ClassType
  pub price : ℤ
  pub is_published : Bool
  pub enrollment_status : String

pub record CreateClassWithCategoryRequest : Type 0 where
  pub category_id : Uuid
  pub category : Option CreateCategoryRequest
  pub schedules : List ScheduleItem
  pub idempotency_key : Text
  pub class : CreateClassPayload
  pub teacher_ids : List Uuid

abbrev pub is_negative : ℤ → Bool
is_negative (pos n) = false
is_negative (negsuc n) = true

abbrev pub status_or_open : String → Option ClassEnrollmentStatus
status_or_open s = if same_text s "" then some opened else class_status_named s

abbrev pub bad_category : Option CreateCategoryRequest → Bool
bad_category none = false
bad_category (some c) = blank c.name || too_long_name c.name

abbrev pub long_location : Option String → Bool
long_location none = false
long_location (some text) = too_long_name text

-- A slot of a group class that validateClassCreation refuses.
unfoldable pub bad_slot : ScheduleItem → Bool
unfolding time_range
bad_slot item =
    not (is_some (time_range item.start_time item.end_time))
    || invalid_item item
    || is_some item.enrollment_id
    || long_location item.location

abbrev pub invalid_because : String → Error
invalid_because reason = wrap reason (usecase invalid_class_creation)

unfoldable pub check_slot_items : List ScheduleItem → App (Unit {0})
check_slot_items [] = pure tt
check_slot_items (item ∷ rest) =
    if bad_slot item then raise (invalid_because "invalid group schedule") else do
      now ← today
      if ends_before item.valid_until (Option-else item.valid_from now)
          then raise (invalid_because "invalid schedule date range")
          else check_slot_items rest

-- len(key) counts the bytes of the key, as its header has them: one for each character.
unfoldable pub bad_key : Text → Bool
bad_key key = ltb 128 (length (codes key)) || not (same_text (trim_left (trim_right key)) key)

abbrev pub same_bool : Bool → Bool → Bool
same_bool true b = b
same_bool false b = not b

-- validateClassCreation
unfoldable pub validate_class_creation : CreateClassWithCategoryRequest → App (Unit {0})
validate_class_creation req =
    if not (valid_slot_limit req.class.type req.class.private_slot_limit)
    then raise (invalid_because "private_slot_limit")
    else if same_bool (req.category_id == uuid_nil) (not (is_some req.category))
    then raise (invalid_because "provide exactly one of category_id or category")
    else if bad_category req.category
    then raise (invalid_because "category name required, maximum 255 characters")
    else if blank req.class.name || too_long_name req.class.name || is_negative req.class.price
    then raise (invalid_because "invalid class")
    else if not (is_some (status_or_open req.class.enrollment_status))
    then raise (invalid_because "invalid enrollment status")
    else if length req.teacher_ids == 0 || ltb 366 (length req.schedules)
    then raise (invalid_because "teachers required; maximum 366 slots")
    else if bad_key req.idempotency_key
    then raise (invalid_because "invalid idempotency key")
    else if (is_some req.category || ltb 0 (length req.schedules))
        && same_text req.idempotency_key ""
    then raise (invalid_because "Idempotency-Key is required for aggregate creation")
    else if is_private req.class.type && ltb 0 (length req.schedules)
    then raise (usecase private_schedules_not_allowed)
    else check_slot_items req.schedules
