-- ===== src/Schedule/Initial.antt =====
-- CreateInitialSchedules of internal/usecase/schedule_usecase.go.
use kelolakelas_academic_ser.App.{
  App, pure, raise, ◌>>=◌, ◌>>◌, lookup, execute, with_transaction, map_error, new_uuid, today,
}
use kelolakelas_academic_ser.Calendar.{end_of_month}
use kelolakelas_academic_ser.Domain.{
  Uuid, Day, is_private, is_group, Class, ClassSchedule, ClassSession,
}
use kelolakelas_academic_ser.Enrollment.Repository.{get_by_id}
use kelolakelas_academic_ser.Enrollment.Rows.{find_class}
use kelolakelas_academic_ser.Errors.{
  class_forbidden, UsecaseError, enrollment_required, enrollment_not_found,
  invalid_enrollment_class, invalid_enrollment_tenant, invalid_schedule_change,
  private_schedule_capacity, Error, domain, usecase, message,
}
use kelolakelas_academic_ser.Prelude.{
  ltb, ◌==◌, if◌then◌else◌, is_some, Option-else, ℕ, String, Bool, false, not, ◌&&◌, ◌||◌, Option,
  none, some, List, [], ◌∷◌, ◌++◌,
}
use kelolakelas_academic_ser.Schedule.Clock.{time_range}
use kelolakelas_academic_ser.Schedule.Generation.{generate_sessions}
use kelolakelas_academic_ser.Schedule.Guard.{Membership, check_tutor, always}
use kelolakelas_academic_ser.Schedule.Rows.{create_schedule, batch_create}

pub record ScheduleItem : Type 0 where
  pub enrollment_id : Option Uuid
  pub tutor_id : Option Uuid
  pub capacity : ℕ
  pub location : Option String
  pub day_of_week : ℕ
  pub start_time : String
  pub end_time : String
  pub valid_from : Option Day
  pub valid_until : Option Day

pub record CreateInitialSchedulesRequest : Type 0 where
  pub class_id : Uuid
  pub schedules : List ScheduleItem

pub record CreateInitialSchedulesResponse : Type 0 where
  pub schedules : List ClassSchedule
  pub sessions : List ClassSession

abbrev pub max_capacity : ℕ
max_capacity = 2147483647

unfoldable pub invalid_item : ScheduleItem → Bool
invalid_item item =
    ltb item.day_of_week 1
    || ltb 7 item.day_of_week
    || ltb item.capacity 1
    || ltb max_capacity item.capacity

unfoldable pub check_item_tutor : Membership → Uuid → Option Uuid → App (Unit {0})
check_item_tutor client tenant none = pure tt
check_item_tutor client tenant (some tutor) = check_tutor client tenant tutor

abbrev time_range_error : Error
time_range_error = message "start_time must be before end_time"

abbrev date_range_error : Error
date_range_error = message "valid_from must not be after valid_until"

abbrev pub ends_before : Option Day → Day → Bool
ends_before none from = false
ends_before (some until) from = ltb until from

-- The enrollment of the item: none for a group class, one of the class for a private class.
unfoldable pub private_enrollment : Class → Uuid → Option Uuid → App (Option Uuid)
private_enrollment c class none = raise (usecase enrollment_required)
private_enrollment c class (some i) = do
  e ← map_error (always enrollment_not_found) (get_by_id i)
  if not (e.class_id == class)
      then raise (usecase invalid_enrollment_class)
      else if not (e.tenant_id == c.tenant_id)
      then raise (usecase invalid_enrollment_tenant)
      else pure (some i)

unfoldable pub item_enrollment : Class → Uuid → ScheduleItem → App (Option Uuid)
item_enrollment c class item =
    if is_group c.type then pure none else private_enrollment c class item.enrollment_id

unfoldable pub create_item :
    Membership → Uuid → Class → Uuid → ScheduleItem → App (ClassSchedule × List ClassSession)
create_item client tenant c class item =
    if is_private c.type && not (item.capacity == 1)
    then raise (usecase private_schedule_capacity)
    else if invalid_item item
    then raise (usecase invalid_schedule_change)
    else do
      check_item_tutor client tenant item.tutor_id
      now ← today
      let from = Option-else item.valid_from now
      if not (is_some (time_range item.start_time item.end_time))
          then raise time_range_error
          else if ends_before item.valid_until from
          then raise date_range_error
          else do
            enrollment ← item_enrollment c class item
            i ← new_uuid
            let schedule : ClassSchedule = record {
              id = i;
              class_id = class;
              enrollment_id = enrollment;
              tutor_id = item.tutor_id;
              capacity = item.capacity;
              location = item.location;
              day_of_week = item.day_of_week;
              start_time = item.start_time;
              end_time = item.end_time;
              valid_from = some from;
              valid_until = item.valid_until;
              sessions_generated_until = some (end_of_month from);
              deleted = false;
            }
            execute (create_schedule schedule)
            sessions ← generate_sessions schedule from
            batch_create sessions
            pure (schedule, sessions)

unfoldable pub create_items :
    Membership → Uuid → Class → Uuid → List ScheduleItem → App CreateInitialSchedulesResponse
create_items client tenant c class [] = pure (record { schedules = []; sessions = [] })
create_items client tenant c class (item ∷ items) = do
  created ← create_item client tenant c class item
  rest ← create_items client tenant c class items
  pure (record { schedules = created.0 ∷ rest.schedules; sessions = created.1 ++ rest.sessions })

unfoldable pub create_initial_schedules :
    Membership → Uuid → CreateInitialSchedulesRequest → App CreateInitialSchedulesResponse
create_initial_schedules client tenant req = do
  c ← map_error (always UsecaseError.class_not_found) (lookup (find_class req.class_id))
  if not (c.tenant_id == tenant)
      then raise (domain class_forbidden)
      else with_transaction (create_items client tenant c req.class_id req.schedules)
