-- ===== src/Schedule/Changes.antt =====
-- RescheduleSession, ChangeSchedulePermanent, DeleteSchedule and DeleteSession of
-- internal/usecase/schedule_usecase.go, over the repository that has the guard ValidateChange.
pub mod Deletion
pub mod Seats
pub mod Capacity
pub mod Booked
use kelolakelas_academic_ser.App.{
  App, pure, raise, ◌>>=◌, ◌>>◌, query, lookup, execute, with_transaction, map_error, new_uuid,
  today_jakarta,
}
use kelolakelas_academic_ser.Calendar.{end_of_month}
use kelolakelas_academic_ser.Domain.{
  Uuid, uuid_nil, Day, is_private, Class, ClassSchedule, scheduled, rescheduled, ClassSession,
}
use kelolakelas_academic_ser.Enrollment.Lifecycle.Table.{target}
use kelolakelas_academic_ser.Enrollment.Repository.{transfer_schedule}
use kelolakelas_academic_ser.Enrollment.Rows.{enrollment_id, class_id, schedule_id, find_class}
use kelolakelas_academic_ser.Errors.{
  schedule_not_found, schedule_forbidden, session_forbidden, session_not_found,
  invalid_schedule_change, private_schedule_capacity, domain, usecase,
}
use kelolakelas_academic_ser.Prelude.{
  ltb, ◌==◌, if◌then◌else◌, Option-else, length, ℕ, ◌-◌, String, Bool, true, false, not, ◌&&◌, ◌||◌,
  Option, none, some, List,
}
use kelolakelas_academic_ser.Schedule.Clock.{codes, format_time, time_range}
use kelolakelas_academic_ser.Schedule.Generation.{generate_sessions}
use kelolakelas_academic_ser.Schedule.Guard.{
  validate_change, validate_replacement_date, Membership, check_tutor, always,
  get_schedule_for_tenant, get_session_for_tenant,
}
use kelolakelas_academic_ser.Schedule.Initial.{max_capacity}
use kelolakelas_academic_ser.Schedule.Rows.{
  preloaded_of_tenant, session_id, find_schedule_for_tenant, find_session, create_schedule,
  save_schedule, save_session, delete_schedule_row, delete_session_row, create_session,
  batch_create, cancel_future_sessions,
}

pub record RescheduleSessionRequest : Type 0 where
  pub session_id : Uuid
  pub new_session_date : Day
  pub new_start_time : String
  pub new_end_time : String

pub record RescheduleSessionResponse : Type 0 where
  pub original_session : ClassSession
  pub new_session : ClassSession

abbrev pub replacement_session : ClassSession → Uuid → RescheduleSessionRequest → ClassSession
replacement_session s i req = record {
  id = i;
  class_id = s.class_id;
  schedule_id = none;
  enrollment_id = s.enrollment_id;
  rescheduled_from_session_id = some s.id;
  tutor_id = s.tutor_id;
  session_date = req.new_session_date;
  start_time = req.new_start_time;
  end_time = req.new_end_time;
  status = scheduled;
  deleted = false;
}

unfoldable pub reschedule_session : Uuid → RescheduleSessionRequest → App RescheduleSessionResponse
reschedule_session tenant req = with_transaction do
  found ← get_session_for_tenant tenant req.session_id
  let target = record found { status = rescheduled }
  execute (save_session target)
  i ← new_uuid
  let replacement = replacement_session target i req
  execute (create_session replacement)
  pure (record { original_session = target; new_session = replacement })

-- An effective date that is the zero time is `none`.
pub record PermanentScheduleChangeRequest : Type 0 where
  pub old_schedule_id : Uuid
  pub new_day_of_week : ℕ
  pub new_start_time : String
  pub new_end_time : String
  pub effective_date : Option Day
  pub new_tutor_id : Option Uuid
  pub new_capacity : Option ℕ
  pub new_location : Option String

pub record PermanentScheduleChangeResponse : Type 0 where
  pub old_schedule : ClassSchedule
  pub new_schedule : ClassSchedule
  pub new_sessions : List ClassSession

abbrev capacity_invalid : Option ℕ → Bool
capacity_invalid none = false
capacity_invalid (some n) = ltb n 1 || ltb max_capacity n

-- `len([]rune(*req.NewLocation)) > 255`
abbrev location_invalid : Option String → Bool
location_invalid none = false
location_invalid (some text) = ltb 255 (length (codes text))

unfoldable pub change_invalid : PermanentScheduleChangeRequest → Bool
change_invalid req =
    ltb req.new_day_of_week 1
    || ltb 7 req.new_day_of_week
    || capacity_invalid req.new_capacity
    || location_invalid req.new_location

-- A nil UUID takes the tutor away.
unfoldable pub choose_tutor : Membership → Uuid → Option Uuid → Option Uuid → App (Option Uuid)
choose_tutor client tenant old none = pure old
choose_tutor client tenant old (some tutor) =
    if tutor == uuid_nil then pure none else do check_tutor client tenant tutor; pure (some tutor)

abbrev or_keep : Option String → Option String → Option String
or_keep none old = old
or_keep (some new) old = some new

abbrev pub private_with : Option Class → ℕ → Bool
private_with none capacity = false
private_with (some c) capacity = is_private c.type && not (capacity == 1)

-- The new schedule takes over from the effective date on.
abbrev pub replacement_schedule :
    ClassSchedule
    → Uuid
    → PermanentScheduleChangeRequest
    → Option Uuid
    → ℕ
    → ℕ × ℕ
    → Day
    → ClassSchedule
replacement_schedule old i req tutor capacity times effective = record {
  id = i;
  class_id = old.class_id;
  enrollment_id = old.enrollment_id;
  tutor_id = tutor;
  capacity = capacity;
  location = or_keep req.new_location old.location;
  day_of_week = req.new_day_of_week;
  start_time = format_time times.0;
  end_time = format_time times.1;
  valid_from = some effective;
  valid_until = old.valid_until;
  sessions_generated_until = some (end_of_month effective);
  deleted = false;
}

-- effectiveDate.AddDate(0, 0, -1), for a date after day 0
abbrev pub day_before : Day → Day
day_before d = d - 1

unfoldable pub replace_schedule :
    Membership
    → Uuid
    → PermanentScheduleChangeRequest
    → ℕ × ℕ
    → Day
    → App PermanentScheduleChangeResponse
replace_schedule client tenant req times effective = do
  old ← get_schedule_for_tenant tenant req.old_schedule_id
  validate_replacement_date old effective
  let capacity = Option-else req.new_capacity old.capacity
  class ← query (find_class old.class_id)
  if private_with class capacity then raise (usecase private_schedule_capacity) else do
    validate_change tenant old.id effective capacity false
    tutor ← choose_tutor client tenant old.tutor_id req.new_tutor_id
    let closed_schedule = record old { valid_until = some (day_before effective) }
    execute (save_schedule closed_schedule)
    i ← new_uuid
    let new_schedule = replacement_schedule old i req tutor capacity times effective
    execute (create_schedule new_schedule)
    transfer_schedule tenant old.class_id old.id i
    execute (cancel_future_sessions tenant old.id effective)
    sessions ← generate_sessions new_schedule effective
    batch_create sessions
    pure (record {
      old_schedule = closed_schedule;
      new_schedule = new_schedule;
      new_sessions = sessions;
    })

unfoldable pub change_checked :
    Membership
    → Uuid
    → PermanentScheduleChangeRequest
    → Option (ℕ × ℕ)
    → Option Day
    → App PermanentScheduleChangeResponse
change_checked client tenant req (some times) (some effective) =
    if change_invalid req
    then raise (usecase invalid_schedule_change)
    else with_transaction (replace_schedule client tenant req times effective)
change_checked client tenant req (some times) none = raise (usecase invalid_schedule_change)
change_checked client tenant req none effective = raise (usecase invalid_schedule_change)

unfoldable pub change_schedule_permanent :
    Membership → Uuid → PermanentScheduleChangeRequest → App PermanentScheduleChangeResponse
change_schedule_permanent client tenant req =
    change_checked client tenant req (time_range req.new_start_time req.new_end_time)
      req.effective_date

-- `errors.Is(err, ErrRecordNotFound) || schedule == nil`: a lookup that fails returns a nil row, so
-- every failure of it is answered as a missing row.
unfoldable pub delete_schedule : Uuid → Uuid → App (Unit {0})
delete_schedule tenant i = do
  now ← today_jakarta
  with_transaction do
    s ← map_error (always schedule_not_found) (lookup (find_schedule_for_tenant tenant i))
    owned ← query (preloaded_of_tenant tenant s.class_id)
    if not owned then raise (domain schedule_forbidden) else do
      validate_change tenant i now s.capacity true
      execute (delete_schedule_row tenant i)
      execute (cancel_future_sessions tenant i now)

unfoldable pub delete_session : Uuid → Uuid → App (Unit {0})
delete_session tenant i = with_transaction do
  s ← map_error (always session_not_found) (lookup (find_session i))
  owned ← query (preloaded_of_tenant tenant s.class_id)
  if not owned then raise (domain session_forbidden) else execute (delete_session_row tenant i)
