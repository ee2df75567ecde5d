-- ===== src/Schedule/Tutors.antt =====
-- ChangeTutorTemporary and ChangeTutorPermanent of internal/usecase/schedule_usecase.go.
pub mod Booked
use kelolakelas_academic_ser.App.{App, pure, ◌>>=◌, ◌>>◌, execute, with_transaction, new_uuid}
use kelolakelas_academic_ser.Domain.{Uuid, Day, ClassSchedule, ClassSession}
use kelolakelas_academic_ser.Enrollment.Repository.{transfer_schedule}
use kelolakelas_academic_ser.Prelude.{
  if◌then◌else◌, is_some_eq, is_some, Bool, false, not, ◌&&◌, some,
}
use kelolakelas_academic_ser.Schedule.Changes.{day_before}
use kelolakelas_academic_ser.Schedule.Guard.{
  validate_replacement_date, Membership, check_tutor, get_schedule_for_tenant,
  get_session_for_tenant,
}
use kelolakelas_academic_ser.Schedule.Rows.{
  create_schedule, save_schedule, save_session, move_future_sessions,
}

pub record SubstituteTutorRequest : Type 0 where
  pub session_id : Uuid
  pub substitute_tutor_id : Uuid

unfoldable pub set_session_tutor : Uuid → SubstituteTutorRequest → App ClassSession
set_session_tutor tenant req = do
  found ← get_session_for_tenant tenant req.session_id
  let session = record found { tutor_id = req.substitute_tutor_id }
  execute (save_session session)
  pure session

unfoldable pub change_tutor_temporary :
    Membership → Uuid → SubstituteTutorRequest → App ClassSession
change_tutor_temporary client tenant req = do
  get_session_for_tenant tenant req.session_id
  check_tutor client tenant req.substitute_tutor_id
  with_transaction (set_session_tutor tenant req)

pub record PermanentTutorChangeRequest : Type 0 where
  pub schedule_id : Uuid
  pub new_tutor_id : Uuid
  pub effective_date : Day

pub record PermanentTutorChangeResponse : Type 0 where
  pub old_schedule : ClassSchedule
  pub new_schedule : ClassSchedule

-- A private schedule that has the tutor already, or none yet.
abbrev pub assigned_to : Uuid → ClassSchedule → Bool
assigned_to tutor s = is_some s.enrollment_id && is_some_eq tutor s.tutor_id

abbrev pub unassigned : ClassSchedule → Bool
unassigned s = is_some s.enrollment_id && not (is_some s.tutor_id)

abbrev pub taken_over : ClassSchedule → Uuid → Uuid → Day → ClassSchedule
taken_over old i tutor effective = record old {
  id = i;
  tutor_id = some tutor;
  valid_from = some effective;
  deleted = false;
}

unfoldable pub assign_first_tutor :
    Uuid → PermanentTutorChangeRequest → ClassSchedule → App PermanentTutorChangeResponse
assign_first_tutor tenant req old = do
  let updated = record old { tutor_id = some req.new_tutor_id }
  execute (save_schedule updated)
  execute (move_future_sessions tenant old.id req.new_tutor_id old.id req.effective_date)
  pure (record { old_schedule = old; new_schedule = updated })

unfoldable pub split_schedule :
    Uuid → PermanentTutorChangeRequest → ClassSchedule → App PermanentTutorChangeResponse
split_schedule tenant req old = do
  let closed_schedule = record old { valid_until = some (day_before req.effective_date) }
  execute (save_schedule closed_schedule)
  i ← new_uuid
  let new_schedule = taken_over old i req.new_tutor_id req.effective_date
  execute (create_schedule new_schedule)
  transfer_schedule tenant old.class_id old.id i
  execute (move_future_sessions tenant old.id req.new_tutor_id i req.effective_date)
  pure (record { old_schedule = closed_schedule; new_schedule = new_schedule })

unfoldable pub hand_over : Uuid → PermanentTutorChangeRequest → App PermanentTutorChangeResponse
hand_over tenant req = do
  old ← get_schedule_for_tenant tenant req.schedule_id
  validate_replacement_date old req.effective_date
  if assigned_to req.new_tutor_id old
      then pure (record { old_schedule = old; new_schedule = old })
      else if unassigned old
      then assign_first_tutor tenant req old
      else split_schedule tenant req old

unfoldable pub change_tutor_permanent :
    Membership → Uuid → PermanentTutorChangeRequest → App PermanentTutorChangeResponse
change_tutor_permanent client tenant req = do
  get_schedule_for_tenant tenant req.schedule_id
  check_tutor client tenant req.new_tutor_id
  with_transaction (hand_over tenant req)
