-- ===== src/Enrollment/Lifecycle.antt =====
-- The status changes of internal/usecase/enrollment_usecase.go: activation, release, suspension,
-- resumption, ending and the cancellation by a parent. `tx` says whether a transaction manager is
-- wired. The answer is the row from which enrollmentResponse copies its fields.
pub mod Table
use kelolakelas_academic_ser.App.{
  Result, ok, err, App, pure, raise, ◌>>=◌, ◌>>◌, with_transaction, map_error, attempt, time_now,
}
use kelolakelas_academic_ser.Domain.{
  Uuid, uuid_nil, EnrollmentStatus, active, suspended, dropped, is_pending, is_active, is_suspended,
  is_completed, is_dropped, Enrollment,
}
use kelolakelas_academic_ser.Enrollment.Repository.{
  update, get_by_id, resume_under_capacity, assign_schedule_row, get_by_id_for_access,
}
use kelolakelas_academic_ser.Errors.{
  invalid_enrollment_transition, parent_required, enrollment_not_found, Error, domain, usecase,
  wrap, is_not_found, is_billing, is_transaction_not_found, is_transaction_not_cancellable,
}
use kelolakelas_academic_ser.Prelude.{◌==◌, if◌then◌else◌, Bool, not, ◌||◌, Option, none, some}

-- The message with which the use cases wrap a failed load.
abbrev pub load_failed : Error → Error
load_failed e =
    if is_not_found e then usecase enrollment_not_found else wrap "failed to fetch enrollment" e

abbrev pub update_failed : Error → Error
update_failed e = wrap "failed to update enrollment status" e

-- WithTransaction(ctx, f), or f(ctx) without a transaction manager
unfoldable pub in_transaction : {A : Type 0} → Bool → App A → App A
in_transaction tx m = if tx then with_transaction m else m

-- The body of the transaction: load, leave any other status alone, and write the new status.
unfoldable pub move_row : (EnrollmentStatus → Bool) → EnrollmentStatus → Uuid → App Enrollment
move_row leaves target i = do
  e ← get_by_id i
  if not (leaves e.status) then pure e else do
    now ← time_now
    let moved = record e { status = target; updated_at = now }
    update moved
    pure moved

-- ActivateEnrollment, ReleaseEnrollment, SuspendEnrollment and EndEnrollment are one function over
-- the statuses that they leave, the status that they set and those that they answer unchanged.
unfoldable pub change_status :
    (leaves settled : EnrollmentStatus → Bool) → EnrollmentStatus → Bool → Uuid → App Enrollment
change_status leaves settled target tx i = do
  e ←
      map_error load_failed
        (if tx then with_transaction (move_row leaves target i) else get_by_id i)
  if settled e.status
      then pure e
      else if not (leaves e.status)
      then raise (domain invalid_enrollment_transition)
      else if tx
      then pure e
      else do
        now ← time_now
        let moved = record e { status = target; updated_at = now }
        map_error update_failed (update moved)
        pure moved

unfoldable pub activate_enrollment : Bool → Uuid → App Enrollment
unfolding change_status
activate_enrollment = change_status is_pending is_active active

abbrev pub dropped_or_active : EnrollmentStatus → Bool
dropped_or_active s = is_dropped s || is_active s

unfoldable pub release_enrollment : Bool → Uuid → App Enrollment
unfolding change_status
release_enrollment = change_status is_pending dropped_or_active dropped

unfoldable pub suspend_enrollment : Bool → Uuid → App Enrollment
unfolding change_status
suspend_enrollment = change_status is_active is_suspended suspended

abbrev pub active_or_suspended : EnrollmentStatus → Bool
active_or_suspended s = is_active s || is_suspended s

unfoldable pub end_enrollment : Bool → Uuid → App Enrollment
unfolding change_status
end_enrollment = change_status active_or_suspended is_dropped dropped

-- ResumeEnrollment
unfoldable pub resume_locked : Uuid → App Enrollment
resume_locked i = do
  e ← get_by_id i
  if not (is_suspended e.status) then pure e else resume_under_capacity e

abbrev pub resume_failed : Error → Error
resume_failed e = if is_not_found e then usecase enrollment_not_found else e

unfoldable pub resume_enrollment : Bool → Uuid → App Enrollment
resume_enrollment tx i = do
  e ← map_error resume_failed (in_transaction tx (resume_locked i))
  if is_active e.status then pure e else raise (domain invalid_enrollment_transition)

-- What billing answers when the invoice of an enrollment is withdrawn. The call waits for another
-- service, so the database may have moved on when it returns.
abbrev pub CancelPayment : Type 0
CancelPayment = Uuid → App (Unit {0})

abbrev pub catch_withdrawal : Result (Unit {0}) → App (Unit {0})
catch_withdrawal (ok _) = pure tt
catch_withdrawal (err e) =
    if is_billing is_transaction_not_found e
    then pure tt
    else if is_billing is_transaction_not_cancellable e
    then raise (domain invalid_enrollment_transition)
    else raise (wrap "withdraw enrollment payment" e)

-- withdrawEnrollmentPayment; a nil billing client withdraws nothing
unfoldable pub withdraw_enrollment_payment : Option CancelPayment → Uuid → App (Unit {0})
withdraw_enrollment_payment none i = pure tt
withdraw_enrollment_payment (some cancel) i = do
  answered ← attempt (cancel i)
  catch_withdrawal answered

unfoldable pub drop_pending : Uuid → App Enrollment
drop_pending i = do
  e ← map_error load_failed (get_by_id i)
  if not (is_pending e.status) then raise (domain invalid_enrollment_transition) else do
    now ← time_now
    let moved = record e { status = dropped; updated_at = now }
    map_error update_failed (update moved)
    pure moved

abbrev pub started : EnrollmentStatus → Bool
started s = is_active s || is_suspended s || is_completed s

unfoldable pub cancel_pending_enrollment :
    Option CancelPayment → Bool → Uuid → Uuid → App Enrollment
cancel_pending_enrollment client tx parent i =
    if parent == uuid_nil then raise (domain parent_required) else do
      visible ← map_error load_failed (get_by_id_for_access none (some parent) i)
      if started visible.status
          then raise (domain invalid_enrollment_transition)
          else do withdraw_enrollment_payment client visible.id; in_transaction tx (drop_pending i)

-- AssignSchedule
unfoldable pub assign_schedule : Bool → Uuid → Uuid → Uuid → App Enrollment
assign_schedule tx parent i sid = do
  e ← get_by_id_for_access none (some parent) i
  in_transaction tx (assign_schedule_row i sid)
  pure (record e { schedule_id = some sid })
