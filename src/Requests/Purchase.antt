-- ===== src/Requests/Purchase.antt =====
-- Approve, AcceptRecommendation and the purchase that they share in
-- internal/usecase/private_schedule_request_usecase.go. The name of a UUID and the parser of URLs are
-- parameters, and so is the client of billing.
pub mod Timetable
pub mod Made
use kelolakelas_academic_ser.App.{
  Result, ok, err, App, pure, raise, ◌>>=◌, ◌>>◌, lookup, execute, map_error, attempt, new_uuid,
  time_now, today,
}
use kelolakelas_academic_ser.Calendar.{end_of_month}
use kelolakelas_academic_ser.Domain.{
  Uuid, Day, Timestamp, pending, is_pending, is_dropped, payment_pending, Enrollment, is_private,
  Class, enrollable, ClassSchedule,
}
use kelolakelas_academic_ser.Domain.Request.{
  PrivateScheduleSlot, RequestStatus, is_approved, PrivateScheduleRequest,
}
use kelolakelas_academic_ser.Enrollment.Checkout.{get_student}
use kelolakelas_academic_ser.Enrollment.Invoice.{fee_rejected}
use kelolakelas_academic_ser.Enrollment.Repository.{
  create_if_capacity_available, get_by_idempotency_key, restore_rejected_enrollment,
}
use kelolakelas_academic_ser.Enrollment.Rows.{enrollment_id, class_id, schedule_id, find_class}
use kelolakelas_academic_ser.Errors.{
  invalid_payment_method, student_ownership, class_not_enrollable, private_slot_limit_exceeded,
  private_request_not_found, private_request_transition, private_class_required,
  private_request_slots, private_selection_conflict, domain, is_not_found,
}
use kelolakelas_academic_ser.Prelude.{
  ◌==◌, if◌then◌else◌, is_some, String, Bool, true, false, not, ◌&&◌, Option, none, some, List, [],
  ◌∷◌,
}
use kelolakelas_academic_ser.Requests.Agreement.{
  has_slots, lock_request, purchasable, choose_slots, limit_check, purchase_slots,
}
use kelolakelas_academic_ser.Requests.Creation.{request_payment_method}
use kelolakelas_academic_ser.Requests.Decisions.{beyond_limit}
use kelolakelas_academic_ser.Requests.Repository.{set_status, save_approved_slots}
use kelolakelas_academic_ser.Requests.Slots.{
  valid_private_slots, same_private_slots, ApprovePrivateScheduleRequest,
}
use kelolakelas_academic_ser.Schedule.Generation.{generate_sessions}
use kelolakelas_academic_ser.Schedule.Rows.{create_schedule, batch_create}

-- *url.URL, as far as the code reads it
pub record CheckoutUrl : Type 0 where
  pub scheme : String
  pub host : String
  pub has_user : Bool

abbrev pub ParseUrl : Type 0
ParseUrl = String → Option CheckoutUrl

-- An approved request: its enrollment, unless it was dropped for another reason than the fee.
unfoldable pub approved_enrollment : String → PrivateScheduleRequest → App Enrollment
approved_enrollment key r = do
  e ← get_by_idempotency_key r.parent_id key
  if is_dropped e.status && not (fee_rejected e)
      then raise (domain private_request_transition)
      else pure e

-- An earlier purchase of the request: it is continued, or restored after a refused fee.
unfoldable pub resume_purchase :
    Bool
    → Uuid
    → PrivateScheduleRequest
    → Option ApprovePrivateScheduleRequest
    → List PrivateScheduleSlot
    → Enrollment
    → App Enrollment
resume_purchase recommendation i r approval selected e =
    if not recommendation
      && is_some approval
      && not (has_slots r.approved_slots)
      && not (same_private_slots selected r.slots)
    then raise (domain private_selection_conflict)
    else if is_pending e.status && not (is_some e.payment_transaction_id)
    then (do set_status i r.tenant_id RequestStatus.approved; pure e)
    else if not (fee_rejected e)
    then raise (domain private_request_transition)
    else (do
      restore_rejected_enrollment e.id
      set_status i r.tenant_id RequestStatus.approved
      pure (record e { status = pending; payment_status = payment_pending }))

unfoldable pub purchase_class : PrivateScheduleRequest → App Class
purchase_class r = do
  c ← lookup (find_class r.class_id)
  if not (c.tenant_id == r.tenant_id)
      then raise (domain private_request_not_found)
      else if not (is_private c.type)
      then raise (domain private_class_required)
      else if not (enrollable c)
      then raise (domain class_not_enrollable)
      else do
        student ← map_error (λ x. domain student_ownership) (get_student r.student_id)
        if student.parent_id == r.parent_id then pure c else raise (domain student_ownership)

unfoldable pub check_slots : Class → List PrivateScheduleSlot → App (Unit {0})
check_slots c slots =
    if not (valid_private_slots slots)
    then raise (domain private_request_slots)
    else if beyond_limit c.private_slot_limit slots
    then raise (domain private_slot_limit_exceeded)
    else pure tt

unfoldable pub purchase_enrollment :
    Uuid → Timestamp → String → PrivateScheduleRequest → Class → Enrollment
purchase_enrollment i now key r c = record {
  parent_email = r.parent_email;
  id = i;
  tenant_id = r.tenant_id;
  student_id = r.student_id;
  class_id = r.class_id;
  schedule_id = none;
  status = pending;
  billing_cycle = r.billing_cycle;
  idempotency_key = some key;
  payment_transaction_id = none;
  checkout_session_url = none;
  payment_status = payment_pending;
  gross_amount = c.price;
  joined_at = now;
  updated_at = now;
  deleted = false;
}

unfoldable pub slot_schedule :
    Uuid → PrivateScheduleRequest → Uuid → Day → PrivateScheduleSlot → ClassSchedule
slot_schedule i r enrollment now slot = record {
  id = i;
  class_id = r.class_id;
  enrollment_id = some enrollment;
  tutor_id = none;
  capacity = 1;
  location = none;
  day_of_week = slot.day_of_week;
  start_time = slot.start_time;
  end_time = slot.end_time;
  valid_from = some now;
  valid_until = none;
  sessions_generated_until = some (end_of_month now);
  deleted = false;
}

-- One schedule, with its sessions, for each slot.
unfoldable pub create_slots :
    PrivateScheduleRequest → Uuid → Day → List PrivateScheduleSlot → App (Unit {0})
create_slots r enrollment now [] = pure tt
create_slots r enrollment now (slot ∷ rest) = do
  i ← new_uuid
  execute (create_schedule (slot_schedule i r enrollment now slot))
  sessions ← generate_sessions (slot_schedule i r enrollment now slot) now
  batch_create sessions
  create_slots r enrollment now rest

-- if !recommendation { SaveApprovedSlots }
unfoldable pub record_selection : Bool → Uuid → Uuid → List PrivateScheduleSlot → App (Unit {0})
record_selection true i tenant slots = pure tt
record_selection false i tenant slots = save_approved_slots i tenant slots

unfoldable pub materialize :
    Bool
    → Uuid
    → String
    → PrivateScheduleRequest
    → Class
    → List PrivateScheduleSlot
    → App Enrollment
materialize recommendation i key r c slots = do
  record_selection recommendation i r.tenant_id slots
  j ← new_uuid
  created ← time_now
  let e = purchase_enrollment j created key r c
  create_if_capacity_available e
  now ← today
  create_slots r j now slots
  set_status i r.tenant_id RequestStatus.approved
  pure e

unfoldable pub first_purchase :
    Bool
    → Uuid
    → String
    → PrivateScheduleRequest
    → Option ApprovePrivateScheduleRequest
    → List PrivateScheduleSlot
    → App Enrollment
first_purchase recommendation i key r approval selected = do
  c ← purchase_class r
  limit_check recommendation approval c
  check_slots c (purchase_slots recommendation r selected)
  materialize recommendation i key r c (purchase_slots recommendation r selected)

abbrev pub by_earlier :
    Bool
    → Uuid
    → String
    → PrivateScheduleRequest
    → Option ApprovePrivateScheduleRequest
    → List PrivateScheduleSlot
    → Result Enrollment
    → App Enrollment
by_earlier recommendation i key r approval selected (ok e) =
    resume_purchase recommendation i r approval selected e
by_earlier recommendation i key r approval selected (err x) =
    if is_not_found x then first_purchase recommendation i key r approval selected else raise x

unfoldable pub purchase_locked :
    Bool
    → Uuid
    → String
    → PrivateScheduleRequest
    → Option ApprovePrivateScheduleRequest
    → App Enrollment
purchase_locked recommendation i key r approval =
    if not (purchasable recommendation r) then raise (domain private_request_transition) else do
      selected ← choose_slots recommendation r approval
      if is_approved r.status then approved_enrollment key r else do
        found ← attempt (get_by_idempotency_key r.parent_id key)
        by_earlier recommendation i key r approval selected found

-- The payment method of the row is checked, and the copy in memory carries the normal form.
abbrev pub with_known_method :
    Bool
    → Uuid
    → String
    → PrivateScheduleRequest
    → Option ApprovePrivateScheduleRequest
    → Option String
    → App (PrivateScheduleRequest × Enrollment)
with_known_method recommendation i key r approval none = raise (domain invalid_payment_method)
with_known_method recommendation i key r approval (some method) = do
  e ← purchase_locked recommendation i key r approval
  pure (record r { payment_method = method }, e)

unfoldable pub prepare_purchase :
    Bool
    → Uuid
    → Uuid
    → String
    → Option ApprovePrivateScheduleRequest
    → App (PrivateScheduleRequest × Enrollment)
prepare_purchase recommendation actor i key approval = do
  r ← lock_request recommendation actor i
  with_known_method recommendation i key r approval (request_payment_method r.payment_method)
