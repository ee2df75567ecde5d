-- ===== src/Enrollment/Checkout.antt =====
-- EnrollPublic of internal/usecase/enrollment_usecase.go: a parent's signup with an idempotency
-- key, the seat reservation and the invoice.
pub mod Private
pub mod Invoices
use kelolakelas_academic_ser.App.{
  Db, Result, ok, err, App, pure, raise, ◌>>=◌, ◌>>◌, lookup, map_error, attempt, new_uuid,
  time_now,
}
use kelolakelas_academic_ser.Domain.{
  Uuid, uuid_nil, Timestamp, pending, payment_pending, Enrollment, is_private, is_group, Class,
  enrollable, Student,
}
use kelolakelas_academic_ser.Enrollment.Invoice.{
  InvoiceRequest, GenerateInvoice, fee_rejected, voucher_refused, request_invoice,
}
use kelolakelas_academic_ser.Enrollment.Lifecycle.{in_transaction}
use kelolakelas_academic_ser.Enrollment.Repository.{
  create_if_capacity_available, get_by_idempotency_key, get_by_idempotency_key_any,
}
use kelolakelas_academic_ser.Enrollment.Rows.{
  enrollment_id, class_id, schedule_id, live_row, find_class,
}
use kelolakelas_academic_ser.Errors.{
  DomainError, idempotency_conflict, parent_required, invalid_payment_method, student_ownership,
  student_not_found, schedule_required, class_not_enrollable, private_checkout, Error, domain,
  message, is_not_found,
}
use kelolakelas_academic_ser.Prelude.{
  ◌==◌, same_text, if◌then◌else◌, is_some, by_id, String, Bool, false, not, ◌&&◌, ◌||◌, Option,
  none, some,
}

pub record PublicEnrollmentRequest : Type 0 where
  pub voucher_code : String
  pub student_id : Uuid
  pub billing_cycle : String
  pub schedule_id : Option Uuid
  pub payment_method : String
  pub sender_email : String

-- case "", "VC", "VA", "BC", "SP", "NQ"
unfoldable pub accepts_method : String → Bool
accepts_method m =
    same_text m ""
    || same_text m "VC"
    || same_text m "VA"
    || same_text m "BC"
    || same_text m "SP"
    || same_text m "NQ"

-- classRepo.GetByID and studentRepo.GetByID
unfoldable pub get_class : Uuid → App Class
get_class i = lookup (find_class i)

abbrev pub student_key : Student → Uuid
student_key s = s.id

unfoldable pub find_student : Uuid → Db → Option Student
find_student i d = live_row (λ s. s.deleted) (by_id student_key i d.students)

abbrev pub student_missing : Error → Error
student_missing e = if is_not_found e then domain student_not_found else e

unfoldable pub get_student : Uuid → App Student
get_student i = map_error student_missing (lookup (find_student i))

-- A replay of a key has to be the same request.
unfoldable pub same_request : Uuid → Uuid → String → Enrollment → Bool
same_request class student cycle e =
    e.class_id == class && e.student_id == student && same_text e.billing_cycle cycle

-- The verdicts on a replay that come after the class is known to be no private one.
unfoldable pub reject_replay : Enrollment → App (Unit {0})
reject_replay e =
    if voucher_refused e
    then raise (domain DomainError.voucher_rejected)
    else if fee_rejected e
    then raise (domain DomainError.platform_fee_exceeds_gross)
    else pure tt

unfoldable pub checkout_invoice :
    Uuid → PublicEnrollmentRequest → String → Class → Enrollment → InvoiceRequest
checkout_invoice parent req key class e = record {
  voucher_code = req.voucher_code;
  tenant_id = e.tenant_id;
  student_id = e.student_id;
  class_id = e.class_id;
  enrollment_id = e.id;
  parent_id = parent;
  billing_cycle = e.billing_cycle;
  subtotal_amount = class.price;
  idempotency_key = key;
  payment_method = req.payment_method;
  title = class.name;
  sender_email = req.sender_email;
  private_schedule_request = false;
}

abbrev pub dependencies_missing : Error → Error
dependencies_missing e = message "recover enrollment dependencies"

-- A replay of an enrollment that has no invoice yet asks for it again.
unfoldable pub recover_invoice :
    GenerateInvoice → Bool → Uuid → PublicEnrollmentRequest → String → Enrollment → App Enrollment
recover_invoice generate tx parent req key e = do
  map_error dependencies_missing (get_student e.student_id)
  class ← map_error dependencies_missing (get_class e.class_id)
  request_invoice generate tx (checkout_invoice parent req key class e) e

unfoldable pub replay_public :
    GenerateInvoice
    → Bool
    → Uuid
    → Uuid
    → PublicEnrollmentRequest
    → String
    → Enrollment
    → App Enrollment
replay_public generate tx parent class_id req key e =
    if not (same_request class_id req.student_id req.billing_cycle e)
    then raise (domain idempotency_conflict)
    else do
      class ← get_class class_id
      if is_private class.type then raise (domain private_checkout) else do
        reject_replay e
        if is_some e.payment_transaction_id
            then pure e
            else recover_invoice generate tx parent req key e

-- The key of a lost race: the row that won it answers the request, or the error stands.
unfoldable pub answer_race :
    Uuid → PublicEnrollmentRequest → Error → Result Enrollment → App Enrollment
answer_race class_id req refusal (err _) = raise refusal
answer_race class_id req refusal (ok e) =
    if not (same_request class_id req.student_id req.billing_cycle e)
    then raise (domain idempotency_conflict)
    else do reject_replay e; pure e

unfoldable pub lost_race : Uuid → PublicEnrollmentRequest → String → Error → App Enrollment
lost_race class_id req key refusal = do
  found ← attempt (get_by_idempotency_key_any key)
  answer_race class_id req refusal found

unfoldable pub new_enrollment :
    Uuid → Timestamp → PublicEnrollmentRequest → String → Student → Class → Enrollment
new_enrollment i now req key student class = record {
  parent_email = req.sender_email;
  id = i;
  tenant_id = class.tenant_id;
  student_id = student.id;
  class_id = class.id;
  schedule_id = req.schedule_id;
  status = pending;
  billing_cycle = req.billing_cycle;
  idempotency_key = some key;
  payment_transaction_id = none;
  checkout_session_url = none;
  payment_status = payment_pending;
  gross_amount = class.price;
  joined_at = now;
  updated_at = now;
  deleted = false;
}

unfoldable pub after_create :
    GenerateInvoice
    → Bool
    → Uuid
    → Uuid
    → PublicEnrollmentRequest
    → String
    → Class
    → Enrollment
    → Result (Unit {0})
    → App Enrollment
after_create generate tx parent class_id req key class e (err refusal) =
    lost_race class_id req key refusal
after_create generate tx parent class_id req key class e (ok _) =
    request_invoice generate tx (checkout_invoice parent req key class e) e

abbrev pub class_missing : Error → Error
class_missing e = domain DomainError.class_not_found

abbrev pub any_student_error : Error → Error
any_student_error e = domain student_not_found

-- EnrollPublic for a key that no enrollment of the parent's children has.
unfoldable pub first_checkout :
    GenerateInvoice → Bool → Uuid → Uuid → PublicEnrollmentRequest → String → App Enrollment
unfolding in_transaction
first_checkout generate tx parent class_id req key = do
  checkout_class ← get_class class_id
  if is_private checkout_class.type then raise (domain private_checkout) else do
    student ← map_error any_student_error (get_student req.student_id)
    if not (student.parent_id == parent) then raise (domain student_ownership) else do
      class ← map_error class_missing (get_class class_id)
      if not (enrollable class)
          then raise (domain class_not_enrollable)
          else if is_group class.type && not (is_some req.schedule_id)
          then raise (domain schedule_required)
          else do
            i ← new_uuid
            now ← time_now
            let e = new_enrollment i now req key student class
            created ← attempt (in_transaction tx (create_if_capacity_available e))
            after_create generate tx parent class_id req key class e created

unfoldable pub checkout_by_key :
    GenerateInvoice
    → Bool
    → Uuid
    → Uuid
    → PublicEnrollmentRequest
    → String
    → Result Enrollment
    → App Enrollment
checkout_by_key generate tx parent class_id req key (ok e) =
    replay_public generate tx parent class_id req key e
checkout_by_key generate tx parent class_id req key (err x) =
    if is_not_found x then first_checkout generate tx parent class_id req key else raise x

unfoldable pub enroll_public :
    GenerateInvoice → Bool → Uuid → Uuid → PublicEnrollmentRequest → String → App Enrollment
enroll_public generate tx parent class_id req key =
    if not (accepts_method req.payment_method)
    then raise (domain invalid_payment_method)
    else if parent == uuid_nil
    then raise (domain parent_required)
    else if same_text key ""
    then raise (message "idempotency key is required")
    else do
      existing ← attempt (get_by_idempotency_key parent key)
      checkout_by_key generate tx parent class_id req key existing
