-- ===== src/Enrollment/EnrollStudent.antt =====
-- EnrollStudent of internal/usecase/enrollment_usecase.go: a tenant's signup of a student.
use kelolakelas_academic_ser.App.{
  Result, ok, err, App, pure, raise, ◌>>=◌, ◌>>◌, map_error, attempt, new_uuid, time_now,
}
use kelolakelas_academic_ser.Domain.{Uuid, payment_pending, Enrollment, is_private, enrollable}
use kelolakelas_academic_ser.Enrollment.Checkout.{
  PublicEnrollmentRequest, accepts_method, get_class, get_student, same_request, reject_replay,
  checkout_invoice, new_enrollment,
}
use kelolakelas_academic_ser.Enrollment.Invoice.{InvoiceResponse, GenerateInvoice, invoice_failure}
use kelolakelas_academic_ser.Enrollment.Lifecycle.{in_transaction}
use kelolakelas_academic_ser.Enrollment.Repository.{
  update, create_if_capacity_available, get_by_idempotency_key_for_tenant,
}
use kelolakelas_academic_ser.Errors.{
  idempotency_conflict, invalid_payment_method, class_not_enrollable, private_checkout, Error,
  domain, message, wrap, is_not_found,
}
use kelolakelas_academic_ser.Prelude.{
  ◌==◌, same_text, if◌then◌else◌, String, Bool, not, Option, some,
}

pub record EnrollStudentRequest : Type 0 where
  pub student_id : Uuid
  pub class_id : Uuid
  pub billing_cycle : String
  pub schedule_id : Option Uuid
  pub payment_method : String
  pub idempotency_key : String

abbrev pub student_lookup_failed : Error → Error
student_lookup_failed e = wrap "student not found" e

abbrev pub class_lookup_failed : Error → Error
class_lookup_failed e = wrap "class not found" e

abbrev pub create_failed : Error → Error
create_failed e = wrap "create enrollment" e

-- The request of EnrollStudent as the row and the invoice see it: no voucher and no sender.
abbrev pub as_public : EnrollStudentRequest → PublicEnrollmentRequest
as_public req = record {
  voucher_code = "";
  student_id = req.student_id;
  billing_cycle = req.billing_cycle;
  schedule_id = req.schedule_id;
  payment_method = req.payment_method;
  sender_email = "";
}

-- EnrollStudent stores billing's answer without its gross amount.
unfoldable pub with_invoice_details : Enrollment → InvoiceResponse → Enrollment
with_invoice_details e r = record e {
  payment_transaction_id = some r.transaction_id;
  checkout_session_url = some r.checkout_session_url;
  payment_status = payment_pending;
}

abbrev pub save_details_failed : Error → Error
save_details_failed e = wrap "save enrollment payment details" e

unfoldable pub store_details : Bool → Enrollment → Result InvoiceResponse → App Enrollment
store_details tx e (ok r) = do
  map_error save_details_failed (update (with_invoice_details e r))
  pure (with_invoice_details e r)
store_details tx e (err x) = do refusal ← invoice_failure tx e.id x; raise refusal

unfoldable pub replay_student : EnrollStudentRequest → Enrollment → App Enrollment
replay_student req e =
    if not (same_request req.class_id req.student_id req.billing_cycle e)
    then raise (domain idempotency_conflict)
    else do
      class ← get_class req.class_id
      if is_private class.type then raise (domain private_checkout) else do reject_replay e; pure e

unfoldable pub first_enrollment :
    GenerateInvoice → Bool → Uuid → EnrollStudentRequest → App Enrollment
unfolding in_transaction
first_enrollment generate tx tenant req = do
  student ← map_error student_lookup_failed (get_student req.student_id)
  class ← map_error class_lookup_failed (get_class req.class_id)
  if not (class.tenant_id == tenant)
      then raise (message "class does not belong to tenant")
      else if is_private class.type
      then raise (domain private_checkout)
      else if not (enrollable class)
      then raise (domain class_not_enrollable)
      else do
        i ← new_uuid
        now ← time_now
        let e = new_enrollment i now (as_public req) req.idempotency_key student class
        map_error create_failed (in_transaction tx (create_if_capacity_available e))
        answered ← attempt (
            generate
              (checkout_invoice student.parent_id (as_public req) req.idempotency_key class e))
        store_details tx e answered

unfoldable pub enroll_by_key :
    GenerateInvoice → Bool → Uuid → EnrollStudentRequest → Result Enrollment → App Enrollment
enroll_by_key generate tx tenant req (ok e) = replay_student req e
enroll_by_key generate tx tenant req (err x) =
    if is_not_found x then first_enrollment generate tx tenant req else raise x

unfoldable pub enroll_student :
    GenerateInvoice → Bool → Uuid → EnrollStudentRequest → App Enrollment
enroll_student generate tx tenant req =
    if not (accepts_method req.payment_method)
    then raise (domain invalid_payment_method)
    else if same_text req.idempotency_key ""
    then raise (message "idempotency key is required")
    else do
      existing ← attempt (get_by_idempotency_key_for_tenant tenant req.idempotency_key)
      enroll_by_key generate tx tenant req existing
