-- ===== src/Requests/Payment.antt =====
-- The billing half of purchase in internal/usecase/private_schedule_request_usecase.go: the invoice
-- is asked for once the transaction is committed, and billing may take its time.
pub mod Kept
pub mod Once
pub mod Statuses
use kelolakelas_academic_ser.App.{
  Result, ok, err, App, pure, raise, ◌>>=◌, ◌>>◌, lookup, with_transaction, map_error, attempt,
}
use kelolakelas_academic_ser.Domain.{Uuid, uuid_nil, Enrollment, Class}
use kelolakelas_academic_ser.Domain.Request.{RequestStatus, rejected, PrivateScheduleRequest}
use kelolakelas_academic_ser.Enrollment.Invoice.{
  InvoiceRequest, InvoiceResponse, GenerateInvoice, fee_rejected, invoice_failure,
}
use kelolakelas_academic_ser.Enrollment.Repository.{get_by_idempotency_key, update_payment_details}
use kelolakelas_academic_ser.Enrollment.Rows.{enrollment_id, class_id, find_class}
use kelolakelas_academic_ser.Errors.{
  DomainError, private_request_not_found, Error, domain, message, wrap, is_domain,
  is_invalid_transition, is_platform_fee_answer,
}
use kelolakelas_academic_ser.Prelude.{
  ◌==◌, same_text, if◌then◌else◌, is_some, String, Bool, true, false, not, ◌&&◌, ◌||◌, Option, none,
  some,
}
use kelolakelas_academic_ser.Requests.Agreement.{lock_request}
use kelolakelas_academic_ser.Requests.Purchase.{CheckoutUrl, ParseUrl, prepare_purchase}
use kelolakelas_academic_ser.Requests.Repository.{set_status}
use kelolakelas_academic_ser.Requests.Slots.{ApprovePrivateScheduleRequest}
use Prim.Native.String.{◌++◌}

unfoldable pub purchase_key : (Uuid → String) → Uuid → String
purchase_key name i = "private-request:" ++ name i

unfoldable pub purchase_invoice :
    String → PrivateScheduleRequest → Class → Enrollment → InvoiceRequest
purchase_invoice key r c e = record {
  voucher_code = "";
  tenant_id = r.tenant_id;
  student_id = r.student_id;
  class_id = r.class_id;
  enrollment_id = e.id;
  parent_id = r.parent_id;
  billing_cycle = r.billing_cycle;
  subtotal_amount = e.gross_amount;
  idempotency_key = key;
  payment_method = r.payment_method;
  title = c.name;
  sender_email = r.parent_email;
  private_schedule_request = true;
}

abbrev pub reopened_status : Bool → RequestStatus
reopened_status true = rejected
reopened_status false = RequestStatus.pending

-- A refused fee reopens the request, if its enrollment was dropped for it.
unfoldable pub reopen : Bool → Uuid → Uuid → String → PrivateScheduleRequest → App (Unit {0})
reopen recommendation actor i key r = do
  lock_request recommendation actor i
  current ← get_by_idempotency_key r.parent_id key
  if fee_rejected current
      then set_status i r.tenant_id (reopened_status recommendation)
      else pure tt

abbrev pub reset_failed : Error → Error
reset_failed e = wrap "reset rejected approval" e

unfoldable pub refuse_purchase :
    Bool → Uuid → Uuid → String → PrivateScheduleRequest → Enrollment → Error → App Enrollment
refuse_purchase recommendation actor i key r e x = do
  failure ← invoice_failure true e.id x
  if is_domain is_platform_fee_answer failure
      then (do
        map_error reset_failed (with_transaction (reopen recommendation actor i key r))
        raise failure)
      else raise failure

abbrev pub checkout_host : CheckoutUrl → Bool
checkout_host u =
    not (same_text u.host "")
    && not u.has_user
    && (same_text u.scheme "https" || same_text u.scheme "http")

abbrev pub usable_url : Option CheckoutUrl → Bool
usable_url none = false
usable_url (some u) = checkout_host u

abbrev pub is_this : Option Uuid → Uuid → Bool
is_this none i = false
is_this (some j) i = j == i

abbrev pub is_text : Option String → String → Bool
is_text none t = false
is_text (some s) t = same_text s t

-- A row that has an invoice already answers, if it is the same invoice.
abbrev pub same_invoice : Error → InvoiceResponse → Result Enrollment → App Enrollment
same_invoice x inv (err _) = raise x
same_invoice x inv (ok current) =
    if is_this current.payment_transaction_id inv.transaction_id
      && is_text current.checkout_session_url inv.checkout_session_url
    then pure current
    else raise x

abbrev pub after_details :
    String
    → PrivateScheduleRequest
    → Enrollment
    → InvoiceResponse
    → Result (Unit {0})
    → App Enrollment
after_details key r e inv (ok _) = pure (record e {
  payment_transaction_id = some inv.transaction_id;
  checkout_session_url = some inv.checkout_session_url;
})
after_details key r e inv (err x) =
    if not (is_domain is_invalid_transition x)
    then raise x
    else do current ← attempt (get_by_idempotency_key r.parent_id key); same_invoice x inv current

unfoldable pub store_checkout :
    ParseUrl → String → PrivateScheduleRequest → Enrollment → InvoiceResponse → App Enrollment
store_checkout parse key r e inv =
    if inv.transaction_id == uuid_nil || not (usable_url (parse inv.checkout_session_url))
    then raise (message "billing returned invalid checkout details")
    else do
      stored ← attempt (update_payment_details e.id inv.transaction_id inv.checkout_session_url)
      after_details key r e inv stored

abbrev pub after_billing :
    ParseUrl
    → Bool
    → Uuid
    → Uuid
    → String
    → PrivateScheduleRequest
    → Enrollment
    → Result InvoiceResponse
    → App Enrollment
after_billing parse recommendation actor i key r e (err x) =
    refuse_purchase recommendation actor i key r e x
after_billing parse recommendation actor i key r e (ok inv) = store_checkout parse key r e inv

unfoldable pub bill_purchase :
    GenerateInvoice
    → ParseUrl
    → Bool
    → Uuid
    → Uuid
    → String
    → PrivateScheduleRequest
    → Enrollment
    → App Enrollment
bill_purchase generate parse recommendation actor i key r e =
    if fee_rejected e
    then raise (domain DomainError.platform_fee_exceeds_gross)
    else if is_some e.payment_transaction_id && is_some e.checkout_session_url
    then pure e
    else do
      c ← lookup (find_class r.class_id)
      answered ← attempt (generate (purchase_invoice key r c e))
      after_billing parse recommendation actor i key r e answered

unfoldable pub purchase :
    GenerateInvoice
    → ParseUrl
    → (Uuid → String)
    → Bool
    → Uuid
    → Uuid
    → Option ApprovePrivateScheduleRequest
    → App Enrollment
purchase generate parse name recommendation actor i approval =
    if actor == uuid_nil || i == uuid_nil then raise (domain private_request_not_found) else do
      prepared ←
          with_transaction (prepare_purchase recommendation actor i (purchase_key name i) approval)
      bill_purchase generate parse recommendation actor i (purchase_key name i) prepared.0
          prepared.1

unfoldable pub approve :
    GenerateInvoice
    → ParseUrl
    → (Uuid → String)
    → Uuid
    → Uuid
    → Option ApprovePrivateScheduleRequest
    → App Enrollment
approve generate parse name tenant i approval = purchase generate parse name false tenant i approval

unfoldable pub accept_recommendation :
    GenerateInvoice → ParseUrl → (Uuid → String) → Uuid → Uuid → App Enrollment
accept_recommendation generate parse name parent i = purchase generate parse name true parent i none
