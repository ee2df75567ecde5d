-- ===== src/Enrollment/Invoice.antt =====
-- The invoice of an enrollment in internal/usecase/enrollment_usecase.go: what billing is asked,
-- how its answer is stored, and how a refusal releases the seat. Billing is another service: its
-- client is a parameter, and the database may have moved on when it answers.
use kelolakelas_academic_ser.App.{
  Result, ok, err, App, pure, raise, ◌>>=◌, ◌>>◌, map_error, attempt, time_now,
}
use kelolakelas_academic_ser.Domain.{
  Uuid, dropped, is_pending, is_dropped, PaymentStatus, payment_pending, platform_fee_rejected,
  is_platform_fee_rejected, is_voucher_rejected, Enrollment,
}
use kelolakelas_academic_ser.Enrollment.Lifecycle.{in_transaction}
use kelolakelas_academic_ser.Enrollment.Repository.{update, get_by_id}
use kelolakelas_academic_ser.Errors.{
  DomainError, Error, domain, wrap, is_billing, is_voucher_refusal, is_platform_fee_refusal,
}
use kelolakelas_academic_ser.Prelude.{if◌then◌else◌, ℕ, String, Bool, not, ◌&&◌, some}

pub record InvoiceRequest : Type 0 where
  pub voucher_code : String
  pub tenant_id : Uuid
  pub student_id : Uuid
  pub class_id : Uuid
  pub enrollment_id : Uuid
  pub parent_id : Uuid
  pub billing_cycle : String
  pub subtotal_amount : ℕ
  pub idempotency_key : String
  pub payment_method : String
  pub title : String
  pub sender_email : String
  pub private_schedule_request : Bool

pub record InvoiceResponse : Type 0 where
  pub gross_amount : ℕ
  pub transaction_id : Uuid
  pub checkout_session_url : String

abbrev pub GenerateInvoice : Type 0
GenerateInvoice = InvoiceRequest → App InvoiceResponse

-- platformFeeRejected and voucherRejected
unfoldable pub fee_rejected : Enrollment → Bool
fee_rejected e = is_dropped e.status && is_platform_fee_rejected e.payment_status

unfoldable pub voucher_refused : Enrollment → Bool
voucher_refused e = is_dropped e.status && is_voucher_rejected e.payment_status

-- dropInvoiceRejected
unfoldable pub drop_row : PaymentStatus → Uuid → App (Unit {0})
drop_row payment i = do
  e ← get_by_id i
  if not (is_pending e.status) then pure tt else do
    now ← time_now
    update (record e { status = dropped; payment_status = payment; updated_at = now })

unfoldable pub drop_invoice_rejected : Bool → PaymentStatus → Uuid → App (Unit {0})
unfolding in_transaction
drop_invoice_rejected tx payment i = in_transaction tx (drop_row payment i)

abbrev pub voucher_release_failed : Error → Error
voucher_release_failed e = wrap "release enrollment after voucher rejection" e

abbrev pub fee_release_failed : Error → Error
fee_release_failed e = wrap "release enrollment after platform fee rejection" e

-- invoiceFailure: the error that is answered for a failed invoice
unfoldable pub invoice_failure : Bool → Uuid → Error → App Error
invoice_failure tx i e =
    if is_billing is_voucher_refusal e
    then (do
      map_error voucher_release_failed (drop_invoice_rejected tx PaymentStatus.voucher_rejected i)
      pure (domain DomainError.voucher_rejected))
    else if not (is_billing is_platform_fee_refusal e)
    then pure (wrap "generate enrollment invoice" e)
    else (do
      map_error fee_release_failed (drop_invoice_rejected tx platform_fee_rejected i)
      pure (domain DomainError.platform_fee_exceeds_gross))

-- The row with billing's answer. The row is the copy in memory, loaded before billing was asked.
unfoldable pub with_invoice : Enrollment → InvoiceResponse → Enrollment
with_invoice e r = record e {
  payment_transaction_id = some r.transaction_id;
  checkout_session_url = some r.checkout_session_url;
  payment_status = payment_pending;
  gross_amount = r.gross_amount;
}

-- `if err != nil { return nil, u.invoiceFailure(...) }`, and then the answer is stored
unfoldable pub store_invoice : Bool → Enrollment → Result InvoiceResponse → App Enrollment
store_invoice tx e (ok r) = do update (with_invoice e r); pure (with_invoice e r)
store_invoice tx e (err x) = do failure ← invoice_failure tx e.id x; raise failure

unfoldable pub request_invoice :
    GenerateInvoice → Bool → InvoiceRequest → Enrollment → App Enrollment
request_invoice generate tx asked e = do
  answered ← attempt (generate asked)
  store_invoice tx e answered
