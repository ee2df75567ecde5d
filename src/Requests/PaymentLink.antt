-- ===== src/Requests/PaymentLink.antt =====
-- internal/usecase/private_payment_link.go: the link to a pending invoice, sent to the chat of a
-- request. Billing and the chat are another service: its client and the parser of URLs are
-- parameters.
pub mod Sending
use kelolakelas_academic_ser.App.{App, raise, ◌>>=◌, ◌>>◌, map_error, time_now}
use kelolakelas_academic_ser.Domain.{Uuid, uuid_nil, Timestamp, is_pending, Enrollment}
use kelolakelas_academic_ser.Domain.Request.{is_approved, PrivateScheduleRequest}
use kelolakelas_academic_ser.Enrollment.Repository.{get_by_idempotency_key}
use kelolakelas_academic_ser.Enrollment.Rows.{enrollment_id}
use kelolakelas_academic_ser.Errors.{
  private_request_not_found, payment_link_inactive, Error, domain, usecase, message,
}
use kelolakelas_academic_ser.Prelude.{
  ltb, leb, ◌==◌, same_text, if◌then◌else◌, String, Bool, false, not, ◌&&◌, ◌||◌, Option, none,
  some,
}
use kelolakelas_academic_ser.Requests.Decisions.{trim_left, trim_right}
use kelolakelas_academic_ser.Requests.Payment.{purchase_key}
use kelolakelas_academic_ser.Requests.Repository.{request_id, get_request}
use Prim.Native.String.{String as Text, len}

-- paymentlink.Transaction and paymentlink.Input
pub record Transaction : Type 0 where
  pub id : Uuid
  pub tenant_id : Uuid
  pub parent_id : Uuid
  pub student_id : Uuid
  pub enrollment_id : Uuid
  pub status : String
  pub checkout_session_url : Text
  pub invoice_expires_at : Option Timestamp

pub record LinkInput : Type 0 where
  pub request_id : Uuid
  pub tenant_id : Uuid
  pub parent_user_id : Uuid
  pub transaction_id : Uuid
  pub checkout_session_url : Text
  pub invoice_expires_at : Timestamp

-- *url.URL, as far as the code reads it
pub record LinkUrl : Type 0 where
  pub scheme : String
  pub hostname : String
  pub has_user : Bool
  pub opaque : String

abbrev pub ParseLink : Type 0
ParseLink = Text → Option LinkUrl

-- paymentlink.Client. The error of Send is ErrInactive or another one.
pub record PaymentLinkClient (Message : Type 0) : Type 1 where
  pub get_transaction : Uuid → String → App Transaction
  pub send : LinkInput → App Message

unfoldable pub addressed : Uuid → Uuid → PrivateScheduleRequest → Bool
addressed tenant i r =
    r.id == i
    && r.tenant_id == tenant
    && not (r.parent_id == uuid_nil)
    && not (r.student_id == uuid_nil)

abbrev pub has_text : Option String → String → Bool
has_text none t = false
has_text (some s) t = same_text s t

unfoldable pub enrolled_for : Uuid → String → PrivateScheduleRequest → Enrollment → Bool
enrolled_for tenant key r e =
    not (e.id == uuid_nil)
    && e.tenant_id == tenant
    && e.student_id == r.student_id
    && e.class_id == r.class_id
    && has_text e.idempotency_key key

abbrev pub known_transaction : Option Uuid → Option Uuid
known_transaction none = none
known_transaction (some t) = if t == uuid_nil then none else some t

-- The transaction of a pending enrollment.
unfoldable pub payable_transaction : Enrollment → Option Uuid
payable_transaction e =
    if is_pending e.status then known_transaction e.payment_transaction_id else none

unfoldable pub matches : Uuid → Uuid → PrivateScheduleRequest → Enrollment → Transaction → Bool
matches tenant i r e t =
    t.id == i
    && t.tenant_id == tenant
    && t.parent_id == r.parent_id
    && t.student_id == r.student_id
    && t.enrollment_id == e.id

abbrev pub link_host : Option LinkUrl → Bool
link_host none = false
link_host (some u) =
    (same_text u.scheme "http" || same_text u.scheme "https")
    && not (same_text u.hostname "")
    && not u.has_user
    && same_text u.opaque ""

abbrev pub unexpired : Option Timestamp → Timestamp → Option Timestamp
unexpired none now = none
unexpired (some expires) now = if ltb now expires then some expires else none

-- When the invoice is pending, and has not expired, and its link can be sent.
unfoldable pub sendable_until : ParseLink → Transaction → Timestamp → Option Timestamp
sendable_until parse t now =
    if same_text t.status "pending"
      && leb (len t.checkout_session_url) 1800
      && same_text (trim_left (trim_right t.checkout_session_url)) t.checkout_session_url
      && link_host (parse t.checkout_session_url)
    then unexpired t.invoice_expires_at now
    else none

module _ {Message : Type 0} (client : PaymentLinkClient Message) (parse : ParseLink) where
  abbrev pub send_error : (Error → Bool) → Error → Error
  send_error inactive x =
      if inactive x then usecase payment_link_inactive else message "payment link unavailable"

  abbrev pub send_until :
      (Error → Bool)
      → Uuid
      → Uuid
      → PrivateScheduleRequest
      → Transaction
      → Option Timestamp
      → App Message
  send_until inactive tenant i r t none = raise (usecase payment_link_inactive)
  send_until inactive tenant i r t (some expires) = map_error (send_error inactive) (
      client.send (record {
        request_id = i;
        tenant_id = tenant;
        parent_user_id = r.parent_id;
        transaction_id = t.id;
        checkout_session_url = t.checkout_session_url;
        invoice_expires_at = expires;
      }))

  abbrev pub send_checked :
      (Error → Bool)
      → Uuid
      → Uuid
      → String
      → PrivateScheduleRequest
      → Enrollment
      → Uuid
      → App Message
  send_checked inactive tenant i authorization r e transaction = do
    t ←
        map_error (λ x. message "payment link unavailable")
          (client.get_transaction transaction authorization)
    if not (matches tenant transaction r e t)
        then raise (message "payment link unavailable")
        else do now ← time_now; send_until inactive tenant i r t (sendable_until parse t now)

module _ {Message : Type 0} (client : Option (PaymentLinkClient Message)) (parse : ParseLink) where
  abbrev pub send_for :
      (Error → Bool)
      → Uuid
      → Uuid
      → String
      → PrivateScheduleRequest
      → Enrollment
      → Option (PaymentLinkClient Message)
      → Option Uuid
      → App Message
  send_for inactive tenant i authorization r e present none = raise (usecase payment_link_inactive)
  send_for inactive tenant i authorization r e none (some transaction) =
      raise (message "payment link unavailable")
  send_for inactive tenant i authorization r e (some c) (some transaction) =
      send_checked c parse inactive tenant i authorization r e transaction

  -- SendPaymentLink
  unfoldable pub send_payment_link :
      (Uuid → String) → (Error → Bool) → Uuid → Uuid → String → App Message
  send_payment_link name inactive tenant i authorization =
      if tenant == uuid_nil || i == uuid_nil then raise (domain private_request_not_found) else do
        r ← get_request i (some tenant) none
        if not (addressed tenant i r)
            then raise (domain private_request_not_found)
            else if not (is_approved r.status)
            then raise (usecase payment_link_inactive)
            else do
              e ← get_by_idempotency_key r.parent_id (purchase_key name i)
              if not (enrolled_for tenant (purchase_key name i) r e)
                  then raise (domain private_request_not_found)
                  else send_for inactive tenant i authorization r e client (payable_transaction e)
