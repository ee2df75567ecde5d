-- ===== src/Examples/Purchases.antt =====
-- Purchases: the properties of approvals and acceptances of requests.
use kelolakelas_academic_ser.App.{World, pure}
use kelolakelas_academic_ser.App.Run.{Run-pure}
use kelolakelas_academic_ser.Domain.{Uuid, EnrollmentStatus, Enrollment}
use kelolakelas_academic_ser.Domain.Request.{RequestStatus, PrivateScheduleRequest}
use kelolakelas_academic_ser.Enrollment.Invoice.{InvoiceResponse, GenerateInvoice}
use kelolakelas_academic_ser.Enrollment.Repository.{child_of}
use kelolakelas_academic_ser.Examples.{tenant, parent, seat, academy, calm}
use kelolakelas_academic_ser.Examples.Requests.{morning, evening, wish}
use kelolakelas_academic_ser.Prelude.{
  first, any, ℕ, String, ◌≡◌, refl, false, none, some, [], ◌∷◌, map,
}
use kelolakelas_academic_ser.Requests.Agreement.{purchase_slots}
use kelolakelas_academic_ser.Requests.Payment.{purchase_key, store_checkout, purchase}
use kelolakelas_academic_ser.Requests.Payment.Once.{
  Timetable, keyed, KeepsTimetable, purchase-Timetable,
}
use kelolakelas_academic_ser.Requests.Payment.Statuses.{row_status, store_checkout-statuses}
use kelolakelas_academic_ser.Requests.PaymentLink.{
  Transaction, ParseLink, PaymentLinkClient, send_payment_link,
}
use kelolakelas_academic_ser.Requests.PaymentLink.Sending.{Careful, send_payment_link-Reads}
use kelolakelas_academic_ser.Requests.Purchase.{ParseUrl, first_purchase}
use kelolakelas_academic_ser.Requests.Purchase.Made.{MadeOf, first_purchase-Made}
use kelolakelas_academic_ser.Requests.Repository.{scoped_request, find_request}

abbrev plain_name : Uuid → String
plain_name i = "80"

-- An enrollment that an approval of the request left, with its checkout still to come.
abbrev promised : Enrollment
promised = record seat {
  id = 41;
  class_id = 11;
  schedule_id = none;
  status = EnrollmentStatus.pending;
  idempotency_key = some "private-request:80";
}

abbrev bought : World
bought = record {
  db = record academy { enrollments = promised ∷ seat ∷ []; requests = wish ∷ [] };
  env = calm;
}

abbrev invoice : InvoiceResponse
invoice = record {
  gross_amount = 100;
  transaction_id = 70;
  checkout_session_url = "https://pay/70";
}

abbrev answers : GenerateInvoice
answers asked = pure invoice

abbrev parsed : ParseUrl
parsed text = some (record { scheme = "https"; host = "pay"; has_user = false })

answers-KeepsTimetable : KeepsTimetable answers
answers-KeepsTimetable before asked d v = Run-pure invoice v

wish-found : find_request 80 (some tenant) none bought.db ≡ some wish
unfolding find_request first scoped_request
wish-found = refl

promised-found : keyed parent (purchase_key plain_name 80) bought.db ≡ some promised
unfolding first purchase_key child_of any
promised-found = refl

purchase-Timetable_example :
    Timetable bought.db (purchase answers parsed plain_name false tenant 80 none bought).1.db
purchase-Timetable_example =
    purchase-Timetable answers parsed plain_name false tenant 80 none wish promised bought
      answers-KeepsTimetable wish-found promised-found

store_checkout-statuses_example :
    map row_status
      (store_checkout parsed "private-request:80" wish promised invoice bought).1.db.enrollments
    ≡ map row_status bought.db.enrollments
store_checkout-statuses_example =
    store_checkout-statuses parsed "private-request:80" wish promised invoice bought

-- A request that waits for its first purchase.
abbrev hope : PrivateScheduleRequest
hope = record wish { status = RequestStatus.pending; decided_at = none }

abbrev hopeful : World
hopeful = record { db = record academy { requests = hope ∷ [] }; env = calm }

first_purchase-Made_example :
    let (found, w') =
      first_purchase false 80 "private-request:80" hope none (morning ∷ evening ∷ []) hopeful in
    MadeOf hope (morning ∷ evening ∷ []) hopeful.db found w'.db
unfolding purchase_slots
first_purchase-Made_example =
    first_purchase-Made false 80 "private-request:80" hope none (morning ∷ evening ∷ []) hopeful

-- The enrollment with an invoice, and a chat that takes its link.
abbrev invoiced : World
invoiced = record {
  db = record academy {
    enrollments = record promised { payment_transaction_id = some 70 } ∷ [];
    requests = wish ∷ [];
  };
  env = calm;
}

abbrev invoice_of : Transaction
invoice_of = record {
  id = 70;
  tenant_id = tenant;
  parent_id = parent;
  student_id = 20;
  enrollment_id = 41;
  status = "pending";
  checkout_session_url = "https://pay/70";
  invoice_expires_at = some 1795780800;
}

abbrev chat_client : PaymentLinkClient ℕ
chat_client = record {
  get_transaction = λ t authorization. pure invoice_of;
  send = λ input. pure input.transaction_id;
}

abbrev parsed_link : ParseLink
parsed_link text =
    some (record { scheme = "https"; hostname = "pay"; has_user = false; opaque = "" })

chat_client-Careful : Careful chat_client tenant 80 (purchase_key plain_name 80)
chat_client-Careful = record {
  reads = λ t authorization d. Run-pure _ refl;
  sends = λ input d may. Run-pure _ refl;
}

send_payment_link-Reads_example :
    (send_payment_link
      (some chat_client)
      parsed_link
      plain_name
      (λ x. false)
      tenant
      80
      "token"
      invoiced).1.db
    ≡ invoiced.db
send_payment_link-Reads_example =
    send_payment_link-Reads (some chat_client) parsed_link plain_name (λ x. false) tenant 80 "token"
      invoiced chat_client-Careful
