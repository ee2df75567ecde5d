-- ===== src/Examples/Enrollments.antt =====
-- Enrollments: the properties of signup, status changes and checkout on the academy.
use kelolakelas_academic_ser.App.{ok, pure}
use kelolakelas_academic_ser.Domain.{pending, Enrollment}
use kelolakelas_academic_ser.Enrollment.Capacity.{WithinCapacity}
use kelolakelas_academic_ser.Enrollment.Checkout.{PublicEnrollmentRequest, enroll_public}
use kelolakelas_academic_ser.Enrollment.Checkout.Invoices.{KeptStatus, request_invoice-stale}
use kelolakelas_academic_ser.Enrollment.Checkout.Private.{Refused, enroll_public-private}
use kelolakelas_academic_ser.Enrollment.Invoice.{
  InvoiceRequest, InvoiceResponse, GenerateInvoice, request_invoice,
}
use kelolakelas_academic_ser.Enrollment.Lifecycle.Table.{
  suspending, verdict, request, expected, request-table,
}
use kelolakelas_academic_ser.Enrollment.Operations.{sign_up, suspension, resumption, perform_all}
use kelolakelas_academic_ser.Enrollment.Operations.Invariant.{perform_all-WithinCapacity}
use kelolakelas_academic_ser.Enrollment.Rows.{find_class, find_enrollment}
use kelolakelas_academic_ser.Examples.{
  tenant, parent, private_class, seat, academy, monday_world, academy-WithinCapacity,
}
use kelolakelas_academic_ser.Prelude.{by_id, ◌≡◌, refl, true, false, none, some, [], ◌∷◌}

abbrev newcomer : Enrollment
newcomer = record seat { id = 41; student_id = 21; status = pending }

perform_all-WithinCapacity_example :
    WithinCapacity
      (perform_all none (sign_up newcomer ∷ suspension 40 ∷ resumption 40 ∷ []) monday_world).db
perform_all-WithinCapacity_example =
    perform_all-WithinCapacity none (sign_up newcomer ∷ suspension 40 ∷ resumption 40 ∷ [])
      monday_world tt academy-WithinCapacity

seat_found : find_enrollment 40 academy ≡ some seat
unfolding find_enrollment by_id
seat_found = refl

request-table_example :
    request suspending true 40 monday_world
    ≡ expected (verdict suspending seat.status) suspending seat monday_world
request-table_example = request-table suspending 40 seat monday_world refl seat_found

abbrev checkout : PublicEnrollmentRequest
checkout = record {
  voucher_code = "";
  student_id = 20;
  billing_cycle = "monthly";
  schedule_id = none;
  payment_method = "VA";
  sender_email = "parent@example.com";
}

abbrev billed : InvoiceResponse
billed = record { gross_amount = 100; transaction_id = 60; checkout_session_url = "https://pay" }

abbrev bill : GenerateInvoice
bill req = pure billed

piano_found : find_class 11 academy ≡ some private_class
unfolding find_class by_id
piano_found = refl

enroll_public-private_example :
    let (r, w') = enroll_public bill true parent 11 checkout "key" monday_world in
    Refused academy r w'.db
enroll_public-private_example =
    enroll_public-private bill true parent 11 checkout "key" private_class monday_world piano_found
      refl

-- Billing activates the enrollment before it answers.
abbrev slow_bill : GenerateInvoice
slow_bill req w = (ok billed, record w { db = record academy { enrollments = seat ∷ [] } })

abbrev asked : InvoiceRequest
asked = record {
  voucher_code = "";
  tenant_id = tenant;
  student_id = 20;
  class_id = 10;
  enrollment_id = 40;
  parent_id = parent;
  billing_cycle = "monthly";
  subtotal_amount = 100;
  idempotency_key = "key";
  payment_method = "VA";
  title = "Math";
  sender_email = "parent@example.com";
  private_schedule_request = false;
}

request_invoice-stale_example :
    let (r, w') =
      request_invoice slow_bill true asked (record seat { status = pending }) monday_world in
    KeptStatus (record seat { status = pending }) r w'.db
request_invoice-stale_example =
    request_invoice-stale slow_bill true asked (record seat { status = pending }) monday_world
