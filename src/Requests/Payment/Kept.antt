-- ===== src/Requests/Payment/Kept.antt =====
-- What the writes of a request and the answers of billing leave alone.
use kelolakelas_academic_ser.App.{Db, Result, ok, err, statement}
use kelolakelas_academic_ser.App.Run.{
  Outcome, Run-pure, Run-raise, Run-if, Run-gets, Run-statement_last, run_rules, Inv, Keeps,
  keep-bind, keep-attempt, keep_rules,
}
use kelolakelas_academic_ser.Domain.{Uuid, Timestamp, Enrollment}
use kelolakelas_academic_ser.Domain.Request.{
  PrivateScheduleSlot, RequestStatus, is_request_pending, PrivateScheduleRequest,
}
use kelolakelas_academic_ser.Enrollment.Invoice.{
  InvoiceRequest, InvoiceResponse, GenerateInvoice, invoice_failure,
}
use kelolakelas_academic_ser.Enrollment.Repository.{get_by_idempotency_key, update_payment_details}
use kelolakelas_academic_ser.Errors.{Error}
use kelolakelas_academic_ser.Prelude.{
  Bool-cases, any, String, inl, inr, Bool, true, false, ◌&&◌, List,
}
use kelolakelas_academic_ser.Requests.Agreement.{lock_request}
use kelolakelas_academic_ser.Requests.Payment.{
  reopen, refuse_purchase, same_invoice, after_details, store_checkout, after_billing,
  bill_purchase,
}
use kelolakelas_academic_ser.Requests.Purchase.{ParseUrl}
use kelolakelas_academic_ser.Requests.Repository.{
  get_request, update_requests, waits_beside, of_tenant, write_status, set_status,
  save_approved_slots,
}

module _ (P : Db → Type 0) where
  pub statement-Keeps :
      {A : Type 0} (f : Db → Result (A × Db))
      → ((d : Db) → P d → Outcome (Inv P) d (f d))
      → Keeps P (statement f)
  statement-Keeps f h d v = Run-statement_last f (λ _. v) (h d v)

  -- A condition that does not read the requests.
  module _
      (any_requests : (d : Db) (rows : List PrivateScheduleRequest)
        → P d
        → P (record d { requests = rows })) where
    write_status-Outcome :
        (i tenant : Uuid) (status : RequestStatus) (now : Timestamp) (d : Db)
        → P d
        → Outcome (Inv P) d (write_status i tenant status now d)
    unfolding write_status
    write_status-Outcome i tenant status now d v =
        elim (Bool-cases (
          is_request_pending status
          && any (λ r. of_tenant i tenant r && any (waits_beside i r) d.requests) d.requests)) [
            | inl e ↦ rw e v
            | inr e ↦ rw e (any_requests d _ v)
          ]

    pub set_status-Keeps :
        (i tenant : Uuid) (status : RequestStatus) → Keeps P (set_status i tenant status)
    unfolding set_status
    set_status-Keeps i tenant status d v = Run-gets _ _ λ now.
        keep-bind _ _ (statement-Keeps _ (write_status-Outcome i tenant status now) d v)
          λ n d' v'. search run_rules

    pub save_approved_slots-Keeps :
        (i tenant : Uuid) (slots : List PrivateScheduleSlot)
        → Keeps P (save_approved_slots i tenant slots)
    unfolding save_approved_slots update_requests
    save_approved_slots-Keeps i tenant slots d v =
        keep-bind _ _ (statement-Keeps _ (λ d1 v1. any_requests d1 _ v1) d v)
          λ n d' v'. search run_rules

    pub lock_request-Keeps :
        (recommendation : Bool) (actor i : Uuid) → Keeps P (lock_request recommendation actor i)
    unfolding lock_request get_request
    lock_request-Keeps true actor i d v = search keep_rules
    lock_request-Keeps false actor i d v = search keep_rules

    pub reopen-Keeps :
        (recommendation : Bool) (actor i : Uuid) (key : String) (r : PrivateScheduleRequest)
        → Keeps P (reopen recommendation actor i key r)
    unfolding reopen get_by_idempotency_key
    reopen-Keeps recommendation actor i key r d v =
        search (keep_rules, lock_request-Keeps, set_status-Keeps) depth 12

    -- What billing does, and what others do until it answers.
    module _
        (details : (i transaction : Uuid) (url : String)
          → Keeps P (update_payment_details i transaction url)) where
      after_details-Keeps :
          (key : String) (r : PrivateScheduleRequest) (e : Enrollment) (inv : InvoiceResponse)
          (stored : Result (Unit {0}))
          → Keeps P (after_details key r e inv stored)
      unfolding get_by_idempotency_key
      after_details-Keeps key r e inv (ok _) d v = Run-pure _ v
      after_details-Keeps key r e inv (err x) d v =
          Run-if _ _ _ (λ _. Run-raise x v)
            λ _.
              keep-attempt (get_by_idempotency_key r.parent_id key) _ (search keep_rules)
                λ found d' v'. answers found d' v'
        where
          answers : (found : Result Enrollment) → Keeps P (same_invoice x inv found)
          answers (err y) d1 v1 = Run-raise x v1
          answers (ok current) d1 v1 = search run_rules

      pub store_checkout-Keeps :
          (parse : ParseUrl) (key : String) (r : PrivateScheduleRequest) (e : Enrollment)
          (inv : InvoiceResponse)
          → Keeps P (store_checkout parse key r e inv)
      unfolding store_checkout
      store_checkout-Keeps parse key r e inv d v =
          search (keep_rules, details, after_details-Keeps) depth 12

    module _ (generate : GenerateInvoice)
        (asks : (asked : InvoiceRequest) → Keeps P (generate asked))
        (releases : (i : Uuid) (x : Error) → Keeps P (invoice_failure true i x))
        (details : (i transaction : Uuid) (url : String)
          → Keeps P (update_payment_details i transaction url)) where
      refuse-Keeps :
          (recommendation : Bool) (actor i : Uuid) (key : String) (r : PrivateScheduleRequest)
          (e : Enrollment) (x : Error)
          → Keeps P (refuse_purchase recommendation actor i key r e x)
      unfolding refuse_purchase
      refuse-Keeps recommendation actor i key r e x d v =
          search (keep_rules, releases, reopen-Keeps) depth 14

      after_billing-Keeps :
          (parse : ParseUrl) (recommendation : Bool) (actor i : Uuid) (key : String)
          (r : PrivateScheduleRequest) (e : Enrollment) (answered : Result InvoiceResponse)
          → Keeps P (after_billing parse recommendation actor i key r e answered)
      after_billing-Keeps parse recommendation actor i key r e (err x) d v =
          refuse-Keeps recommendation actor i key r e x d v
      after_billing-Keeps parse recommendation actor i key r e (ok inv) d v =
          store_checkout-Keeps details parse key r e inv d v

      pub bill_purchase-Keeps :
          (parse : ParseUrl) (recommendation : Bool) (actor i : Uuid) (key : String)
          (r : PrivateScheduleRequest) (e : Enrollment)
          → Keeps P (bill_purchase generate parse recommendation actor i key r e)
      unfolding bill_purchase
      bill_purchase-Keeps parse recommendation actor i key r e d v =
          search (keep_rules, asks, after_billing-Keeps) depth 14
