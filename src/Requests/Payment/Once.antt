-- ===== src/Requests/Payment/Once.antt =====
-- A request is turned into schedules at most once.
use kelolakelas_academic_ser.App.{Db, World, Result, ok, err, ◌>>=◌, attempt}
use kelolakelas_academic_ser.App.Run.{
  Run, Outcome, Run-pure, Run-raise, Run-if, Run-gets, Run-lookup_last, Run-attempt, run_rules, Inv,
  Keeps, keep-bind, keep-with_transaction, keep-map_error, keep_rules, keep-reads, keep-known,
}
use kelolakelas_academic_ser.Domain.{Uuid, uuid_nil, Timestamp, PaymentStatus, Enrollment}
use kelolakelas_academic_ser.Domain.Request.{
  PrivateScheduleSlot, RequestStatus, is_approved, PrivateScheduleRequest,
}
use kelolakelas_academic_ser.Enrollment.Invoice.{
  InvoiceRequest, GenerateInvoice, drop_row, drop_invoice_rejected, invoice_failure,
}
use kelolakelas_academic_ser.Enrollment.Lifecycle.{in_transaction}
use kelolakelas_academic_ser.Enrollment.Repository.{
  update, get_by_id, child_of, has_key, get_by_idempotency_key, update_payment_details,
  restorable_row, restored_row, restore_rows, restore_rejected_enrollment,
}
use kelolakelas_academic_ser.Enrollment.Rows.{clashes, save_row}
use kelolakelas_academic_ser.Errors.{Error, is_not_found}
use kelolakelas_academic_ser.Prelude.{
  ◌==◌, if◌then◌else◌, Bool-cases, first, any, String, ◌≡◌, refl, inl, inr, Bool, true, false, not,
  ◌&&◌, ◌||◌, Option, none, some, List, arith,
}
use kelolakelas_academic_ser.Requests.Agreement.{
  lock_request, purchasable, unless_conflicting, choose_slots,
}
use kelolakelas_academic_ser.Requests.Creation.{request_payment_method}
use kelolakelas_academic_ser.Requests.Payment.{purchase_key, purchase}
use kelolakelas_academic_ser.Requests.Payment.Kept.{
  statement-Keeps, set_status-Keeps, bill_purchase-Keeps,
}
use kelolakelas_academic_ser.Requests.Purchase.{
  ParseUrl, approved_enrollment, resume_purchase, by_earlier, purchase_locked, with_known_method,
  prepare_purchase,
}
use kelolakelas_academic_ser.Requests.Repository.{find_request, get_request, set_status}
use kelolakelas_academic_ser.Requests.Slots.{ApprovePrivateScheduleRequest, private_selected_slots}

-- The schedules and the sessions are those of before.
abbrev pub Timetable : Db → Db → Type 0
Timetable before d = (d.schedules ≡ before.schedules) × (d.sessions ≡ before.sessions)

-- The enrollment with the key of the request, of a child of the parent.
abbrev pub keyed : Uuid → String → Db → Option Enrollment
keyed parent key d = first (λ e. has_key key e && child_of parent e.student_id d) d.enrollments

module _ (before : Db) where
  update_payment-Timetable :
      (i transaction : Uuid) (url : String)
      → Keeps (Timetable before) (update_payment_details i transaction url)
  unfolding update_payment_details
  update_payment-Timetable i transaction url d v = Run-gets _ _ λ now.
      keep-bind _ _ (statement-Keeps (Timetable before) _ (λ d1 v1. v1) d v)
        λ n d' v'. search run_rules

  restore_rows-Outcome :
      (i : Uuid) (now : Timestamp) (d : Db)
      → Timetable before d
      → Outcome (Inv (Timetable before)) d (restore_rows i now d)
  unfolding restore_rows
  restore_rows-Outcome i now d v =
      elim (Bool-cases (
        any (λ e. restorable_row i e && any (clashes (restored_row now e)) d.enrollments)
          d.enrollments)) [ inl e ↦ rw e v | inr e ↦ rw e v ]

  restore-Timetable : (i : Uuid) → Keeps (Timetable before) (restore_rejected_enrollment i)
  unfolding restore_rejected_enrollment
  restore-Timetable i d v = Run-gets _ _ λ now.
      keep-bind _ _
        (keep-map_error _ _ (statement-Keeps (Timetable before) _ (restore_rows-Outcome i now) d v))
        λ n d' v'. search run_rules

  save_row-Timetable :
      (e : Enrollment) (d d' : Db) → save_row e d ≡ ok d' → Timetable before d → Timetable before d'
  unfolding save_row
  save_row-Timetable e d d' h v = ground (arith, v.0, v.1)

  drop_row-Timetable : (p : PaymentStatus) (i : Uuid) → Keeps (Timetable before) (drop_row p i)
  unfolding drop_row get_by_id update
  drop_row-Timetable p i d v = search (keep_rules, save_row-Timetable) depth 14

  release-Timetable : (i : Uuid) (x : Error) → Keeps (Timetable before) (invoice_failure true i x)
  unfolding invoice_failure drop_invoice_rejected in_transaction
  release-Timetable i x d v = search (keep_rules, drop_row-Timetable) depth 14

  set_status-Timetable :
      (i tenant : Uuid) (status : RequestStatus)
      → Keeps (Timetable before) (set_status i tenant status)
  set_status-Timetable i tenant status d v =
      set_status-Keeps (Timetable before) (λ _ _ u. u) i tenant status d v

  resume-Timetable :
      (recommendation : Bool) (i : Uuid) (r : PrivateScheduleRequest)
      (approval : Option ApprovePrivateScheduleRequest) (selected : List PrivateScheduleSlot)
      (e : Enrollment)
      → Keeps (Timetable before) (resume_purchase recommendation i r approval selected e)
  unfolding resume_purchase
  resume-Timetable recommendation i r approval selected e d v =
      search (keep_rules, restore-Timetable, set_status-Timetable) depth 14

module _ (r : PrivateScheduleRequest) (approval : Option ApprovePrivateScheduleRequest)
    (d : Db) where
  unless-Reads :
      (found : Result (List PrivateScheduleSlot))
      → Run false d (unless_conflicting r approval found) (Inv (λ d'. d' ≡ d))
  unless-Reads (err x) = Run-raise x refl
  unless-Reads (ok selected) = Run-if _ _ _ (λ _. Run-raise _ refl) λ _. Run-pure _ refl

  pub choose_slots-Reads :
      (recommendation : Bool)
      → Run false d (choose_slots recommendation r approval) (Inv (λ d'. d' ≡ d))
  unfolding choose_slots
  choose_slots-Reads true = Run-pure _ refl
  choose_slots-Reads false = unless-Reads (private_selected_slots r approval)

abbrev pub tenant_scope : Bool → Uuid → Option Uuid
tenant_scope true actor = none
tenant_scope false actor = some actor

abbrev pub parent_scope : Bool → Uuid → Option Uuid
parent_scope true actor = some actor
parent_scope false actor = none

abbrev absent : Result Enrollment → Bool
absent (ok _) = false
absent (err x) = is_not_found x

-- The request `r` that is locked, and the enrollment that an earlier purchase left.
module _ (key : String) (r : PrivateScheduleRequest) (e : Enrollment) (d : Db)
    (earlier : keyed r.parent_id key d ≡ some e) where
  approved-Timetable : Run false d (approved_enrollment key r) (Inv (Timetable d))
  unfolding approved_enrollment get_by_idempotency_key
  approved-Timetable = search run_rules

  found-Reads :
      Run false d
        (get_by_idempotency_key r.parent_id key)
        (λ found d'. (d' ≡ d) × (absent found ≡ false))
  unfolding get_by_idempotency_key
  found-Reads =
      Run-lookup_last _ (λ _. (refl, refl)) (λ h. (refl, cc (h, earlier))) (λ e' _. (refl, refl))

  by_earlier-Timetable :
      (recommendation : Bool) (i : Uuid) (approval : Option ApprovePrivateScheduleRequest)
      (selected : List PrivateScheduleSlot) (found : Result Enrollment)
      → absent found ≡ false
      → Run false d (by_earlier recommendation i key r approval selected found) (Inv (Timetable d))
  by_earlier-Timetable recommendation i approval selected (ok e') h =
      resume-Timetable d recommendation i r approval selected e' d (refl, refl)
  by_earlier-Timetable recommendation i approval selected (err x) h =
      rw h (Run-raise x (refl, refl))

  after_choice :
      (recommendation : Bool) (i : Uuid) (approval : Option ApprovePrivateScheduleRequest)
      (selected : List PrivateScheduleSlot)
      → Run false d
          (if is_approved r.status then approved_enrollment key r else do
            found ← attempt (get_by_idempotency_key r.parent_id key)
            by_earlier recommendation i key r approval selected found)
          (Inv (Timetable d))
  after_choice recommendation i approval selected =
      Run-if (is_approved r.status) _ _ (λ _. approved-Timetable)
        λ _.
          Run-attempt (λ found d'. (d' ≡ d) × (absent found ≡ false)) _ _ found-Reads
            λ found d' h. continued found d' h.0 h.1
    where
      continued :
          (found : Result Enrollment) (d' : Db)
          → d' ≡ d
          → absent found ≡ false
          → Run false d'
              (by_earlier recommendation i key r approval selected found)
              (Inv (Timetable d))
      continued found d' same h =
          rw same (by_earlier-Timetable recommendation i approval selected found h)

  purchase_locked-Timetable :
      (recommendation : Bool) (i : Uuid) (approval : Option ApprovePrivateScheduleRequest)
      → Run false d (purchase_locked recommendation i key r approval) (Inv (Timetable d))
  unfolding purchase_locked
  purchase_locked-Timetable recommendation i approval =
      Run-if (not (purchasable recommendation r)) _ _ (λ _. Run-raise _ (refl, refl))
        λ _.
          keep-reads _ _ (refl, refl) (choose_slots-Reads r approval d recommendation)
            λ selected. after_choice recommendation i approval selected

  prepared_as :
      (recommendation : Bool) (i : Uuid) (approval : Option ApprovePrivateScheduleRequest)
      (method : Option String)
      → Run false d (with_known_method recommendation i key r approval method) (Inv (Timetable d))
  prepared_as recommendation i approval none = Run-raise _ (refl, refl)
  prepared_as recommendation i approval (some method) =
      keep-bind _ _ (purchase_locked-Timetable recommendation i approval) λ e' d' v. Run-pure _ v

  pub prepare-Timetable :
      (recommendation : Bool) (actor i : Uuid) (approval : Option ApprovePrivateScheduleRequest)
      → find_request i (tenant_scope recommendation actor) (parent_scope recommendation actor) d
        ≡ some r
      → Run false d (prepare_purchase recommendation actor i key approval) (Inv (Timetable d))
  unfolding prepare_purchase lock_request get_request
  prepare-Timetable true actor i approval locked =
      keep-known _ r _ _ (refl, refl) locked
        (prepared_as true i approval (request_payment_method r.payment_method))
  prepare-Timetable false actor i approval locked =
      keep-known _ r _ _ (refl, refl) locked
        (prepared_as false i approval (request_payment_method r.payment_method))

-- Billing, and whatever else happens until it answers, leaves the timetable alone.
abbrev pub KeepsTimetable : GenerateInvoice → Type 0
KeepsTimetable generate =
    (before : Db) (asked : InvoiceRequest) → Keeps (Timetable before) (generate asked)

-- The schedules of a request are created once: an approval or an acceptance of a request whose
-- enrollment is already there, whatever has become of that enrollment, changes neither the
-- schedules nor the sessions, whatever billing answers and whichever calls fail, where billing and
-- what others do until it answers leave them alone.
pub purchase-Timetable :
    (generate : GenerateInvoice) (parse : ParseUrl) (name : Uuid → String) (recommendation : Bool)
    (actor i : Uuid) (approval : Option ApprovePrivateScheduleRequest) (r : PrivateScheduleRequest)
    (e : Enrollment) (w : World)
    → KeepsTimetable generate
    → find_request i (tenant_scope recommendation actor) (parent_scope recommendation actor) w.db
      ≡ some r
    → keyed r.parent_id (purchase_key name i) w.db ≡ some e
    → Timetable w.db (purchase generate parse name recommendation actor i approval w).1.db
unfolding purchase
purchase-Timetable generate parse name recommendation actor i approval r e w quiet locked earlier =
    (run.at w.env (λ x. cc)).0
  where
    run :
        Run false w.db
          (purchase generate parse name recommendation actor i approval)
          (Inv (Timetable w.db))
    run =
        Run-if (actor == uuid_nil || i == uuid_nil) _ _ (λ _. Run-raise _ (refl, refl))
          λ _.
            keep-bind _ _
              (keep-with_transaction _ (refl, refl)
                (prepare-Timetable (purchase_key name i) r e w.db earlier recommendation actor i
                  approval locked))
              λ prepared d v.
                bill_purchase-Keeps (Timetable w.db) (λ _ _ u. u) generate (quiet w.db)
                  (release-Timetable w.db) (update_payment-Timetable w.db) parse recommendation
                  actor i (purchase_key name i) prepared.0 prepared.1 d v
