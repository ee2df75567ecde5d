-- ===== src/Enrollment/Checkout/Invoices.antt =====
-- What becomes of an enrollment when billing answers.
use kelolakelas_academic_ser.App.{Db, World, Result, ok, err, raise, ◌>>=◌, attempt}
use kelolakelas_academic_ser.App.Run.{
  Post, Run, Run-pure, Run-raise, Run-bind, Run-execute, Run-any,
}
use kelolakelas_academic_ser.Domain.{Enrollment}
use kelolakelas_academic_ser.Enrollment.Invoice.{
  InvoiceRequest, InvoiceResponse, GenerateInvoice, invoice_failure, with_invoice, store_invoice,
  request_invoice,
}
use kelolakelas_academic_ser.Enrollment.Repository.{update}
use kelolakelas_academic_ser.Enrollment.Rows.{enrollment_id, put_row, save_row}
use kelolakelas_academic_ser.Prelude.{
  Option-cases, by_id, by_id-replace, ◌≡◌, refl, inl, inr, Bool, false, some, List, arith,
}

-- The row of `e` stands in the database with the status that `e` has.
abbrev pub KeptStatus : Enrollment → Post Enrollment
KeptStatus e (ok _) d =
    (r : Enrollment) × (by_id enrollment_id e.id d.enrollments ≡ some r) × (r.status ≡ e.status)
KeptStatus e (err _) d = Unit {0}

by_id-put_row :
    (e : Enrollment) (rows : List Enrollment)
    → by_id enrollment_id e.id (put_row e rows (by_id enrollment_id e.id rows)) ≡ some e
unfolding by_id
by_id-put_row e rows = elim (Option-cases (by_id enrollment_id e.id rows)) [
  | inl missing ↦ rw missing (ground arith)
  | inr (old, found) ↦
      rw found (rw (by_id-replace enrollment_id e.id e old rows found) (ground arith))
]

save_row-row :
    (e : Enrollment) (d d' : Db)
    → save_row e d ≡ ok d'
    → by_id enrollment_id e.id d'.enrollments ≡ some e
unfolding save_row
save_row-row e d d' h = ground (arith, by_id-put_row e d.enrollments)

store_invoice-stale :
    (tx : Bool) (e : Enrollment) (answered : Result InvoiceResponse) (d : Db)
    → Run false d (store_invoice tx e answered) (KeptStatus e)
unfolding store_invoice update with_invoice
store_invoice-stale tx e (ok r) d =
    Run-execute (save_row (with_invoice e r)) _ (λ _. tt) (λ _ _. tt)
      λ d' saved. Run-pure _ (with_invoice e r, save_row-row (with_invoice e r) d d' saved, refl)
store_invoice-stale tx e (err x) d =
    Run-bind (λ _ _. Unit {0}) (invoice_failure tx e.id x) raise (Run-any _)
      (λ refusal d' _. Run-raise refusal tt) (λ _ _ _. tt)

-- Billing's answer is stored with the whole row as it was before billing was asked: whatever
-- happened to the enrollment meanwhile, a successful answer leaves it with its earlier status.
pub request_invoice-stale :
    (generate : GenerateInvoice) (tx : Bool) (asked : InvoiceRequest) (e : Enrollment) (w : World)
    → let (r, w') = request_invoice generate tx asked e w in KeptStatus e r w'.db
unfolding request_invoice ◌>>=◌ attempt
request_invoice-stale generate tx asked e w =
    let (answered, later) = generate asked w in
    ((store_invoice-stale tx e answered later.db).at later.env (λ r. cc)).0
