-- ===== src/Requests/Payment/Statuses.antt =====
-- Storing an invoice does not touch the status of an enrollment.
use kelolakelas_academic_ser.App.{Db, World}
use kelolakelas_academic_ser.App.Run.{Run, Run-gets, run_rules, Inv, Keeps, keep-bind}
use kelolakelas_academic_ser.Domain.{Uuid, EnrollmentStatus, Enrollment}
use kelolakelas_academic_ser.Domain.Request.{PrivateScheduleRequest}
use kelolakelas_academic_ser.Enrollment.Invoice.{InvoiceResponse}
use kelolakelas_academic_ser.Enrollment.Repository.{payable_row, update_payment_details}
use kelolakelas_academic_ser.Prelude.{
  Bool-cases, update_where, String, ◌≡◌, refl, ◌∙◌, inl, inr, Bool, false, List, [], ◌∷◌, map,
}
use kelolakelas_academic_ser.Requests.Payment.{store_checkout}
use kelolakelas_academic_ser.Requests.Payment.Kept.{statement-Keeps, store_checkout-Keeps}
use kelolakelas_academic_ser.Requests.Purchase.{ParseUrl}

abbrev pub row_status : Enrollment → Uuid × EnrollmentStatus
row_status e = (e.id, e.status)

map-update_where :
    (p : Enrollment → Bool) (f : Enrollment → Enrollment) (rows : List Enrollment)
    → ((e : Enrollment) → row_status (f e) ≡ row_status e)
    → map row_status (update_where p f rows) ≡ map row_status rows
unfolding update_where
map-update_where p f [] same = refl
map-update_where p f (e ∷ rows) same = elim (Bool-cases (p e)) [
  | inl h ↦ rw (h, same e, map-update_where p f rows same) refl
  | inr h ↦ rw (h, map-update_where p f rows same) refl
]

module _ (before : Db) where
  abbrev SameStatuses : Db → Type 0
  SameStatuses d = map row_status d.enrollments ≡ map row_status before.enrollments

  details-Keeps :
      (i transaction : Uuid) (url : String)
      → Keeps SameStatuses (update_payment_details i transaction url)
  unfolding update_payment_details
  details-Keeps i transaction url d v = Run-gets _ _ λ now.
      keep-bind _ _
        (statement-Keeps SameStatuses _
          (λ d1 v1. map-update_where (payable_row i) _ d1.enrollments (λ e. refl) ∙ v1) d v)
        λ n d' v'. search run_rules

  pub store_checkout-Run :
      (parse : ParseUrl) (key : String) (r : PrivateScheduleRequest) (e : Enrollment)
      (inv : InvoiceResponse)
      → Run false before (store_checkout parse key r e inv) (Inv SameStatuses)
  store_checkout-Run parse key r e inv =
      store_checkout-Keeps SameStatuses (λ _ _ u. u) details-Keeps parse key r e inv before refl

-- Storing the checkout that billing answered keeps the status of every enrollment: the copy of the
-- enrollment that was read before billing was asked is not written back, so a status that changed
-- in between stands, whichever calls fail.
pub store_checkout-statuses :
    (parse : ParseUrl) (key : String) (r : PrivateScheduleRequest) (e : Enrollment)
    (inv : InvoiceResponse) (w : World)
    → map row_status (store_checkout parse key r e inv w).1.db.enrollments
      ≡ map row_status w.db.enrollments
store_checkout-statuses parse key r e inv w =
    ((store_checkout-Run w.db parse key r e inv).at w.env (λ x. cc)).0
