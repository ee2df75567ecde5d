-- ===== src/Requests/PaymentLink/Sending.antt =====
-- Which links are sent.
use kelolakelas_academic_ser.App.{Db, World}
use kelolakelas_academic_ser.App.Run.{
  Run, Run-raise, Run-if, Run-gets, Run-lookup, Run-lookup_last, Run-map_error-then, Inv, keep-bind,
  keep-map_error,
}
use kelolakelas_academic_ser.Domain.{Uuid, uuid_nil, Timestamp, is_pending, Enrollment}
use kelolakelas_academic_ser.Domain.Request.{is_approved, PrivateScheduleRequest}
use kelolakelas_academic_ser.Enrollment.Repository.{get_by_idempotency_key}
use kelolakelas_academic_ser.Errors.{Error}
use kelolakelas_academic_ser.Prelude.{
  ◌==◌, String, ◌≡◌, refl, Bool, true, false, not, ◌||◌, Option, none, some, arith,
}
use kelolakelas_academic_ser.Requests.Payment.{purchase_key}
use kelolakelas_academic_ser.Requests.Payment.Once.{keyed}
use kelolakelas_academic_ser.Requests.PaymentLink.{
  Transaction, LinkInput, ParseLink, PaymentLinkClient, addressed, enrolled_for,
  payable_transaction, matches, sendable_until, send_until, send_checked, send_for,
  send_payment_link,
}
use kelolakelas_academic_ser.Requests.Repository.{find_request, get_request}

-- A link of an approved request to the checkout of its pending enrollment.
abbrev pub Sendable : Uuid → Uuid → String → Db → LinkInput → Type 0
Sendable tenant i key d input =
    (r : PrivateScheduleRequest) × (e : Enrollment) × (find_request i (some tenant) none d ≡ some r)
    × (is_approved r.status ≡ true)
    × (keyed r.parent_id key d ≡ some e)
    × (is_pending e.status ≡ true)
    × (e.payment_transaction_id ≡ some input.transaction_id)
    × (input.parent_user_id ≡ r.parent_id)
    × (input.request_id ≡ i)

-- The client answers with a transaction and writes nothing to this database; of a link, that is
-- only known where it is one that may be sent.
pub record Careful {Message : Type 0} (client : PaymentLinkClient Message) (tenant i : Uuid)
    (key : String) : Type 0 where
  pub reads :
      (transaction : Uuid) (authorization : String) (d : Db)
      → Run false d (client.get_transaction transaction authorization) (λ t d'. d' ≡ d)
  pub sends :
      (input : LinkInput) (d : Db)
      → Sendable tenant i key d input
      → Run false d (client.send input) (λ m d'. d' ≡ d)

payable-facts :
    (e : Enrollment) (transaction : Uuid)
    → payable_transaction e ≡ some transaction
    → (is_pending e.status ≡ true) × (e.payment_transaction_id ≡ some transaction)
unfolding payable_transaction
payable-facts e transaction h = ground arith

matches-id :
    (tenant transaction : Uuid) (r : PrivateScheduleRequest) (e : Enrollment) (t : Transaction)
    → not (matches tenant transaction r e t) ≡ false
    → t.id ≡ transaction
unfolding matches
matches-id tenant transaction r e t h = ground arith

module _ {Message : Type 0} (parse : ParseLink) (name : Uuid → String) (inactive : Error → Bool)
    (tenant i : Uuid) (authorization : String) (d : Db) where
  module _ (c : PaymentLinkClient Message) (careful : Careful c tenant i (purchase_key name i))
      (r : PrivateScheduleRequest) (e : Enrollment)
      (requested : find_request i (some tenant) none d ≡ some r)
      (approved_row : is_approved r.status ≡ true)
      (enrolled : keyed r.parent_id (purchase_key name i) d ≡ some e) where
    until-Reads :
        (t : Transaction) (limit : Option Timestamp)
        → (is_pending e.status ≡ true) × (e.payment_transaction_id ≡ some t.id)
        → Run false d (send_until c parse inactive tenant i r t limit) (Inv (λ d'. d' ≡ d))
    until-Reads t none h = Run-raise _ refl
    until-Reads t (some expires) h =
        keep-map_error _ _
          (careful.sends _ d (r, e, requested, approved_row, enrolled, h.0, h.1, refl, refl))

    checked-Reads :
        (transaction : Uuid)
        → payable_transaction e ≡ some transaction
        → Run false d
            (send_checked c parse inactive tenant i authorization r e transaction)
            (Inv (λ d'. d' ≡ d))
    checked-Reads transaction h =
        keep-bind _ _ (keep-map_error _ _ (careful.reads transaction authorization d)) λ t d' same.
          rw same (
            Run-if (not (matches tenant transaction r e t)) _ _ (λ _. Run-raise _ refl)
              λ fits. Run-gets _ _ λ now.
                until-Reads t (sendable_until parse t now)
                  (rw (matches-id tenant transaction r e t fits) (payable-facts e transaction h)))

  abbrev pub CarefulClient : Option (PaymentLinkClient Message) → Type 0
  CarefulClient none = Unit {0}
  CarefulClient (some c) = Careful c tenant i (purchase_key name i)

  module _ (client : Option (PaymentLinkClient Message)) (careful : CarefulClient client) where
    for-Reads :
        (r : PrivateScheduleRequest) (e : Enrollment) (present : Option (PaymentLinkClient Message))
        (o : Option Uuid)
        → CarefulClient present
        → find_request i (some tenant) none d ≡ some r
        → is_approved r.status ≡ true
        → keyed r.parent_id (purchase_key name i) d ≡ some e
        → payable_transaction e ≡ o
        → Run false d
            (send_for client parse inactive tenant i authorization r e present o)
            (Inv (λ d'. d' ≡ d))
    for-Reads r e present none kept requested approved_row enrolled h = Run-raise _ refl
    for-Reads r e none (some transaction) kept requested approved_row enrolled h = Run-raise _ refl
    for-Reads r e (some c) (some transaction) kept requested approved_row enrolled h =
        checked-Reads c kept r e requested approved_row enrolled transaction h

    pub send-Reads :
        Run false d
          (send_payment_link client parse name inactive tenant i authorization)
          (Inv (λ d'. d' ≡ d))
    unfolding send_payment_link get_request get_by_idempotency_key
    send-Reads =
        Run-if (tenant == uuid_nil || i == uuid_nil) _ _ (λ _. Run-raise _ refl)
          λ _. Run-map_error-then _ _ _ (
            Run-lookup_last _ (λ _. refl) (λ _. refl)
              λ r requested.
                Run-if (not (addressed tenant i r)) _ _ (λ _. Run-raise _ refl)
                  λ _.
                    Run-if (not (is_approved r.status)) _ _ (λ _. Run-raise _ refl)
                      λ approved_row.
                        Run-lookup _ _ (λ _. refl) (λ _. refl)
                          λ e enrolled.
                            Run-if (not (enrolled_for tenant (purchase_key name i) r e)) _ _
                              (λ _. Run-raise _ refl)
                              λ _.
                                for-Reads r e client (payable_transaction e) careful requested
                                  (ground (arith, approved_row)) enrolled refl)

-- A payment link writes nothing to this database, and it is sent only for an approved request of the
-- tenant whose enrollment is pending, with the transaction of that enrollment and to the parent of
-- the request: the client is only known to leave the database alone where that holds of the link.
-- This holds whatever the client answers and whichever calls fail.
pub send_payment_link-Reads :
    {Message : Type 0} (client : Option (PaymentLinkClient Message)) (parse : ParseLink)
    (name : Uuid → String) (inactive : Error → Bool) (tenant i : Uuid) (authorization : String)
    (w : World)
    → CarefulClient parse name inactive tenant i authorization w.db client
    → (send_payment_link client parse name inactive tenant i authorization w).1.db ≡ w.db
send_payment_link-Reads client parse name inactive tenant i authorization w careful =
    ((send-Reads parse name inactive tenant i authorization w.db client careful).at w.env
      (λ r. cc)).0
