-- ===== src/Notifications.antt =====
-- The outbox of parent notifications: internal/usecase/parent_notification_worker.go and
-- internal/repository/parent_notification_repository.go. Times are seconds. Whether the reminder of a
-- row may still be sent, the first common table expression of Claim, is a parameter, since it reads
-- tables that are no part of the outbox; so is the sender.
pub mod Retries
use kelolakelas_academic_ser.Domain.{Uuid, Timestamp}
use kelolakelas_academic_ser.Prelude.{
  ltb, leb, ◌==◌, if◌then◌else◌, update_where, by_id, replace, ℕ, zero, suc, ◌+◌, ◌-◌, ◌*◌, ◌^◌,
  String, Bool, true, false, not, ◌&&◌, ◌||◌, Option, none, some, List, [], ◌∷◌,
}
use kelolakelas_academic_ser.Schedule.Worker.{round}

pub data Channel : Type 0 where
  email chat : Channel

pub data OutboxStatus : Type 0 where
  queued sending sent failed : OutboxStatus

-- A row of parent_notification_outbox, without its addresses and its body.
pub record ParentNotification : Type 0 where
  pub id : Uuid
  pub channel : Channel
  pub status : OutboxStatus
  pub attempts : ℕ
  pub available_at : Timestamp
  pub created_at : Timestamp
  pub lease_token : Option Uuid
  pub first_attempt_at : Option Timestamp
  pub sent_at : Option Timestamp
  pub last_error : String

abbrev pub notification_id : ParentNotification → Uuid
notification_id n = n.id

abbrev pub in_flight : OutboxStatus → Bool
in_flight queued = true
in_flight sending = true
in_flight sent = false
in_flight failed = false

abbrev pub is_sending : OutboxStatus → Bool
is_sending queued = false
is_sending sending = true
is_sending sent = false
is_sending failed = false

abbrev pub is_email : Channel → Bool
is_email email = true
is_email chat = false

-- status IN ('pending', 'sending') AND available_at <= now()
unfoldable pub due : Timestamp → ParentNotification → Bool
due now n = in_flight n.status && leb n.available_at now

unfoldable pub fail_stale :
    (ParentNotification → Bool) → Timestamp → List ParentNotification → List ParentNotification
fail_stale eligible now rows =
    update_where (λ n. due now n && not (eligible n))
      (λ n. record n {
        status = failed;
        last_error = "reminder_no_longer_eligible";
        lease_token = none;
      })
      rows

-- ORDER BY available_at, created_at, id
unfoldable pub earlier : ParentNotification → ParentNotification → Bool
earlier a b =
    ltb a.available_at b.available_at
    || (a.available_at == b.available_at
        && (ltb a.created_at b.created_at || (a.created_at == b.created_at && ltb a.id b.id)))

abbrev pub earliest_of : ParentNotification → Option ParentNotification → ParentNotification
earliest_of n none = n
earliest_of n (some m) = if earlier m n then m else n

-- The candidate: LIMIT 1
unfoldable pub candidate :
    (ParentNotification → Bool) → Timestamp → List ParentNotification → Option ParentNotification
candidate eligible now [] = none
candidate eligible now (n ∷ rows) =
    let rest = candidate eligible now rows in
    if due now n && eligible n then some (earliest_of n rest) else rest

abbrev pub first_time : Option Timestamp → Timestamp → Timestamp
first_time none now = now
first_time (some t) now = t

unfoldable pub leased : Uuid → Timestamp → ParentNotification → ParentNotification
leased token now n = record n {
  status = sending;
  attempts = suc n.attempts;
  lease_token = some token;
  available_at = now + 60;
  first_attempt_at = some (first_time n.first_attempt_at now);
}

-- UPDATE ... FROM candidate WHERE o.id = candidate.id RETURNING o.*
abbrev pub returned :
    Uuid
    → Timestamp
    → List ParentNotification
    → Option ParentNotification
    → Option ParentNotification × List ParentNotification
returned token now rows none = (none, rows)
returned token now rows (some n) =
    (some (leased token now n), replace notification_id (leased token now n) rows)

abbrev pub take_lease :
    Uuid
    → Timestamp
    → List ParentNotification
    → Option ParentNotification
    → Option ParentNotification × List ParentNotification
take_lease token now rows none = (none, rows)
take_lease token now rows (some n) = returned token now rows (by_id notification_id n.id rows)

-- Claim
unfoldable pub claim_notification :
    (ParentNotification → Bool)
    → Uuid
    → Timestamp
    → List ParentNotification
    → Option ParentNotification × List ParentNotification
claim_notification eligible token now rows =
    take_lease token now (fail_stale eligible now rows) (candidate eligible now rows)

-- status, code and delay
pub record DeliveryVerdict : Type 0 where
  pub status : OutboxStatus
  pub code : String
  pub delay : ℕ

-- 5 * time.Second * 1<<min(n.Attempts-1, 10), at most an hour. A claimed row has an attempt.
abbrev pub smaller : ℕ → ℕ → ℕ
smaller a b = if leb a b then a else b

unfoldable pub retry_delay : ℕ → ℕ
retry_delay attempts = smaller (5 * 2 ^ smaller (attempts - 1) 10) 3600

-- Resend forgets its keys after a day: no email is sent again after 23 hours.
unfoldable pub exhausted : ParentNotification → Timestamp → Bool
exhausted n now =
    ltb 12 n.attempts || (is_email n.channel && leb 82800 (now - first_time n.first_attempt_at now))

unfoldable pub send_failed : ParentNotification → DeliveryVerdict
send_failed n =
    if leb 12 n.attempts
    then record { status = failed; code = "retry_exhausted"; delay = retry_delay n.attempts }
    else record { status = queued; code = "delivery_unconfirmed"; delay = retry_delay n.attempts }

unfoldable pub deliver_verdict : ParentNotification → Timestamp → Bool → DeliveryVerdict
deliver_verdict n now delivered =
    if exhausted n now
    then record { status = failed; code = "retry_exhausted"; delay = 0 }
    else if delivered
    then record { status = sent; code = ""; delay = 0 }
    else send_failed n

abbrev pub same_lease : Option Uuid → Option Uuid → Bool
same_lease (some a) (some b) = a == b
same_lease (some a) none = false
same_lease none b = false

-- WHERE id = ? AND status = 'sending' AND lease_token = ?
unfoldable pub holds_lease : ParentNotification → ParentNotification → Bool
holds_lease n row =
    row.id == n.id && is_sending row.status && same_lease row.lease_token n.lease_token

abbrev pub sent_when : OutboxStatus → Timestamp → Option Timestamp → Option Timestamp
sent_when sent now t = some now
sent_when queued now t = t
sent_when sending now t = t
sent_when failed now t = t

-- Finish
unfoldable pub finish_notification :
    ParentNotification
    → DeliveryVerdict
    → Timestamp
    → List ParentNotification
    → List ParentNotification
finish_notification n v now rows =
    update_where (holds_lease n)
      (λ row. record row {
        status = v.status;
        last_error = v.code;
        available_at = now + v.delay;
        lease_token = none;
        sent_at = sent_when v.status now row.sent_at;
      })
      rows

-- One round of a pass: whether the pass is cancelled or a statement fails, the lease token, the
-- times, and whether the sender confirms.
pub record DeliveryRound : Type 0 where
  pub stopped : Bool
  pub claim_fails : Bool
  pub token : Uuid
  pub claimed_at : Timestamp
  pub judged_at : Timestamp
  pub delivered : Bool
  pub finish_fails : Bool
  pub finished_at : Timestamp

-- The outbox, and a record of the calls of the sender, last first.
pub record Outbox : Type 0 where
  pub rows : List ParentNotification
  pub sends : List Uuid

abbrev pub record_send : ParentNotification → Timestamp → List Uuid → List Uuid
record_send n now sends = if exhausted n now then sends else n.id ∷ sends

abbrev pub judged : DeliveryRound → ParentNotification → List ParentNotification → Outbox → Outbox
judged round n rows o = record {
  rows =
      if round.finish_fails
      then rows
      else finish_notification n (deliver_verdict n round.judged_at round.delivered)
          round.finished_at rows;
  sends = record_send n round.judged_at o.sends;
}

-- RunOnce: at most 100 rounds; it ends when no row is due, and with the first error.
abbrev pub after_claim :
    (Outbox → Outbox)
    → DeliveryRound
    → Outbox
    → Option ParentNotification × List ParentNotification
    → Outbox
after_claim again round o (none, rows) = record o { rows = rows }
after_claim again round o (some n, rows) =
    let judged_box = judged round n rows o in
    if round.finish_fails then judged_box else again judged_box

unfoldable pub run_deliveries :
    ℕ → (ParentNotification → Bool) → (ℕ → DeliveryRound) → Outbox → Outbox
run_deliveries zero eligible rounds o = o
run_deliveries (suc k) eligible rounds o =
    let round = rounds k in
    let again = run_deliveries k eligible rounds in
    if round.stopped || round.claim_fails
    then o
    else after_claim again round o (claim_notification eligible round.token round.claimed_at o.rows)

abbrev pub rounds_per_pass : ℕ
rounds_per_pass = 100

unfoldable pub run_notifications :
    (ParentNotification → Bool) → (ℕ → DeliveryRound) → Outbox → Outbox
run_notifications eligible rounds o = run_deliveries rounds_per_pass eligible rounds o

-- A pass of the worker: what is eligible then, and its rounds.
pub record Pass : Type 0 where
  pub eligible : ParentNotification → Bool
  pub rounds : ℕ → DeliveryRound

unfoldable pub run_passes : List Pass → Outbox → Outbox
run_passes [] o = o
run_passes (p ∷ rest) o = run_passes rest (run_notifications p.eligible p.rounds o)
