-- ===== src/Notifications/Retries.antt =====
-- How often and how late a notification is tried.
use kelolakelas_academic_ser.Domain.{Uuid, Timestamp}
use kelolakelas_academic_ser.Notifications.{
  queued, ParentNotification, notification_id, is_email, fail_stale, candidate, first_time, leased,
  returned, take_lease, claim_notification, smaller, retry_delay, exhausted, send_failed,
  deliver_verdict, finish_notification, DeliveryRound, Outbox, record_send, judged, after_claim,
  run_deliveries, rounds_per_pass, run_notifications, Pass, run_passes,
}
use kelolakelas_academic_ser.Prelude.{
  leb, ◌==◌, Bool-cases, count, update_where, by_id, replace, by_id-key, by_id-replace, ℕ, zero,
  suc, ◌-◌, ◌^◌, ◌≤◌, ◌<◌, ◌≡◌, refl, sym, inl, inr, Bool, true, false, ◌&&◌, ◌||◌, Option, none,
  some, List, [], ◌∷◌, arith,
}
use kelolakelas_academic_ser.Schedule.Worker.{round}
use mathlib.Core.Path.{subst}
use native.Mathlib.Nat.{one-le-pow}

-- Of a row, the sender is called at most once for each attempt, and at most twelve times.
abbrev pub sends_of : Uuid → Outbox → ℕ
sends_of i o = count (λ s. s == i) o.sends

pub record Sparing (o : Outbox) : Type 0 where
  pub at :
      (i : Uuid) (n : ParentNotification)
      → by_id notification_id i o.rows ≡ some n
      → (sends_of i o ≤ n.attempts) × (sends_of i o ≤ 12)

retry_delay-bounds : (attempts : ℕ) → (5 ≤ retry_delay attempts) × (retry_delay attempts ≤ 3600)
unfolding retry_delay
retry_delay-bounds attempts =
    let positive : 1 ≤ 2 ^ smaller (attempts - 1) 10 =
      one-le-pow (smaller (attempts - 1) 10) 2 (omega arith) in
    ground (arith, positive)

-- A failed delivery is tried again only before its twelfth attempt and, of an email, within 23 hours of
-- the first; then after 5 seconds at least and an hour at most.
pub deliver_verdict-bounds :
    (n : ParentNotification) (now : Timestamp) (delivered : Bool)
    → (deliver_verdict n now delivered).status ≡ queued
    → (n.attempts < 12)
      × (5 ≤ (deliver_verdict n now delivered).delay)
      × ((deliver_verdict n now delivered).delay ≤ 3600)
      × (is_email n.channel && leb 82800 (now - first_time n.first_attempt_at now) ≡ false)
unfolding deliver_verdict send_failed exhausted
deliver_verdict-bounds n now delivered h = ground (arith, retry_delay-bounds n.attempts)

-- A row after an update, by its key.
update_where-row :
    (p : ParentNotification → Bool) (f : ParentNotification → ParentNotification)
    (rows : List ParentNotification) (i : Uuid) (n : ParentNotification)
    → ((x : ParentNotification) → ((f x).id ≡ x.id) × ((f x).attempts ≡ x.attempts))
    → by_id notification_id i (update_where p f rows) ≡ some n
    → (m : ParentNotification) × (by_id notification_id i rows ≡ some m) × (m.attempts ≡ n.attempts)
unfolding by_id update_where
update_where-row p f [] i n keeps h = cc
update_where-row p f (x ∷ rows) i n keeps h = elim (Bool-cases (x.id == i)) [
  | inl e ↦ (x, rw e refl, here e)
  | inr e ↦ let r = update_where-row p f rows i n keeps (later e) in (r.0, ground (arith, r.1), r.2)
]
  where
    here : (x.id == i) ≡ true → x.attempts ≡ n.attempts
    here e = ground (arith, keeps x)

    later : (x.id == i) ≡ false → by_id notification_id i (update_where p f rows) ≡ some n
    later e = ground (arith, keeps x)

updated-Sparing :
    (p : ParentNotification → Bool) (f : ParentNotification → ParentNotification)
    (rows : List ParentNotification) (sends : List Uuid)
    → ((x : ParentNotification) → ((f x).id ≡ x.id) × ((f x).attempts ≡ x.attempts))
    → Sparing (record { rows = rows; sends = sends })
    → Sparing (record { rows = update_where p f rows; sends = sends })
updated-Sparing p f rows sends keeps v = record {
  at = λ i n h.
      let r = update_where-row p f rows i n keeps h in
      let bound = v.at i r.0 r.1 in (omega (arith, bound.0, r.2), bound.1);
}

-- The attempt that is claimed pays for the call of the sender.
sent-Sparing :
    (token : Uuid) (claimed judged_at : Timestamp) (row : ParentNotification)
    (rows : List ParentNotification) (sends : List Uuid)
    → by_id notification_id row.id rows ≡ some row
    → Sparing (record { rows = rows; sends = sends })
    → Sparing (record {
      rows = replace notification_id (leased token claimed row) rows;
      sends = record_send (leased token claimed row) judged_at sends;
    })
unfolding count exhausted leased
sent-Sparing token claimed judged_at row rows sends there v = record {
  at = λ i n h. ground (
    arith,
    h,
    v.at i n,
    v.at row.id row there,
    by_id-replace notification_id i (leased token claimed row) row rows there,
  );
}

judged-Sparing :
    (round : DeliveryRound) (row : ParentNotification) (rows : List ParentNotification) (o : Outbox)
    → by_id notification_id row.id rows ≡ some row
    → Sparing (record { rows = rows; sends = o.sends })
    → Sparing (
        judged round
          (leased round.token round.claimed_at row)
          (replace notification_id (leased round.token round.claimed_at row) rows)
          o)
judged-Sparing round row rows o there v = elim (Bool-cases round.finish_fails) [
  | inl e ↦ rw e spent
  | inr e ↦ rw e (finished spent)
]
  where
    spent : Sparing (record {
      rows = replace notification_id (leased round.token round.claimed_at row) rows;
      sends = record_send (leased round.token round.claimed_at row) round.judged_at o.sends;
    })
    spent = sent-Sparing round.token round.claimed_at round.judged_at row rows o.sends there v

    finished :
        Sparing (record {
          rows = replace notification_id (leased round.token round.claimed_at row) rows;
          sends = record_send (leased round.token round.claimed_at row) round.judged_at o.sends;
        })
        → Sparing (record {
          rows =
              finish_notification
                (leased round.token round.claimed_at row)
                (deliver_verdict
                  (leased round.token round.claimed_at row)
                  round.judged_at
                  round.delivered)
                round.finished_at
                (replace notification_id (leased round.token round.claimed_at row) rows);
          sends = record_send (leased round.token round.claimed_at row) round.judged_at o.sends;
        })
    finished u = unfold finish_notification in updated-Sparing _ _ _ _ (λ x. (refl, refl)) u

-- What follows a claim keeps it, if the rounds to come do.
after_claim-Sparing :
    (again : Outbox → Outbox) (round : DeliveryRound) (o : Outbox) (rows : List ParentNotification)
    (found : Option ParentNotification)
    → ((x : Outbox) → Sparing x → Sparing (again x))
    → Sparing (record { rows = rows; sends = o.sends })
    → Sparing (after_claim again round o (take_lease round.token round.claimed_at rows found))
after_claim-Sparing again round o rows none keeps v = v
after_claim-Sparing again round o rows (some n) keeps v =
    by_row (by_id notification_id n.id rows) refl
  where
    key : (row : ParentNotification) → by_id notification_id n.id rows ≡ some row → row.id ≡ n.id
    key row h = by_id-key notification_id n.id rows row h

    by_row :
        (r : Option ParentNotification)
        → by_id notification_id n.id rows ≡ r
        → Sparing (after_claim again round o (returned round.token round.claimed_at rows r))
    by_row none h = v
    by_row (some row) h =
        let box =
          judged-Sparing round row rows o
            (subst (λ (j : ℕ). by_id notification_id j rows ≡ some row) (sym (key row h)) h) v in
        elim (Bool-cases round.finish_fails) [
          | inl e ↦ rw e (rw e at box)
          | inr e ↦ rw e (keeps _ (rw e at box))
        ]

run_deliveries-Sparing :
    (k : ℕ) (eligible : ParentNotification → Bool) (rounds : ℕ → DeliveryRound) (o : Outbox)
    → Sparing o
    → Sparing (run_deliveries k eligible rounds o)
unfolding run_deliveries claim_notification
run_deliveries-Sparing zero eligible rounds o v = v
run_deliveries-Sparing (suc k) eligible rounds o v =
    elim (Bool-cases ((rounds k).stopped || (rounds k).claim_fails)) [
      | inl e ↦ rw e v
      | inr e ↦ rw e (
          after_claim-Sparing (run_deliveries k eligible rounds) (rounds k) o
            (fail_stale eligible (rounds k).claimed_at o.rows)
            (candidate eligible (rounds k).claimed_at o.rows)
            (λ x w. run_deliveries-Sparing k eligible rounds x w) (aged v))
    ]
  where
    aged :
        Sparing o
        → Sparing
            (record { rows = fail_stale eligible (rounds k).claimed_at o.rows; sends = o.sends })
    aged u = unfold fail_stale in updated-Sparing _ _ o.rows o.sends (λ x. (refl, refl)) u

-- However often the worker passes, whatever the sender confirms, whichever statements fail and
-- wherever a pass is cut off, the sender is called for a notification at most twelve times, and at
-- most once for each attempt that its row counts, if that held before.
pub run_passes-Sparing :
    (passes : List Pass) (o : Outbox) → Sparing o → Sparing (run_passes passes o)
unfolding run_passes run_notifications
run_passes-Sparing [] o v = v
run_passes-Sparing (p ∷ rest) o v =
    run_passes-Sparing rest (run_deliveries rounds_per_pass p.eligible p.rounds o)
      (run_deliveries-Sparing rounds_per_pass p.eligible p.rounds o v)
