-- ===== src/Enrollment/Capacity.antt =====
-- No schedule is booked beyond its capacity: the invariant, and the writes that keep it.
pub mod Seats
use kelolakelas_academic_ser.App.{Db, Result, ok, err, ◌>>=◌, ◌>>◌}
use kelolakelas_academic_ser.App.Run.{Run-pure, run_rules, Keeps, keep-attempt, keep_rules}
use kelolakelas_academic_ser.Domain.{
  Uuid, Timestamp, EnrollmentStatus, dropped, is_pending, holds_seat, Enrollment, ClassSchedule,
}
use kelolakelas_academic_ser.Enrollment.Lifecycle.{
  in_transaction, move_row, change_status, CancelPayment, catch_withdrawal,
  withdraw_enrollment_payment, drop_pending, cancel_pending_enrollment,
}
use kelolakelas_academic_ser.Enrollment.Repository.{update, get_by_id, get_by_id_for_access}
use kelolakelas_academic_ser.Enrollment.Rows.{
  enrollment_id, schedule_id, find_enrollment, seated, save_row,
}
use kelolakelas_academic_ser.Prelude.{
  bit, count, by_id, replace, by_id-key, count-replace, ◌≤◌, ◌≡◌, Bool, true, false, not, Option,
  none, some, arith,
}

-- For every schedule of the table, the seats held are at most its capacity.
pub record WithinCapacity (d : Db) : Type 0 where
  pub at :
      (sid : Uuid) (s : ClassSchedule)
      → by_id schedule_id sid d.schedules ≡ some s
      → count (seated sid) d.enrollments ≤ s.capacity

pub find_enrollment-row :
    (i : Uuid) (d : Db) (e : Enrollment)
    → find_enrollment i d ≡ some e
    → (by_id enrollment_id e.id d.enrollments ≡ some e) × (e.deleted ≡ false)
unfolding find_enrollment
find_enrollment-row i d e h = ground (arith, by_id-key enrollment_id i d.enrollments e)

-- What a save of a row that is in the table leaves.
pub save_row-effect :
    (e old : Enrollment) (d d' : Db)
    → by_id enrollment_id e.id d.enrollments ≡ some old
    → save_row e d ≡ ok d'
    → d' ≡ record d { enrollments = replace enrollment_id e d.enrollments }
unfolding save_row
save_row-effect e old d d' found h = ground arith

-- A save that gives no row a seat it did not hold.
pub save_row-WithinCapacity :
    (e old : Enrollment) (d d' : Db)
    → by_id enrollment_id e.id d.enrollments ≡ some old
    → ((sid : Uuid) → bit (seated sid e) ≤ bit (seated sid old))
    → save_row e d ≡ ok d'
    → WithinCapacity d
    → WithinCapacity d'
save_row-WithinCapacity e old d d' found keeps h v =
    rw (save_row-effect e old d d' found h) (record {
      at = λ sid s at_sid. omega (
        arith,
        v.at sid s at_sid,
        keeps sid,
        count-replace enrollment_id (seated sid) e old d.enrollments found,
      );
    })

-- A status change that takes no seat.
abbrev pub TakesNoSeat : (EnrollmentStatus → Bool) → EnrollmentStatus → Type 0
TakesNoSeat leaves target =
    (s : EnrollmentStatus) → leaves s ≡ true → bit (holds_seat target) ≤ bit (holds_seat s)

module _ (leaves : EnrollmentStatus → Bool) (target : EnrollmentStatus)
    (frees : TakesNoSeat leaves target) where
  move-seated :
      (e : Enrollment) (t : Timestamp) (sid : Uuid)
      → leaves e.status ≡ true
      → bit (seated sid (record e { status = target; updated_at = t })) ≤ bit (seated sid e)
  unfolding seated
  move-seated e t sid l = ground (arith, frees e.status l)

  pub save_moved :
      (i : Uuid) (t : Timestamp) (e : Enrollment) (d d' : Db)
      → WithinCapacity d
      → find_enrollment i d ≡ some e
      → not (leaves e.status) ≡ false
      → save_row (record e { status = target; updated_at = t }) d ≡ ok d'
      → WithinCapacity d'
  save_moved i t e d d' v found l saved =
      save_row-WithinCapacity (record e { status = target; updated_at = t }) e d d'
        (find_enrollment-row i d e found).0 (λ sid. move-seated e t sid (ground arith)) saved v

  pub move_row-WithinCapacity : (i : Uuid) → Keeps WithinCapacity (move_row leaves target i)
  unfolding move_row get_by_id update
  move_row-WithinCapacity i d v = search (run_rules, save_moved) depth 12

  pub change_status-WithinCapacity :
      (settled : EnrollmentStatus → Bool) (tx : Bool) (i : Uuid)
      → Keeps WithinCapacity (change_status leaves settled target tx i)
  unfolding change_status get_by_id update
  change_status-WithinCapacity settled true i d v =
      search (keep_rules, move_row-WithinCapacity) depth 12
  change_status-WithinCapacity settled false i d v = search (run_rules, save_moved) depth 16

-- Billing's withdrawal, and what others do while it runs, keep the invariant.
abbrev pub WithdrawalKeeps : (Db → Type 0) → Option CancelPayment → Type 0
WithdrawalKeeps P none = Unit {0}
WithdrawalKeeps P (some cancel) = (i : Uuid) → Keeps P (cancel i)

drop_takes_none : TakesNoSeat is_pending dropped
drop_takes_none s h = ground arith

drop_pending-WithinCapacity : (i : Uuid) → Keeps WithinCapacity (drop_pending i)
unfolding drop_pending get_by_id update
drop_pending-WithinCapacity i d v =
    search (run_rules, save_moved is_pending dropped drop_takes_none) depth 16

caught-WithinCapacity : (r : Result (Unit {0})) → Keeps WithinCapacity (catch_withdrawal r)
caught-WithinCapacity (ok _) d v = Run-pure _ v
caught-WithinCapacity (err e) d v = search run_rules

withdraw-WithinCapacity :
    (client : Option CancelPayment) (i : Uuid)
    → WithdrawalKeeps WithinCapacity client
    → Keeps WithinCapacity (withdraw_enrollment_payment client i)
unfolding withdraw_enrollment_payment
withdraw-WithinCapacity none i k d v = Run-pure tt v
withdraw-WithinCapacity (some cancel) i k d v =
    keep-attempt (cancel i) catch_withdrawal (k i d v) λ r d' v'. caught-WithinCapacity r d' v'

-- Cancelling a pending enrollment takes no seat.
pub cancel-WithinCapacity :
    (client : Option CancelPayment) (tx : Bool) (parent i : Uuid)
    → WithdrawalKeeps WithinCapacity client
    → Keeps WithinCapacity (cancel_pending_enrollment client tx parent i)
unfolding cancel_pending_enrollment in_transaction get_by_id_for_access
cancel-WithinCapacity client true parent i k d v =
    search (keep_rules, withdraw-WithinCapacity, drop_pending-WithinCapacity) depth 12
cancel-WithinCapacity client false parent i k d v =
    search (keep_rules, withdraw-WithinCapacity, drop_pending-WithinCapacity) depth 12
