-- ===== src/Enrollment/Operations/Invariant.antt =====
-- No sequence of requests books a schedule beyond its capacity.
use kelolakelas_academic_ser.App.{World}
use kelolakelas_academic_ser.App.Run.{Keeps, keep_rules}
use kelolakelas_academic_ser.Domain.{active, suspended, dropped, is_pending, is_active}
use kelolakelas_academic_ser.Enrollment.Capacity.{
  WithinCapacity, change_status-WithinCapacity, WithdrawalKeeps, cancel-WithinCapacity,
}
use kelolakelas_academic_ser.Enrollment.Capacity.Seats.{
  create-WithinCapacity, resume-WithinCapacity, assign-WithinCapacity,
}
use kelolakelas_academic_ser.Enrollment.Lifecycle.{
  activate_enrollment, release_enrollment, suspend_enrollment, active_or_suspended, end_enrollment,
  CancelPayment,
}
use kelolakelas_academic_ser.Enrollment.Operations.{
  Operation, sign_up, activation, release, suspension, resumption, ending, cancellation, assignment,
  perform, perform_all,
}
use kelolakelas_academic_ser.Prelude.{Option, List, [], ◌∷◌, arith}

module _ (client : Option CancelPayment) (answers : WithdrawalKeeps WithinCapacity client) where
  perform-WithinCapacity : (o : Operation) → Keeps WithinCapacity (perform client o)
  unfolding perform activate_enrollment release_enrollment suspend_enrollment end_enrollment
  perform-WithinCapacity (sign_up e) d v = search (keep_rules, create-WithinCapacity)
  perform-WithinCapacity (activation i) d v =
      search (keep_rules, change_status-WithinCapacity is_pending active (λ s h. ground arith))
  perform-WithinCapacity (release i) d v =
      search (keep_rules, change_status-WithinCapacity is_pending dropped (λ s h. ground arith))
  perform-WithinCapacity (suspension i) d v =
      search (keep_rules, change_status-WithinCapacity is_active suspended (λ s h. ground arith))
  perform-WithinCapacity (resumption i) d v = search (keep_rules, resume-WithinCapacity)
  perform-WithinCapacity (ending i) d v =
      search
        (keep_rules, change_status-WithinCapacity active_or_suspended dropped (λ s h. ground arith))
  perform-WithinCapacity (cancellation parent i) d v = search (keep_rules, cancel-WithinCapacity)
  perform-WithinCapacity (assignment parent i sid) d v = search (keep_rules, assign-WithinCapacity)

-- Whatever requests run, in whatever order, and whichever of their database calls fail, every
-- schedule keeps at most as many pending and active enrollments as its capacity, if that holds at
-- the start and billing's withdrawal keeps it.
pub perform_all-WithinCapacity :
    (client : Option CancelPayment) (requests : List Operation) (w : World)
    → WithdrawalKeeps WithinCapacity client
    → WithinCapacity w.db
    → WithinCapacity (perform_all client requests w).db
unfolding perform_all
perform_all-WithinCapacity client [] w k v = v
perform_all-WithinCapacity client (o ∷ rest) w k v =
    perform_all-WithinCapacity client rest (perform client o w).1 k
      ((perform-WithinCapacity client k o w.db v).at w.env (λ r. cc)).0
