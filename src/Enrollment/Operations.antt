-- ===== src/Enrollment/Operations.antt =====
-- The requests that change enrollments, one after another, as the service meets them: each runs to
-- its end, returns or fails, and the next starts from the database that it leaves.
pub mod Invariant
use kelolakelas_academic_ser.App.{World, App, pure, ◌>>◌, with_transaction}
use kelolakelas_academic_ser.Domain.{Uuid, Enrollment}
use kelolakelas_academic_ser.Enrollment.Lifecycle.{
  activate_enrollment, release_enrollment, suspend_enrollment, end_enrollment, resume_enrollment,
  CancelPayment, cancel_pending_enrollment, assign_schedule,
}
use kelolakelas_academic_ser.Enrollment.Repository.{create_if_capacity_available}
use kelolakelas_academic_ser.Prelude.{true, Option, List, [], ◌∷◌}

pub data Operation : Type 0 where
  sign_up : Enrollment → Operation
  activation release suspension resumption ending : Uuid → Operation
  cancellation : Uuid → Uuid → Operation
  assignment : Uuid → Uuid → Uuid → Operation

unfoldable pub perform : Option CancelPayment → Operation → App (Unit {0})
perform client (sign_up e) = with_transaction (create_if_capacity_available e)
perform client (activation i) = activate_enrollment true i >> pure tt
perform client (release i) = release_enrollment true i >> pure tt
perform client (suspension i) = suspend_enrollment true i >> pure tt
perform client (resumption i) = resume_enrollment true i >> pure tt
perform client (ending i) = end_enrollment true i >> pure tt
perform client (cancellation parent i) = cancel_pending_enrollment client true parent i >> pure tt
perform client (assignment parent i sid) = assign_schedule true parent i sid >> pure tt

-- The world after all of them, whatever each answers.
unfoldable pub perform_all : Option CancelPayment → List Operation → World → World
perform_all client [] w = w
perform_all client (o ∷ rest) w = perform_all client rest (perform client o w).1
