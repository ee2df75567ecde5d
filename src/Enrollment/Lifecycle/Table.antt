-- ===== src/Enrollment/Lifecycle/Table.antt =====
-- The status changes against their transition table.
use kelolakelas_academic_ser.App.{
  Db, World, Result, ok, err, App, ◌>>=◌, statement, transacted, with_transaction, map_error,
}
use kelolakelas_academic_ser.Domain.{
  Uuid, Timestamp, EnrollmentStatus, pending, active, suspended, completed, dropped, Enrollment,
}
use kelolakelas_academic_ser.Enrollment.Lifecycle.{
  load_failed, move_row, activate_enrollment, release_enrollment, suspend_enrollment,
  end_enrollment,
}
use kelolakelas_academic_ser.Enrollment.Repository.{update, get_by_id}
use kelolakelas_academic_ser.Enrollment.Rows.{find_enrollment, save_row}
use kelolakelas_academic_ser.Errors.{invalid_enrollment_transition, domain}
use kelolakelas_academic_ser.Prelude.{◌≡◌, Bool, true, some, [], arith}

-- What a request may do to an enrollment of some status.
pub data Verdict : Type 0 where
  move stay refuse : Verdict

pub data Change : Type 0 where
  activating releasing suspending ending : Change

-- The table, written from the comments on the four methods.
abbrev pub verdict : Change → EnrollmentStatus → Verdict
verdict activating pending = move
verdict activating active = stay
verdict activating suspended = refuse
verdict activating completed = refuse
verdict activating dropped = refuse
verdict releasing pending = move
verdict releasing active = stay
verdict releasing suspended = refuse
verdict releasing completed = refuse
verdict releasing dropped = stay
verdict suspending pending = refuse
verdict suspending active = move
verdict suspending suspended = stay
verdict suspending completed = refuse
verdict suspending dropped = refuse
verdict ending pending = refuse
verdict ending active = move
verdict ending suspended = move
verdict ending completed = refuse
verdict ending dropped = stay

abbrev pub target : Change → EnrollmentStatus
target activating = active
target releasing = dropped
target suspending = suspended
target ending = dropped

abbrev pub request : Change → Bool → Uuid → App Enrollment
request activating = activate_enrollment
request releasing = release_enrollment
request suspending = suspend_enrollment
request ending = end_enrollment

-- The row that a change writes.
abbrev pub changed : Change → Timestamp → Enrollment → Enrollment
changed c t e = record e { status = target c; updated_at = t }

abbrev pub written : Enrollment → World → Result Db → Result Enrollment × World
written e w (ok d) = (ok e, record w { db = d })
written e w (err x) = (err (load_failed x), w)

-- The answer and the world that the table asks for.
abbrev pub expected : Verdict → Change → Enrollment → World → Result Enrollment × World
expected move c e w = written (changed c w.env.now e) w (save_row (changed c w.env.now e) w.db)
expected stay c e w = (ok e, w)
expected refuse c e w = (err (domain invalid_enrollment_transition), w)

-- On a database that answers, each of the four requests does to an enrollment exactly what the
-- table says for its status: it writes the new status and nothing else, or leaves the row.
pub request-table :
    (c : Change) (i : Uuid) (e : Enrollment) (w : World)
    → w.env.faults ≡ []
    → find_enrollment i w.db ≡ some e
    → request c true i w ≡ expected (verdict c e.status) c e w
unfolding activate_enrollment release_enrollment suspend_enrollment end_enrollment ◌>>=◌ map_error
    with_transaction transacted move_row get_by_id update statement
request-table activating i e w f h = ground arith
request-table releasing i e w f h = ground arith
request-table suspending i e w f h = ground arith
request-table ending i e w f h = ground arith
