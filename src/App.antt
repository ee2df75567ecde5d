-- ===== src/App.antt =====
-- A use case: a computation over the database, the clock and the source of UUIDs that may fail.
-- `faults` is the script of infrastructure failures: each database call reads one entry, and fails
-- with a driver error where it is true. An empty script is a database that answers every call.
-- `now` counts seconds in UTC, and `zone` is how far the process zone is ahead of UTC.
pub mod Run
use kelolakelas_academic_ser.Domain.{
  Uuid, Day, Timestamp, Enrollment, Class, Category, ClassTeacher, Student, StudentNote,
  ClassSchedule, ClassSession, Attendance, ClassCreation,
}
use kelolakelas_academic_ser.Domain.Request.{PrivateScheduleRequest}
use kelolakelas_academic_ser.Errors.{Error, record_not_found, db_failure}
use kelolakelas_academic_ser.Prelude.{
  ℕ, suc, ◌+◌, ◌/◌, Bool, true, false, Option, none, some, List, [], ◌∷◌,
}

-- The tables.
pub record Db : Type 0 where
  pub enrollments : List Enrollment
  pub classes : List Class
  pub students : List Student
  pub schedules : List ClassSchedule
  pub sessions : List ClassSession
  pub attendances : List Attendance
  pub requests : List PrivateScheduleRequest
  pub student_notes : List StudentNote
  pub categories : List Category
  pub class_teachers : List ClassTeacher
  pub class_creations : List ClassCreation

pub record Env : Type 0 where
  pub now : Timestamp
  pub zone : ℕ
  pub uuids : ℕ → Uuid
  pub drawn : ℕ
  pub faults : List Bool

pub record World : Type 0 where
  pub db : Db
  pub env : Env

abbrev pub with_script : World → List Bool → World
with_script w script = record w { env = record (w.env) { faults = script } }

pub data Result {ℓ} (A : Type ℓ) : Type ℓ where
  ok : A → Result A
  err : Error → Result A

abbrev pub App : Type 0 → Type 0
App A = World → Result A × World

module _ {A : Type 0} where
  abbrev pub pure : A → App A
  pure a w = (ok a, w)

  abbrev pub raise : Error → App A
  raise e w = (err e, w)

  abbrev pub gets : (Env → A) → App A
  gets f w = (ok (f w.env), w)

infixl 5 ◌>>=◌ ◌>>◌
abbrev pub continue : {A B : Type 0} → Result A → (A → App B) → World → Result B × World
continue (ok a) f w = f a w
continue (err e) f w = (err e, w)

unfoldable pub ◌>>=◌ : {A B : Type 0} → App A → (A → App B) → App B
◌>>=◌ m f w = let (r, w') = m w in continue r f w'

abbrev pub ◌>>◌ : {A B : Type 0} → App A → App B → App B
m >> k = m >>= λ _. k

-- The outcome of one statement of the database.
abbrev pub answer : {A : Type 0} → Result (A × Db) → World → Result A × World
answer (ok (a, d)) w = (ok a, record w { db = d })
answer (err e) w = (err e, w)

abbrev pub run_statement :
    {A : Type 0} → (Db → Result (A × Db)) → List Bool → World → Result A × World
run_statement f [] w = answer (f w.db) w
run_statement f (true ∷ script) w = (err db_failure, with_script w script)
run_statement f (false ∷ script) w = answer (f w.db) (with_script w script)

-- A statement that reads and writes, one that only reads, and a lookup that may find no row.
unfoldable pub statement : {A : Type 0} → (Db → Result (A × Db)) → App A
statement f w = run_statement f w.env.faults w

abbrev pub or_not_found : {A : Type 0} → Option A → Result A
or_not_found none = err record_not_found
or_not_found (some a) = ok a

abbrev pub keep_db : {A : Type 0} → Result A → Db → Result (A × Db)
keep_db (ok a) d = ok (a, d)
keep_db (err e) d = err e

abbrev pub query : {A : Type 0} → (Db → A) → App A
query f = statement (λ d. ok (f d, d))

abbrev pub lookup : {A : Type 0} → (Db → Option A) → App A
lookup f = statement (λ d. keep_db (or_not_found (f d)) d)

abbrev pub with_unit : Result Db → Result (Unit {0} × Db)
with_unit (ok d) = ok (tt, d)
with_unit (err e) = err e

abbrev pub execute : (Db → Result Db) → App (Unit {0})
execute f = statement (λ d. with_unit (f d))

-- repository.WithTransaction: BEGIN is a call of its own, whose error is returned as it is. The
-- closure's writes are kept only if it returns nil and the commit, one more call, succeeds.
abbrev pub begin_transaction : App (Unit {0})
begin_transaction = statement (λ d. ok (tt, d))

abbrev pub commit : {A : Type 0} → Db → A → World → List Bool → Result A × World
commit before a w [] = (ok a, w)
commit before a w (true ∷ script) = (err db_failure, record (with_script w script) { db = before })
commit before a w (false ∷ script) = (ok a, with_script w script)

abbrev pub finish : {A : Type 0} → Db → Result A → World → Result A × World
finish before (ok a) w = commit before a w w.env.faults
finish before (err e) w = (err e, record w { db = before })

unfoldable pub transacted : {A : Type 0} → App A → App A
transacted m w = let (r, w') = m w in finish w.db r w'

unfoldable pub with_transaction : {A : Type 0} → App A → App A
with_transaction m = begin_transaction >> transacted m

-- `if err != nil { return nil, f(err) }`
abbrev pub wrap_error : {A : Type 0} → (Error → Error) → Result A → World → Result A × World
wrap_error f (ok a) w = (ok a, w)
wrap_error f (err e) w = (err (f e), w)

unfoldable pub map_error : {A : Type 0} → (Error → Error) → App A → App A
map_error f m w = let (r, w') = m w in wrap_error f r w'

-- A call whose error the program inspects.
unfoldable pub attempt : {A : Type 0} → App A → App (Result A)
attempt m w = let (r, w') = m w in (ok r, w')

-- uuid.New(): the next value of the generator.
unfoldable pub new_uuid : App Uuid
new_uuid w =
    (ok (w.env.uuids w.env.drawn), record w { env = record (w.env) { drawn = suc w.env.drawn } })

abbrev pub time_now : App Timestamp
time_now = gets (λ n. n.now)

-- The calendar date of time.Now() in the process zone, and in Asia/Jakarta, seven hours ahead of
-- UTC.
abbrev pub seconds_per_day : ℕ
seconds_per_day = 86400

abbrev pub today : App Day
today = gets (λ n. (n.now + n.zone) / seconds_per_day)

abbrev pub today_jakarta : App Day
today_jakarta = gets (λ n. (n.now + 25200) / seconds_per_day)
