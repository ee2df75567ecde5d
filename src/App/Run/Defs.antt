-- ===== src/App/Run/Defs.antt =====
-- The statement that a computation, run from a database, meets a condition.
use kelolakelas_academic_ser.App.{Db, Env, World, Result, ok, err, App}
use kelolakelas_academic_ser.Errors.{Error, db_failure}
use kelolakelas_academic_ser.Prelude.{◌≡◌, Bool, true, false, []}

-- A condition on the result and on the database that is left.
abbrev pub Post : Type 0 → Type 1
Post A = Result A → Db → Type 0

-- No call fails, if `reliable`.
abbrev pub Answers : Bool → Env → Type 0
Answers reliable n = reliable ≡ true → n.faults ≡ []

-- From the database `d`, the computation meets `Q`.
pub record Run {A : Type 0} (reliable : Bool) (d : Db) (m : App A) (Q : Post A) : Type 0 where
  pub at :
      (n : Env)
      → Answers reliable n
      → let w : World = record { db = d; env = n } in
        Q (m w).0 (m w).1.db × Answers reliable (m w).1.env

-- What a driver error at this point would leave.
abbrev pub Fails : {A : Type 0} → Bool → Post A → Db → Type 0
Fails reliable Q d = reliable ≡ false → Q (err db_failure) d

-- The condition that a statement's outcome meets by itself.
abbrev pub Outcome : {A : Type 0} → Post A → Db → Result (A × Db) → Type 0
Outcome Q d (ok (a, d')) = Q (ok a) d'
Outcome Q d (err x) = Q (err x) d

-- The condition that a statement's outcome leaves for the rest of the program.
abbrev pub After : {A B : Type 0} → Bool → Db → Result (A × Db) → (A → App B) → Post B → Type 0
After reliable d (ok (a, d')) k Q = Run reliable d' (k a) Q
After reliable d (err x) k Q = Q (err x) d

-- What the closure of a transaction has to leave: its database counts only if it succeeds and the
-- commit does.
abbrev pub Closure : {A : Type 0} → Bool → Db → Post A → Post A
Closure reliable d Q (ok a) d' = Q (ok a) d' × Fails reliable Q d
Closure reliable d Q (err x) d' = Q (err x) d

-- The condition on a result whose error is still to be wrapped.
abbrev pub Wrapped : {A : Type 0} → (Error → Error) → Post A → Post A
Wrapped f Q (ok a) d = Q (ok a) d
Wrapped f Q (err x) d = Q (err (f x)) d

-- What a part of a program has to leave for the rest `k` of it.
abbrev pub Then : {A B : Type 0} → Bool → (A → App B) → Post B → Post A
Then reliable k Q (ok a) d = Run reliable d (k a) Q
Then reliable k Q (err x) d = Q (err x) d
