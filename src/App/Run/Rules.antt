-- ===== src/App/Run/Rules.antt =====
-- One rule for each way to build a computation, so that a proof follows the program.
use kelolakelas_academic_ser.App.{
  Db, Env, World, Result, ok, err, App, pure, raise, gets, ◌>>=◌, statement, or_not_found, keep_db,
  query, lookup, with_unit, execute, transacted, with_transaction, map_error, attempt, new_uuid,
}
use kelolakelas_academic_ser.App.Run.Defs.{
  Post, Answers, Run, Fails, Outcome, After, Closure, Wrapped, Then,
}
use kelolakelas_academic_ser.App.Run.Steps.{
  run_scripted, Run-rest, run_finish, run_last, run_wrapped, After-lookup, After-execute,
  lookup-Outcome, execute-Outcome,
}
use kelolakelas_academic_ser.Domain.{Uuid}
use kelolakelas_academic_ser.Errors.{Error, record_not_found}
use kelolakelas_academic_ser.Prelude.{
  if◌then◌else◌, suc, ◌≡◌, refl, Bool, true, false, Option, none, some,
}

module _ {A : Type 0} {reliable : Bool} {d : Db} {Q : Post A} where
  pub Run-pure : (a : A) → Q (ok a) d → Run reliable d (pure a) Q
  Run-pure a q = record { at = λ n f. (q, f) }

  pub Run-raise : (x : Error) → Q (err x) d → Run reliable d (raise x) Q
  Run-raise x q = record { at = λ n f. (q, f) }

  pub Run-if :
      (b : Bool) (m k : App A)
      → (b ≡ true → Run reliable d m Q)
      → (b ≡ false → Run reliable d k Q)
      → Run reliable d (if b then m else k) Q
  Run-if true m k p q = p refl
  Run-if false m k p q = q refl

module _ {A B : Type 0} {reliable : Bool} {d : Db} {Q : Post B} where
  pub Run-statement :
      (f : Db → Result (A × Db)) (k : A → App B)
      → Fails reliable Q d
      → After reliable d (f d) k Q
      → Run reliable d (statement f >>= k) Q
  unfolding statement ◌>>=◌
  Run-statement f k bad h = record { at = λ n g. run_scripted d Q f k n.faults n g g bad h }

  -- A program that stands before the rest: it meets `R`, and the rest starts from `R`.
  pub Run-bind :
      (R : Post A) (m : App A) (k : A → App B)
      → Run reliable d m R
      → ((a : A) (d' : Db) → R (ok a) d' → Run reliable d' (k a) Q)
      → ((x : Error) (d' : Db) → R (err x) d' → Q (err x) d')
      → Run reliable d (m >>= k) Q
  unfolding ◌>>=◌
  Run-bind R m k p good bad = record {
    at = λ n f.
        let w : World = record { db = d; env = n } in
        let h : R (m w).0 (m w).1.db × Answers reliable (m w).1.env = p.at n f in
        Run-rest Q (m w).0 (m w).1 k h.1 (λ a e. good a (m w).1.db (rw e at h.0))
          (λ x e. bad x (m w).1.db (rw e at h.0));
  }

module _ {B : Type 0} {reliable : Bool} {d : Db} {Q : Post B} where
  pub Run-gets :
      {A : Type 0} (g : Env → A) (k : A → App B)
      → ((a : A) → Run reliable d (k a) Q)
      → Run reliable d (gets g >>= k) Q
  unfolding ◌>>=◌
  Run-gets g k h = record { at = λ n f. (h (g n)).at n f }

  pub Run-new_uuid :
      (k : Uuid → App B) → ((u : Uuid) → Run reliable d (k u) Q) → Run reliable d (new_uuid >>= k) Q
  unfolding ◌>>=◌ new_uuid
  Run-new_uuid k h = record {
    at = λ n f. (h (n.uuids n.drawn)).at (record n { drawn = suc n.drawn }) f;
  }

module _ {A : Type 0} {reliable : Bool} {d : Db} {Q : Post A} where
  pub Run-transacted :
      (m : App A) → Run reliable d m (Closure reliable d Q) → Run reliable d (transacted m) Q
  unfolding transacted
  Run-transacted m p = record {
    at = λ n f.
        let w : World = record { db = d; env = n } in
        let h : Closure reliable d Q (m w).0 (m w).1.db × Answers reliable (m w).1.env = p.at n f in
        run_finish d Q (m w).0 (m w).1 h.1 h.0;
  }

  pub Run-with_transaction :
      (m : App A)
      → Fails reliable Q d
      → Run reliable d m (Closure reliable d Q)
      → Run reliable d (with_transaction m) Q
  unfolding with_transaction
  Run-with_transaction m bad p = Run-statement _ _ bad (Run-transacted m p)

  pub Run-map_error :
      (f : Error → Error) (m : App A)
      → Run reliable d m (Wrapped f Q)
      → Run reliable d (map_error f m) Q
  unfolding map_error
  Run-map_error f m p = record {
    at = λ n g.
        let w : World = record { db = d; env = n } in
        let h : Wrapped f Q (m w).0 (m w).1.db × Answers reliable (m w).1.env = p.at n g in
        run_wrapped Q f (m w).0 (m w).1 h.1 h.0;
  }

  pub Run-weaken :
      (R : Post A) (m : App A)
      → Run reliable d m R
      → ((r : Result A) (d' : Db) → R r d' → Q r d')
      → Run reliable d m Q
  Run-weaken R m p h = record { at = λ n f. let q = p.at n f in (h _ _ q.0, q.1) }

  -- A statement that stands last.
  pub Run-statement_last :
      (f : Db → Result (A × Db))
      → Fails reliable Q d
      → Outcome Q d (f d)
      → Run reliable d (statement f) Q
  unfolding statement
  Run-statement_last f bad h = record { at = λ n g. run_last d Q f n.faults n g g bad h }

module _ {A B : Type 0} {reliable : Bool} {d : Db} {Q : Post B} where
  pub Run-query :
      (f : Db → A) (k : A → App B)
      → Fails reliable Q d
      → Run reliable d (k (f d)) Q
      → Run reliable d (query f >>= k) Q
  Run-query f k bad h = Run-statement (λ x. ok (f x, x)) k bad h

  pub Run-lookup :
      (f : Db → Option A) (k : A → App B)
      → Fails reliable Q d
      → (f d ≡ none → Q (err record_not_found) d)
      → ((a : A) → f d ≡ some a → Run reliable d (k a) Q)
      → Run reliable d (lookup f >>= k) Q
  Run-lookup f k bad missing found =
      Run-statement (λ x. keep_db (or_not_found (f x)) x) k bad
        (After-lookup d Q (f d) k missing found)

module _ {B : Type 0} {reliable : Bool} {d : Db} {Q : Post B} where
  pub Run-execute :
      (f : Db → Result Db) (k : Unit {0} → App B)
      → Fails reliable Q d
      → ((x : Error) → f d ≡ err x → Q (err x) d)
      → ((d' : Db) → f d ≡ ok d' → Run reliable d' (k tt) Q)
      → Run reliable d (execute f >>= k) Q
  Run-execute f k bad refused done =
      Run-statement (λ x. with_unit (f x)) k bad (After-execute d Q (f d) k refused done)

module _ {A : Type 0} {reliable : Bool} {d : Db} {Q : Post A} where
  pub Run-lookup_last :
      (f : Db → Option A)
      → Fails reliable Q d
      → (f d ≡ none → Q (err record_not_found) d)
      → ((a : A) → f d ≡ some a → Q (ok a) d)
      → Run reliable d (lookup f) Q
  Run-lookup_last f bad missing found =
      Run-statement_last (λ x. keep_db (or_not_found (f x)) x) bad
        (lookup-Outcome d Q (f d) missing found)

module _ {reliable : Bool} {d : Db} {Q : Post (Unit {0})} where
  pub Run-execute_last :
      (f : Db → Result Db)
      → Fails reliable Q d
      → ((x : Error) → f d ≡ err x → Q (err x) d)
      → ((d' : Db) → f d ≡ ok d' → Q (ok tt) d')
      → Run reliable d (execute f) Q
  Run-execute_last f bad refused done =
      Run-statement_last (λ x. with_unit (f x)) bad (execute-Outcome d Q (f d) refused done)

module _ {A B : Type 0} {reliable : Bool} {d : Db} {Q : Post B} where
  pub Run-attempt :
      (R : Post A) (m : App A) (k : Result A → App B)
      → Run reliable d m R
      → ((r : Result A) (d' : Db) → R r d' → Run reliable d' (k r) Q)
      → Run reliable d (attempt m >>= k) Q
  unfolding attempt ◌>>=◌
  Run-attempt R m k p h = record {
    at = λ n f.
        let w : World = record { db = d; env = n } in
        let q : R (m w).0 (m w).1.db × Answers reliable (m w).1.env = p.at n f in
        (h (m w).0 (m w).1.db q.0).at (m w).1.env q.1;
  }

module _ {A B : Type 0} {reliable : Bool} {d : Db} {Q : Post B} where
  -- A part of the program that stands before the rest.
  pub Run-then :
      (m : App A) (k : A → App B)
      → Run reliable d m (Then reliable k Q)
      → Run reliable d (m >>= k) Q
  Run-then m k p = Run-bind (Then reliable k Q) m k p (λ _ _ h. h) (λ _ _ h. h)

  pub Run-map_error-then :
      (f : Error → Error) (m : App A) (k : A → App B)
      → Run reliable d m (Wrapped f (Then reliable k Q))
      → Run reliable d (map_error f m >>= k) Q
  Run-map_error-then f m k p = Run-then (map_error f m) k (Run-map_error f m p)

module _ {A B : Type 0} {reliable : Bool} {d : Db} {Q : Post B} where
  pub Run-attempt_then :
      (m : App A) (k : Result A → App B)
      → Run reliable d m (λ r d'. Run reliable d' (k r) Q)
      → Run reliable d (attempt m >>= k) Q
  Run-attempt_then m k p = Run-attempt (λ r d'. Run reliable d' (k r) Q) m k p (λ _ _ h. h)

-- Of a computation that may fail at any call, nothing is known.
pub Run-any : {A : Type 0} {d : Db} (m : App A) → Run false d m (λ _ _. Unit {0})
Run-any m = record { at = λ n f. (tt, λ r. cc) }

-- `search` follows a program with these.
pub ruleset run_rules = (
  Run-pure, Run-raise, Run-if, Run-gets, Run-lookup, Run-query, Run-execute, Run-lookup_last,
  Run-execute_last, Run-map_error, Run-map_error-then,
)
