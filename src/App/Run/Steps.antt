-- ===== src/App/Run/Steps.antt =====
-- How a computation meets a condition, one step of its execution at a time.
use kelolakelas_academic_ser.App.{
  Db, Env, World, Result, ok, err, App, continue, ◌>>=◌, answer, run_statement, or_not_found,
  keep_db, with_unit, commit, finish, wrap_error,
}
use kelolakelas_academic_ser.App.Run.Defs.{
  Post, Answers, Run, Fails, Outcome, After, Closure, Wrapped,
}
use kelolakelas_academic_ser.Errors.{Error, record_not_found}
use kelolakelas_academic_ser.Prelude.{
  ◌≡◌, refl, Bool, true, false, Option, none, some, List, [], ◌∷◌,
}

spent : {b : Bool} {script : List Bool} {reliable : Bool} → reliable ≡ true → b ∷ script ≡ [] → ⊥
spent r e = cc

unreliable :
    (reliable b : Bool) (script : List Bool)
    → (reliable ≡ true → b ∷ script ≡ [])
    → reliable ≡ false
unreliable true b script s = cc (s refl)
unreliable false b script s = refl

module _ {A B : Type 0} {reliable : Bool} (d : Db) (Q : Post B) where
  pub run_answer :
      (r : Result (A × Db)) (k : A → App B) (n : Env)
      → Answers reliable n
      → After reliable d r k Q
      → let w = (answer r >>= k) (record { db = d; env = n }) in
        Q w.0 w.1.db × Answers reliable w.1.env
  unfolding ◌>>=◌
  run_answer (ok (a, d')) k n f h = h.at n f
  run_answer (err x) k n f h = (h, f)

  pub run_scripted :
      (f : Db → Result (A × Db)) (k : A → App B) (script : List Bool) (n : Env)
      → (reliable ≡ true → script ≡ [])
      → Answers reliable n
      → Fails reliable Q d
      → After reliable d (f d) k Q
      → let w = (run_statement f script >>= k) (record { db = d; env = n }) in
        Q w.0 w.1.db × Answers reliable w.1.env
  unfolding ◌>>=◌
  run_scripted f k [] n s g bad h = run_answer (f d) k n g h
  run_scripted f k (true ∷ script) n s g bad h =
      (bad (unreliable reliable true script s), λ r. absurd (spent r (s r)))
  run_scripted f k (false ∷ script) n s g bad h =
      run_answer (f d) k (record n { faults = script }) (λ r. absurd (spent r (s r))) h

module _ {A B : Type 0} {reliable : Bool} (Q : Post B) where
  pub Run-rest :
      (r : Result A) (w : World) (k : A → App B)
      → Answers reliable w.env
      → ((a : A) → r ≡ ok a → Run reliable w.db (k a) Q)
      → ((x : Error) → r ≡ err x → Q (err x) w.db)
      → Q (continue r k w).0 (continue r k w).1.db × Answers reliable (continue r k w).1.env
  Run-rest (ok a) w k g good bad = (good a refl).at w.env g
  Run-rest (err x) w k g good bad = (bad x refl, g)

module _ {A : Type 0} {reliable : Bool} (d : Db) (Q : Post A) where
  pub run_commit :
      (a : A) (w : World) (script : List Bool)
      → (reliable ≡ true → script ≡ [])
      → Answers reliable w.env
      → Closure reliable d Q (ok a) w.db
      → Q (commit d a w script).0 (commit d a w script).1.db
        × Answers reliable (commit d a w script).1.env
  run_commit a w [] s g h = (h.0, g)
  run_commit a w (true ∷ script) s g h =
      (h.1 (unreliable reliable true script s), λ r. absurd (spent r (s r)))
  run_commit a w (false ∷ script) s g h = (h.0, λ r. absurd (spent r (s r)))

  pub run_finish :
      (r : Result A) (w : World)
      → Answers reliable w.env
      → Closure reliable d Q r w.db
      → Q (finish d r w).0 (finish d r w).1.db × Answers reliable (finish d r w).1.env
  run_finish (ok a) w g h = run_commit a w w.env.faults g g h
  run_finish (err x) w g h = (h, g)

  pub run-Outcome :
      (r : Result (A × Db)) (n : Env)
      → Answers reliable n
      → Outcome Q d r
      → let w = answer r (record { db = d; env = n }) in Q w.0 w.1.db × Answers reliable w.1.env
  run-Outcome (ok (a, d')) n g h = (h, g)
  run-Outcome (err x) n g h = (h, g)

  pub run_last :
      (f : Db → Result (A × Db)) (script : List Bool) (n : Env)
      → (reliable ≡ true → script ≡ [])
      → Answers reliable n
      → Fails reliable Q d
      → Outcome Q d (f d)
      → let w = run_statement f script (record { db = d; env = n }) in
        Q w.0 w.1.db × Answers reliable w.1.env
  run_last f [] n s g bad h = run-Outcome (f d) n g h
  run_last f (true ∷ script) n s g bad h =
      (bad (unreliable reliable true script s), λ r. absurd (spent r (s r)))
  run_last f (false ∷ script) n s g bad h =
      run-Outcome (f d) (record n { faults = script }) (λ r. absurd (spent r (s r))) h

module _ {A : Type 0} {reliable : Bool} (Q : Post A) where
  pub run_wrapped :
      (f : Error → Error) (r : Result A) (w : World)
      → Answers reliable w.env
      → Wrapped f Q r w.db
      → Q (wrap_error f r w).0 (wrap_error f r w).1.db × Answers reliable (wrap_error f r w).1.env
  run_wrapped f (ok a) w g h = (h, g)
  run_wrapped f (err x) w g h = (h, g)

module _ {A B : Type 0} {reliable : Bool} (d : Db) (Q : Post B) where
  pub After-lookup :
      (o : Option A) (k : A → App B)
      → (o ≡ none → Q (err record_not_found) d)
      → ((a : A) → o ≡ some a → Run reliable d (k a) Q)
      → After reliable d (keep_db (or_not_found o) d) k Q
  After-lookup none k missing found = missing refl
  After-lookup (some a) k missing found = found a refl

module _ {B : Type 0} {reliable : Bool} (d : Db) (Q : Post B) where
  pub After-execute :
      (r : Result Db) (k : Unit {0} → App B)
      → ((x : Error) → r ≡ err x → Q (err x) d)
      → ((d' : Db) → r ≡ ok d' → Run reliable d' (k tt) Q)
      → After reliable d (with_unit r) k Q
  After-execute (ok d') k refused done = done d' refl
  After-execute (err x) k refused done = refused x refl

module _ {A : Type 0} (d : Db) (Q : Post A) where
  pub lookup-Outcome :
      (o : Option A)
      → (o ≡ none → Q (err record_not_found) d)
      → ((a : A) → o ≡ some a → Q (ok a) d)
      → Outcome Q d (keep_db (or_not_found o) d)
  lookup-Outcome none missing found = missing refl
  lookup-Outcome (some a) missing found = found a refl

module _ (d : Db) (Q : Post (Unit {0})) where
  pub execute-Outcome :
      (r : Result Db)
      → ((x : Error) → r ≡ err x → Q (err x) d)
      → ((d' : Db) → r ≡ ok d' → Q (ok tt) d')
      → Outcome Q d (with_unit r)
  execute-Outcome (ok d') refused done = done d' refl
  execute-Outcome (err x) refused done = refused x refl
