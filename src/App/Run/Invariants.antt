-- ===== src/App/Run/Invariants.antt =====
-- Invariants of the database: what keeps a property of the tables, whether it returns or fails.
use kelolakelas_academic_ser.App.{
  Db, Result, ok, err, App, ◌>>=◌, lookup, transacted, with_transaction, map_error, attempt,
}
use kelolakelas_academic_ser.App.Run.Defs.{Post, Run, Closure, Wrapped}
use kelolakelas_academic_ser.App.Run.Rules.{
  Run-bind, Run-transacted, Run-map_error, Run-weaken, Run-query, Run-lookup_last, Run-attempt,
  Run-map_error-then, run_rules,
}
use kelolakelas_academic_ser.Errors.{Error}
use kelolakelas_academic_ser.Prelude.{◌≡◌, sym, false, Option, some}

-- The property still holds, whatever the result is.
abbrev pub Inv : {A : Type 0} → (Db → Type 0) → Post A
Inv P r d = P d

-- A computation keeps the property from every database that has it.
abbrev pub Keeps : {A : Type 0} → (Db → Type 0) → App A → Type 0
Keeps P m = (d : Db) → P d → Run false d m (Inv P)

module _ {A B : Type 0} {P : Db → Type 0} {d : Db} where
  pub keep-bind :
      (m : App A) (k : A → App B)
      → Run false d m (Inv P)
      → ((a : A) (d' : Db) → P d' → Run false d' (k a) (Inv P))
      → Run false d (m >>= k) (Inv P)
  keep-bind m k p h = Run-bind (Inv P) m k p h (λ _ _ q. q)

  pub keep-attempt :
      (m : App A) (k : Result A → App B)
      → Run false d m (Inv P)
      → ((r : Result A) (d' : Db) → P d' → Run false d' (k r) (Inv P))
      → Run false d (attempt m >>= k) (Inv P)
  keep-attempt m k p h = Run-attempt (Inv P) m k p h

module _ {A : Type 0} {P : Db → Type 0} {d : Db} where
  pub keep-transacted :
      (m : App A) → P d → Run false d m (Inv P) → Run false d (transacted m) (Inv P)
  keep-transacted m v p = Run-transacted m (Run-weaken (Inv P) m p closes)
    where
      closes : (r : Result A) (d' : Db) → P d' → Closure false d (Inv P) r d'
      closes (ok a) d' q = (q, λ _. v)
      closes (err x) d' q = v

  pub keep-with_transaction :
      (m : App A) → P d → Run false d m (Inv P) → Run false d (with_transaction m) (Inv P)
  unfolding with_transaction
  keep-with_transaction m v p = Run-query _ _ (λ _. v) (keep-transacted m v p)

  pub keep-map_error :
      (f : Error → Error) (m : App A) → Run false d m (Inv P) → Run false d (map_error f m) (Inv P)
  keep-map_error f m p = Run-map_error f m (Run-weaken (Inv P) m p wraps)
    where
      wraps : (r : Result A) (d' : Db) → P d' → Wrapped f (Inv P) r d'
      wraps (ok a) d' q = q
      wraps (err x) d' q = q

pub ruleset keep_rules = (run_rules, keep-bind, keep-attempt, keep-with_transaction, keep-map_error)

module _ {A B : Type 0} {P : Db → Type 0} {d : Db} where
  -- A part that only reads: the rest starts from the same database.
  pub keep-reads :
      (m : App A) (k : A → App B)
      → P d
      → Run false d m (Inv (λ d'. d' ≡ d))
      → ((a : A) → Run false d (k a) (Inv P))
      → Run false d (m >>= k) (Inv P)
  keep-reads m k v p h =
      Run-bind (Inv (λ d'. d' ≡ d)) m k p (λ a d' same. rw same (h a)) (λ x d' same. rw same v)

  -- A lookup of a row that is known to be there.
  pub keep-known :
      (f : Db → Option A) (a : A) (g : Error → Error) (k : A → App B)
      → P d
      → f d ≡ some a
      → Run false d (k a) (Inv P)
      → Run false d (map_error g (lookup f) >>= k) (Inv P)
  keep-known f a g k v there h =
      Run-map_error-then g (lookup f) k
        (Run-lookup_last f (λ _. v) (λ _. v) (λ b e. same_row b (some-inj there e)))
    where
      same_row : (b : A) → a ≡ b → Run false d (k b) (Inv P)
      same_row b e = rw (sym e) h

      some-inj : {b : A} → f d ≡ some a → f d ≡ some b → a ≡ b
      some-inj x y = cc
