-- ===== src/Catalog.antt =====
-- The gate of the public catalog: internal/usecase/catalog_policy.go. The policy is another service:
-- what it would answer, or that it fails, is an argument of each check. Times and the time to live
-- are nanoseconds. The mutex makes one check after the other.
use kelolakelas_academic_ser.App.{Result, ok, err, answer}
use kelolakelas_academic_ser.Domain.{ℤ, pos, negsuc}
use kelolakelas_academic_ser.Errors.{catalog_closed, catalog_policy_unavailable, domain}
use kelolakelas_academic_ser.Prelude.{
  ltb, ◌==◌, if◌then◌else◌, any, ℕ, zero, suc, ◌-◌, ◌≡◌, refl, sym, Bool, true, false, not, ◌&&◌,
  ◌||◌, Option, none, some, List, [], ◌∷◌, ◌++◌, arith,
}
use mathlib.Core.Path.{subst}
use mathlib.Core.List.{append-nil, append_assoc}

pub record CatalogPolicy : Type 0 where
  pub is_open : Bool
  pub applied_version : ℕ
  pub desired_version : ℕ

-- lastSeen is none before the first policy, where the code has -1.
pub record CatalogPolicyGate : Type 0 where
  pub has_client : Bool
  pub ttl : ℕ
  pub cached : CatalogPolicy
  pub fetched_at : ℕ
  pub has_cached : Bool
  pub last_seen : Option ℕ

abbrev pub catalog_policy_ttl : ℕ
catalog_policy_ttl = 15000000000

abbrev pub no_policy : CatalogPolicy
no_policy = record { is_open = false; applied_version = 0; desired_version = 0 }

abbrev positive_or_default : ℤ → ℕ
positive_or_default (pos zero) = catalog_policy_ttl
positive_or_default (pos (suc n)) = suc n
positive_or_default (negsuc n) = catalog_policy_ttl

-- A time to live that is not positive is the default.
unfoldable pub new_catalog_policy_gate : Bool → ℤ → CatalogPolicyGate
new_catalog_policy_gate client ttl = record {
  has_client = client;
  ttl = positive_or_default ttl;
  cached = no_policy;
  fetched_at = 0;
  has_cached = false;
  last_seen = none;
}

-- An answer of the cache: closed, and not older than the time to live.
unfoldable pub serves_cached : CatalogPolicyGate → ℕ → Bool
serves_cached g now = g.has_cached && not g.cached.is_open && ltb (now - g.fetched_at) g.ttl

abbrev pub remember : CatalogPolicyGate → ℕ → CatalogPolicy → CatalogPolicyGate
remember g now p = record g {
  cached = p;
  fetched_at = now;
  has_cached = true;
  last_seen = some p.applied_version;
}

abbrev pub ask_client :
    CatalogPolicyGate → ℕ → Option CatalogPolicy → Option CatalogPolicy × CatalogPolicyGate
ask_client g now none = (none, record g { has_cached = false })
ask_client g now (some p) = (some p, remember g now p)

unfoldable pub policy :
    CatalogPolicyGate → ℕ → Option CatalogPolicy → Option CatalogPolicy × CatalogPolicyGate
policy g now answer =
    if not g.has_client
    then (none, g)
    else if serves_cached g now
    then (some g.cached, g)
    else ask_client g now answer

abbrev pub shown_by : Option CatalogPolicy → Result (Unit {0})
shown_by none = err (domain catalog_policy_unavailable)
shown_by (some p) = if p.is_open then ok tt else err (domain catalog_closed)

-- check
unfoldable pub check :
    CatalogPolicyGate → ℕ → Option CatalogPolicy → Result (Unit {0}) × CatalogPolicyGate
check g now answer = let (p, g') = policy g now answer in (shown_by p, g')

-- A check: when it is, and what the policy service would answer then.
pub record PolicyCheck : Type 0 where
  pub time : ℕ
  pub answer : Option CatalogPolicy

-- The gate after the checks.
unfoldable pub checked : CatalogPolicyGate → List PolicyCheck → CatalogPolicyGate
checked g [] = g
checked g (c ∷ rest) = checked (check g c.time c.answer).1 rest

abbrev pub answers_open : Option CatalogPolicy → Bool
answers_open none = false
answers_open (some p) = p.is_open

abbrev pub answers_closed : Option CatalogPolicy → Bool
answers_closed none = false
answers_closed (some p) = not p.is_open

check-open :
    (g : CatalogPolicyGate) (now : ℕ) (answer : Option CatalogPolicy)
    → (check g now answer).0 ≡ ok tt
    → (g.has_client ≡ true) × (answers_open answer ≡ true)
unfolding check policy serves_cached
check-open g now none h = ground arith
check-open g now (some p) h = ground arith

-- The catalog is shown only by an answer of this very check: after any checks, an open answer from
-- before is never used again, and a policy that cannot be read hides the catalog, as a missing
-- client does.
pub check-fresh :
    (client : Bool) (ttl : ℤ) (earlier : List PolicyCheck) (now : ℕ) (answer : Option CatalogPolicy)
    → (check (checked (new_catalog_policy_gate client ttl) earlier) now answer).0 ≡ ok tt
    → answers_open answer ≡ true
check-fresh client ttl earlier now answer h =
    (check-open (checked (new_catalog_policy_gate client ttl) earlier) now answer h).1

-- What the gate remembers of the checks.
abbrev closed_at : ℕ → PolicyCheck → Bool
closed_at t c = c.time == t && answers_closed c.answer

record Traced (ttl : ℕ) (past : List PolicyCheck) (g : CatalogPolicyGate) : Type 0 where
  pub live : g.has_client ≡ true
  pub same_ttl : g.ttl ≡ ttl
  pub origin :
      g.has_cached && not g.cached.is_open ≡ true → any (closed_at g.fetched_at) past ≡ true

any-append :
    (p : PolicyCheck → Bool) (past : List PolicyCheck) (c : PolicyCheck)
    → any p (past ++ (c ∷ [])) ≡ (any p past || p c)
unfolding any
any-append p [] c = ground arith
any-append p (x ∷ past) c = ground (arith, any-append p past c)

after_one :
    (ttl : ℕ) (past : List PolicyCheck) (g : CatalogPolicyGate) (t : ℕ) (a : Option CatalogPolicy)
    → Traced ttl past g
    → Traced ttl (past ++ (record { time = t; answer = a } ∷ [])) (check g t a).1
unfolding check policy serves_cached
after_one ttl past g t none v = record {
  live = ground (arith, v.live);
  same_ttl = ground (arith, v.live, v.same_ttl);
  origin = λ h. ground (
    arith,
    v.live,
    v.origin,
    any-append (closed_at g.fetched_at) past (record { time = t; answer = none }),
  );
}
after_one ttl past g t (some p) v = record {
  live = ground (arith, v.live);
  same_ttl = ground (arith, v.live, v.same_ttl);
  origin = λ h. ground (
    arith,
    v.live,
    v.origin,
    any-append (closed_at g.fetched_at) past (record { time = t; answer = some p }),
    any-append (closed_at t) past (record { time = t; answer = some p }),
  );
}

check-Traced :
    (ttl : ℕ) (past : List PolicyCheck) (g : CatalogPolicyGate) (c : PolicyCheck)
    → Traced ttl past g
    → Traced ttl (past ++ (c ∷ [])) (check g c.time c.answer).1
check-Traced ttl past g c v = after_one ttl past g c.time c.answer v

checked-Traced :
    (ttl : ℕ) (past later : List PolicyCheck) (g : CatalogPolicyGate)
    → Traced ttl past g
    → Traced ttl (past ++ later) (checked g later)
unfolding checked
checked-Traced ttl past [] g v =
    subst (λ (l : List PolicyCheck). Traced ttl l g) (sym (append-nil past)) v
checked-Traced ttl past (c ∷ later) g v =
    subst (λ (l : List PolicyCheck). Traced ttl l (checked (check g c.time c.answer).1 later))
      (append_assoc past (c ∷ []) later)
      (checked-Traced ttl (past ++ (c ∷ [])) later (check g c.time c.answer).1
        (check-Traced ttl past g c v))

-- A closed answer that is not older than the time to live.
abbrev pub recently_closed : ℕ → ℕ → PolicyCheck → Bool
recently_closed ttl now c = answers_closed c.answer && ltb (now - c.time) ttl

recent :
    (ttl now t : ℕ) (past : List PolicyCheck)
    → any (closed_at t) past ≡ true
    → ltb (now - t) ttl ≡ true
    → any (recently_closed ttl now) past ≡ true
unfolding any
recent ttl now t [] h k = cc
recent ttl now t (c ∷ past) h k = ground (arith, recent ttl now t past)

shown :
    (ttl : ℕ) (past : List PolicyCheck) (g : CatalogPolicyGate) (now : ℕ)
    (answer : Option CatalogPolicy)
    → Traced ttl past g
    → any (recently_closed ttl now) past ≡ false
    → answers_open answer ≡ true
    → (check g now answer).0 ≡ ok tt
unfolding check policy serves_cached
shown ttl past g now none v quiet h = cc
shown ttl past g now (some p) v quiet h =
    ground (arith, v.live, v.same_ttl, v.origin, recent ttl now g.fetched_at past)

new_gate-Traced :
    (ttl : ℤ) → Traced (new_catalog_policy_gate true ttl).ttl [] (new_catalog_policy_gate true ttl)
unfolding new_catalog_policy_gate
new_gate-Traced ttl = record { live = refl; same_ttl = refl; origin = λ h. cc }

-- A catalog that is open again is shown again: a check whose policy is open shows the catalog,
-- whatever the earlier checks met, as soon as none of them within the time to live was answered that
-- the catalog is closed.
pub check-reopens :
    (ttl : ℤ) (earlier : List PolicyCheck) (now : ℕ) (answer : Option CatalogPolicy)
    → any (recently_closed (new_catalog_policy_gate true ttl).ttl now) earlier ≡ false
    → answers_open answer ≡ true
    → (check (checked (new_catalog_policy_gate true ttl) earlier) now answer).0 ≡ ok tt
check-reopens ttl earlier now answer quiet h =
    shown (new_catalog_policy_gate true ttl).ttl earlier
      (checked (new_catalog_policy_gate true ttl) earlier) now answer
      (checked-Traced (new_catalog_policy_gate true ttl).ttl [] earlier
        (new_catalog_policy_gate true ttl) (new_gate-Traced ttl))
      quiet h
