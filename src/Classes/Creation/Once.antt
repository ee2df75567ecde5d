-- ===== src/Classes/Creation/Once.antt =====
-- A key makes one class.
use kelolakelas_academic_ser.App.{Db, World, Result, ok, err, App, pure, ◌>>=◌, lookup, execute}
use kelolakelas_academic_ser.App.Run.{
  Post, Run, After, Closure, Run-pure, Run-raise, Run-if, Run-statement, Run-bind,
  Run-with_transaction, Run-weaken, Run-lookup, Run-execute, Run-execute_last, Run-any, Inv, Keeps,
}
use kelolakelas_academic_ser.Classes.Categories.{TenantClient, QuietTenant}
use kelolakelas_academic_ser.Classes.Creation.{
  Fingerprint, answer_or_make, create_in_transaction, create_class_with_category,
}
use kelolakelas_academic_ser.Classes.Creation.Kept.{make_class-Keeps}
use kelolakelas_academic_ser.Classes.Creation.Replay.{Answered, Replays, create-Replays}
use kelolakelas_academic_ser.Classes.Payload.{CreateClassWithCategoryRequest}
use kelolakelas_academic_ser.Classes.Rows.{insert_class}
use kelolakelas_academic_ser.Classes.Store.{
  claimed_by, find_creation, new_claim, claim, marshal_schedule, unmarshal_schedule,
  marshal_response, unmarshal_response, stored_response, replayed, begin_creation,
  complete_creation,
}
use kelolakelas_academic_ser.Domain.{
  Uuid, Class, CreateClassWithCategoryResponse, ScheduleJson, ResponseJson, ClassCreation,
}
use kelolakelas_academic_ser.Prelude.{
  ◌==◌, same_text, same_text_refl, if◌then◌else◌, is_some, Bool-cases, first, update_where, String,
  ◌≡◌, refl, sym, ap, ◌∙◌, ◌⊎◌, inl, inr, true, false, not, Option, none, some, List, [], ◌∷◌, map,
  arith,
}
use kelolakelas_academic_ser.Schedule.Changes.Capacity.{ReadsOnly}
use kelolakelas_academic_ser.Schedule.Guard.{Membership}
use mathlib.Core.Path.{subst}

-- The first request leaves its response with its key.
abbrev pub Leaves : Uuid → String → Post CreateClassWithCategoryResponse
Leaves tenant key (ok x) d = Answered tenant key (marshal_response x) d
Leaves tenant key (err e) d = Unit {0}

marshal-unmarshal_schedules :
    (l : List ScheduleJson) → map marshal_schedule (map unmarshal_schedule l) ≡ l
marshal-unmarshal_schedules [] = refl
marshal-unmarshal_schedules (s ∷ l) = ap (λ r. s ∷ r) (marshal-unmarshal_schedules l)

-- A response that comes from JSON has that JSON.
marshal-unmarshal_response : (j : ResponseJson) → marshal_response (unmarshal_response j) ≡ j
unfolding marshal_response unmarshal_response
marshal-unmarshal_response j =
    ap (λ l. record j { schedules = l }) (marshal-unmarshal_schedules j.schedules)

module _ (tenant : Uuid) (key : String) where
  first-completed :
      (x : CreateClassWithCategoryResponse) (r : ClassCreation) (rows : List ClassCreation)
      → first (claimed_by tenant key) rows ≡ some r
      → first (claimed_by tenant key) (
          update_where
            (claimed_by tenant key)
            (λ r. record r { response = some (marshal_response x) })
            rows)
        ≡ some (record r { response = some (marshal_response x) })
  unfolding first update_where
  first-completed x r [] h = cc
  first-completed x r (y ∷ rows) h = ground (arith, first-completed x r rows)

  completed-Answered :
      (x : CreateClassWithCategoryResponse) (r : ClassCreation) (d d' : Db)
      → find_creation tenant key d ≡ some r
      → complete_creation tenant key x d ≡ ok d'
      → Answered tenant key (marshal_response x) d'
  unfolding find_creation
  completed-Answered x r d d' found h = (
    record r { response = some (marshal_response x) },
    rw (effect h) (first-completed x r d.class_creations found),
    refl,
  )
    where
      effect :
          complete_creation tenant key x d ≡ ok d'
          → d' ≡ record d {
            class_creations =
                update_where
                  (claimed_by tenant key)
                  (λ r. record r { response = some (marshal_response x) })
                  d.class_creations;
          }
      effect k = unfold complete_creation in ground arith

  -- The key is claimed.
  abbrev Claimed : Db → Type 0
  Claimed d = (r : ClassCreation) × (first (claimed_by tenant key) d.class_creations ≡ some r)

  abbrev Began : Post (Option CreateClassWithCategoryResponse)
  Began (ok none) d = Claimed d
  Began (ok (some x)) d = Answered tenant key (marshal_response x) d
  Began (err e) d = Unit {0}

  claims : (hash : String) → claimed_by tenant key (new_claim tenant key hash) ≡ true
  claims hash = ground (arith, same_text_refl key)

  new-Claimed :
      (hash : String) (d : Db)
      → Claimed (record d { class_creations = new_claim tenant key hash ∷ d.class_creations })
  unfolding first
  new-Claimed hash d = (new_claim tenant key hash, rw (claims hash) refl)

  replayed-Began :
      (hash : String) (r : ClassCreation) (d : Db)
      → find_creation tenant key d ≡ some r
      → Run false d (replayed hash r) Began
  replayed-Began hash r d found =
      Run-if (not (same_text r.payload_hash hash)) _ _ (λ _. Run-raise _ tt)
        λ _. stored r.response refl
    where
      stored : (o : Option ResponseJson) → r.response ≡ o → Run false d (stored_response o) Began
      stored none e = Run-raise _ tt
      stored (some j) e = Run-pure _ (r, found, e ∙ ap some (sym (marshal-unmarshal_response j)))

  begin-Began : (hash : String) (d : Db) → Run false d (begin_creation tenant key hash) Began
  unfolding begin_creation
  begin-Began hash d =
      Run-statement _ _ (λ _. tt) (claimed (Bool-cases (is_some (find_creation tenant key d))))
    where
      looked_up : Run false d (lookup (find_creation tenant key) >>= λ r. replayed hash r) Began
      looked_up = Run-lookup _ _ (λ _. tt) (λ _. tt) λ r found. replayed-Began hash r d found

      claimed :
          (is_some (find_creation tenant key d) ≡ true)
            ⊎ (is_some (find_creation tenant key d) ≡ false)
          → After false d
              (claim tenant key hash d)
              (λ n.
                if n == 1
                then pure none
                else do r ← lookup (find_creation tenant key); replayed hash r)
              Began
      claimed (inl e) = unfold claim in rw e looked_up
      claimed (inr e) = unfold claim in rw e (Run-pure none (new-Claimed hash d))

  inserts-Claimed : (c : Class) → Keeps Claimed (execute (insert_class c))
  inserts-Claimed c d v = Run-execute_last _ (λ _. v) (λ x _. v) λ d' h. rw (effect d' h) v
    where
      effect : (d' : Db) → insert_class c d ≡ ok d' → d' ≡ record d { classes = c ∷ d.classes }
      effect d' k = unfold insert_class in ground arith

module _ (tenant : Uuid) (req : CreateClassWithCategoryRequest)
    (named : same_text req.idempotency_key "" ≡ false) (membership : Membership)
    (reads : ReadsOnly membership) where
  answer-Leaves :
      (replay : Option CreateClassWithCategoryResponse) (d : Db)
      → Began tenant req.idempotency_key (ok replay) d
      → Run false d
          (answer_or_make membership tenant req replay)
          (Leaves tenant req.idempotency_key)
  unfolding find_creation
  answer-Leaves (some x) d v = Run-pure x v
  answer-Leaves none d v =
      Run-bind (Inv (Claimed tenant req.idempotency_key)) _ _
        (make_class-Keeps (Claimed tenant req.idempotency_key) (λ _ _ u. u) (λ _ _ u. u)
          (λ _ _ u. u) (λ _ _ u. u) membership reads tenant req
          (λ i category. inserts-Claimed tenant req.idempotency_key _) d v)
        (λ x d' q.
          Run-execute _ _ (λ _. tt) (λ y _. tt)
            λ d2 h. Run-pure x (completed-Answered tenant req.idempotency_key x q.0 d' d2 q.1 h))
        (λ y d' _. tt)

  create-Leaves :
      (fingerprint : Fingerprint) (client : TenantClient) (d : Db)
      → Run false d
          (create_class_with_category fingerprint client membership tenant req)
          (Leaves tenant req.idempotency_key)
  unfolding create_class_with_category create_in_transaction
  create-Leaves fingerprint client d = anyhow _ _ d λ _ d1.
      anyhow _ _ d1
        λ _ d2. Run-with_transaction _ (λ _. tt) (Run-weaken _ _ (inside d2) (closed d2))
    where
      anyhow :
          (m : App (Unit {0})) (k : Unit {0} → App CreateClassWithCategoryResponse) (d : Db)
          → ((a : Unit {0}) (d' : Db) → Run false d' (k a) (Leaves tenant req.idempotency_key))
          → Run false d (m >>= k) (Leaves tenant req.idempotency_key)
      anyhow m k d h = Run-bind (λ _ _. Unit {0}) m k (Run-any m) (λ a d' _. h a d') (λ x d' _. tt)

      closed :
          (before : Db) (r : Result CreateClassWithCategoryResponse) (d' : Db)
          → Leaves tenant req.idempotency_key r d'
          → Closure false before (Leaves tenant req.idempotency_key) r d'
      closed before (ok x) d' q = (q, λ _. tt)
      closed before (err e) d' q = tt

      inside :
          (d2 : Db)
          → Run false d2
              (create_in_transaction fingerprint membership tenant req)
              (Leaves tenant req.idempotency_key)
      inside d2 =
          unfold create_in_transaction in
          rw named (
            Run-bind (Began tenant req.idempotency_key) _ _
              (begin-Began tenant req.idempotency_key (fingerprint req) d2)
              (λ replay d' q. answer-Leaves replay d' q) (λ x d' _. tt))

-- A key makes one class: once a request with a key has been answered, a second request of the
-- tenant with that key writes nothing, and it fails or gives the first answer as its JSON keeps it,
-- without the watermarks of the schedules, whatever its payload is and whichever calls fail. The tenant and membership services only read.
pub create_class_with_category-once :
    (fingerprint : Fingerprint) (client : TenantClient) (membership : Membership) (tenant : Uuid)
    (req again : CreateClassWithCategoryRequest) (x : CreateClassWithCategoryResponse)
    (w w' : World)
    → QuietTenant client
    → ReadsOnly membership
    → same_text again.idempotency_key "" ≡ false
    → req.idempotency_key ≡ again.idempotency_key
    → create_class_with_category fingerprint client membership tenant req w ≡ (ok x, w')
    → let (r, w2) = create_class_with_category fingerprint client membership tenant again w' in
      Replays (marshal_response x) w'.db r w2.db
create_class_with_category-once fingerprint client membership tenant req again x w w' quiet reads
      named same made =
    ((create-Replays tenant again (marshal_response x) w'.db answered named fingerprint client
        membership quiet).at
      w'.env (λ r. cc)).0
  where
    left : Leaves tenant req.idempotency_key (ok x) w'.db
    left =
        subst
          (λ (p : Result CreateClassWithCategoryResponse × World).
            Leaves tenant req.idempotency_key p.0 p.1.db)
          made
          ((create-Leaves tenant req (rw same named) membership reads fingerprint client w.db).at
            w.env (λ r. cc)).0

    answered : Answered tenant again.idempotency_key (marshal_response x) w'.db
    answered = subst (λ (k : String). Answered tenant k (marshal_response x) w'.db) same left
