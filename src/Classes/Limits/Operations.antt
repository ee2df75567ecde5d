-- ===== src/Classes/Limits/Operations.antt =====
-- The operations on classes keep every slot limit within its bounds.
use kelolakelas_academic_ser.App.{Db, World, Result, ok, err, App, execute}
use kelolakelas_academic_ser.App.Run.{
  Post, Run, Outcome, Run-pure, Run-raise, Run-if, Run-bind, Run-gets, Run-weaken,
  Run-statement_last, Run-lookup, Run-execute_last, Inv, Keeps, keep-bind, keep-with_transaction,
  keep_rules,
}
use kelolakelas_academic_ser.Classes.Categories.{TenantClient, QuietTenant}
use kelolakelas_academic_ser.Classes.Changes.{
  UpdateClassRequest, update_class, update_class_publication, delete_class,
}
use kelolakelas_academic_ser.Classes.Creation.{
  CreateClassRequest, create_class, Fingerprint, payload_class, make_class, answer_or_make,
  create_in_transaction, create_class_with_category,
}
use kelolakelas_academic_ser.Classes.Creation.Kept.{make_class-Keeps}
use kelolakelas_academic_ser.Classes.Limits.{LimitsFit, Limited, valid_slot_limit-fits}
use kelolakelas_academic_ser.Classes.Limits.Changes.{
  update_class-Limited, publication-Limited, delete_class-Limited, require_tenant-Limited,
  created-Limited, create_class-Limited,
}
use kelolakelas_academic_ser.Classes.Payload.{
  CreateClassWithCategoryRequest, bad_slot, check_slot_items, validate_class_creation,
}
use kelolakelas_academic_ser.Classes.Rows.{valid_slot_limit}
use kelolakelas_academic_ser.Classes.Store.{
  find_creation, claim, stored_response, replayed, begin_creation, complete_creation,
}
use kelolakelas_academic_ser.Domain.{
  Uuid, CreateClassWithCategoryResponse, ResponseJson, ClassCreation,
}
use kelolakelas_academic_ser.Prelude.{
  ◌==◌, same_text, is_some, Option-else, Bool-cases, String, ◌≡◌, inl, inr, Bool, true, false, not,
  Option, none, some, List, [], ◌∷◌, arith,
}
use kelolakelas_academic_ser.Schedule.Changes.Capacity.{ReadsOnly}
use kelolakelas_academic_ser.Schedule.Guard.{Membership}
use kelolakelas_academic_ser.Schedule.Initial.{ScheduleItem, ends_before}
use mathlib.Core.Path.{subst}

begin_creation-Limited :
    (tenant : Uuid) (key hash : String) → Keeps Limited (begin_creation tenant key hash)
unfolding begin_creation
begin_creation-Limited tenant key hash d v =
    keep-bind _ _ (Run-statement_last _ (λ _. v) (claimed v)) λ n d' v'.
      Run-if (n == 1) _ _ (λ _. Run-pure none v')
        λ _. Run-lookup _ _ (λ _. v') (λ _. v') λ r _. replay r d' v'
  where
    claimed : Limited d → Outcome (Inv Limited) d (claim tenant key hash d)
    claimed v = elim (Bool-cases (is_some (find_creation tenant key d))) [
      | inl e ↦ unfold claim in rw e v
      | inr e ↦ unfold claim in rw e (record { at = v.at })
    ]

    replay : (r : ClassCreation) → Keeps Limited (replayed hash r)
    replay r d1 v1 =
        Run-if (not (same_text r.payload_hash hash)) _ _ (λ _. Run-raise _ v1)
          λ _. stored r.response d1 v1
      where
        stored : (o : Option ResponseJson) → Keeps Limited (stored_response o)
        stored none d2 v2 = Run-raise _ v2
        stored (some j) d2 v2 = Run-pure _ v2

make-Limited :
    (membership : Membership) (tenant : Uuid) (req : CreateClassWithCategoryRequest)
    → ReadsOnly membership
    → valid_slot_limit req.class.type req.class.private_slot_limit ≡ true
    → Keeps Limited (make_class membership tenant req)
make-Limited membership tenant req reads valid =
    make_class-Keeps Limited (λ _ _ v. record { at = v.at }) (λ _ _ v. record { at = v.at })
      (λ _ _ v. record { at = v.at }) (λ _ _ v. record { at = v.at }) membership reads tenant req
      (λ i category.
        created-Limited (payload_class i tenant category req.class)
          (valid_slot_limit-fits req.class.type req.class.private_slot_limit valid))

completed-Limited :
    (tenant : Uuid) (key : String) (response : CreateClassWithCategoryResponse)
    → Keeps Limited (execute (complete_creation tenant key response))
completed-Limited tenant key response d v =
    Run-execute_last _ (λ _. v) (λ x _. v)
      λ d' h. record { at = subst LimitsFit (effect d' h) v.at }
  where
    effect : (d' : Db) → complete_creation tenant key response d ≡ ok d' → d.classes ≡ d'.classes
    effect d' k = unfold complete_creation in ground arith

answered-Limited :
    (membership : Membership) (tenant : Uuid) (req : CreateClassWithCategoryRequest)
    (replay : Option CreateClassWithCategoryResponse)
    → ReadsOnly membership
    → valid_slot_limit req.class.type req.class.private_slot_limit ≡ true
    → Keeps Limited (answer_or_make membership tenant req replay)
answered-Limited membership tenant req (some response) reads valid d v = Run-pure response v
answered-Limited membership tenant req none reads valid d v =
    keep-bind _ _ (make-Limited membership tenant req reads valid d v) λ response d1 v1.
      keep-bind _ _ (completed-Limited tenant req.idempotency_key response d1 v1)
        λ _ d2 v2. Run-pure _ v2

check_slots-Limited : (items : List ScheduleItem) → Keeps Limited (check_slot_items items)
unfolding check_slot_items
check_slots-Limited [] d v = Run-pure tt v
check_slots-Limited (item ∷ rest) d v =
    Run-if (bad_slot item) _ _ (λ _. Run-raise _ v)
      λ _. Run-gets _ _ λ now.
        Run-if (ends_before item.valid_until (Option-else item.valid_from now)) _ _
          (λ _. Run-raise _ v) (λ _. check_slots-Limited rest d v)

-- A valid payload has a valid limit.
abbrev Valid : CreateClassWithCategoryRequest → Post (Unit {0})
Valid req (ok _) d =
    Limited d × (valid_slot_limit req.class.type req.class.private_slot_limit ≡ true)
Valid req (err x) d = Limited d

validate-Valid :
    (req : CreateClassWithCategoryRequest) (d : Db)
    → Limited d
    → Run false d (validate_class_creation req) (Valid req)
unfolding validate_class_creation
validate-Valid req d v =
    Run-if (not (valid_slot_limit req.class.type req.class.private_slot_limit)) _ _
      (λ _. Run-raise _ v)
      λ valid.
        Run-weaken (Inv Limited) _ (search (keep_rules, check_slots-Limited) depth 14)
          (λ r d' v'. holds r d' v' (ground arith))
  where
    holds :
        (r : Result (Unit {0})) (d' : Db)
        → Limited d'
        → valid_slot_limit req.class.type req.class.private_slot_limit ≡ true
        → Valid req r d'
    holds (ok _) d' v' valid = (v', valid)
    holds (err x) d' v' valid = v'

aggregate-Limited :
    (fingerprint : Fingerprint) (client : TenantClient) (membership : Membership) (tenant : Uuid)
    (req : CreateClassWithCategoryRequest)
    → QuietTenant client
    → ReadsOnly membership
    → Keeps Limited (create_class_with_category fingerprint client membership tenant req)
unfolding create_class_with_category create_in_transaction
aggregate-Limited fingerprint client membership tenant req quiet reads d v =
    Run-bind (Valid req) _ _ (validate-Valid req d v)
      (λ _ d1 q. keep-bind _ _ (require_tenant-Limited client tenant quiet d1 q.0) λ _ d2 v2.
        keep-with_transaction _ v2 (
          Run-if (same_text req.idempotency_key "") _ _
            (λ _. make-Limited membership tenant req reads q.1 d2 v2)
            λ _.
              keep-bind _ _
                (begin_creation-Limited tenant req.idempotency_key (fingerprint req) d2 v2)
                λ replay d3 v3. answered-Limited membership tenant req replay reads q.1 d3 v3))
      (λ x d1 v1. v1)

-- What a tenant asks for.
pub data ClassRequest : Type 0 where
  creating : Uuid → CreateClassRequest → ClassRequest
  assembling : Uuid → CreateClassWithCategoryRequest → ClassRequest
  updating : Uuid → Uuid → UpdateClassRequest → ClassRequest
  publishing : Uuid → Uuid → Bool → ClassRequest
  deleting : Uuid → Uuid → ClassRequest

abbrev pub forget : {A : Type 0} → App A → World → World
forget m w = (m w).1

module _ (fingerprint : Fingerprint) (client : TenantClient) (membership : Membership) where
  unfoldable pub serve_class : ClassRequest → World → World
  serve_class (creating tenant req) = forget (create_class client tenant req)
  serve_class (assembling tenant req) =
      forget (create_class_with_category fingerprint client membership tenant req)
  serve_class (updating tenant i req) = forget (update_class membership tenant i req)
  serve_class (publishing tenant i b) = forget (update_class_publication tenant i b)
  serve_class (deleting tenant i) = forget (delete_class tenant i)

  -- The world after all of them, whatever each answers.
  unfoldable pub serve_classes : List ClassRequest → World → World
  serve_classes [] w = w
  serve_classes (o ∷ rest) w = serve_classes rest (serve_class o w)

  module _ (quiet : QuietTenant client) (reads : ReadsOnly membership) where
    serve_class-Limited :
        (o : ClassRequest) (w : World) → Limited w.db → Limited (serve_class o w).db
    unfolding serve_class
    serve_class-Limited (creating tenant req) w v =
        ((create_class-Limited client tenant req quiet w.db v).at w.env (λ r. cc)).0
    serve_class-Limited (assembling tenant req) w v =
        ((aggregate-Limited fingerprint client membership tenant req quiet reads w.db v).at w.env
          (λ r. cc)).0
    serve_class-Limited (updating tenant i req) w v =
        ((update_class-Limited membership reads tenant i req w.db v).at w.env (λ r. cc)).0
    serve_class-Limited (publishing tenant i b) w v =
        ((publication-Limited tenant i b w.db v).at w.env (λ r. cc)).0
    serve_class-Limited (deleting tenant i) w v =
        ((delete_class-Limited tenant i w.db v).at w.env (λ r. cc)).0

-- Whatever classes are created, updated, published and deleted, in whatever order and whichever
-- calls fail, every slot limit that is stored is a positive PostgreSQL integer and belongs to a
-- private class, if that held before, where the tenant and membership services only read.
pub serve_classes-Limited :
    (fingerprint : Fingerprint) (client : TenantClient) (membership : Membership)
    (asked : List ClassRequest) (w : World)
    → QuietTenant client
    → ReadsOnly membership
    → Limited w.db
    → Limited (serve_classes fingerprint client membership asked w).db
unfolding serve_classes
serve_classes-Limited fingerprint client membership [] w quiet reads v = v
serve_classes-Limited fingerprint client membership (o ∷ rest) w quiet reads v =
    serve_classes-Limited fingerprint client membership rest
      (serve_class fingerprint client membership o w) quiet reads
      (serve_class-Limited fingerprint client membership quiet reads o w v)
