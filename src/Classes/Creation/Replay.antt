-- ===== src/Classes/Creation/Replay.antt =====
-- A request with an answered key.
use kelolakelas_academic_ser.App.{Db, Result, ok, err, App, ◌>>=◌}
use kelolakelas_academic_ser.App.Run.{
  Post, Run, Closure, Run-pure, Run-raise, Run-if, Run-statement, Run-bind, Run-gets,
  Run-with_transaction, Run-weaken, Run-lookup, run_rules, Inv, keep-bind, keep-map_error,
}
use kelolakelas_academic_ser.Classes.Categories.{TenantClient, require_tenant, QuietTenant}
use kelolakelas_academic_ser.Classes.Creation.{
  Fingerprint, answer_or_make, create_in_transaction, create_class_with_category,
}
use kelolakelas_academic_ser.Classes.Payload.{
  CreateClassWithCategoryRequest, bad_slot, check_slot_items, validate_class_creation,
}
use kelolakelas_academic_ser.Classes.Store.{
  find_creation, claim, unmarshal_response, stored_response, replayed, begin_creation,
}
use kelolakelas_academic_ser.Domain.{
  Uuid, CreateClassWithCategoryResponse, ResponseJson, ClassCreation,
}
use kelolakelas_academic_ser.Prelude.{
  same_text, Option-else, String, ◌≡◌, refl, false, not, Option, none, some, List, [], ◌∷◌, arith,
}
use kelolakelas_academic_ser.Schedule.Guard.{Membership}
use kelolakelas_academic_ser.Schedule.Initial.{ScheduleItem, ends_before}

-- The row of the key holds the response.
abbrev pub Answered : Uuid → String → ResponseJson → Db → Type 0
Answered tenant key response d =
    (r : ClassCreation) × (find_creation tenant key d ≡ some r) × (r.response ≡ some response)

-- A request with an answered key: the response of the JSON, or an error, and nothing written.
abbrev pub Replays : ResponseJson → Db → Post CreateClassWithCategoryResponse
Replays response before (ok x) d = (d ≡ before) × (x ≡ unmarshal_response response)
Replays response before (err e) d = d ≡ before

module _ (tenant : Uuid) (key : String) (response : ResponseJson) (d : Db)
    (answered : Answered tenant key response d) where
  replayed-Replays :
      (hash : String) (r : ClassCreation)
      → r.response ≡ some response
      → Run false d (replayed hash r) (λ found d'.
        (d' ≡ d)
        × ((o : Option CreateClassWithCategoryResponse)
            → found ≡ ok o
            → o ≡ some (unmarshal_response response)))
  replayed-Replays hash r h =
      Run-if (not (same_text r.payload_hash hash)) _ _ (λ _. Run-raise _ (refl, λ o e. cc))
        λ _. stored r.response h
    where
      stored :
          (o : Option ResponseJson)
          → o ≡ some response
          → Run false d (stored_response o) (λ found d'.
            (d' ≡ d)
            × ((p : Option CreateClassWithCategoryResponse)
                → found ≡ ok p
                → p ≡ some (unmarshal_response response)))
      stored none e = Run-raise _ (refl, λ p k. cc)
      stored (some j) e = Run-pure _ (refl, λ p k. cc)

  claim-taken : (hash : String) → claim tenant key hash d ≡ ok (0, d)
  unfolding claim
  claim-taken hash = ground (arith, answered.1)

  begin-Replays :
      (hash : String)
      → Run false d (begin_creation tenant key hash) (λ found d'.
        (d' ≡ d)
        × ((o : Option CreateClassWithCategoryResponse)
            → found ≡ ok o
            → o ≡ some (unmarshal_response response)))
  unfolding begin_creation
  begin-Replays hash =
      Run-statement _ _ (λ _. (refl, λ o e. cc))
        (rw (claim-taken hash) (
          Run-lookup _ _ (λ _. (refl, λ o e. cc)) (λ h. (refl, λ o e. cc))
            λ r found. replayed-Replays hash r (ground (arith, answered.1, answered.2))))

-- The request `req` has the key.
module _ (tenant : Uuid) (req : CreateClassWithCategoryRequest) (response : ResponseJson) (d : Db)
    (answered : Answered tenant req.idempotency_key response d)
    (named : same_text req.idempotency_key "" ≡ false) where
  answer-Replays :
      (membership : Membership) (replay : Option CreateClassWithCategoryResponse)
      → replay ≡ some (unmarshal_response response)
      → Run false d (answer_or_make membership tenant req replay) (Replays response d)
  answer-Replays membership (some x) h = Run-pure x (refl, cc)
  answer-Replays membership none h = absurd (refused h)
    where
      refused :
          ◌≡◌ {A = Option CreateClassWithCategoryResponse} none (some (unmarshal_response response))
          → ⊥
      refused k = cc

  transaction-Replays :
      (fingerprint : Fingerprint) (membership : Membership)
      → Run false d (create_in_transaction fingerprint membership tenant req) (Replays response d)
  unfolding create_in_transaction
  transaction-Replays fingerprint membership = rw named (
      Run-bind
        (λ found d'.
          (d' ≡ d)
          × ((o : Option CreateClassWithCategoryResponse)
              → found ≡ ok o
              → o ≡ some (unmarshal_response response)))
        _ _ (begin-Replays tenant req.idempotency_key response d answered (fingerprint req))
        (λ replay d' h. continued replay d' h.0 (h.1 replay refl)) (λ x d' h. h.0))
    where
      continued :
          (replay : Option CreateClassWithCategoryResponse) (d' : Db)
          → d' ≡ d
          → replay ≡ some (unmarshal_response response)
          → Run false d' (answer_or_make membership tenant req replay) (Replays response d)
      continued replay d' same h = rw same (answer-Replays membership replay h)

  closes :
      (r : Result CreateClassWithCategoryResponse) (d' : Db)
      → Replays response d r d'
      → Closure false d (Replays response d) r d'
  closes (ok x) d' q = (q, λ _. refl)
  closes (err e) d' q = refl

  check_slots-Reads :
      (items : List ScheduleItem) → Run false d (check_slot_items items) (Inv (λ d'. d' ≡ d))
  unfolding check_slot_items
  check_slots-Reads [] = Run-pure tt refl
  check_slots-Reads (item ∷ rest) =
      Run-if (bad_slot item) _ _ (λ _. Run-raise _ refl)
        λ _. Run-gets _ _ λ now.
          Run-if (ends_before item.valid_until (Option-else item.valid_from now)) _ _
            (λ _. Run-raise _ refl) (λ _. check_slots-Reads rest)

  validate-Reads : Run false d (validate_class_creation req) (Inv (λ d'. d' ≡ d))
  unfolding validate_class_creation
  validate-Reads = search (run_rules, check_slots-Reads) depth 14

  require_tenant-Reads :
      (client : TenantClient)
      → QuietTenant client
      → Run false d (require_tenant client tenant) (Inv (λ d'. d' ≡ d))
  unfolding require_tenant
  require_tenant-Reads client quiet =
      keep-bind _ _
        (keep-map_error _ _ (Run-weaken (λ r d'. d' ≡ d) _ (quiet tenant d) (λ r d' same. same)))
        λ b d' same. search run_rules

  pub create-Replays :
      (fingerprint : Fingerprint) (client : TenantClient) (membership : Membership)
      → QuietTenant client
      → Run false d
          (create_class_with_category fingerprint client membership tenant req)
          (Replays response d)
  unfolding create_class_with_category
  create-Replays fingerprint client membership quiet = reading _ _ validate-Reads λ _.
      reading _ _ (require_tenant-Reads client quiet) λ _.
        Run-with_transaction _ (λ _. refl)
          (Run-weaken _ _ (transaction-Replays fingerprint membership) closes)
    where
      reading :
          (m : App (Unit {0})) (k : Unit {0} → App CreateClassWithCategoryResponse)
          → Run false d m (Inv (λ d'. d' ≡ d))
          → ((a : Unit {0}) → Run false d (k a) (Replays response d))
          → Run false d (m >>= k) (Replays response d)
      reading m k p h =
          Run-bind (Inv (λ d'. d' ≡ d)) m k p (λ a d' same. rw same (h a)) (λ x d' same. same)
