-- ===== src/Classes/Limits/Changes.antt =====
-- The updates, the deletion and the plain creation of a class keep every slot limit within bounds.
use kelolakelas_academic_ser.App.{Db, ok, pure, ◌>>=◌, execute, map_error}
use kelolakelas_academic_ser.App.Run.{
  Run-pure, Run-raise, Run-if, Run-bind, Run-new_uuid, Run-weaken, Run-lookup_last,
  Run-execute_last, Run-map_error-then, run_rules, Inv, Keeps, keep-bind, keep-with_transaction,
  keep-map_error, keep_rules,
}
use kelolakelas_academic_ser.Classes.Categories.{TenantClient, require_tenant, QuietTenant}
use kelolakelas_academic_ser.Classes.Changes.{
  UpdateClassRequest, other_type, with_limit, with_publication, with_description, check_teachers,
  change_teachers, apply_teachers, missing_class, patch_class, update_locked_class, update_class,
  update_class_publication, delete_locked_class, delete_class,
}
use kelolakelas_academic_ser.Classes.Creation.{CreateClassRequest, new_class, create_class}
use kelolakelas_academic_ser.Classes.Limits.{
  LimitFits, LimitsFit, Limited, valid_slot_limit-fits, with_limit-fits, find_class-fits,
  update_where-fits, insert_class-Limited, update_classes-Limited, update_class_row-Limited,
  FitsClass, Passes, own_category-Limited, replace_teachers-Limited, apply_category-Passes,
  apply_status-Passes, apply_category_id-Passes, apply_name-Passes, apply_price-Passes,
  published-fits, described-fits, passing,
}
use kelolakelas_academic_ser.Classes.Rows.{
  insert_class, tenant_class, update_class_row, update_publication_status, delete_class_row,
  delete_schedules_of, cancel_sessions_of, valid_slot_limit,
}
use kelolakelas_academic_ser.Domain.{Uuid, uuid_nil, Day, Class}
use kelolakelas_academic_ser.Prelude.{
  ◌==◌, is_some, update_where, any, ◌≡◌, Bool, true, not, ◌&&◌, ◌||◌, Option, none, some, List, [],
  ◌∷◌, arith,
}
use kelolakelas_academic_ser.Schedule.Changes.Capacity.{ReadsOnly, check_tutor-Keeps}
use kelolakelas_academic_ser.Schedule.Guard.{Membership}
use kelolakelas_academic_ser.Schedule.Rows.{class_of_tenant}
use mathlib.Core.Path.{subst}

module _ (membership : Membership) (reads : ReadsOnly membership) where
  check_teachers-Limited :
      (tenant : Uuid) (seen teachers : List Uuid)
      → Keeps Limited (check_teachers membership tenant seen teachers)
  unfolding check_teachers
  check_teachers-Limited tenant seen [] d v = Run-pure tt v
  check_teachers-Limited tenant seen (t ∷ rest) d v =
      Run-if (t == uuid_nil || any (λ u. u == t) seen) _ _ (λ _. Run-raise _ v)
        λ _.
          keep-bind _ _ (check_tutor-Keeps Limited membership tenant t reads d v)
            λ _ d' v'. check_teachers-Limited tenant (t ∷ seen) rest d' v'

change_teachers-Limited :
    (membership : Membership) (tenant i : Uuid) (teachers : List Uuid)
    → ReadsOnly membership
    → Keeps Limited (change_teachers membership tenant i teachers)
unfolding change_teachers
change_teachers-Limited none tenant i teachers reads d v = Run-raise _ v
change_teachers-Limited (some check) tenant i [] reads d v = Run-raise _ v
change_teachers-Limited (some check) tenant i (t ∷ rest) reads d v =
    keep-bind _ _ (check_teachers-Limited (some check) reads tenant [] (t ∷ rest) d v)
      λ _ d' v'. replace_teachers-Limited tenant i (t ∷ rest) d' v'

apply_teachers-Limited :
    (membership : Membership) (tenant i : Uuid) (teachers : Option (List Uuid))
    → ReadsOnly membership
    → Keeps Limited (apply_teachers membership tenant i teachers)
unfolding apply_teachers
apply_teachers-Limited membership tenant i none reads d v = Run-pure tt v
apply_teachers-Limited membership tenant i (some teachers) reads d v =
    change_teachers-Limited membership tenant i teachers reads d v

module _ (membership : Membership) (reads : ReadsOnly membership) where
  patch_class-Passes :
      (tenant i : Uuid) (req : UpdateClassRequest) (c : Class)
      → LimitFits c.type c.private_slot_limit
      → Passes (patch_class membership tenant i req c)
  unfolding patch_class
  patch_class-Passes tenant i req c fits d v =
      passing _ _ d (apply_category-Passes c fits tenant req.category d v) λ c1 f1 d1 v1.
        passing _ _ d1
          (apply_status-Passes (with_publication req.is_published c1)
            (published-fits c1 f1 req.is_published) req.enrollment_status d1 v1)
          λ c2 f2 d2 v2.
            passing _ _ d2 (apply_category_id-Passes c2 f2 tenant req.category_id d2 v2)
              λ c3 f3 d3 v3. passing _ _ d3 (apply_name-Passes c3 f3 req.name d3 v3) λ c4 f4 d4 v4.
                passing _ _ d4
                  (apply_price-Passes (with_description req.description c4)
                    (described-fits c4 f4 req.description) req.price d4 v4)
                  λ c5 f5 d5 v5.
                    Run-bind (Inv Limited) _ _
                      (apply_teachers-Limited membership tenant i req.teacher_ids reads d5 v5)
                      (λ _ d6 v6. Run-pure c5 (f5, v6)) (λ x d6 v6. v6)

  stored :
      (c : Class)
      → LimitFits c.type c.private_slot_limit
      → Keeps Limited (map_error missing_class (update_class_row c) >>= λ _. pure c)
  stored c fits d v =
      keep-bind _ _ (keep-map_error _ _ (update_class_row-Limited c fits d v))
        λ _ d' v'. Run-pure c v'

  update_found :
      (tenant i : Uuid) (req : UpdateClassRequest) (c : Class)
      → LimitFits c.type c.private_slot_limit
      → valid_slot_limit c.type req.private_slot_limit ≡ true
      → Keeps Limited (
          patch_class membership tenant i req (with_limit req.private_slot_limit c) >>= λ patched.
          map_error missing_class (update_class_row patched) >>= λ _. pure patched)
  update_found tenant i req c fits valid d v =
      Run-bind FitsClass _ _
        (patch_class-Passes tenant i req (with_limit req.private_slot_limit c)
          (with_limit-fits req.private_slot_limit c valid fits) d v)
        (λ patched d' q. stored patched q.0 d' q.1) (λ x d' q. q)

  pub update_class-Limited :
      (tenant i : Uuid) (req : UpdateClassRequest)
      → Keeps Limited (update_class membership tenant i req)
  unfolding update_class update_locked_class
  update_class-Limited tenant i req d v = keep-with_transaction _ v (
      Run-map_error-then _ _ _ (
        Run-lookup_last _ (λ _. v) (λ _. v)
          λ c found.
            Run-if (not (c.tenant_id == tenant)) _ _ (λ _. Run-raise _ v)
              λ _.
                Run-if (other_type req.type c.type) _ _ (λ _. Run-raise _ v)
                  λ _.
                    Run-if (not (valid_slot_limit c.type req.private_slot_limit)) _ _
                      (λ _. Run-raise _ v)
                      λ valid.
                        Run-if (is_some req.category && is_some req.category_id) _ _
                          (λ _. Run-raise _ v)
                          λ _.
                            update_found tenant i req c (find_class-fits i d c found v)
                              (ground arith) d v))

pub publication-Limited :
    (tenant i : Uuid) (b : Bool) → Keeps Limited (update_class_publication tenant i b)
unfolding update_class_publication update_publication_status
publication-Limited tenant i b d v =
    keep-map_error _ _
      (keep-bind _ _ (update_classes-Limited _ _ (λ c h. h) d v) λ n d' v'. search keep_rules)

deleted-Limited :
    (tenant i : Uuid) (d d' : Db) → delete_class_row tenant i d ≡ ok d' → Limited d → Limited d'
deleted-Limited tenant i d d' h v =
    rw (effect h) (record { at = update_where-fits _ _ d.classes (λ c f. f) v.at })
  where
    effect :
        delete_class_row tenant i d ≡ ok d'
        → d' ≡ record d {
          classes =
              update_where (tenant_class tenant i) (λ c. record c { deleted = true }) d.classes;
        }
    effect k = unfold delete_class_row in ground arith

schedules-Limited :
    (tenant i : Uuid) (d d' : Db) → delete_schedules_of tenant i d ≡ ok d' → Limited d → Limited d'
schedules-Limited tenant i d d' h v = rw (effect h) (record { at = v.at })
  where
    effect :
        delete_schedules_of tenant i d ≡ ok d'
        → d' ≡ record d {
          schedules =
              update_where
                (λ s. s.class_id == i && class_of_tenant tenant i d && not s.deleted)
                (λ s. record s { deleted = true })
                d.schedules;
        }
    effect k = unfold delete_schedules_of in ground arith

sessions-Limited :
    (tenant i : Uuid) (from : Day) (d d' : Db)
    → cancel_sessions_of tenant i from d ≡ ok d'
    → Limited d
    → Limited d'
sessions-Limited tenant i from d d' h v = record { at = subst LimitsFit (effect h) v.at }
  where
    effect : cancel_sessions_of tenant i from d ≡ ok d' → d.classes ≡ d'.classes
    effect k = unfold cancel_sessions_of in ground arith

pub delete_class-Limited : (tenant i : Uuid) → Keeps Limited (delete_class tenant i)
unfolding delete_class delete_locked_class
delete_class-Limited tenant i d v =
    search (keep_rules, deleted-Limited, schedules-Limited, sessions-Limited) depth 16

pub require_tenant-Limited :
    (client : TenantClient) (tenant : Uuid)
    → QuietTenant client
    → Keeps Limited (require_tenant client tenant)
unfolding require_tenant
require_tenant-Limited client tenant quiet d v =
    keep-bind _ _
      (keep-map_error _ _ (Run-weaken (λ r d'. d' ≡ d) _ (quiet tenant d) (λ r d' same. rw same v)))
      λ b d' v'. search run_rules

pub created-Limited :
    (c : Class) → LimitFits c.type c.private_slot_limit → Keeps Limited (execute (insert_class c))
created-Limited c fits d v =
    Run-execute_last _ (λ _. v) (λ x _. v) λ d' h. insert_class-Limited c d d' fits h v

pub create_class-Limited :
    (client : TenantClient) (tenant : Uuid) (req : CreateClassRequest)
    → QuietTenant client
    → Keeps Limited (create_class client tenant req)
unfolding create_class new_class
create_class-Limited client tenant req quiet d v =
    Run-if (not (valid_slot_limit req.type req.private_slot_limit)) _ _ (λ _. Run-raise _ v)
      λ valid. keep-bind _ _ (require_tenant-Limited client tenant quiet d v) λ _ d1 v1.
        keep-bind _ _ (own_category-Limited tenant req.category_id d1 v1) λ _ d2 v2.
          Run-new_uuid _ λ i.
            keep-bind _ _
              (created-Limited (new_class i tenant req)
                (valid_slot_limit-fits req.type req.private_slot_limit (ground arith)) d2 v2)
              λ _ d3 v3. Run-pure _ v3
