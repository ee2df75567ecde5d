-- ===== src/Schedule/Attendees/Privacy.antt =====
-- Whose students a list of attendees names.
use kelolakelas_academic_ser.App.{Db, World, ok, err}
use kelolakelas_academic_ser.App.Run.{
  Post, Run, Run-pure, Run-bind, Run-statement_last, Run-lookup_last, Run-map_error-then, Run-any,
}
use kelolakelas_academic_ser.Domain.{Uuid, Enrollment, ClassSession}
use kelolakelas_academic_ser.Enrollment.Repository.{
  child_of, belongs_to_parent, find_for_access, get_by_id_for_access, get_active_by_schedule_id,
  get_active_by_schedule_id_for_parent,
}
use kelolakelas_academic_ser.Enrollment.Rows.{seated}
use kelolakelas_academic_ser.Prelude.{
  ◌==◌, select, all, ◌≡◌, refl, Bool, true, false, ◌&&◌, Option, none, some, List, [], ◌∷◌, arith,
}
use kelolakelas_academic_ser.Schedule.Attendees.{
  get_session_for_parent, attendees_of, get_session_attendees, attendees_for_parent,
  get_session_attendees_for_parent,
}
use kelolakelas_academic_ser.Schedule.Guard.{get_session_for_tenant}

select-all :
    (p q : Enrollment → Bool) (rows : List Enrollment)
    → all p (select (λ e. q e && p e) rows) ≡ true
unfolding all select
select-all p q [] = refl
select-all p q (e ∷ rows) = ground (arith, select-all p q rows)

-- Every enrollment of the list is of a child of the parent.
abbrev pub ChildrenOf : Uuid → Post (List Enrollment)
ChildrenOf parent (ok list) d = all (λ e. child_of parent e.student_id d) list ≡ true
ChildrenOf parent (err x) d = Unit {0}

-- Every enrollment of the list is of the tenant.
abbrev pub OfTenant : Uuid → Post (List Enrollment)
OfTenant tenant (ok list) d = all (λ e. e.tenant_id == tenant) list ≡ true
OfTenant tenant (err x) d = Unit {0}

accessed-child :
    (parent i : Uuid) (d : Db) (e : Enrollment)
    → find_for_access none (some parent) i d ≡ some e
    → all (λ r. child_of parent r.student_id d) (e ∷ []) ≡ true
unfolding find_for_access belongs_to_parent all
accessed-child parent i d e h = ground arith

accessed-tenant :
    (tenant i : Uuid) (d : Db) (e : Enrollment)
    → find_for_access (some tenant) none i d ≡ some e
    → all (λ r. r.tenant_id == tenant) (e ∷ []) ≡ true
unfolding find_for_access all
accessed-tenant tenant i d e h = ground arith

attendees_for_parent-ChildrenOf :
    (parent : Uuid) (session : ClassSession) (enrollment : Option Uuid) (d : Db)
    → Run false d (attendees_for_parent parent session enrollment) (ChildrenOf parent)
unfolding attendees_for_parent get_by_id_for_access get_active_by_schedule_id_for_parent
attendees_for_parent-ChildrenOf parent session (some i) d = Run-map_error-then _ _ _ (
    Run-lookup_last _ (λ _. tt) (λ _. tt)
      (λ e found. Run-pure _ (accessed-child parent i d e found)))
attendees_for_parent-ChildrenOf parent session none d =
    Run-bind (λ _ _. Unit {0}) _ _ (Run-any _)
      (λ s d' _.
        Run-statement_last _ (λ _. tt)
          (select-all (λ e. child_of parent e.student_id d') (seated s) d'.enrollments))
      (λ x d' _. tt)

get_session_attendees_for_parent-runs :
    (parent i : Uuid) (d : Db)
    → Run false d (get_session_attendees_for_parent parent i) (ChildrenOf parent)
unfolding get_session_attendees_for_parent get_session_for_parent
get_session_attendees_for_parent-runs parent i d = Run-map_error-then _ _ _ (
    Run-lookup_last _ (λ _. tt) (λ _. tt)
      (λ s found. attendees_for_parent-ChildrenOf parent s s.enrollment_id d))

attendees_of-OfTenant :
    (tenant : Uuid) (session : ClassSession) (enrollment : Option Uuid) (d : Db)
    → Run false d (attendees_of tenant session enrollment) (OfTenant tenant)
unfolding attendees_of get_by_id_for_access get_active_by_schedule_id
attendees_of-OfTenant tenant session (some i) d = Run-map_error-then _ _ _ (
    Run-lookup_last _ (λ _. tt) (λ _. tt)
      (λ e found. Run-pure _ (accessed-tenant tenant i d e found)))
attendees_of-OfTenant tenant session none d =
    Run-bind (λ _ _. Unit {0}) _ _ (Run-any _)
      (λ s d' _.
        Run-statement_last _ (λ _. tt)
          (select-all (λ e. e.tenant_id == tenant) (seated s) d'.enrollments))
      (λ x d' _. tt)

get_session_attendees-runs :
    (tenant i : Uuid) (d : Db) → Run false d (get_session_attendees tenant i) (OfTenant tenant)
unfolding get_session_attendees get_session_for_tenant
get_session_attendees-runs tenant i d = Run-map_error-then _ _ _ (
    Run-lookup_last _ (λ _. tt) (λ _. tt)
      (λ s found. attendees_of-OfTenant tenant s s.enrollment_id d))

-- A parent who asks for the attendees of a session gets enrollments of the parent's own children
-- only, whatever session it is and whatever calls fail.
pub get_session_attendees_for_parent-ChildrenOf :
    (parent i : Uuid) (w : World)
    → let (r, w') = get_session_attendees_for_parent parent i w in ChildrenOf parent r w'.db
get_session_attendees_for_parent-ChildrenOf parent i w =
    ((get_session_attendees_for_parent-runs parent i w.db).at w.env (λ r. cc)).0

-- A tenant that asks for the attendees of a session gets enrollments of its own only, whatever
-- session it is and whatever calls fail.
pub get_session_attendees-OfTenant :
    (tenant i : Uuid) (w : World)
    → let (r, w') = get_session_attendees tenant i w in OfTenant tenant r w'.db
get_session_attendees-OfTenant tenant i w =
    ((get_session_attendees-runs tenant i w.db).at w.env (λ r. cc)).0
