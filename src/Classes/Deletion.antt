-- ===== src/Classes/Deletion.antt =====
-- What the deletion of a class leaves.
use kelolakelas_academic_ser.App.{Db, World, ok, err, ◌>>=◌, execute, today}
use kelolakelas_academic_ser.App.Run.{
  Post, Run, Closure, Run-raise, Run-if, Run-gets, Run-with_transaction, Run-query, Run-execute,
  Run-lookup_last, Run-execute_last, Run-map_error-then,
}
use kelolakelas_academic_ser.Classes.Changes.{delete_locked_class, delete_class}
use kelolakelas_academic_ser.Classes.Rows.{
  tenant_class, delete_class_row, active_in, delete_schedules_of, cancel_sessions_of,
}
use kelolakelas_academic_ser.Domain.{Uuid, Day, Class, ClassSchedule, cancelled, is_scheduled}
use kelolakelas_academic_ser.Enrollment.Rows.{class_id, find_class}
use kelolakelas_academic_ser.Prelude.{
  ltb, leb, ◌==◌, count, update_where, by_id, by_id-key, count-update_where, ◌≡◌, refl, ◌∙◌, Bool,
  true, false, not, ◌&&◌, none, some, List, [], ◌∷◌, arith,
}
use kelolakelas_academic_ser.Schedule.Rows.{class_of_tenant}

abbrev pub live_schedule_of : Uuid → ClassSchedule → Bool
live_schedule_of i s = s.class_id == i && not s.deleted

-- No class, no active enrollment and no schedule. A refusal leaves the database as it was.
abbrev pub Gone : Uuid → Db → Post (Unit {0})
Gone i before (ok _) d =
    (find_class i d ≡ none)
    × (count (active_in i) d.enrollments ≡ 0)
    × (count (live_schedule_of i) d.schedules ≡ 0)
Gone i before (err x) d = d ≡ before

by_id-deleted :
    (tenant i : Uuid) (rows : List Class) (c : Class)
    → by_id class_id i rows ≡ some c
    → tenant_class tenant i c ≡ true
    → by_id class_id i
        (update_where (tenant_class tenant i) (λ x. record x { deleted = true }) rows)
      ≡ some (record c { deleted = true })
unfolding by_id update_where
by_id-deleted tenant i [] c h own = cc
by_id-deleted tenant i (x ∷ rows) c h own = ground (arith, by_id-deleted tenant i rows c)

module _ (tenant i : Uuid) (d : Db) (c : Class) (found : find_class i d ≡ some c)
    (own : (c.tenant_id == tenant) ≡ true) where
  owned : class_of_tenant tenant i d ≡ true
  unfolding class_of_tenant find_class
  owned = ground arith

  own_row : tenant_class tenant i c ≡ true
  unfolding find_class
  own_row = ground (arith, by_id-key class_id i d.classes c)

  row_gone :
      (d' : Db)
      → d'.classes ≡ d.classes
      → find_class i (record d' {
        classes =
            update_where (tenant_class tenant i) (λ x. record x { deleted = true }) d'.classes;
      })
        ≡ none
  unfolding find_class
  row_gone d' same = rw (same, by_id-deleted tenant i d.classes c (ground arith) own_row) refl

  class_gone :
      (d' d2 : Db)
      → d'.classes ≡ d.classes
      → delete_class_row tenant i d' ≡ ok d2
      → (find_class i d2 ≡ none) × (d2.enrollments ≡ d'.enrollments) × (d2.schedules ≡ d'.schedules)
  class_gone d' d2 same h = rw (effect h) (row_gone d' same, refl, refl)
    where
      effect :
          delete_class_row tenant i d' ≡ ok d2
          → d2 ≡ record d' {
            classes =
                update_where (tenant_class tenant i) (λ x. record x { deleted = true }) d'.classes;
          }
      effect k = unfold delete_class_row in ground arith

  schedules_gone :
      (d1 : Db)
      → delete_schedules_of tenant i d ≡ ok d1
      → (count (live_schedule_of i) d1.schedules ≡ 0)
        × (d1.classes ≡ d.classes)
        × (d1.enrollments ≡ d.enrollments)
  schedules_gone d1 h =
      rw (effect h) (count-update_where _ _ _ d.schedules (λ s. ground (arith, owned)), refl, refl)
    where
      effect :
          delete_schedules_of tenant i d ≡ ok d1
          → d1 ≡ record d {
            schedules =
                update_where
                  (λ s. s.class_id == i && class_of_tenant tenant i d && not s.deleted)
                  (λ s. record s { deleted = true })
                  d.schedules;
          }
      effect k = unfold delete_schedules_of in ground arith

  sessions_cancelled :
      (from : Day) (d1 d2 : Db)
      → cancel_sessions_of tenant i from d1 ≡ ok d2
      → (d2.classes ≡ d1.classes)
        × (d2.enrollments ≡ d1.enrollments)
        × (d2.schedules ≡ d1.schedules)
  sessions_cancelled from d1 d2 h = rw (effect h) (refl, refl, refl)
    where
      effect :
          cancel_sessions_of tenant i from d1 ≡ ok d2
          → d2 ≡ record d1 {
            sessions =
                update_where
                  (λ s.
                    s.class_id == i
                    && leb from s.session_date
                    && is_scheduled s.status
                    && class_of_tenant tenant i d1
                    && not s.deleted)
                  (λ s. record s { status = cancelled })
                  d1.sessions;
          }
      effect k = unfold cancel_sessions_of in ground arith

  -- The writes, once the class is known to have no active enrollment.
  writes-Gone :
      count (active_in i) d.enrollments ≡ 0
      → Run false d
          (execute (delete_schedules_of tenant i) >>= λ _. today >>= λ now.
            execute (cancel_sessions_of tenant i now) >>= λ _. execute (delete_class_row tenant i))
          (Closure false d (Gone i d))
  writes-Gone idle =
      Run-execute _ _ (λ _. refl) (λ x _. refl)
        λ d1 h1. Run-gets _ _ λ now.
          Run-execute _ _ (λ _. refl) (λ x _. refl)
            λ d2 h2.
              Run-execute_last _ (λ _. refl) (λ x _. refl)
                λ d3 h3.
                  let a = schedules_gone d1 h1 in
                  let b = sessions_cancelled now d1 d2 h2 in
                  let e = class_gone d2 d3 (b.0 ∙ a.1) h3 in
                  ((e.0, rw (e.1, b.1, a.2) idle, rw (e.2, b.2) a.0), λ _. refl)

delete-Gone : (tenant i : Uuid) (d : Db) → Run false d (delete_class tenant i) (Gone i d)
unfolding delete_class delete_locked_class
delete-Gone tenant i d =
    Run-with_transaction _ (λ _. refl)
      (Run-map_error-then _ _ _ (
        Run-lookup_last _ (λ _. refl) (λ _. refl)
          λ c found.
            Run-if (not (c.tenant_id == tenant)) _ _ (λ _. Run-raise _ refl)
              λ own.
                Run-query _ _ (λ _. refl)
                  (Run-if (ltb 0 (count (active_in i) d.enrollments)) _ _ (λ _. Run-raise _ refl)
                    λ idle. writes-Gone tenant i d c found (ground arith) (ground arith))))

-- A deletion that succeeds leaves no class with the identifier, no active enrollment in it and no
-- schedule of it. A deletion that is refused or fails leaves the database as it was, whichever call
-- fails.
pub delete_class-Gone :
    (tenant i : Uuid) (w : World) → let (r, w') = delete_class tenant i w in Gone i w.db r w'.db
delete_class-Gone tenant i w = ((delete-Gone tenant i w.db).at w.env (λ r. cc)).0
