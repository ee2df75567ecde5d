-- ===== src/Schedule/Changes/Deletion.antt =====
-- What the deletion of a schedule leaves.
use kelolakelas_academic_ser.App.{
  Db, World, ok, err, App, raise, ◌>>=◌, ◌>>◌, query, lookup, execute, with_transaction, map_error,
  seconds_per_day,
}
use kelolakelas_academic_ser.App.Run.{
  Post, Run, Closure, Run-pure, Run-raise, Run-if, Run-bind, Run-gets, Run-with_transaction,
  Run-query, Run-execute, Run-lookup_last, Run-execute_last, Run-map_error-then,
}
use kelolakelas_academic_ser.Domain.{Uuid, Day, ClassSchedule, cancelled}
use kelolakelas_academic_ser.Enrollment.Rows.{schedule_id, live_row, find_schedule}
use kelolakelas_academic_ser.Errors.{schedule_not_found, schedule_forbidden, domain}
use kelolakelas_academic_ser.Prelude.{
  ltb, ◌==◌, if◌then◌else◌, count, update_where, by_id, count-update_where, ℕ, ◌+◌, ◌/◌, ◌≡◌, refl,
  ◌∙◌, Bool, true, false, not, ◌&&◌, ◌||◌, none, List, [], ◌∷◌, arith,
}
use kelolakelas_academic_ser.Schedule.Changes.{delete_schedule}
use kelolakelas_academic_ser.Schedule.Guard.{history, occupied, validate_change, always}
use kelolakelas_academic_ser.Schedule.Rows.{
  class_of_tenant, preloaded_of_tenant, schedule_of_tenant, find_schedule_for_tenant,
  delete_schedule_row, upcoming, cancel_future_sessions,
}

-- No schedule that the tenant can find, no enrollment that holds a seat in it, and no session of it
-- that is still scheduled from the day on. An error leaves the database as it was.
abbrev pub Removed : Uuid → Uuid → Day → Db → Post (Unit {0})
Removed tenant i day before (ok _) d =
    (find_schedule_for_tenant tenant i d ≡ none)
    × (occupied tenant i d ≡ 0)
    × (count (upcoming tenant i day d) d.sessions ≡ 0)
    × (d.enrollments ≡ before.enrollments)
Removed tenant i day before (err x) d = d ≡ before

-- The guard passes a deletion only where no seat is taken.
abbrev Vacant : Uuid → Uuid → Db → Post (Unit {0})
Vacant tenant i d (ok _) d' = (d' ≡ d) × (occupied tenant i d ≡ 0)
Vacant tenant i d (err x) d' = d' ≡ d

validate_change-Vacant :
    (tenant i : Uuid) (effective : Day) (capacity : ℕ) (d : Db)
    → Run false d (validate_change tenant i effective capacity true) (Vacant tenant i d)
unfolding validate_change
validate_change-Vacant tenant i effective capacity d = Run-gets _ _ λ now.
    Run-if (ltb effective now) _ _ (λ _. Run-raise _ refl)
      λ _.
        Run-query _ _ (λ _. refl)
          (Run-query _ _ (λ _. refl)
            (Run-if (ltb 0 (history i effective d)) _ _ (λ _. Run-raise _ refl)
              λ _.
                Run-query _ _ (λ _. refl)
                  (Run-if
                    (ltb capacity (occupied tenant i d) || (true && ltb 0 (occupied tenant i d))) _
                    _ (λ _. Run-raise _ refl) λ vacant. Run-pure tt (refl, ground arith))))

module _ (tenant i : Uuid) (d : Db) where
  abbrev own_row : ClassSchedule → Bool
  own_row s = s.id == i && class_of_tenant tenant s.class_id d && not s.deleted

  abbrev without_row : List ClassSchedule → List ClassSchedule
  without_row rows = update_where own_row (λ s. record s { deleted = true }) rows

  not_found :
      (rows : List ClassSchedule)
      → schedule_of_tenant tenant d
          (live_row (λ s. s.deleted) (by_id schedule_id i (without_row rows)))
        ≡ none
  unfolding by_id update_where
  not_found [] = refl
  not_found (s ∷ rows) = ground (arith, not_found rows)

  row_deleted :
      (d1 : Db)
      → delete_schedule_row tenant i d ≡ ok d1
      → (find_schedule_for_tenant tenant i d1 ≡ none) × (d1.enrollments ≡ d.enrollments)
  unfolding find_schedule_for_tenant find_schedule class_of_tenant
  row_deleted d1 h = rw (effect h) (not_found d.schedules, refl)
    where
      effect :
          delete_schedule_row tenant i d ≡ ok d1
          → d1 ≡ record d { schedules = without_row d.schedules }
      effect k = unfold delete_schedule_row in ground arith

  sessions_cancelled :
      (day : Day) (d1 d2 : Db)
      → cancel_future_sessions tenant i day d1 ≡ ok d2
      → (find_schedule_for_tenant tenant i d2 ≡ find_schedule_for_tenant tenant i d1)
        × (count (upcoming tenant i day d2) d2.sessions ≡ 0)
        × (d2.enrollments ≡ d1.enrollments)
  unfolding find_schedule_for_tenant find_schedule class_of_tenant upcoming
  sessions_cancelled day d1 d2 h =
      rw (effect h) (refl, count-update_where _ _ _ d1.sessions (λ s. ground arith), refl)
    where
      effect :
          cancel_future_sessions tenant i day d1 ≡ ok d2
          → d2 ≡ record d1 {
            sessions =
                update_where
                  (upcoming tenant i day d1)
                  (λ s. record s { status = cancelled })
                  d1.sessions;
          }
      effect k = unfold cancel_future_sessions in ground arith

  -- The closure of DeleteSchedule.
  abbrev delete_on : Day → App (Unit {0})
  delete_on day = do
    s ← map_error (always schedule_not_found) (lookup (find_schedule_for_tenant tenant i))
    owned ← query (preloaded_of_tenant tenant s.class_id)
    if not owned then raise (domain schedule_forbidden) else do
      validate_change tenant i day s.capacity true
      execute (delete_schedule_row tenant i)
      execute (cancel_future_sessions tenant i day)

  writes-Removed :
      (day : Day)
      → occupied tenant i d ≡ 0
      → Run false d
          (execute (delete_schedule_row tenant i) >>= λ _.
            execute (cancel_future_sessions tenant i day))
          (Closure false d (Removed tenant i day d))
  unfolding occupied
  writes-Removed day vacant =
      Run-execute _ _ (λ _. refl) (λ x _. refl)
        λ d1 h1.
          Run-execute_last _ (λ _. refl) (λ x _. refl)
            λ d2 h2.
              let a = row_deleted d1 h1 in
              let b = sessions_cancelled day d1 d2 h2 in
              ((b.0 ∙ a.0, rw (b.2, a.1) vacant, b.1, b.2 ∙ a.1), λ _. refl)

  delete_on-Removed :
      (day : Day) → Run false d (with_transaction (delete_on day)) (Removed tenant i day d)
  delete_on-Removed day =
      Run-with_transaction _ (λ _. refl)
        (Run-map_error-then _ _ _ (
          Run-lookup_last _ (λ _. refl) (λ _. refl)
            λ s found.
              Run-query _ _ (λ _. refl)
                (Run-if (not (preloaded_of_tenant tenant s.class_id d)) _ _ (λ _. Run-raise _ refl)
                  λ _.
                    Run-bind (Vacant tenant i d) _ _
                      (validate_change-Vacant tenant i day s.capacity d)
                      (λ _ d' q. rw q.0 (writes-Removed day q.1)) (λ x d' q. refl))))

pub delete_schedule-Removed :
    (tenant i : Uuid) (w : World)
    → let (r, w') = delete_schedule tenant i w in
      Removed tenant i ((w.env.now + 25200) / seconds_per_day) w.db r w'.db
unfolding delete_schedule ◌>>=◌
delete_schedule-Removed tenant i w =
    ((delete_on-Removed tenant i w.db ((w.env.now + 25200) / seconds_per_day)).at w.env (λ r. cc)).0
