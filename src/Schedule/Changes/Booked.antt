-- ===== src/Schedule/Changes/Booked.antt =====
-- Permanent changes never overbook.
use kelolakelas_academic_ser.App.{Db, World, ok, App, ◌>>=◌, execute, new_uuid}
use kelolakelas_academic_ser.App.Run.{
  Run, Run-pure, Run-raise, Run-if, Run-bind, Run-gets, Run-new_uuid, Run-statement_last, Run-query,
  Run-execute, Run-lookup_last, Run-execute_last, Run-map_error-then, Inv, Keeps, keep-bind,
  keep-with_transaction,
}
use kelolakelas_academic_ser.Domain.{Uuid, Day, ClassSchedule}
use kelolakelas_academic_ser.Enrollment.Repository.{transfer_schedule}
use kelolakelas_academic_ser.Enrollment.Rows.{
  schedule_id, find_class, find_schedule, seated, same_key,
}
use kelolakelas_academic_ser.Prelude.{
  Option-else, count, by_id, replace, by_id-key, ℕ, ◌≤◌, ◌≡◌, refl, false, ◌||◌, Option, none, some,
  List, [], ◌∷◌, arith,
}
use kelolakelas_academic_ser.Schedule.Changes.{
  PermanentScheduleChangeRequest, change_invalid, private_with, replacement_schedule, day_before,
  replace_schedule, change_checked, change_schedule_permanent,
}
use kelolakelas_academic_ser.Schedule.Changes.Capacity.{
  cancel-Booked, move-Booked, batch_create-Booked, Roomy, validate_change-Roomy, ReadsOnly,
  choose_tutor-Keeps,
}
use kelolakelas_academic_ser.Schedule.Changes.Seats.{
  Booked, transfers, transfers-le-occupied, transferred-Booked, save_schedule-Booked,
  create_schedule-Booked,
}
use kelolakelas_academic_ser.Schedule.Generation.{sessions_on, sessions_between, generate_sessions}
use kelolakelas_academic_ser.Schedule.Guard.{
  occupied, starts_after, ended_before, validate_replacement_date, Membership,
  get_schedule_for_tenant,
}
use kelolakelas_academic_ser.Schedule.Rows.{
  find_schedule_for_tenant, create_schedule, save_schedule, cancel_future_sessions,
  move_future_sessions,
}

pub save_closed :
    (tenant i : Uuid) (d : Db) (old closed_row : ClassSchedule)
    → find_schedule_for_tenant tenant i d ≡ some old
    → closed_row.id ≡ old.id
    → closed_row.capacity ≡ old.capacity
    → Booked d
    → (d' : Db) → save_schedule closed_row d ≡ ok d'
    → Booked d' × (d'.enrollments ≡ d.enrollments)
save_closed tenant i d old closed_row found same_key same_room v d' h =
    rw (effect h) (save_schedule-Booked closed_row old d (row found same_key) same_room v, refl)
  where
    effect :
        save_schedule closed_row d ≡ ok d'
        → d' ≡ record d { schedules = replace schedule_id closed_row d.schedules }
    effect k = unfold save_schedule in ground arith

    row :
        find_schedule_for_tenant tenant i d ≡ some old
        → closed_row.id ≡ old.id
        → by_id schedule_id closed_row.id d.schedules ≡ some old
    row k e =
        unfold find_schedule_for_tenant find_schedule in
        ground (arith, by_id-key schedule_id i d.schedules old)

transfer-Booked :
    (tenant class old : Uuid) (new : ClassSchedule) (d : Db)
    → by_id schedule_id new.id d.schedules ≡ some new
    → count (seated new.id) d.enrollments ≡ 0
    → count (transfers tenant class old) d.enrollments ≤ new.capacity
    → Booked d
    → Run false d (transfer_schedule tenant class old new.id) (Inv Booked)
unfolding transfer_schedule
transfer-Booked tenant class old new d row empty room v = Run-gets _ _ λ now.
    Run-statement_last _ (λ _. v)
      (transferred-Booked now tenant class old new.id new d row empty room v)

-- The old schedule is saved, the new one created and the enrollments moved, whatever follows.
module _ {A : Type 0} (tenant i class : Uuid) (d : Db) (old closed_row : ClassSchedule)
    (new : Uuid → ClassSchedule) (k : Uuid → App A) where
  pub handed_over :
      find_schedule_for_tenant tenant i d ≡ some old
      → closed_row.id ≡ old.id
      → closed_row.capacity ≡ old.capacity
      → ((j : Uuid) → count (transfers tenant class old.id) d.enrollments ≤ (new j).capacity)
      → ((j : Uuid) → Keeps Booked (k j))
      → Booked d
      → Run false d
          (execute (save_schedule closed_row) >>= λ _. new_uuid >>= λ j.
            execute (create_schedule (new j)) >>= λ _.
            transfer_schedule tenant class old.id (new j).id >>= λ _. k j)
          (Inv Booked)
  handed_over found same_key same_room room rest v =
      Run-execute _ _ (λ _. v) (λ x _. v)
        λ d1 saved.
          let closed_v =
            save_closed tenant i d old closed_row found same_key same_room v d1 saved in
          Run-new_uuid _ λ j.
            Run-execute _ _ (λ _. closed_v.0) (λ x _. closed_v.0)
              λ d2 made.
                let new_v = create_schedule-Booked (new j) d1 d2 made closed_v.0 in
                keep-bind _ _
                  (transfer-Booked tenant class old.id (new j) d2 new_v.1 new_v.2
                    (rw (new_v.3, closed_v.1) (room j)) new_v.0)
                  λ _ d3 v3. rest j d3 v3

sessions_on-Booked : (s : ClassSchedule) (days : List Day) → Keeps Booked (sessions_on s days)
unfolding sessions_on
sessions_on-Booked s [] d v = Run-pure [] v
sessions_on-Booked s (x ∷ days) d v =
    Run-new_uuid _ λ i. keep-bind _ _ (sessions_on-Booked s days d v) λ rest d' v'. Run-pure _ v'

cancelled-Booked :
    (tenant schedule : Uuid) (from : Day)
    → Keeps Booked (execute (cancel_future_sessions tenant schedule from))
cancelled-Booked tenant schedule from d v =
    Run-execute_last _ (λ _. v) (λ x _. v) λ d' h. cancel-Booked tenant schedule from d d' h v

pub moved-Booked :
    (tenant schedule tutor new : Uuid) (from : Day)
    → Keeps Booked (execute (move_future_sessions tenant schedule tutor new from))
moved-Booked tenant schedule tutor new from d v =
    Run-execute_last _ (λ _. v) (λ x _. v)
      λ d' h. move-Booked tenant schedule tutor new from d d' h v

pub replacement_date-Keeps :
    (P : Db → Type 0) (s : ClassSchedule) (effective : Day)
    → Keeps P (validate_replacement_date s effective)
unfolding validate_replacement_date
replacement_date-Keeps P s effective d v =
    Run-if (starts_after s.valid_from effective || ended_before s.valid_until effective) _ _
      (λ _. Run-raise _ v) (λ _. Run-pure tt v)

roomy :
    (tenant class schedule : Uuid) (capacity : ℕ) (d : Db)
    → occupied tenant schedule d ≤ capacity
    → count (transfers tenant class schedule) d.enrollments ≤ capacity
unfolding occupied
roomy tenant class schedule capacity d h =
    omega (arith, transfers-le-occupied tenant class schedule d.enrollments)

module _ (client : Membership) (reads : ReadsOnly client) where
  replace_schedule-Booked :
      (tenant : Uuid) (req : PermanentScheduleChangeRequest) (times : ℕ × ℕ) (effective : Day)
      → Keeps Booked (replace_schedule client tenant req times effective)
  unfolding replace_schedule get_schedule_for_tenant generate_sessions sessions_between
  replace_schedule-Booked tenant req times effective d v = Run-map_error-then _ _ _ (
      Run-lookup_last _ (λ _. v) (λ _. v)
        λ old found.
          let capacity = Option-else req.new_capacity old.capacity in
          Run-bind (Inv (λ x. x ≡ d)) _ _ (replacement_date-Keeps (λ x. x ≡ d) old effective d refl)
            (λ _ d0 same. rw same (
              Run-query _ _ (λ _. v)
                (Run-if (private_with (find_class old.class_id d) capacity) _ _ (λ _. Run-raise _ v)
                  λ _.
                    Run-bind (Roomy tenant old.id capacity d) _ _
                      (validate_change-Roomy tenant old.id effective capacity false d)
                      (λ _ d1 room. rw room.0 (
                        Run-bind (Inv (λ x. x ≡ d)) _ _
                          (choose_tutor-Keeps (λ x. x ≡ d) client tenant old.tutor_id
                            req.new_tutor_id reads d refl)
                          (λ tutor d2 same2. rw same2 (
                            handed_over tenant req.old_schedule_id old.class_id d old
                              (record old { valid_until = some (day_before effective) })
                              (λ j. replacement_schedule old j req tutor capacity times effective) _
                              found refl refl
                              (λ j. roomy tenant old.class_id old.id capacity d room.1)
                              (λ j d3 v3.
                                keep-bind _ _ (cancelled-Booked tenant old.id effective d3 v3)
                                  λ _ d4 v4.
                                    keep-bind _ _ (sessions_on-Booked _ _ d4 v4) λ made d5 v5.
                                      keep-bind _ _ (batch_create-Booked made d5 v5)
                                        λ _ d6 v6. Run-pure _ v6)
                              v))
                          (λ x d2 same2. rw same2 v)))
                      (λ x d1 same1. rw same1 v))))
            (λ x d0 same. rw same v))

  change_checked-Booked :
      (tenant : Uuid) (req : PermanentScheduleChangeRequest) (times : Option (ℕ × ℕ))
      (effective : Option Day)
      → Keeps Booked (change_checked client tenant req times effective)
  unfolding change_checked
  change_checked-Booked tenant req none effective d v = Run-raise _ v
  change_checked-Booked tenant req (some times) none d v = Run-raise _ v
  change_checked-Booked tenant req (some times) (some effective) d v =
      Run-if (change_invalid req) _ _ (λ _. Run-raise _ v)
        λ _. keep-with_transaction _ v (replace_schedule-Booked tenant req times effective d v)

-- A permanent change of a schedule, of its day, times, capacity, place or tutor, keeps every
-- schedule within its capacity, if that held before: the new schedule has room for the enrollments
-- that move to it. This holds whatever calls fail, where the membership service only reads.
pub change_schedule_permanent-Booked :
    (client : Membership) (tenant : Uuid) (req : PermanentScheduleChangeRequest) (w : World)
    → ReadsOnly client
    → Booked w.db
    → Booked (change_schedule_permanent client tenant req w).1.db
unfolding change_schedule_permanent
change_schedule_permanent-Booked client tenant req w reads v =
    ((change_checked-Booked client reads tenant req _ _ w.db v).at w.env (λ r. cc)).0
