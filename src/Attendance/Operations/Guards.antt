-- ===== src/Attendance/Operations/Guards.antt =====
-- What has to hold where attendance of a session is written.
use kelolakelas_academic_ser.App.{
  Db, World, ok, err, App, pure, raise, ◌>>=◌, ◌>>◌, execute, map_error, new_uuid, time_now,
}
use kelolakelas_academic_ser.App.Run.{
  Post, Run, Run-pure, Run-raise, Run-if, Run-bind, Run-gets, Run-new_uuid, Run-query,
  Run-lookup_last, Run-execute_last, Run-map_error-then, Inv, Keeps, keep_rules,
}
use kelolakelas_academic_ser.Attendance.Cohort.{
  known_schedule, only_rescheduled, find_session_for_attendance, replaced_schedule, cohort_of,
  resolve_session_cohort, check_cohort,
}
use kelolakelas_academic_ser.Attendance.Operations.{
  duplicate_as_attendance, require_tutor, attendance_row, create_for_session,
}
use kelolakelas_academic_ser.Attendance.Repository.{
  of_session, get_by_session_enrollment, insert_attendance, tutored_by, is_tutor_for_session,
}
use kelolakelas_academic_ser.Domain.{Uuid, is_cancelled, ClassSession, Attendance}
use kelolakelas_academic_ser.Enrollment.Repository.{get_by_id_for_access, get_active_by_schedule_id}
use kelolakelas_academic_ser.Errors.{attendance_duplicate, domain}
use kelolakelas_academic_ser.Prelude.{
  if◌then◌else◌, is_some, first, any, by_id, by_id-key, String, ◌≡◌, refl, sym, true, false, Option,
  none, some, List, [], ◌∷◌, arith,
}
use kelolakelas_academic_ser.Schedule.Rows.{session_id, find_session, find_session_for_tenant}

-- After create_for_session from `d`: if it returns, the caller was the tutor of the session, a
-- session of the tenant, the enrollment had no row, and exactly that row is added; if it fails,
-- nothing is written.
abbrev pub Recorded : Uuid → Uuid → Uuid → Uuid → Db → Post Attendance
Recorded tenant tutor enrollment i d (ok a) d' =
    (tutored_by tenant tutor d (by_id session_id i d.sessions) ≡ true)
    × (any (of_session i enrollment) d.attendances ≡ false)
    × (of_session i enrollment a ≡ true)
    × (d' ≡ record d { attendances = a ∷ d.attendances })
Recorded tenant tutor enrollment i d (err x) d' = d' ≡ d

-- The session found is the one asked for; nothing is written.
abbrev Resolved : Uuid → Db → Post (ClassSession × Option Uuid)
Resolved i d (ok (s, cohort)) d' = (d' ≡ d) × (s.id ≡ i)
Resolved i d (err x) d' = d' ≡ d

found_id :
    (tenant i : Uuid) (d : Db) (s : ClassSession)
    → find_session_for_tenant tenant i d ≡ some s
    → s.id ≡ i
unfolding find_session_for_tenant find_session
found_id tenant i d s h = ground (arith, by_id-key session_id i d.sessions s)

module _ (tenant : Uuid) (d : Db) where
  abbrev Same : Db → Type 0
  Same d' = d' ≡ d

  known_schedule-Same :
      (o : Option Uuid) (d' : Db) → d' ≡ d → Run false d' (known_schedule o) (Inv Same)
  known_schedule-Same none d' v = Run-raise _ v
  known_schedule-Same (some s) d' v = Run-pure _ v

  only_rescheduled-Same :
      (rows : List ClassSession) (d' : Db)
      → d' ≡ d
      → Run false d' (only_rescheduled rows) (Inv Same)
  only_rescheduled-Same [] d' v = Run-raise _ v
  only_rescheduled-Same (s ∷ []) d' v = known_schedule-Same s.schedule_id d' v
  only_rescheduled-Same (s ∷ _ ∷ _) d' v = Run-raise _ v

  replaced_schedule-Same :
      (session : ClassSession) (o : Option Uuid) → Keeps Same (replaced_schedule tenant session o)
  unfolding replaced_schedule find_session_for_attendance
  replaced_schedule-Same session (some i) d' v =
      search (keep_rules, Run-map_error-then, known_schedule-Same) depth 10
  replaced_schedule-Same session none d' v = search (keep_rules, only_rescheduled-Same) depth 10

  cohort_of-Same :
      (session : ClassSession) (e s : Option Uuid) → Keeps Same (cohort_of tenant session e s)
  unfolding cohort_of
  cohort_of-Same session (some e) s d' v = Run-pure _ v
  cohort_of-Same session none (some s) d' v = Run-pure _ v
  cohort_of-Same session none none d' v =
      replaced_schedule-Same session session.rescheduled_from_session_id d' v

  resolve-Resolved : (i : Uuid) → Run false d (resolve_session_cohort tenant i) (Resolved i d)
  unfolding resolve_session_cohort find_session_for_attendance
  resolve-Resolved i = Run-map_error-then _ _ _ (
      Run-lookup_last _ (λ _. refl) (λ _. refl)
        λ s found.
          Run-if (is_cancelled s.status) _ _ (λ _. Run-raise _ refl)
            λ _.
              Run-bind (Inv Same) _ _ (cohort_of-Same s s.enrollment_id s.schedule_id d refl)
                (λ cohort d' v. Run-pure _ (v, found_id tenant i d s found)) (λ x d' v. v))

  check_cohort-Same :
      (e cohort : Option Uuid) (ids : List Uuid) → Keeps Same (check_cohort tenant e cohort ids)
  unfolding check_cohort get_by_id_for_access get_active_by_schedule_id
  check_cohort-Same (some e) cohort ids d' v = search (keep_rules, Run-map_error-then) depth 10
  check_cohort-Same none none ids d' v = Run-raise _ v
  check_cohort-Same none (some s) ids d' v = search (keep_rules) depth 10

  abbrev Tutored : Uuid → Uuid → Post (Unit {0})
  Tutored tutor i (ok _) d' =
      (d' ≡ d) × (tutored_by tenant tutor d (by_id session_id i d.sessions) ≡ true)
  Tutored tutor i (err x) d' = d' ≡ d

  require_tutor-Tutored :
      (tutor i : Uuid) → Run false d (require_tutor tenant i tutor) (Tutored tutor i)
  unfolding require_tutor is_tutor_for_session
  require_tutor-Tutored tutor i =
      Run-query _ _ (λ _. refl)
        (Run-if (tutored_by tenant tutor d (by_id session_id i d.sessions)) _ _
          (λ yes. Run-pure tt (refl, yes)) (λ no. Run-raise _ refl))

  no_row :
      (i enrollment : Uuid) (rows : List Attendance)
      → is_some (first (of_session i enrollment) rows) ≡ false
      → any (of_session i enrollment) rows ≡ false
  unfolding first any
  no_row i enrollment [] h = refl
  no_row i enrollment (a ∷ rows) h = ground (arith, no_row i enrollment rows)

  inserted :
      (a : Attendance) (d' : Db)
      → insert_attendance a d ≡ ok d'
      → d' ≡ record d { attendances = a ∷ d.attendances }
  unfolding insert_attendance
  inserted a d' h = ground arith

  own_key :
      (i enrollment : Uuid) (a : Attendance)
      → a.session_id ≡ i
      → a.enrollment_id ≡ enrollment
      → of_session i enrollment a ≡ true
  own_key i enrollment a h k = ground arith

  -- Where attendance of one student is written, for the session `i` that `s` is.
  abbrev write_row : Uuid → ClassSession → String → App Attendance
  write_row enrollment s status = do
    existing ← get_by_session_enrollment s.id enrollment
    if is_some existing then raise (domain attendance_duplicate) else do
      new ← new_uuid
      now ← time_now
      let item = attendance_row new now enrollment s status
      map_error duplicate_as_attendance (execute (insert_attendance item))
      pure item

  write_row-Recorded :
      (tutor enrollment : Uuid) (s : ClassSession) (status : String)
      → tutored_by tenant tutor d (by_id session_id s.id d.sessions) ≡ true
      → Run false d (write_row enrollment s status) (Recorded tenant tutor enrollment s.id d)
  unfolding get_by_session_enrollment
  write_row-Recorded tutor enrollment s status known =
      Run-query _ _ (λ _. refl)
        (Run-if (is_some (first (of_session s.id enrollment) d.attendances)) _ _
          (λ _. Run-raise _ refl)
          (λ free. Run-new_uuid _ λ new. Run-gets _ _ λ n. Run-map_error-then _ _ _ (
            Run-execute_last _ (λ _. refl) (λ x _. refl)
              λ d' done. Run-pure _ (
                known,
                no_row s.id enrollment d.attendances free,
                own_key s.id enrollment (attendance_row new n enrollment s status) refl refl,
                inserted _ d' done,
              ))))

  create_for_session-runs :
      (tutor enrollment i : Uuid) (status : String)
      → Run false d
          (create_for_session tenant tutor enrollment i status)
          (Recorded tenant tutor enrollment i d)
  unfolding create_for_session
  create_for_session-runs tutor enrollment i status =
      Run-bind (Resolved i d) _ _ (resolve-Resolved i)
        (λ resolved d1 q.
          rw (q.0, sym q.1)
            (Run-bind (Tutored tutor resolved.0.id) _ _ (require_tutor-Tutored tutor resolved.0.id)
              (λ _ d2 known.
                Run-bind (Inv Same) _ _
                  (check_cohort-Same resolved.0.enrollment_id resolved.1 (enrollment ∷ []) d2
                    known.0)
                  (λ _ d3 v. rw v (write_row-Recorded tutor enrollment resolved.0 status known.1))
                  (λ x d3 v. v))
              (λ x d2 v. v)))
        (λ x d1 v. v)

-- Whatever calls fail: attendance is only recorded by the tutor of a session of the tenant, for an
-- enrollment that has no row in it, and adds exactly that row; a refusal writes nothing.
pub create_for_session-Recorded :
    (tenant tutor enrollment i : Uuid) (status : String) (w : World)
    → let (r, w') = create_for_session tenant tutor enrollment i status w in
      Recorded tenant tutor enrollment i w.db r w'.db
create_for_session-Recorded tenant tutor enrollment i status w =
    ((create_for_session-runs tenant w.db tutor enrollment i status).at w.env (λ r. cc)).0
