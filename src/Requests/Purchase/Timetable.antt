-- ===== src/Requests/Purchase/Timetable.antt =====
-- What leaves the schedules alone while a request is purchased: sessions and enrollments.
use kelolakelas_academic_ser.App.{Db, Result, ok, err, execute}
use kelolakelas_academic_ser.App.Run.{
  Run-pure, Run-new_uuid, Run-execute_last, Keeps, keep-bind, keep_rules,
}
use kelolakelas_academic_ser.Domain.{Uuid, Day, Enrollment, Class, ClassSchedule, ClassSession}
use kelolakelas_academic_ser.Enrollment.Repository.{
  reject_live_enrollment, check_seat, create_if_capacity_available,
}
use kelolakelas_academic_ser.Enrollment.Rows.{insert_enrollment}
use kelolakelas_academic_ser.Prelude.{◌≡◌, refl, Option, none, some, List, [], ◌∷◌, arith}
use kelolakelas_academic_ser.Schedule.Generation.{sessions_on, sessions_between, generate_sessions}
use kelolakelas_academic_ser.Schedule.Rows.{
  create_session, and_create, create_sessions, batch_create,
}

after_session :
    (made : Result Db) (s : ClassSession) (d d' : Db)
    → ((d1 : Db) → made ≡ ok d1 → d1.schedules ≡ d.schedules)
    → and_create made s ≡ ok d'
    → d'.schedules ≡ d.schedules
unfolding create_session
after_session (ok d1) s d d' rest h = ground (arith, rest d1 refl)
after_session (err x) s d d' rest h = cc

create_sessions-schedules :
    (sessions : List ClassSession) (d d' : Db)
    → create_sessions sessions d ≡ ok d'
    → d'.schedules ≡ d.schedules
unfolding create_sessions
create_sessions-schedules [] d d' h = ground arith
create_sessions-schedules (s ∷ rest) d d' h =
    after_session (create_sessions rest d) s d d' (λ d1 e. create_sessions-schedules rest d d1 e) h

insert_enrollment-schedules :
    (e : Enrollment) (d d' : Db) → insert_enrollment e d ≡ ok d' → d'.schedules ≡ d.schedules
unfolding insert_enrollment
insert_enrollment-schedules e d d' h = ground arith

module _ (P : List ClassSchedule → Type 0) where
  pub sessions_on-Keeps :
      (s : ClassSchedule) (days : List Day) → Keeps (λ d. P d.schedules) (sessions_on s days)
  unfolding sessions_on
  sessions_on-Keeps s [] d v = Run-pure [] v
  sessions_on-Keeps s (x ∷ days) d v =
      Run-new_uuid _ λ i. keep-bind _ _ (sessions_on-Keeps s days d v) λ rest d' v'. Run-pure _ v'

  pub generate-Keeps :
      (s : ClassSchedule) (from : Day) → Keeps (λ d. P d.schedules) (generate_sessions s from)
  unfolding generate_sessions sessions_between
  generate-Keeps s from d v = sessions_on-Keeps s _ d v

  pub batch_create-Keeps :
      (sessions : List ClassSession) → Keeps (λ d. P d.schedules) (batch_create sessions)
  unfolding batch_create
  batch_create-Keeps [] d v = Run-pure tt v
  batch_create-Keeps (s ∷ rest) d v =
      Run-execute_last _ (λ _. v) (λ x _. v)
        λ d' h. rw (create_sessions-schedules (s ∷ rest) d d' h) v

  pub check_seat-Keeps :
      (o : Option Uuid) (c : Class) (e : Enrollment) → Keeps (λ d. P d.schedules) (check_seat o c e)
  unfolding check_seat reject_live_enrollment
  check_seat-Keeps none c e d v = search keep_rules depth 10
  check_seat-Keeps (some sid) c e d v = search keep_rules depth 14

  pub insert-Keeps : (e : Enrollment) → Keeps (λ d. P d.schedules) (execute (insert_enrollment e))
  insert-Keeps e d v =
      Run-execute_last _ (λ _. v) (λ x _. v) λ d' h. rw (insert_enrollment-schedules e d d' h) v

  pub capacity-Keeps :
      (e : Enrollment) → Keeps (λ d. P d.schedules) (create_if_capacity_available e)
  unfolding create_if_capacity_available
  capacity-Keeps e d v = search (keep_rules, check_seat-Keeps, insert-Keeps) depth 10
