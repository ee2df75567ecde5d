-- ===== src/Enrollment/Capacity/Seats.antt =====
-- The writes that take a seat do so below the capacity: signup, resumption and the assignment of a
-- schedule.
use kelolakelas_academic_ser.App.{Db, ok, pure, ◌>>=◌, ◌>>◌, execute, map_error, time_now}
use kelolakelas_academic_ser.App.Run.{Run, Run-then, run_rules, Inv, Keeps, keep_rules}
use kelolakelas_academic_ser.Domain.{Uuid, Timestamp, active, Enrollment, Class, ClassSchedule}
use kelolakelas_academic_ser.Enrollment.Capacity.{
  WithinCapacity, find_enrollment-row, save_row-effect, save_row-WithinCapacity,
}
use kelolakelas_academic_ser.Enrollment.Lifecycle.{
  in_transaction, resume_locked, resume_enrollment, assign_schedule,
}
use kelolakelas_academic_ser.Enrollment.Repository.{
  update, get_by_id, map_duplicate_enrollment, reject_live_enrollment, find_schedule_of_class,
  check_seat, create_if_capacity_available, duplicate_is_conflict, save_conflict, reclaim_seat,
  resume_under_capacity, assign_schedule_row, get_by_id_for_access,
}
use kelolakelas_academic_ser.Enrollment.Rows.{
  enrollment_id, schedule_id, find_schedule, find_enrollment, seated, seats, insert_enrollment,
  save_row,
}
use kelolakelas_academic_ser.Prelude.{
  leb, is_some_eq, count, by_id, count-replace, ◌≡◌, refl, Bool, true, false, Option, none, some,
  ◌∷◌, arith,
}

pub find_schedule_of_class-row :
    (sid c : Uuid) (d : Db) (s : ClassSchedule)
    → find_schedule_of_class sid c d ≡ some s
    → by_id schedule_id sid d.schedules ≡ some s
unfolding find_schedule_of_class find_schedule
find_schedule_of_class-row sid c d s h = ground arith

insert-effect :
    (e : Enrollment) (d d' : Db)
    → insert_enrollment e d ≡ ok d'
    → d' ≡ record d { enrollments = e ∷ d.enrollments }
unfolding insert_enrollment
insert-effect e d d' h = ground arith

-- Only the schedule of a row gains a seat by it.
seated_elsewhere :
    (o : Option Uuid) (sid : Uuid) (e : Enrollment)
    → e.schedule_id ≡ o
    → is_some_eq sid o ≡ false
    → seated sid e ≡ false
unfolding seated
seated_elsewhere o sid e h k = ground arith

-- A row with no schedule takes no seat.
insert_unseated :
    (e : Enrollment) (d d' : Db)
    → e.schedule_id ≡ none
    → insert_enrollment e d ≡ ok d'
    → WithinCapacity d
    → WithinCapacity d'
unfolding count seated
insert_unseated e d d' unset h v =
    rw (insert-effect e d d' h) (record {
      at = λ sid s row. ground (arith, v.at sid s row, seated_elsewhere none sid e unset);
    })

-- A row for a schedule that has a free seat.
insert_seated :
    (sid : Uuid) (s : ClassSchedule) (e : Enrollment) (d d' : Db)
    → e.schedule_id ≡ some sid
    → find_schedule_of_class sid e.class_id d ≡ some s
    → leb s.capacity (seats sid d) ≡ false
    → insert_enrollment e d ≡ ok d'
    → WithinCapacity d
    → WithinCapacity d'
unfolding count seats
insert_seated sid s e d d' has row room h v = rw (insert-effect e d d' h) (record {
  at = λ sid' s' row'. ground (
    arith,
    v.at sid' s' row',
    seated_elsewhere (some sid) sid' e has,
    find_schedule_of_class-row sid e.class_id d s row,
  );
})

create_checked :
    (o : Option Uuid) (c : Class) (e : Enrollment)
    → e.schedule_id ≡ o
    → Keeps WithinCapacity (
        check_seat o c e >>= λ _.
        map_error map_duplicate_enrollment (execute (insert_enrollment e)))
unfolding check_seat reject_live_enrollment
create_checked none c e h d v = search (run_rules, Run-then, insert_unseated) depth 14
create_checked (some sid) c e h d v = search (run_rules, Run-then, insert_seated) depth 18

create_at :
    (c : Class) (e : Enrollment) (d : Db)
    → WithinCapacity d
    → Run false d
        (check_seat e.schedule_id c e >>= λ _.
          map_error map_duplicate_enrollment (execute (insert_enrollment e)))
        (Inv WithinCapacity)
create_at c e d v = create_checked e.schedule_id c e refl d v

-- Signing up keeps every schedule within its capacity.
pub create-WithinCapacity : (e : Enrollment) → Keeps WithinCapacity (create_if_capacity_available e)
unfolding create_if_capacity_available
create-WithinCapacity e d v = search (run_rules, create_at) depth 8

-- A row that is not deleted, and takes its seat at a schedule with a free one.
save_seated :
    (sid : Uuid) (s : ClassSchedule) (e old : Enrollment) (d d' : Db)
    → by_id enrollment_id e.id d.enrollments ≡ some old
    → e.schedule_id ≡ some sid
    → by_id schedule_id sid d.schedules ≡ some s
    → leb s.capacity (seats sid d) ≡ false
    → save_row e d ≡ ok d'
    → WithinCapacity d
    → WithinCapacity d'
unfolding seats
save_seated sid s e old d d' found has row room h v =
    rw (save_row-effect e old d d' found h) (record {
      at = λ sid' s' row'. ground (
        arith,
        v.at sid' s' row',
        seated_elsewhere (some sid) sid' e has,
        count-replace enrollment_id (seated sid') e old d.enrollments found,
      );
    })

resumed_seat :
    (sid : Uuid) (s : ClassSchedule) (i : Uuid) (t : Timestamp) (e : Enrollment) (d d' : Db)
    → WithinCapacity d
    → find_enrollment i d ≡ some e
    → e.schedule_id ≡ some sid
    → find_schedule_of_class sid e.class_id d ≡ some s
    → leb s.capacity (seats sid d) ≡ false
    → save_row (record e { status = active; updated_at = t }) d ≡ ok d'
    → WithinCapacity d'
resumed_seat sid s i t e d d' v found has row room h =
    save_seated sid s (record e { status = active; updated_at = t }) e d d'
      (find_enrollment-row i d e found).0 has (find_schedule_of_class-row sid e.class_id d s row)
      room h v

resumed_unseated :
    (i : Uuid) (t : Timestamp) (e : Enrollment) (d d' : Db)
    → WithinCapacity d
    → find_enrollment i d ≡ some e
    → e.schedule_id ≡ none
    → save_row (record e { status = active; updated_at = t }) d ≡ ok d'
    → WithinCapacity d'
unfolding seated
resumed_unseated i t e d d' v found unset h =
    save_row-WithinCapacity (record e { status = active; updated_at = t }) e d d'
      (find_enrollment-row i d e found).0 (λ sid. ground (arith, unset)) h v

resume_from :
    (o : Option Uuid) (i : Uuid) (e : Enrollment) (d : Db)
    → WithinCapacity d
    → e.schedule_id ≡ o
    → find_enrollment i d ≡ some e
    → Run false d
        (do
          reclaim_seat o e
          map_error duplicate_is_conflict (reject_live_enrollment e)
          now ← time_now
          let resumed = record e { status = active; updated_at = now }
          map_error save_conflict (update resumed)
          pure resumed)
        (Inv WithinCapacity)
unfolding reclaim_seat reject_live_enrollment update
resume_from none i e d v h found = search (run_rules, Run-then, resumed_unseated) depth 20
resume_from (some sid) i e d v h found = search (run_rules, Run-then, resumed_seat) depth 24

resume_at :
    (i : Uuid) (e : Enrollment) (d : Db)
    → WithinCapacity d
    → find_enrollment i d ≡ some e
    → Run false d (resume_under_capacity e) (Inv WithinCapacity)
unfolding resume_under_capacity
resume_at i e d v found = resume_from e.schedule_id i e d v refl found

resume_locked-WithinCapacity : (i : Uuid) → Keeps WithinCapacity (resume_locked i)
unfolding resume_locked get_by_id
resume_locked-WithinCapacity i d v = search (run_rules, resume_at) depth 8

-- Resuming a suspended enrollment keeps every schedule within its capacity.
pub resume-WithinCapacity : (tx : Bool) (i : Uuid) → Keeps WithinCapacity (resume_enrollment tx i)
unfolding resume_enrollment in_transaction
resume-WithinCapacity true i d v = search (keep_rules, resume_locked-WithinCapacity) depth 8
resume-WithinCapacity false i d v = search (keep_rules, resume_locked-WithinCapacity) depth 8

assigned_seat :
    (sid : Uuid) (s : ClassSchedule) (i : Uuid) (e : Enrollment) (d d' : Db)
    → WithinCapacity d
    → find_enrollment i d ≡ some e
    → find_schedule sid d ≡ some s
    → leb s.capacity (seats sid d) ≡ false
    → save_row (record e { schedule_id = some sid }) d ≡ ok d'
    → WithinCapacity d'
unfolding find_schedule
assigned_seat sid s i e d d' v found row room h =
    save_seated sid s (record e { schedule_id = some sid }) e d d'
      (find_enrollment-row i d e found).0 refl (ground arith) room h v

assign_row-WithinCapacity : (i sid : Uuid) → Keeps WithinCapacity (assign_schedule_row i sid)
unfolding assign_schedule_row get_by_id update
assign_row-WithinCapacity i sid d v = search (run_rules, assigned_seat) depth 20

-- Choosing a schedule for a pending enrollment keeps every schedule within its capacity.
pub assign-WithinCapacity :
    (tx : Bool) (parent i sid : Uuid) → Keeps WithinCapacity (assign_schedule tx parent i sid)
unfolding assign_schedule in_transaction get_by_id_for_access
assign-WithinCapacity true parent i sid d v =
    search (keep_rules, assign_row-WithinCapacity) depth 10
assign-WithinCapacity false parent i sid d v =
    search (keep_rules, assign_row-WithinCapacity) depth 10
