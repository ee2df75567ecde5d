-- ===== src/Schedule/Tutors/Booked.antt =====
-- A permanent change of the tutor keeps the bookings within capacity.
use kelolakelas_academic_ser.App.{Db, World}
use kelolakelas_academic_ser.App.Run.{
  Run, Run-pure, Run-if, Run-bind, Run-execute, Run-lookup_last, Run-map_error-then, Inv, Keeps,
  keep-bind, keep-with_transaction,
}
use kelolakelas_academic_ser.Domain.{Uuid, ClassSchedule}
use kelolakelas_academic_ser.Enrollment.Rows.{schedule_id, find_schedule}
use kelolakelas_academic_ser.Prelude.{count, by_id-key, ◌≤◌, ◌≡◌, refl, false, some, arith}
use kelolakelas_academic_ser.Schedule.Changes.{day_before}
use kelolakelas_academic_ser.Schedule.Changes.Booked.{
  save_closed, handed_over, moved-Booked, replacement_date-Keeps,
}
use kelolakelas_academic_ser.Schedule.Changes.Capacity.{ReadsOnly, check_tutor-Keeps}
use kelolakelas_academic_ser.Schedule.Changes.Seats.{Booked, transfers, transfers-le-seated}
use kelolakelas_academic_ser.Schedule.Guard.{Membership, get_schedule_for_tenant}
use kelolakelas_academic_ser.Schedule.Rows.{find_schedule_for_tenant}
use kelolakelas_academic_ser.Schedule.Tutors.{
  PermanentTutorChangeRequest, assigned_to, unassigned, taken_over, assign_first_tutor,
  split_schedule, hand_over, change_tutor_permanent,
}

-- The schedule itself has room for its own enrollments.
own_room :
    (tenant i class : Uuid) (d : Db) (old : ClassSchedule)
    → find_schedule_for_tenant tenant i d ≡ some old
    → Booked d
    → count (transfers tenant class old.id) d.enrollments ≤ old.capacity
unfolding find_schedule_for_tenant find_schedule
own_room tenant i class d old found v = ground (
  arith,
  transfers-le-seated tenant class old.id d.enrollments,
  by_id-key schedule_id i d.schedules old,
  v.within.at old.id old,
)

split_schedule-Booked :
    (tenant i : Uuid) (req : PermanentTutorChangeRequest) (d : Db) (old : ClassSchedule)
    → find_schedule_for_tenant tenant i d ≡ some old
    → Booked d
    → Run false d (split_schedule tenant req old) (Inv Booked)
unfolding split_schedule
split_schedule-Booked tenant i req d old found v =
    handed_over tenant i old.class_id d old
      (record old { valid_until = some (day_before req.effective_date) })
      (λ j. taken_over old j req.new_tutor_id req.effective_date) _ found refl refl
      (λ j. own_room tenant i old.class_id d old found v)
      (λ j d3 v3.
        keep-bind _ _ (moved-Booked tenant old.id req.new_tutor_id j req.effective_date d3 v3)
          λ _ d4 v4. Run-pure _ v4)
      v

assign_first_tutor-Booked :
    (tenant i : Uuid) (req : PermanentTutorChangeRequest) (d : Db) (old : ClassSchedule)
    → find_schedule_for_tenant tenant i d ≡ some old
    → Booked d
    → Run false d (assign_first_tutor tenant req old) (Inv Booked)
unfolding assign_first_tutor
assign_first_tutor-Booked tenant i req d old found v =
    Run-execute _ _ (λ _. v) (λ x _. v)
      λ d1 saved.
        keep-bind _ _
          (moved-Booked tenant old.id req.new_tutor_id old.id req.effective_date d1
            (save_closed tenant i d old (record old { tutor_id = some req.new_tutor_id }) found refl
              refl v d1 saved).0)
          λ _ d2 v2. Run-pure _ v2

hand_over-Booked :
    (tenant : Uuid) (req : PermanentTutorChangeRequest) → Keeps Booked (hand_over tenant req)
unfolding hand_over get_schedule_for_tenant
hand_over-Booked tenant req d v = Run-map_error-then _ _ _ (
    Run-lookup_last _ (λ _. v) (λ _. v)
      λ old found.
        Run-bind (Inv (λ x. x ≡ d)) _ _
          (replacement_date-Keeps (λ x. x ≡ d) old req.effective_date d refl)
          (λ _ d0 same. rw same (
            Run-if (assigned_to req.new_tutor_id old) _ _ (λ _. Run-pure _ v)
              λ _.
                Run-if (unassigned old) _ _
                  (λ _. assign_first_tutor-Booked tenant req.schedule_id req d old found v)
                  (λ _. split_schedule-Booked tenant req.schedule_id req d old found v)))
          (λ x d0 same. rw same v))

change_tutor_permanent-Keeps :
    (client : Membership) (tenant : Uuid) (req : PermanentTutorChangeRequest)
    → ReadsOnly client
    → Keeps Booked (change_tutor_permanent client tenant req)
unfolding change_tutor_permanent get_schedule_for_tenant
change_tutor_permanent-Keeps client tenant req reads d v = Run-map_error-then _ _ _ (
    Run-lookup_last _ (λ _. v) (λ _. v)
      λ s found.
        keep-bind _ _ (check_tutor-Keeps Booked client tenant req.new_tutor_id reads d v)
          λ _ d1 v1. keep-with_transaction _ v1 (hand_over-Booked tenant req d1 v1))

-- A permanent change of the tutor of a schedule keeps every schedule within its capacity, if that
-- held before, whatever calls fail, where the membership service only reads.
pub change_tutor_permanent-Booked :
    (client : Membership) (tenant : Uuid) (req : PermanentTutorChangeRequest) (w : World)
    → ReadsOnly client
    → Booked w.db
    → Booked (change_tutor_permanent client tenant req w).1.db
change_tutor_permanent-Booked client tenant req w reads v =
    ((change_tutor_permanent-Keeps client tenant req reads w.db v).at w.env (λ r. cc)).0
