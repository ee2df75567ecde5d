-- ===== src/Examples/Schedules.antt =====
-- Schedules: the properties of changes, of the worker and of the attendees on the academy.
use kelolakelas_academic_ser.App.{World, ok, pure}
use kelolakelas_academic_ser.App.Run.{Run-pure}
use kelolakelas_academic_ser.Examples.{
  tenant, parent, mondays, lesson, academy, monday_world, academy-Booked,
}
use kelolakelas_academic_ser.Prelude.{count, all, ◌≡◌, refl, true, none, some, [], ◌∷◌}
use kelolakelas_academic_ser.Schedule.Attendees.{
  get_session_attendees, get_session_attendees_for_parent,
}
use kelolakelas_academic_ser.Schedule.Attendees.Privacy.{
  ChildrenOf, OfTenant, get_session_attendees_for_parent-ChildrenOf, get_session_attendees-OfTenant,
}
use kelolakelas_academic_ser.Schedule.Changes.{
  PermanentScheduleChangeRequest, change_schedule_permanent, delete_schedule,
}
use kelolakelas_academic_ser.Schedule.Changes.Booked.{change_schedule_permanent-Booked}
use kelolakelas_academic_ser.Schedule.Changes.Capacity.{ReadsOnly}
use kelolakelas_academic_ser.Schedule.Changes.Deletion.{Removed, delete_schedule-Removed}
use kelolakelas_academic_ser.Schedule.Changes.Seats.{Booked}
use kelolakelas_academic_ser.Schedule.Guard.{Membership}
use kelolakelas_academic_ser.Schedule.Tutors.{PermanentTutorChangeRequest, change_tutor_permanent}
use kelolakelas_academic_ser.Schedule.Tutors.Booked.{change_tutor_permanent-Booked}
use kelolakelas_academic_ser.Schedule.Worker.{insert_missing, generate_for, run_once}
use kelolakelas_academic_ser.Schedule.Worker.Ends.{run_once-ends}
use kelolakelas_academic_ser.Schedule.Worker.Inserts.{insert_missing-again}
use kelolakelas_academic_ser.Schedule.Worker.Window.{left_alone, generate_for-Window}

abbrev member_check : Membership
member_check = some (λ t m. pure true)

member_check-ReadsOnly : ReadsOnly member_check
member_check-ReadsOnly t m d = Run-pure true refl

abbrev to_tuesdays : PermanentScheduleChangeRequest
to_tuesdays = record {
  old_schedule_id = 30;
  new_day_of_week = 2;
  new_start_time = "09:00";
  new_end_time = "10:00";
  effective_date = some 20790;
  new_tutor_id = some 8;
  new_capacity = some 1;
  new_location = none;
}

change_schedule_permanent-Booked_example :
    Booked (change_schedule_permanent member_check tenant to_tuesdays monday_world).1.db
change_schedule_permanent-Booked_example =
    change_schedule_permanent-Booked member_check tenant to_tuesdays monday_world
      member_check-ReadsOnly academy-Booked

abbrev to_teacher : PermanentTutorChangeRequest
to_teacher = record { schedule_id = 30; new_tutor_id = 8; effective_date = 20790 }

change_tutor_permanent-Booked_example :
    Booked (change_tutor_permanent member_check tenant to_teacher monday_world).1.db
change_tutor_permanent-Booked_example =
    change_tutor_permanent-Booked member_check tenant to_teacher monday_world member_check-ReadsOnly
      academy-Booked

run_once-ends_example : ¬ ((run_once 2 monday_world).0 ≡ ok none)
run_once-ends_example = run_once-ends 2 monday_world

generate_for-Window_example :
    count
      (left_alone (some 20787) 20758 20848)
      (generate_for 20758 20848 mondays monday_world).1.db.sessions
    ≡ count (left_alone (some 20787) 20758 20848) academy.sessions
generate_for-Window_example = generate_for-Window 20758 20848 mondays monday_world

insert_missing-again_example :
    insert_missing (lesson ∷ lesson ∷ []) (insert_missing (lesson ∷ lesson ∷ []) [])
    ≡ insert_missing (lesson ∷ lesson ∷ []) []
insert_missing-again_example = insert_missing-again (lesson ∷ lesson ∷ []) [] (unfold all in refl)

get_session_attendees_for_parent-ChildrenOf_example :
    let (r, w') = get_session_attendees_for_parent parent 50 monday_world in
    ChildrenOf parent r w'.db
get_session_attendees_for_parent-ChildrenOf_example =
    get_session_attendees_for_parent-ChildrenOf parent 50 monday_world

get_session_attendees-OfTenant_example :
    let (r, w') = get_session_attendees tenant 50 monday_world in OfTenant tenant r w'.db
get_session_attendees-OfTenant_example = get_session_attendees-OfTenant tenant 50 monday_world

-- Nobody holds a seat, and a session is still to come.
abbrev unbooked : World
unbooked = record monday_world {
  db = record academy { enrollments = []; sessions = record lesson { session_date = 20787 } ∷ [] };
}

delete_schedule-Removed_example :
    let (r, w') = delete_schedule tenant 30 unbooked in Removed tenant 30 20783 unbooked.db r w'.db
delete_schedule-Removed_example = delete_schedule-Removed tenant 30 unbooked
