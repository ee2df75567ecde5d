-- ===== src/Examples/Requests.antt =====
-- Requests: the properties of slots and of decisions.
use kelolakelas_academic_ser.App.{World, ok, err}
use kelolakelas_academic_ser.Domain.{pos, negsuc}
use kelolakelas_academic_ser.Domain.Request.{PrivateScheduleSlot, approved, PrivateScheduleRequest}
use kelolakelas_academic_ser.Errors.{private_selection, domain}
use kelolakelas_academic_ser.Examples.{tenant, parent, academy, calm}
use kelolakelas_academic_ser.Prelude.{
  length, any, all, by_id, ◌≡◌, refl, true, none, some, List, [], ◌∷◌, arith,
}
use kelolakelas_academic_ser.Requests.Decisions.Final.{
  Decision, rejecting, cancelling, declining, decide_all, is_final, Stands, decide_all-Stands,
}
use kelolakelas_academic_ser.Requests.Slots.{
  slot_time, slot_times, insert_interval, sort_intervals, neighbours_overlap, times_of_day,
  valid_private_slots, same_private_slots, ApprovePrivateScheduleRequest, indexes_valid, pick_slots,
  private_selected_slots,
}
use kelolakelas_academic_ser.Requests.Slots.Overlaps.{disjoint, valid_private_slots-disjoint}
use kelolakelas_academic_ser.Requests.Slots.Selection.{length-private_selected_slots}
use kelolakelas_academic_ser.Schedule.Clock.{
  codes, number, optional_fraction, parse_seconds, parse_minutes, format_time,
}
use mathlib.Core.Option.{bind}

abbrev pub morning : PrivateScheduleSlot
morning = record { day_of_week = 1; start_time = "09:00:00"; end_time = "10:00:00" }

abbrev pub evening : PrivateScheduleSlot
evening = record { day_of_week = 1; start_time = "18:00:00"; end_time = "19:00:00" }

abbrev pub wish : PrivateScheduleRequest
wish = record {
  id = 80;
  tenant_id = tenant;
  class_id = 11;
  student_id = 20;
  parent_id = parent;
  parent_email = "parent@example.com";
  billing_cycle = "monthly";
  payment_method = "VA";
  slots = morning ∷ evening ∷ [];
  approved_slots = none;
  recommended_slots = none;
  note = none;
  status = approved;
  rejection_reason = none;
  created_at = 0;
  decided_at = some 10;
}

abbrev choice : ApprovePrivateScheduleRequest
choice = record {
  selected_slot_indexes = pos 1 ∷ [];
  proposal_snapshot = morning ∷ evening ∷ [];
  expected_private_slot_limit = none;
}

chosen : private_selected_slots wish (some choice) ≡ ok (evening ∷ [])
unfolding private_selected_slots same_private_slots indexes_valid any pick_slots
chosen = refl

negative_index :
    private_selected_slots wish (some (record choice { selected_slot_indexes = negsuc 0 ∷ [] }))
    ≡ err (domain private_selection)
unfolding private_selected_slots same_private_slots indexes_valid
negative_index = refl

length-private_selected_slots_example : length (evening ∷ []) ≡ length choice.selected_slot_indexes
length-private_selected_slots_example =
    length-private_selected_slots wish choice (evening ∷ []) chosen

accepted : valid_private_slots (morning ∷ evening ∷ []) ≡ true
unfolding valid_private_slots slot_times slot_time parse_minutes bind number codes parse_seconds
    optional_fraction format_time times_of_day sort_intervals insert_interval neighbours_overlap any
    all
accepted = refl

valid_private_slots-disjoint_example : disjoint (times_of_day 1 (morning ∷ evening ∷ [])) ≡ true
valid_private_slots-disjoint_example =
    valid_private_slots-disjoint (morning ∷ evening ∷ []) 1 accepted (omega arith) (omega arith)

abbrev decided : World
decided = record { db = record academy { requests = wish ∷ [] }; env = calm }

wish-final : is_final wish ≡ true
unfolding is_final
wish-final = refl

wish-Stands : Stands wish (record academy { requests = wish ∷ [] })
unfolding by_id
wish-Stands = refl

abbrev later_wishes : List Decision
later_wishes =
    cancelling parent 80
    ∷ rejecting tenant 80 (record { reason = some "full"; recommended_slots = none })
    ∷ declining parent 80
    ∷ []

decide_all-Stands_example : Stands wish (decide_all later_wishes decided).db
decide_all-Stands_example = decide_all-Stands wish later_wishes decided wish-final wish-Stands
