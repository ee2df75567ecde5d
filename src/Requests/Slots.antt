-- ===== src/Requests/Slots.antt =====
-- validatePrivateSlots of internal/usecase/private_schedule_request_usecase.go and
-- privateSelectedSlots of private_slot_selection.go.
pub mod Selection
pub mod Overlaps
use kelolakelas_academic_ser.App.{Result, ok, err, finish}
use kelolakelas_academic_ser.Domain.{ℤ, pos, negsuc}
use kelolakelas_academic_ser.Domain.Request.{PrivateScheduleSlot, PrivateScheduleRequest}
use kelolakelas_academic_ser.Errors.{private_selection, private_selection_stale, domain}
use kelolakelas_academic_ser.Prelude.{
  ltb, leb, ◌==◌, same_text, if◌then◌else◌, is_some, length, any, all, ℕ, ◌+◌, String, Bool, true,
  false, not, ◌&&◌, ◌||◌, Option, none, some, List, [], ◌∷◌,
}
use kelolakelas_academic_ser.Schedule.Clock.{parse_seconds, parse_minutes, format_time}

-- time.Parse("15:04:05", text), and the test that Format gives the text back
abbrev exact_time : String → Option ℕ → Option ℕ
exact_time text none = none
exact_time text (some t) = if same_text (format_time t) text then some t else none

unfoldable pub slot_time : String → Option ℕ
slot_time text = exact_time text (parse_minutes parse_seconds text)

abbrev pub ordered_times : Option ℕ → Option ℕ → Option (ℕ × ℕ)
ordered_times none finish = none
ordered_times (some start) none = none
ordered_times (some start) (some finish) = if ltb start finish then some (start, finish) else none

unfoldable pub slot_times : PrivateScheduleSlot → Option (ℕ × ℕ)
slot_times s =
    if ltb s.day_of_week 1 || ltb 7 s.day_of_week
    then none
    else ordered_times (slot_time s.start_time) (slot_time s.end_time)

-- sort.Slice by the start. Slots with one start are refused in any order.
unfoldable pub insert_interval : ℕ × ℕ → List (ℕ × ℕ) → List (ℕ × ℕ)
insert_interval i [] = i ∷ []
insert_interval i (j ∷ rest) =
    let later = insert_interval i rest in if leb i.0 j.0 then i ∷ j ∷ rest else j ∷ later

unfoldable pub sort_intervals : List (ℕ × ℕ) → List (ℕ × ℕ)
sort_intervals [] = []
sort_intervals (i ∷ rest) = insert_interval i (sort_intervals rest)

-- `day[i][0].Before(day[i-1][1])` for a neighbour
unfoldable pub neighbours_overlap : List (ℕ × ℕ) → Bool
neighbours_overlap [] = false
neighbours_overlap (i ∷ []) = false
neighbours_overlap (i ∷ j ∷ rest) = ltb j.0 i.1 || neighbours_overlap (j ∷ rest)

abbrev pub and_time : Option (ℕ × ℕ) → List (ℕ × ℕ) → List (ℕ × ℕ)
and_time none rest = rest
and_time (some i) rest = i ∷ rest

-- grouped[day]
unfoldable pub times_of_day : ℕ → List PrivateScheduleSlot → List (ℕ × ℕ)
times_of_day day [] = []
times_of_day day (s ∷ rest) =
    let others = times_of_day day rest in
    if s.day_of_week == day then and_time (slot_times s) others else others

abbrev pub day_overlaps : List PrivateScheduleSlot → ℕ → Bool
day_overlaps slots day = neighbours_overlap (sort_intervals (times_of_day day slots))

unfoldable pub valid_private_slots : List PrivateScheduleSlot → Bool
valid_private_slots slots =
    ltb 0 (length slots)
    && leb (length slots) 50
    && all (λ s. is_some (slot_times s)) slots
    && not (any (day_overlaps slots) (1 ∷ 2 ∷ 3 ∷ 4 ∷ 5 ∷ 6 ∷ 7 ∷ []))

-- samePrivateSlots
abbrev pub same_slot : PrivateScheduleSlot → PrivateScheduleSlot → Bool
same_slot a b =
    a.day_of_week == b.day_of_week
    && same_text a.start_time b.start_time
    && same_text a.end_time b.end_time

unfoldable pub same_private_slots : List PrivateScheduleSlot → List PrivateScheduleSlot → Bool
same_private_slots [] [] = true
same_private_slots [] (b ∷ right) = false
same_private_slots (a ∷ left) [] = false
same_private_slots (a ∷ left) (b ∷ right) = same_slot a b && same_private_slots left right

pub record ApprovePrivateScheduleRequest : Type 0 where
  pub selected_slot_indexes : List ℤ
  pub proposal_snapshot : List PrivateScheduleSlot
  pub expected_private_slot_limit : Option ℤ

abbrev pub same_index : ℤ → ℤ → Bool
same_index (pos i) (pos j) = i == j
same_index (pos i) (negsuc j) = false
same_index (negsuc i) (pos j) = false
same_index (negsuc i) (negsuc j) = i == j

-- `index < 0 || index >= n`
abbrev pub out_of_range : ℕ → ℤ → Bool
out_of_range n (pos i) = leb n i
out_of_range n (negsuc i) = true

-- The loop over the indexes: in range, and none twice.
unfoldable pub indexes_valid : ℕ → List ℤ → Bool
indexes_valid n [] = true
indexes_valid n (i ∷ rest) =
    not (out_of_range n i) && not (any (same_index i) rest) && indexes_valid n rest

-- `for index, slot := range request.Slots`, from an index on
unfoldable pub pick_slots : ℕ → List ℤ → List PrivateScheduleSlot → List PrivateScheduleSlot
pick_slots n indexes [] = []
pick_slots n indexes (s ∷ rest) =
    let others = pick_slots (n + 1) indexes rest in
    if any (same_index (pos n)) indexes then s ∷ others else others

abbrev approved_or_all :
    Option (List PrivateScheduleSlot) → List PrivateScheduleSlot → List PrivateScheduleSlot
approved_or_all none slots = slots
approved_or_all (some []) slots = slots
approved_or_all (some (s ∷ rest)) slots = s ∷ rest

unfoldable pub private_selected_slots :
    PrivateScheduleRequest
    → Option ApprovePrivateScheduleRequest
    → Result (List PrivateScheduleSlot)
private_selected_slots r none = ok (approved_or_all r.approved_slots r.slots)
private_selected_slots r (some a) =
    if not (same_private_slots a.proposal_snapshot r.slots)
    then err (domain private_selection_stale)
    else if length a.selected_slot_indexes == 0
    then err (domain private_selection)
    else if not (indexes_valid (length r.slots) a.selected_slot_indexes)
    then err (domain private_selection)
    else ok (pick_slots 0 a.selected_slot_indexes r.slots)
