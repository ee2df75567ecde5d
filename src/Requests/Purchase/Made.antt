-- ===== src/Requests/Purchase/Made.antt =====
-- What a first purchase makes of the slots of a request.
use kelolakelas_academic_ser.App.{Db, World, Result, ok, err, App, pure, ◌>>=◌}
use kelolakelas_academic_ser.App.Run.{
  Post, Run, Run-pure, Run-bind, Run-gets, Run-new_uuid, Run-weaken, Run-execute, run_rules, Inv,
  Keeps,
}
use kelolakelas_academic_ser.Domain.{Uuid, Day, Enrollment, Class, ClassSchedule}
use kelolakelas_academic_ser.Domain.Request.{
  PrivateScheduleSlot, RequestStatus, PrivateScheduleRequest,
}
use kelolakelas_academic_ser.Enrollment.Checkout.{get_student}
use kelolakelas_academic_ser.Prelude.{
  String, ◌≡◌, refl, sym, Bool, true, false, Option, none, some, List, [], ◌∷◌, arith,
}
use kelolakelas_academic_ser.Requests.Agreement.{limit_check, purchase_slots}
use kelolakelas_academic_ser.Requests.Payment.Kept.{set_status-Keeps, save_approved_slots-Keeps}
use kelolakelas_academic_ser.Requests.Purchase.{
  purchase_class, check_slots, purchase_enrollment, slot_schedule, create_slots, record_selection,
  materialize, first_purchase,
}
use kelolakelas_academic_ser.Requests.Purchase.Timetable.{
  generate-Keeps, batch_create-Keeps, capacity-Keeps,
}
use kelolakelas_academic_ser.Requests.Repository.{set_status}
use kelolakelas_academic_ser.Requests.Slots.{ApprovePrivateScheduleRequest}
use kelolakelas_academic_ser.Schedule.Rows.{create_schedule}

-- The schedule of a slot: of the enrollment and its class, on the day and at the times of the slot,
-- with one seat, and valid from the given day on.
pub record IsFor (e : Enrollment) (now : Day) (slot : PrivateScheduleSlot) (s : ClassSchedule)
    : Type 0 where
  pub of_enrollment : s.enrollment_id ≡ some e.id
  pub of_class : s.class_id ≡ e.class_id
  pub on_day : s.day_of_week ≡ slot.day_of_week
  pub at_start : s.start_time ≡ slot.start_time
  pub at_end : s.end_time ≡ slot.end_time
  pub one_seat : s.capacity ≡ 1
  pub from_day : s.valid_from ≡ some now
  pub unending : s.valid_until ≡ none
  pub live : s.deleted ≡ false

-- The second table is the first one with one schedule for each slot put in front of it, in turn.
abbrev pub Filed :
    Enrollment → Day → List PrivateScheduleSlot → List ClassSchedule → List ClassSchedule → Type 0
Filed e now [] rows after = after ≡ rows
Filed e now (slot ∷ rest) rows after =
    (s : ClassSchedule) × IsFor e now slot s × Filed e now rest (s ∷ rows) after

-- A successful run files the slots.
abbrev pub FiledFrom :
    {A : Type 0} → Enrollment → Day → List PrivateScheduleSlot → List ClassSchedule → Post A
FiledFrom e now slots rows (ok a) d = Filed e now slots rows d.schedules
FiledFrom e now slots rows (err x) d = Unit {0}

create_schedule-schedules :
    (s : ClassSchedule) (rows : List ClassSchedule) (d d' : Db)
    → d.schedules ≡ rows
    → create_schedule s d ≡ ok d'
    → d'.schedules ≡ s ∷ rows
unfolding create_schedule
create_schedule-schedules s rows d d' v h = ground arith

module _ (r : PrivateScheduleRequest) (e : Enrollment) (now : Day)
    (of_class : r.class_id ≡ e.class_id) where
  slot_schedule-IsFor :
      (i : Uuid) (slot : PrivateScheduleSlot) → IsFor e now slot (slot_schedule i r e.id now slot)
  unfolding slot_schedule
  slot_schedule-IsFor i slot = record {
    of_enrollment = refl;
    of_class = of_class;
    on_day = refl;
    at_start = refl;
    at_end = refl;
    one_seat = refl;
    from_day = refl;
    unending = refl;
    live = refl;
  }

  create_slots-Filed :
      (slots : List PrivateScheduleSlot) (rows : List ClassSchedule) (d : Db)
      → d.schedules ≡ rows
      → Run false d (create_slots r e.id now slots) (FiledFrom e now slots rows)
  unfolding create_slots
  create_slots-Filed [] rows d v = Run-pure tt v
  create_slots-Filed (slot ∷ rest) rows d v = Run-new_uuid _ λ i.
      let s = slot_schedule i r e.id now slot in
      Run-execute _ _ (λ _. tt) (λ x _. tt)
        λ d1 made.
          Run-bind (Inv (λ d2. d2.schedules ≡ s ∷ rows)) _ _
            (generate-Keeps (λ l. l ≡ s ∷ rows) _ _ d1
              (create_schedule-schedules s rows d d1 v made))
            (λ sessions d2 v2.
              Run-bind (Inv (λ d3. d3.schedules ≡ s ∷ rows)) _ _
                (batch_create-Keeps (λ l. l ≡ s ∷ rows) sessions d2 v2)
                (λ _ d3 v3. Run-weaken _ _ (create_slots-Filed rest (s ∷ rows) d3 v3) (filed i))
                (λ x d3 _. tt))
            (λ x d2 _. tt)
    where
      filed :
          (i : Uuid) (result : Result (Unit {0})) (d' : Db)
          → FiledFrom e now rest (slot_schedule i r e.id now slot ∷ rows) result d'
          → FiledFrom e now (slot ∷ rest) rows result d'
      filed i (ok a) d' h = (slot_schedule i r e.id now slot, slot_schedule-IsFor i slot, h)
      filed i (err x) d' h = tt

-- What a first purchase leaves: an enrollment of the request, and besides the schedules of before
-- one of that enrollment for each slot.
abbrev pub MadeOf : PrivateScheduleRequest → List PrivateScheduleSlot → Db → Post Enrollment
MadeOf r slots before (ok e) d =
    (e.class_id ≡ r.class_id)
    × (e.student_id ≡ r.student_id)
    × ((now : Day) × Filed e now slots before.schedules d.schedules)
MadeOf r slots before (err x) d = Unit {0}

module _ (before : Db) where
  abbrev SameSchedules : List ClassSchedule → Type 0
  SameSchedules l = l ≡ before.schedules

  selection-Keeps :
      (recommendation : Bool) (i tenant : Uuid) (slots : List PrivateScheduleSlot)
      → Keeps (λ d. SameSchedules d.schedules) (record_selection recommendation i tenant slots)
  unfolding record_selection
  selection-Keeps true i tenant slots d v = Run-pure tt v
  selection-Keeps false i tenant slots d v =
      save_approved_slots-Keeps (λ x. SameSchedules x.schedules) (λ _ _ u. u) i tenant slots d v

  slots_made :
      (i : Uuid) (r : PrivateScheduleRequest) (now : Day) (slots : List PrivateScheduleSlot)
      (e : Enrollment) (d : Db)
      → e.class_id ≡ r.class_id
      → e.student_id ≡ r.student_id
      → SameSchedules d.schedules
      → Run false d
          (create_slots r e.id now slots >>= λ _.
            set_status i r.tenant_id RequestStatus.approved >>= λ _. pure e)
          (MadeOf r slots before)
  slots_made i r now slots e d class student same =
      Run-bind (FiledFrom e now slots before.schedules) _ _
        (create_slots-Filed r e now (sym class) slots before.schedules d same)
        (λ _ d1 v1.
          Run-bind (Inv (λ x. Filed e now slots before.schedules x.schedules)) _ _
            (set_status-Keeps (λ x. Filed e now slots before.schedules x.schedules) (λ _ _ u. u) i
              r.tenant_id RequestStatus.approved d1 v1)
            (λ _ d2 v2. Run-pure e (class, student, (now, v2))) (λ x d2 _. tt))
        (λ x d1 _. tt)

  materialize-Made :
      (recommendation : Bool) (i : Uuid) (key : String) (r : PrivateScheduleRequest) (c : Class)
      (slots : List PrivateScheduleSlot)
      → Run false before (materialize recommendation i key r c slots) (MadeOf r slots before)
  unfolding materialize purchase_enrollment
  materialize-Made recommendation i key r c slots =
      Run-bind (Inv (λ d. SameSchedules d.schedules)) _ _
        (selection-Keeps recommendation i r.tenant_id slots before refl)
        (λ _ d1 v1. Run-new_uuid _ λ j. Run-gets _ _ λ created.
          Run-bind (Inv (λ d. SameSchedules d.schedules)) _ _
            (capacity-Keeps SameSchedules (purchase_enrollment j created key r c) d1 v1)
            (λ _ d2 v2. Run-gets _ _ λ now.
              slots_made i r now slots (purchase_enrollment j created key r c) d2 refl refl v2)
            (λ x d2 _. tt))
        (λ x d1 _. tt)

  limit_check-Reads :
      (recommendation : Bool) (approval : Option ApprovePrivateScheduleRequest) (c : Class)
      → Run false before (limit_check recommendation approval c) (Inv (λ d. d ≡ before))
  limit_check-Reads true approval c = Run-pure tt refl
  limit_check-Reads false none c = search run_rules
  limit_check-Reads false (some a) c = search run_rules

  purchase_class-Reads :
      (r : PrivateScheduleRequest) → Run false before (purchase_class r) (Inv (λ d. d ≡ before))
  unfolding purchase_class get_student
  purchase_class-Reads r = search run_rules depth 14

  check_slots-Reads :
      (c : Class) (slots : List PrivateScheduleSlot)
      → Run false before (check_slots c slots) (Inv (λ d. d ≡ before))
  unfolding check_slots
  check_slots-Reads c slots = search run_rules

  then_reads :
      {A : Type 0} (m : App A) (k : A → App Enrollment) (r : PrivateScheduleRequest)
      (slots : List PrivateScheduleSlot)
      → Run false before m (Inv (λ d. d ≡ before))
      → ((a : A) → Run false before (k a) (MadeOf r slots before))
      → Run false before (m >>= k) (MadeOf r slots before)
  then_reads m k r slots p h =
      Run-bind (Inv (λ d. d ≡ before)) m k p (λ a d' same. rw same (h a)) (λ x d' _. tt)

  first_purchase-Run :
      (recommendation : Bool) (i : Uuid) (key : String) (r : PrivateScheduleRequest)
      (approval : Option ApprovePrivateScheduleRequest) (selected : List PrivateScheduleSlot)
      → Run false before
          (first_purchase recommendation i key r approval selected)
          (MadeOf r (purchase_slots recommendation r selected) before)
  unfolding first_purchase
  first_purchase-Run recommendation i key r approval selected =
      let slots = purchase_slots recommendation r selected in
      then_reads _ _ r slots (purchase_class-Reads r) λ c.
        then_reads _ _ r slots (limit_check-Reads recommendation approval c) λ _.
          then_reads _ _ r slots (check_slots-Reads c slots)
            λ _. materialize-Made recommendation i key r c slots

-- A first purchase that succeeds answers an enrollment of the request's student in its class, and
-- adds exactly one schedule for each slot, the recommended slots or the selected ones, in their
-- order: with its day and times, one seat, one first day for all of them, bound to that enrollment
-- and that class. Every other schedule is as before.
pub first_purchase-Made :
    (recommendation : Bool) (i : Uuid) (key : String) (r : PrivateScheduleRequest)
    (approval : Option ApprovePrivateScheduleRequest) (selected : List PrivateScheduleSlot)
    (w : World)
    → let (found, w') = first_purchase recommendation i key r approval selected w in
      MadeOf r (purchase_slots recommendation r selected) w.db found w'.db
first_purchase-Made recommendation i key r approval selected w =
    ((first_purchase-Run w.db recommendation i key r approval selected).at w.env (λ x. cc)).0
