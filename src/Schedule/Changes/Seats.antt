-- ===== src/Schedule/Changes/Seats.antt =====
-- A permanent change of a schedule or of its tutor keeps every schedule within its capacity.
use kelolakelas_academic_ser.App.{Db, ok}
use kelolakelas_academic_ser.Domain.{Uuid, Timestamp, Enrollment, ClassSchedule}
use kelolakelas_academic_ser.Enrollment.Capacity.{WithinCapacity}
use kelolakelas_academic_ser.Enrollment.Rows.{schedule_id, seated}
use kelolakelas_academic_ser.Prelude.{
  ◌==◌, Bool-cases, Option-cases, count, update_where, by_id, replace, by_id-replace, ◌+◌, ◌≤◌, ◌≡◌,
  refl, inl, inr, Bool, false, ◌&&◌, none, some, List, [], ◌∷◌, arith,
}
use kelolakelas_academic_ser.Schedule.Rows.{create_schedule}

-- Every schedule is within its capacity, and no enrollment holds a seat in a schedule that is not
-- there, as the foreign key of `enrollments` has it.
pub record Booked (d : Db) : Type 0 where
  pub within : WithinCapacity d
  pub present :
      (sid : Uuid) → by_id schedule_id sid d.schedules ≡ none → count (seated sid) d.enrollments ≡ 0

-- The rows that TransferSchedule moves.
abbrev pub transfers : Uuid → Uuid → Uuid → Enrollment → Bool
transfers tenant class old e = e.tenant_id == tenant && e.class_id == class && seated old e

abbrev pub transferred : Timestamp → Uuid → Uuid → Uuid → Uuid → List Enrollment → List Enrollment
transferred now tenant class old new rows =
    update_where (transfers tenant class old)
      (λ e. record e { schedule_id = some new; updated_at = now }) rows

transferred-elsewhere :
    (now : Timestamp) (tenant class old new sid : Uuid) (rows : List Enrollment)
    → (sid == new) ≡ false
    → count (seated sid) (transferred now tenant class old new rows) ≤ count (seated sid) rows
unfolding count update_where seated
transferred-elsewhere now tenant class old new sid [] h = omega arith
transferred-elsewhere now tenant class old new sid (e ∷ rows) h =
    ground (arith, transferred-elsewhere now tenant class old new sid rows)

transferred-new :
    (now : Timestamp) (tenant class old new : Uuid) (rows : List Enrollment)
    → count (seated new) (transferred now tenant class old new rows)
      ≤ count (seated new) rows + count (transfers tenant class old) rows
unfolding count update_where seated
transferred-new now tenant class old new [] = omega arith
transferred-new now tenant class old new (e ∷ rows) =
    ground (arith, transferred-new now tenant class old new rows)

pub transfers-le-seated :
    (tenant class old : Uuid) (rows : List Enrollment)
    → count (transfers tenant class old) rows ≤ count (seated old) rows
unfolding count
transfers-le-seated tenant class old [] = omega arith
transfers-le-seated tenant class old (e ∷ rows) =
    ground (arith, transfers-le-seated tenant class old rows)

pub transfers-le-occupied :
    (tenant class old : Uuid) (rows : List Enrollment)
    → count (transfers tenant class old) rows
      ≤ count (λ e. seated old e && e.tenant_id == tenant) rows
unfolding count
transfers-le-occupied tenant class old [] = omega arith
transfers-le-occupied tenant class old (e ∷ rows) =
    ground (arith, transfers-le-occupied tenant class old rows)

-- Moving the seats of a schedule to a new one that has room for them.
pub transferred-Booked :
    (now : Timestamp) (tenant class old i : Uuid) (new : ClassSchedule) (d : Db)
    → by_id schedule_id i d.schedules ≡ some new
    → count (seated i) d.enrollments ≡ 0
    → count (transfers tenant class old) d.enrollments ≤ new.capacity
    → Booked d
    → Booked (record d { enrollments = transferred now tenant class old i d.enrollments })
transferred-Booked now tenant class old i new d row empty room v = record {
  within = record { at = within_at };
  present = present_at;
}
  where
    within_at :
        (sid : Uuid) (s : ClassSchedule)
        → by_id schedule_id sid d.schedules ≡ some s
        → count (seated sid) (transferred now tenant class old i d.enrollments) ≤ s.capacity
    within_at sid s found = elim (Bool-cases (sid == i)) [
      | inl same ↦ ground (arith, transferred-new now tenant class old i d.enrollments)
      | inr other ↦ ground (
        arith,
        transferred-elsewhere now tenant class old i sid d.enrollments other,
        v.within.at sid s found,
      )
    ]

    present_at :
        (sid : Uuid)
        → by_id schedule_id sid d.schedules ≡ none
        → count (seated sid) (transferred now tenant class old i d.enrollments) ≡ 0
    present_at sid absent = elim (Bool-cases (sid == i)) [
      | inl same ↦ absurd (ground arith)
      | inr other ↦ ground (
        arith,
        transferred-elsewhere now tenant class old i sid d.enrollments other,
        v.present sid absent,
      )
    ]

-- Saving a schedule under its own capacity.
pub save_schedule-Booked :
    (s old : ClassSchedule) (d : Db)
    → by_id schedule_id s.id d.schedules ≡ some old
    → s.capacity ≡ old.capacity
    → Booked d
    → Booked (record d { schedules = replace schedule_id s d.schedules })
save_schedule-Booked s old d row same v = record {
  within = record {
    at = λ sid t found. ground (
      arith,
      by_id-replace schedule_id sid s old d.schedules row,
      v.within.at sid t,
      v.within.at s.id old row,
    );
  };
  present = λ sid absent.
      ground (arith, by_id-replace schedule_id sid s old d.schedules row, v.present sid);
}

-- A new schedule has its own id, and so no seats.
pub create_schedule-Booked :
    (s : ClassSchedule) (d d' : Db)
    → create_schedule s d ≡ ok d'
    → Booked d
    → Booked d'
      × (by_id schedule_id s.id d'.schedules ≡ some s)
      × (count (seated s.id) d'.enrollments ≡ 0)
      × (d'.enrollments ≡ d.enrollments)
create_schedule-Booked s d d' h v = elim (Option-cases (by_id schedule_id s.id d.schedules)) [
  | inl absent ↦ rw (created absent) (booked absent, found absent, v.present s.id absent, refl)
  | inr (t, there) ↦ absurd (refused t there)
]
  where
    created :
        by_id schedule_id s.id d.schedules ≡ none → d' ≡ record d { schedules = s ∷ d.schedules }
    created absent = unfold create_schedule in ground arith

    refused : (t : ClassSchedule) → by_id schedule_id s.id d.schedules ≡ some t → ⊥
    refused t there = unfold create_schedule in ground arith

    found :
        by_id schedule_id s.id d.schedules ≡ none
        → by_id schedule_id s.id (s ∷ d.schedules) ≡ some s
    found absent = unfold by_id in ground arith

    booked :
        by_id schedule_id s.id d.schedules ≡ none
        → Booked (record d { schedules = s ∷ d.schedules })
    booked absent = record {
      within = record {
        at = λ sid t row. unfold by_id in ground (arith, v.within.at sid t, v.present s.id absent);
      };
      present = λ sid gone. unfold by_id in ground (arith, v.present sid);
    }
