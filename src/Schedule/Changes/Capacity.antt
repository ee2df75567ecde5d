-- ===== src/Schedule/Changes/Capacity.antt =====
-- The operations that replace, hand over or delete a schedule keep the bookings within capacity.
use kelolakelas_academic_ser.App.{Db, Result, ok, err}
use kelolakelas_academic_ser.App.Run.{
  Post, Run, Run-pure, Run-raise, Run-if, Run-gets, Run-query, Run-execute_last, Run-attempt, Keeps,
  keep-bind,
}
use kelolakelas_academic_ser.Domain.{Uuid, uuid_nil, Day, cancelled, ClassSession}
use kelolakelas_academic_ser.Prelude.{
  ltb, ◌==◌, update_where, ℕ, ◌≤◌, ◌≡◌, refl, Bool, true, false, ◌&&◌, ◌||◌, Option, none, some,
  List, [], ◌∷◌, arith,
}
use kelolakelas_academic_ser.Schedule.Changes.{choose_tutor}
use kelolakelas_academic_ser.Schedule.Changes.Seats.{Booked}
use kelolakelas_academic_ser.Schedule.Guard.{
  history, occupied, validate_change, Membership, membership_answer, check_tutor,
}
use kelolakelas_academic_ser.Schedule.Rows.{
  create_session, and_create, create_sessions, batch_create, upcoming, cancel_future_sessions,
  moved, move_future_sessions,
}

sessions-Booked :
    (d : Db) (rows : List ClassSession) → Booked d → Booked (record d { sessions = rows })
sessions-Booked d rows v = record { within = record { at = v.within.at }; present = v.present }

pub cancel-Booked :
    (tenant schedule : Uuid) (from : Day) (d d' : Db)
    → cancel_future_sessions tenant schedule from d ≡ ok d'
    → Booked d
    → Booked d'
cancel-Booked tenant schedule from d d' h v = rw (effect h) (sessions-Booked d _ v)
  where
    effect :
        cancel_future_sessions tenant schedule from d ≡ ok d'
        → d' ≡ record d {
          sessions =
              update_where
                (upcoming tenant schedule from d)
                (λ s. record s { status = cancelled })
                d.sessions;
        }
    effect k = unfold cancel_future_sessions in ground arith

create_session-Booked :
    (s : ClassSession) (d d' : Db) → create_session s d ≡ ok d' → Booked d → Booked d'
create_session-Booked s d d' h v = rw (effect h) (sessions-Booked d _ v)
  where
    effect : create_session s d ≡ ok d' → d' ≡ record d { sessions = s ∷ d.sessions }
    effect k = unfold create_session in ground arith

and_create-Booked :
    (r : Result Db) (s : ClassSession) (d' : Db)
    → ((d1 : Db) → r ≡ ok d1 → Booked d1)
    → and_create r s ≡ ok d'
    → Booked d'
and_create-Booked (ok d1) s d' rest h = create_session-Booked s d1 d' h (rest d1 refl)
and_create-Booked (err x) s d' rest h = cc

create_sessions-Booked :
    (sessions : List ClassSession) (d d' : Db)
    → create_sessions sessions d ≡ ok d'
    → Booked d
    → Booked d'
unfolding create_sessions
create_sessions-Booked [] d d' h v = rw (same h) v
  where
    same : ok d ≡ ok d' → d' ≡ d
    same k = ground arith
create_sessions-Booked (s ∷ rest) d d' h v =
    and_create-Booked (create_sessions rest d) s d' (λ d1 e. create_sessions-Booked rest d d1 e v) h

pub move-Booked :
    (tenant schedule tutor new : Uuid) (from : Day) (d d' : Db)
    → move_future_sessions tenant schedule tutor new from d ≡ ok d'
    → Booked d
    → Booked d'
move-Booked tenant schedule tutor new from d d' h v = rw (effect h) (sessions-Booked d _ v)
  where
    effect :
        move_future_sessions tenant schedule tutor new from d ≡ ok d'
        → d' ≡ record d {
          sessions = update_where (upcoming tenant schedule from d) (moved tutor new) d.sessions;
        }
    effect k = unfold move_future_sessions in ground arith

pub batch_create-Booked : (sessions : List ClassSession) → Keeps Booked (batch_create sessions)
unfolding batch_create
batch_create-Booked [] d v = Run-pure tt v
batch_create-Booked (s ∷ rest) d v =
    Run-execute_last _ (λ _. v) (λ x _. v) (λ d' h. create_sessions-Booked (s ∷ rest) d d' h v)

-- Room for the enrollments of a schedule, as the guard finds it.
abbrev pub Roomy : Uuid → Uuid → ℕ → Db → Post (Unit {0})
Roomy tenant schedule capacity d (ok _) d' = (d' ≡ d) × (occupied tenant schedule d ≤ capacity)
Roomy tenant schedule capacity d (err x) d' = d' ≡ d

pub validate_change-Roomy :
    (tenant schedule : Uuid) (effective : Day) (capacity : ℕ) (deleting : Bool) (d : Db)
    → Run false d
        (validate_change tenant schedule effective capacity deleting)
        (Roomy tenant schedule capacity d)
unfolding validate_change
validate_change-Roomy tenant schedule effective capacity deleting d = Run-gets _ _ λ now.
    Run-if (ltb effective now) _ _ (λ _. Run-raise _ refl)
      λ _.
        Run-query _ _ (λ _. refl)
          (Run-query _ _ (λ _. refl)
            (Run-if (ltb 0 (history schedule effective d)) _ _ (λ _. Run-raise _ refl)
              λ _.
                Run-query _ _ (λ _. refl)
                  (Run-if
                    (ltb capacity (occupied tenant schedule d)
                      || (deleting && ltb 0 (occupied tenant schedule d)))
                    _ _ (λ _. Run-raise _ refl) λ room. Run-pure tt (refl, fits room))))
  where
    fits :
        (ltb capacity (occupied tenant schedule d)
            || (deleting && ltb 0 (occupied tenant schedule d)))
          ≡ false
        → occupied tenant schedule d ≤ capacity
    fits h = ground arith

-- The membership service does not write to this database.
abbrev pub ReadsOnly : Membership → Type 0
ReadsOnly none = Unit {0}
ReadsOnly (some check) =
    (tenant member : Uuid) (d : Db) → Run false d (check tenant member) (λ r d'. d' ≡ d)

module _ (P : Db → Type 0) where
  answer-Keeps : (r : Result Bool) → Keeps P (membership_answer r)
  answer-Keeps (err x) d v = Run-raise _ v
  answer-Keeps (ok false) d v = Run-raise _ v
  answer-Keeps (ok true) d v = Run-pure tt v

  pub check_tutor-Keeps :
      (client : Membership) (tenant tutor : Uuid)
      → ReadsOnly client
      → Keeps P (check_tutor client tenant tutor)
  unfolding check_tutor
  check_tutor-Keeps none tenant tutor h d v = Run-raise _ v
  check_tutor-Keeps (some check) tenant tutor h d v =
      Run-attempt (λ r d'. d' ≡ d) _ _ (h tenant tutor d)
        (λ r d' same. rw same (answer-Keeps r d v))

  pub choose_tutor-Keeps :
      (client : Membership) (tenant : Uuid) (old new : Option Uuid)
      → ReadsOnly client
      → Keeps P (choose_tutor client tenant old new)
  unfolding choose_tutor
  choose_tutor-Keeps client tenant old none h d v = Run-pure old v
  choose_tutor-Keeps client tenant old (some tutor) h d v =
      Run-if (tutor == uuid_nil) _ _ (λ _. Run-pure none v)
        λ _. keep-bind _ _ (check_tutor-Keeps client tenant tutor h d v) λ _ d' v'. Run-pure _ v'
