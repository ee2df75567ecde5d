-- ===== src/Schedule/Worker/Ends.antt =====
-- A pass of the worker ends: the cursor moves up through the schedules.
use kelolakelas_academic_ser.App.{Db, World, Result, ok, err, App}
use kelolakelas_academic_ser.App.Run.{
  Post, Run, Run-pure, Run-bind, Run-gets, Run-new_uuid, Run-statement_last, Run-query, Run-attempt,
  Run-attempt_then, Inv, Keeps, keep-bind, keep-transacted,
}
use kelolakelas_academic_ser.Domain.{Uuid, uuid_nil, Day, ClassSchedule, ClassSession}
use kelolakelas_academic_ser.Errors.{Error}
use kelolakelas_academic_ser.Prelude.{
  ltb, ◌==◌, Option-cases, length, count, update_where, any, ℕ, zero, suc, ◌+◌, ◌≤◌, ◌<◌, ◌≡◌, refl,
  inl, inr, Bool, true, false, Option, none, some, List, [], ◌∷◌, arith,
}
use kelolakelas_academic_ser.Schedule.Generation.{sessions_on, sessions_between}
use kelolakelas_academic_ser.Schedule.Worker.{
  is_due, next_due, lock_next_due, insert_missing_sessions, greatest, mark, mark_generated_until,
  generate_for, RunResult, Round, none_left, generated, round_failed, outcome, run_locked, round,
  continue_pass, run_pass, run_rounds, run_once,
}

-- The schedules beyond a cursor.
abbrev pub beyond : Uuid → ClassSchedule → Bool
beyond c s = ltb c s.id

abbrev same_id : Uuid → ClassSchedule → Bool
same_id i s = s.id == i

next_due-beyond :
    (due : ClassSchedule → Bool) (c : Uuid) (rows : List ClassSchedule) (s : ClassSchedule)
    → next_due due c rows ≡ some s
    → (c < s.id) × (any (same_id s.id) rows ≡ true)
unfolding next_due any
next_due-beyond due c [] s h = cc
next_due-beyond due c (t ∷ rest) s h = elim (Option-cases (next_due due c rest)) [
  | inl last ↦ ground arith
  | inr (u, later) ↦ ground (arith, next_due-beyond due c rest u later)
]

count-beyond_le :
    (c i : Uuid) (rows : List ClassSchedule) → c < i → count (beyond i) rows ≤ count (beyond c) rows
unfolding count
count-beyond_le c i [] h = omega arith
count-beyond_le c i (t ∷ rest) h = ground (arith, count-beyond_le c i rest h)

count-beyond_lt :
    (c i : Uuid) (rows : List ClassSchedule)
    → c < i
    → any (same_id i) rows ≡ true
    → count (beyond i) rows < count (beyond c) rows
unfolding count any
count-beyond_lt c i [] h k = cc
count-beyond_lt c i (t ∷ rest) h k =
    ground (arith, count-beyond_le c i rest h, count-beyond_lt c i rest h)

count-le-length : (c : Uuid) (rows : List ClassSchedule) → count (beyond c) rows ≤ length rows
unfolding count
count-le-length c [] = omega arith
count-le-length c (t ∷ rest) = ground (arith, count-le-length c rest)

count-marked :
    (c i : Uuid) (f : Option Day → Option Day) (rows : List ClassSchedule)
    → count (beyond c) (
        update_where
          (λ s. s.id == i)
          (λ s. record s { sessions_generated_until = f s.sessions_generated_until })
          rows)
      ≡ count (beyond c) rows
unfolding count update_where
count-marked c i f [] = refl
count-marked c i f (t ∷ rest) = ground (arith, count-marked c i f rest)

-- The number of schedules beyond a cursor is `n`.
abbrev pub Left : Uuid → ℕ → Db → Type 0
Left c n d = count (beyond c) d.schedules ≡ n

sessions_on-Keeps :
    (P : Db → Type 0) (s : ClassSchedule) (days : List Day) → Keeps P (sessions_on s days)
unfolding sessions_on
sessions_on-Keeps P s [] d v = Run-pure [] v
sessions_on-Keeps P s (x ∷ days) d v = Run-new_uuid _ λ i.
    keep-bind (sessions_on s days) _ (sessions_on-Keeps P s days d v) λ rest d' v'. Run-pure _ v'

insert_missing_sessions-Keeps :
    (c : Uuid) (n : ℕ) (sessions : List ClassSession)
    → Keeps (Left c n) (insert_missing_sessions sessions)
unfolding insert_missing_sessions
insert_missing_sessions-Keeps c n [] d v = Run-pure 0 v
insert_missing_sessions-Keeps c n (s ∷ rest) d v = Run-statement_last _ (λ _. v) v

mark_generated_until-Keeps :
    (c : Uuid) (n : ℕ) (i : Uuid) (until : Day) → Keeps (Left c n) (mark_generated_until i until)
unfolding mark_generated_until mark
mark_generated_until-Keeps c n i until d v =
    Run-statement_last _ (λ _. v)
      (rw (count-marked c i (λ g. some (greatest g until)) d.schedules) v)

generate_for-Keeps :
    (c : Uuid) (n : ℕ) (month until : Day) (s : ClassSchedule)
    → Keeps (Left c n) (generate_for month until s)
unfolding generate_for sessions_between
generate_for-Keeps c n month until s d v =
    keep-bind (sessions_on s _) _ (sessions_on-Keeps (Left c n) s _ d v) λ sessions d2 v2.
      keep-bind (insert_missing_sessions sessions) _
        (insert_missing_sessions-Keeps c n sessions d2 v2)
        λ created d3 v3.
          keep-bind (mark_generated_until s.id until) _
            (mark_generated_until-Keeps c n s.id until d3 v3) λ _ d4 v4. Run-pure _ v4

-- After a round that locked a schedule, fewer schedules lie beyond the cursor.
abbrev pub Advances : ℕ → Post Round
Advances n (ok none_left) d = Unit {0}
Advances n (ok (generated i created)) d = count (beyond i) d.schedules < n
Advances n (ok (round_failed i)) d = count (beyond i) d.schedules < n
Advances n (err x) d = Unit {0}

locked-Advances :
    (month until : Day) (n : ℕ) (s : ClassSchedule) (d : Db)
    → count (beyond s.id) d.schedules < n
    → Run false d (run_locked month until (ok (some s))) (Advances n)
unfolding run_locked
locked-Advances month until n s d h =
    Run-attempt (Inv (Left s.id (count (beyond s.id) d.schedules))) _ _
      (keep-transacted _ refl
        (generate_for-Keeps s.id (count (beyond s.id) d.schedules) month until s d refl))
      (λ r d' left. Run-pure _ (fewer r d' left))
  where
    fewer :
        (r : Result ℕ) (d' : Db)
        → Left s.id (count (beyond s.id) d.schedules) d'
        → Advances n (ok (outcome s.id r)) d'
    fewer (ok created) d' left = omega arith
    fewer (err x) d' left = omega arith

found-Advances :
    (month until : Day) (c : Uuid) (d : Db) (o : Option ClassSchedule)
    → next_due (is_due d until) c d.schedules ≡ o
    → Run false d (run_locked month until (ok o)) (Advances (count (beyond c) d.schedules))
found-Advances month until c d none e = unfold run_locked in Run-pure none_left tt
found-Advances month until c d (some s) e =
    let found = next_due-beyond (is_due d until) c d.schedules s e in
    locked-Advances month until _ s d (count-beyond_lt c s.id d.schedules found.0 found.1)

lookup_failed-Advances :
    (month until : Day) (n : ℕ) (x : Error) (d : Db)
    → Run false d (run_locked month until (err x)) (Advances n)
unfolding run_locked
lookup_failed-Advances month until n x d = Run-pure none_left tt

round-Advances :
    (month until : Day) (c : Uuid) (d : Db)
    → Run false d (round month until c) (Advances (count (beyond c) d.schedules))
unfolding round lock_next_due
round-Advances month until c d = Run-attempt_then _ (run_locked month until) (
    Run-query _ _ (λ _. lookup_failed-Advances month until _ _ d)
      (Run-statement_last _ (λ _. lookup_failed-Advances month until _ _ d)
        (found-Advances month until c d _ refl)))

-- The pass has not run out of fuel.
abbrev pub Ended : Post (Option RunResult)
Ended (ok none) d = ⊥
Ended (ok (some r)) d = Unit {0}
Ended (err x) d = Unit {0}

continue_pass-Ended :
    (again : Uuid → RunResult → App (Option RunResult)) (n : ℕ)
    → ((i : Uuid) (r : RunResult) (d : Db)
        → count (beyond i) d.schedules < n
        → Run false d (again i r) Ended)
    → (a : Round) (r : RunResult) (d : Db) → Advances n (ok a) d
    → Run false d (continue_pass again r a) Ended
unfolding continue_pass
continue_pass-Ended again n ends none_left r d h = Run-pure (some r) tt
continue_pass-Ended again n ends (generated i created) r d h = ends i _ d h
continue_pass-Ended again n ends (round_failed i) r d h = ends i _ d h

run_pass-Ended :
    (fuel : ℕ) (month until : Day) (c : Uuid) (r : RunResult) (d : Db)
    → count (beyond c) d.schedules < fuel
    → Run false d (run_pass fuel month until c r) Ended
unfolding run_pass
run_pass-Ended zero month until c r d h = absurd (omega arith)
run_pass-Ended (suc fuel) month until c r d h =
    Run-bind (Advances (count (beyond c) d.schedules)) _ _ (round-Advances month until c d)
      (λ a d' q.
        continue_pass-Ended (run_pass fuel month until) (count (beyond c) d.schedules)
          (λ i r' d2 k. run_pass-Ended fuel month until i r' d2 (omega arith)) a r d' q)
      (λ x d' q. tt)

run_rounds-Ended :
    (months : ℕ) (d : Db) → Run false d (run_rounds (length d.schedules + 1) months) Ended
unfolding run_rounds
run_rounds-Ended months d = Run-gets _ _ λ n.
    run_pass-Ended (length d.schedules + 1) _ _ uuid_nil _ d
      (below (count-le-length uuid_nil d.schedules))
  where
    below : {m n : ℕ} → m ≤ n → m < n + 1
    below h = omega arith

ended : (r : Result (Option RunResult)) (d : Db) → Ended r d → ¬ (r ≡ ok none)
ended (ok none) d h = absurd h
ended (ok (some r)) d h = λ e. cc
ended (err x) d h = λ e. cc

-- A pass over the schedules always ends: with one round for each schedule and one more, the loop
-- of the worker never runs out, whatever calls fail.
pub run_once-ends : (months : ℕ) (w : World) → ¬ ((run_once months w).0 ≡ ok none)
unfolding run_once
run_once-ends months w = ended _ _ ((run_rounds-Ended months w.db).at w.env (λ f. cc)).0
