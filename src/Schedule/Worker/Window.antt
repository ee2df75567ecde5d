-- ===== src/Schedule/Worker/Window.antt =====
-- The worker adds sessions only within its window.
use kelolakelas_academic_ser.App.{Db, World, ok, err}
use kelolakelas_academic_ser.App.Run.{
  Post, Run, Run-pure, Run-bind, Run-new_uuid, Run-statement_last, Inv, Keeps, keep-bind,
}
use kelolakelas_academic_ser.Domain.{Uuid, Day, ClassSchedule, ClassSession}
use kelolakelas_academic_ser.Prelude.{
  ltb, leb, Bool-cases, count, first, all, ℕ, zero, suc, ◌+◌, ◌-◌, ◌≤◌, ◌≡◌, refl, sym, ◌∙◌, inl,
  inr, Bool, true, false, not, ◌&&◌, ◌||◌, Option, none, some, List, [], ◌∷◌, arith,
}
use kelolakelas_academic_ser.Schedule.Generation.{
  window_from, window_until, matching_days, meeting_days, session_on, sessions_on, sessions_between,
}
use kelolakelas_academic_ser.Schedule.Worker.{
  taken, insert_missing, insert_missing_sessions, mark, mark_generated_until, resume_date,
  generate_for,
}

-- The date lies outside of the window.
abbrev pub outside : Day → Day → ClassSession → Bool
outside first last r = ltb r.session_date first || ltb last r.session_date

-- Of the sessions dated outside of the window, there are `n`.
abbrev pub SessionsOutside : Day → Day → ℕ → Db → Type 0
SessionsOutside first last n d = count (outside first last) d.sessions ≡ n

abbrev inside_all : Day → Day → List ClassSession → Bool
inside_all first last sessions = all (λ r. not (outside first last r)) sessions

abbrev days_inside : Day → Day → List Day → Bool
days_inside first last days = all (λ x. leb first x && leb x last) days

abbrev Made : Day → Day → (Db → Type 0) → Post (List ClassSession)
Made first last P (ok sessions) d = P d × (inside_all first last sessions ≡ true)
Made first last P (err x) d = P d

sessions_on-Made :
    (first last : Day) (P : Db → Type 0) (s : ClassSchedule) (days : List Day) (d : Db)
    → P d
    → days_inside first last days ≡ true
    → Run false d (sessions_on s days) (Made first last P)
unfolding sessions_on session_on all
sessions_on-Made first last P s [] d v h = Run-pure [] (v, refl)
sessions_on-Made first last P s (x ∷ days) d v h = Run-new_uuid _ λ i.
    Run-bind (Made first last P) (sessions_on s days) _
      (sessions_on-Made first last P s days d v (ground arith))
      (λ rest d' q. Run-pure _ (q.0, more i rest q.1)) (λ e d' q. q)
  where
    more :
        (i : Uuid) (rest : List ClassSession)
        → inside_all first last rest ≡ true
        → inside_all first last (session_on s i x ∷ rest) ≡ true
    more i rest k = ground arith

matching_days-inside :
    (weekday n d first last : ℕ)
    → first ≤ d
    → d + n ≤ last + 1
    → days_inside first last (matching_days weekday n d) ≡ true
unfolding matching_days all
matching_days-inside weekday zero d first last h k = refl
matching_days-inside weekday (suc n) d first last h k =
    ground (arith, matching_days-inside weekday n (d + 1) first last (omega arith) (omega arith))

window_from-ge : (valid : Option Day) (from : Day) → from ≤ window_from valid from
window_from-ge none from = omega arith
window_from-ge (some v) from = ground arith

window_until-le : (valid : Option Day) (until : Day) → window_until valid until ≤ until
window_until-le none until = omega arith
window_until-le (some v) until = ground arith

clipped-inside :
    (weekday first last from until : ℕ)
    → from ≤ first
    → last ≤ until
    → days_inside from until (matching_days weekday (last + 1 - first) first) ≡ true
unfolding matching_days all
clipped-inside weekday first last from until h k = elim (Bool-cases (leb first (last + 1))) [
  | inl fits ↦ matching_days-inside weekday (last + 1 - first) first from until h (ground arith)
  | inr empty ↦ rw (no_day empty) refl
]
  where
    no_day : leb first (last + 1) ≡ false → last + 1 - first ≡ 0
    no_day e = ground arith

meeting_days-inside :
    (s : ClassSchedule) (from until : Day)
    → days_inside from until (meeting_days s from until) ≡ true
unfolding meeting_days
meeting_days-inside s from until =
    clipped-inside s.day_of_week _ _ from until (window_from-ge s.valid_from from)
      (window_until-le s.valid_until until)

count-insert_missing :
    (first last : Day) (sessions rows : List ClassSession)
    → inside_all first last sessions ≡ true
    → count (outside first last) (insert_missing sessions rows) ≡ count (outside first last) rows
unfolding insert_missing all count
count-insert_missing first last [] rows h = refl
count-insert_missing first last (s ∷ rest) rows h = elim (Bool-cases (taken s rows)) [
  | inl old ↦ rw old (count-insert_missing first last rest rows (ground arith))
  | inr new ↦
      rw new (ground (arith, count-insert_missing first last rest (s ∷ rows) (ground arith)))
]

insert_missing_sessions-Outside :
    (first last : Day) (n : ℕ) (sessions : List ClassSession) (d : Db)
    → inside_all first last sessions ≡ true
    → SessionsOutside first last n d
    → Run false d (insert_missing_sessions sessions) (Inv (SessionsOutside first last n))
unfolding insert_missing_sessions
insert_missing_sessions-Outside first last n [] d h v = Run-pure 0 v
insert_missing_sessions-Outside first last n (s ∷ rest) d h v =
    Run-statement_last _ (λ _. v) (rw (count-insert_missing first last (s ∷ rest) d.sessions h) v)

mark_generated_until-Outside :
    (first last : Day) (n : ℕ) (i : Uuid) (until : Day)
    → Keeps (SessionsOutside first last n) (mark_generated_until i until)
unfolding mark_generated_until mark
mark_generated_until-Outside first last n i until d v = Run-statement_last _ (λ _. v) v

generate_for-runs :
    (month until : Day) (n : ℕ) (s : ClassSchedule)
    → Keeps
        (SessionsOutside (resume_date s.sessions_generated_until month) until n)
        (generate_for month until s)
unfolding generate_for sessions_between
generate_for-runs month until n s d v =
    let first = resume_date s.sessions_generated_until month in
    Run-bind (Made first until (SessionsOutside first until n)) (sessions_on s _) _
      (sessions_on-Made first until (SessionsOutside first until n) s _ d v
        (meeting_days-inside s first until))
      (λ sessions d2 q.
        keep-bind (insert_missing_sessions sessions) _
          (insert_missing_sessions-Outside first until n sessions d2 q.1 q.0)
          λ created d3 v3.
            keep-bind (mark_generated_until s.id until) _
              (mark_generated_until-Outside first until n s.id until d3 v3)
              λ _ d4 v4. Run-pure _ v4)
      (λ e d2 q. q)

-- The sessions that the worker has to leave alone: those before the month, those up to the
-- watermark of the schedule, and those beyond the horizon.
abbrev pub generated_by : Option Day → Day → Bool
generated_by none x = false
generated_by (some g) x = leb x g

abbrev pub left_alone : Option Day → Day → Day → ClassSession → Bool
left_alone watermark month until r =
    ltb r.session_date month || generated_by watermark r.session_date || ltb until r.session_date

outside-resume_date :
    (watermark : Option Day) (month until : Day) (r : ClassSession)
    → outside (resume_date watermark month) until r ≡ left_alone watermark month until r
outside-resume_date none month until r = ground arith
outside-resume_date (some g) month until r = ground arith

count-left_alone :
    (watermark : Option Day) (month until : Day) (rows : List ClassSession)
    → count (left_alone watermark month until) rows
      ≡ count (outside (resume_date watermark month) until) rows
unfolding count
count-left_alone watermark month until [] = refl
count-left_alone watermark month until (r ∷ rows) =
    rw (outside-resume_date watermark month until r, count-left_alone watermark month until rows)
      refl

-- Whatever calls fail, generating a schedule leaves the number of the sessions as it is that are
-- dated before the month, up to the watermark of the schedule, or beyond the horizon.
pub generate_for-Window :
    (month until : Day) (s : ClassSchedule) (w : World)
    → count
        (left_alone s.sessions_generated_until month until)
        (generate_for month until s w).1.db.sessions
      ≡ count (left_alone s.sessions_generated_until month until) w.db.sessions
generate_for-Window month until s w =
    let g = s.sessions_generated_until in
    count-left_alone g month until _
    ∙ ((generate_for-runs month until _ s w.db refl).at w.env (λ r. cc)).0
    ∙ sym (count-left_alone g month until _)
