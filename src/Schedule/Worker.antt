-- ===== src/Schedule/Worker.antt =====
-- internal/usecase/session_generation_worker.go and session_generation_repository.go: one pass of
-- the worker that keeps the sessions of every live schedule generated through a rolling horizon.
pub mod Inserts
pub mod Ends
pub mod Window
use kelolakelas_academic_ser.App.{
  Db, Result, ok, err, App, pure, ◌>>=◌, ◌>>◌, statement, query, execute, begin_transaction,
  transacted, attempt, today,
}
use kelolakelas_academic_ser.Calendar.{end_of_month, month_start, add_months}
use kelolakelas_academic_ser.Domain.{
  Uuid, uuid_nil, Day, holds_seat, Enrollment, ClassSchedule, ClassSession,
}
use kelolakelas_academic_ser.Enrollment.Rows.{enrollment_id, find_class}
use kelolakelas_academic_ser.Prelude.{
  ltb, ◌==◌, if◌then◌else◌, is_some_eq, is_some, length, update_where, any, by_id, ℕ, zero, suc,
  ◌+◌, ◌-◌, Bool, true, false, not, ◌&&◌, Option, none, some, List, [], ◌∷◌,
}
use kelolakelas_academic_ser.Schedule.Generation.{sessions_between}

-- window(): the first day of the current month and the last day of the horizon.
unfoldable pub horizon : ℕ → Day → Day × Day
horizon months now = (month_start now, end_of_month (add_months months (month_start now)))

-- The rest of the WHERE clause of LockNextScheduleDueForGeneration: a live class, an enrollment
-- that is live where there is one, a watermark before the horizon, and a validity beyond it.
abbrev pub seat_holder : Option Enrollment → Bool
seat_holder none = false
seat_holder (some e) = holds_seat e.status && not e.deleted

abbrev pub enrollment_live : Option Uuid → Db → Bool
enrollment_live none d = true
enrollment_live (some i) d = seat_holder (by_id enrollment_id i d.enrollments)

abbrev pub generated_before : Option Day → Day → Bool
generated_before none until = true
generated_before (some g) until = ltb g until

abbrev pub outlasts : Option Day → Option Day → Bool
outlasts none g = true
outlasts (some v) none = true
outlasts (some v) (some g) = ltb g v

unfoldable pub is_due : Db → Day → ClassSchedule → Bool
is_due d until s =
    not s.deleted
    && is_some (find_class s.class_id d)
    && enrollment_live s.enrollment_id d
    && generated_before s.sessions_generated_until until
    && outlasts s.valid_until s.sessions_generated_until

-- ORDER BY id LIMIT 1, beyond the cursor
abbrev pub lower_id : ClassSchedule → Option ClassSchedule → Option ClassSchedule
lower_id s none = some s
lower_id s (some t) = if ltb s.id t.id then some s else some t

unfoldable pub next_due : (ClassSchedule → Bool) → Uuid → List ClassSchedule → Option ClassSchedule
next_due due after [] = none
next_due due after (s ∷ rest) =
    let later = next_due due after rest in
    if due s && ltb after s.id then lower_id s later else later

unfoldable pub lock_next_due : Day → Uuid → App (Option ClassSchedule)
lock_next_due until after = query (λ d. next_due (is_due d until) after d.schedules)

-- uq_class_sessions_schedule_date, soft-deleted and cancelled rows included
unfoldable pub occupies : Uuid → Day → ClassSession → Bool
occupies s d r = is_some_eq s r.schedule_id && r.session_date == d

unfoldable pub taken : ClassSession → List ClassSession → Bool
taken s rows = elim s.schedule_id [ none ↦ false | some i ↦ any (occupies i s.session_date) rows ]

-- INSERT ... ON CONFLICT (schedule_id, session_date) DO NOTHING, and the rows that it inserts
unfoldable pub insert_missing : List ClassSession → List ClassSession → List ClassSession
insert_missing [] rows = rows
insert_missing (s ∷ rest) rows = insert_missing rest (if taken s rows then rows else s ∷ rows)

unfoldable pub insert_missing_sessions : List ClassSession → App ℕ
insert_missing_sessions [] = pure 0
insert_missing_sessions (s ∷ rest) = statement λ d.
    let rows = insert_missing (s ∷ rest) d.sessions in
    ok (length rows - length d.sessions, record d { sessions = rows })

-- GREATEST(COALESCE(sessions_generated_until, until), until)
abbrev pub greatest : Option Day → Day → Day
greatest none until = until
greatest (some g) until = if ltb g until then until else g

abbrev pub marked_until : Day → ClassSchedule → ClassSchedule
marked_until until s = record s {
  sessions_generated_until = some (greatest s.sessions_generated_until until);
}

unfoldable pub mark : Uuid → Day → Db → Result Db
mark i until d =
    ok (record d { schedules = update_where (λ s. s.id == i) (marked_until until) d.schedules })

unfoldable pub mark_generated_until : Uuid → Day → App (Unit {0})
mark_generated_until i until = execute (mark i until)

-- Sessions before the current month, and up to the watermark, are never generated.
abbrev pub resume_date : Option Day → Day → Day
resume_date none month = month
resume_date (some g) month = if ltb month (g + 1) then g + 1 else month

unfoldable pub generate_for : Day → Day → ClassSchedule → App ℕ
generate_for month until s = do
  sessions ← sessions_between s (resume_date s.sessions_generated_until month) until
  created ← insert_missing_sessions sessions
  mark_generated_until s.id until
  pure created

pub record RunResult : Type 0 where
  pub schedules : ℕ
  pub sessions_created : ℕ
  pub failed : ℕ

-- What a round of the loop, one transaction, leaves: the schedule that it locked, and the sessions created if it did
-- not fail. A round whose BEGIN or lookup fails, or that finds nothing, ends the pass; the
-- transaction of such a round writes nothing, and its end is left out.
pub data Round : Type 0 where
  none_left : Round
  generated : Uuid → ℕ → Round
  round_failed : Uuid → Round

abbrev pub outcome : Uuid → Result ℕ → Round
outcome i (ok created) = generated i created
outcome i (err _) = round_failed i

unfoldable pub run_locked : Day → Day → Result (Option ClassSchedule) → App Round
run_locked month until (err _) = pure none_left
run_locked month until (ok none) = pure none_left
run_locked month until (ok (some s)) = do
  finished ← attempt (transacted (generate_for month until s))
  pure (outcome s.id finished)

unfoldable pub round : Day → Day → Uuid → App Round
round month until cursor = do
  locked ← attempt (begin_transaction >> lock_next_due until cursor)
  run_locked month until locked

abbrev pub count_created : RunResult → ℕ → RunResult
count_created r n = record r {
  schedules = r.schedules + 1;
  sessions_created = r.sessions_created + n;
}

abbrev pub count_failed : RunResult → RunResult
count_failed r = record r { schedules = r.schedules + 1; failed = r.failed + 1 }

-- The loop of RunOnce, on fuel: `none` means that the fuel ran out.
unfoldable pub continue_pass :
    (Uuid → RunResult → App (Option RunResult)) → RunResult → Round → App (Option RunResult)
continue_pass again r none_left = pure (some r)
continue_pass again r (generated i created) = again i (count_created r created)
continue_pass again r (round_failed i) = again i (count_failed r)

unfoldable pub run_pass : ℕ → Day → Day → Uuid → RunResult → App (Option RunResult)
run_pass zero month until cursor r = pure none
run_pass (suc fuel) month until cursor r = do
  finished ← round month until cursor
  continue_pass (run_pass fuel month until) r finished

-- RunOnce. A round moves the cursor past one schedule, so one more round than there are schedules
-- is enough.
unfoldable pub run_rounds : ℕ → ℕ → App (Option RunResult)
run_rounds rounds months = do
  now ← today
  let window = horizon months now
  run_pass rounds window.0 window.1 uuid_nil
      (record { schedules = 0; sessions_created = 0; failed = 0 })

unfoldable pub run_once : ℕ → App (Option RunResult)
run_once months w = run_rounds (length w.db.schedules + 1) months w
