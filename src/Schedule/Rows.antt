-- ===== src/Schedule/Rows.antt =====
-- internal/repository/schedule_repository.go and session_repository.go: the rows of
-- `class_schedules` and `class_sessions`. GORM leaves soft-deleted rows out of a query on their own
-- table; a JOIN on `classes` takes a deleted class too, and Preload("Class") does not.
use kelolakelas_academic_ser.App.{Db, Result, ok, err, App, pure, execute}
use kelolakelas_academic_ser.Domain.{
  Uuid, Day, Class, ClassSchedule, cancelled, is_scheduled, ClassSession,
}
use kelolakelas_academic_ser.Enrollment.Rows.{
  class_id, schedule_id, live_row, find_class, find_schedule,
}
use kelolakelas_academic_ser.Errors.{primary_key, schedule_date, unique_violation}
use kelolakelas_academic_ser.Prelude.{
  leb, ◌==◌, if◌then◌else◌, is_some_eq, is_some, update_where, any, by_id, replace, Bool, true,
  false, not, ◌&&◌, Option, none, some, List, [], ◌∷◌,
}
use kelolakelas_academic_ser.Schedule.Worker.{occupies, taken}

-- JOIN classes c ON c.id = class_id WHERE c.tenant_id = ?
abbrev tenant_owns : Uuid → Option Class → Bool
tenant_owns tenant none = false
tenant_owns tenant (some c) = c.tenant_id == tenant

unfoldable pub class_of_tenant : Uuid → Uuid → Db → Bool
class_of_tenant tenant class d = tenant_owns tenant (by_id class_id class d.classes)

-- Preload("Class") of a row and the test `Class == nil || Class.TenantID != tenantID`
unfoldable pub preloaded_of_tenant : Uuid → Uuid → Db → Bool
preloaded_of_tenant tenant class d = tenant_owns tenant (find_class class d)

abbrev pub session_id : ClassSession → Uuid
session_id s = s.id

abbrev pub schedule_of_tenant : Uuid → Db → Option ClassSchedule → Option ClassSchedule
schedule_of_tenant tenant d none = none
schedule_of_tenant tenant d (some s) = if class_of_tenant tenant s.class_id d then some s else none

-- GetByIDForTenant, and GetByIDForTenantForUpdate, which locks the row as well
unfoldable pub find_schedule_for_tenant : Uuid → Uuid → Db → Option ClassSchedule
find_schedule_for_tenant tenant i d = schedule_of_tenant tenant d (find_schedule i d)

unfoldable pub find_session : Uuid → Db → Option ClassSession
find_session i d = live_row (λ s. s.deleted) (by_id session_id i d.sessions)

abbrev session_of_tenant : Uuid → Db → Option ClassSession → Option ClassSession
session_of_tenant tenant d none = none
session_of_tenant tenant d (some s) = if class_of_tenant tenant s.class_id d then some s else none

unfoldable pub find_session_for_tenant : Uuid → Uuid → Db → Option ClassSession
find_session_for_tenant tenant i d = session_of_tenant tenant d (find_session i d)

-- db.Create(schedule)
unfoldable pub create_schedule : ClassSchedule → Db → Result Db
create_schedule s d =
    if is_some (by_id schedule_id s.id d.schedules)
    then err (unique_violation primary_key)
    else ok (record d { schedules = s ∷ d.schedules })

-- db.Save(schedule), and db.Save(session), of a row that is in the table; its key and, of a
-- session, its schedule and date are those of the row.
unfoldable pub save_schedule : ClassSchedule → Db → Result Db
save_schedule s d = ok (record d { schedules = replace schedule_id s d.schedules })

unfoldable pub save_session : ClassSession → Db → Result Db
save_session s d = ok (record d { sessions = replace session_id s d.sessions })

-- DeleteByTenant
unfoldable pub delete_schedule_row : Uuid → Uuid → Db → Result Db
delete_schedule_row tenant i d = ok (record d {
  schedules =
      update_where (λ s. s.id == i && class_of_tenant tenant s.class_id d && not s.deleted)
        (λ s. record s { deleted = true }) d.schedules;
})

unfoldable pub delete_session_row : Uuid → Uuid → Db → Result Db
delete_session_row tenant i d = ok (record d {
  sessions =
      update_where (λ s. s.id == i && class_of_tenant tenant s.class_id d && not s.deleted)
        (λ s. record s { deleted = true }) d.sessions;
})

-- db.Create(sessions): one statement, so that a violation leaves none of them.
unfoldable pub create_session : ClassSession → Db → Result Db
create_session s d =
    if is_some (by_id session_id s.id d.sessions)
    then err (unique_violation primary_key)
    else if taken s d.sessions
    then err (unique_violation schedule_date)
    else ok (record d { sessions = s ∷ d.sessions })

abbrev pub and_create : Result Db → ClassSession → Result Db
and_create (ok d) s = create_session s d
and_create (err x) s = err x

unfoldable pub create_sessions : List ClassSession → Db → Result Db
create_sessions [] d = ok d
create_sessions (s ∷ rest) d = and_create (create_sessions rest d) s

-- `if len(sessions) > 0 { BatchCreate }`
unfoldable pub batch_create : List ClassSession → App (Unit {0})
batch_create [] = pure tt
batch_create (s ∷ rest) = execute (create_sessions (s ∷ rest))

-- WHERE schedule_id = ? AND session_date >= ? AND status = 'scheduled', of the tenant
unfoldable pub upcoming : Uuid → Uuid → Day → Db → ClassSession → Bool
upcoming tenant schedule from d s =
    is_some_eq schedule s.schedule_id
    && leb from s.session_date
    && is_scheduled s.status
    && class_of_tenant tenant s.class_id d
    && not s.deleted

-- CancelFutureSessionsBySchedule
unfoldable pub cancel_future_sessions : Uuid → Uuid → Day → Db → Result Db
cancel_future_sessions tenant schedule from d = ok (record d {
  sessions =
      update_where (upcoming tenant schedule from d) (λ s. record s { status = cancelled })
        d.sessions;
})

-- UpdateFutureSessionsTutor. A session that moves to another schedule has to be the only one of
-- that schedule on its date.
abbrev pub moved : Uuid → Uuid → ClassSession → ClassSession
moved tutor schedule s = record s { tutor_id = tutor; schedule_id = some schedule }

unfoldable pub date_clash : Uuid → (ClassSession → Bool) → List ClassSession → Bool
date_clash schedule moves rows =
    any (λ s. moves s && any (λ r. occupies schedule s.session_date r && not (moves r)) rows) rows

unfoldable pub move_future_sessions : Uuid → Uuid → Uuid → Uuid → Day → Db → Result Db
move_future_sessions tenant schedule tutor new from d =
    let moves = upcoming tenant schedule from d in
    if date_clash new moves d.sessions
    then err (unique_violation schedule_date)
    else ok (record d { sessions = update_where moves (moved tutor new) d.sessions })
