-- ===== src/Enrollment/Repository.antt =====
-- internal/repository/enrollment_repository.go: the queries and the capacity-checked writes. Row
-- locks order whole transactions and do nothing within one.
use kelolakelas_academic_ser.App.{
  Db, Result, ok, err, App, pure, raise, ◌>>=◌, ◌>>◌, statement, query, lookup, execute, map_error,
  time_now, today,
}
use kelolakelas_academic_ser.Domain.{
  Uuid, Day, Timestamp, pending, active, is_pending, is_dropped, holds_seat, payment_pending,
  is_platform_fee_rejected, Enrollment, is_group, Class, enrollable, ClassSchedule,
}
use kelolakelas_academic_ser.Enrollment.Rows.{
  find_class, find_schedule, find_enrollment, seated, live_in_class, seats, clashes, same_key,
  insert_enrollment, save_row,
}
use kelolakelas_academic_ser.Errors.{
  DomainError, invalid_enrollment_transition, schedule_class_mismatch, schedule_full,
  schedule_ended, schedule_required, enrollment_suspended_conflict, duplicate_enrollment,
  class_not_enrollable, private_request_transition, student_class_active, Error, unique_violation,
  domain, is_not_found, is_duplicate_enrollment,
}
use kelolakelas_academic_ser.Prelude.{
  ltb, leb, ◌==◌, if◌then◌else◌, is_some, count, select, first, update_where, any, ℕ, String, Bool,
  true, false, not, ◌&&◌, ◌||◌, Option, none, some, List,
}

unfoldable pub update : Enrollment → App (Unit {0})
update e = execute (save_row e)

unfoldable pub get_by_id : Uuid → App Enrollment
get_by_id i = lookup (find_enrollment i)

-- The schedule has ended if its last date is before today.
abbrev pub schedule_has_ended : Option Day → Day → Bool
schedule_has_ended none now = false
schedule_has_ended (some last) now = ltb last now

abbrev pub map_duplicate_enrollment : Error → Error
map_duplicate_enrollment (unique_violation student_class_active) = domain duplicate_enrollment
map_duplicate_enrollment e = e

unfoldable pub reject_live_enrollment : Enrollment → App (Unit {0})
reject_live_enrollment e = do
  n ← query (λ d. count (live_in_class e.student_id e.class_id) d.enrollments)
  if ltb 0 n then raise (domain duplicate_enrollment) else pure tt

-- WHERE id = ? AND class_id = ? AND deleted_at IS NULL
abbrev of_class : Uuid → Option ClassSchedule → Option ClassSchedule
of_class c none = none
of_class c (some s) = if s.class_id == c then some s else none

unfoldable pub find_schedule_of_class : Uuid → Uuid → Db → Option ClassSchedule
find_schedule_of_class i c d = of_class c (find_schedule i d)

abbrev pub missing_is_mismatch : Error → Error
missing_is_mismatch e = if is_not_found e then domain schedule_class_mismatch else e

abbrev pub missing_is_not_found : Error → Error
missing_is_not_found e = if is_not_found e then domain DomainError.schedule_not_found else e

-- The checks of CreateIfCapacityAvailable that depend on the schedule.
unfoldable pub check_seat : Option Uuid → Class → Enrollment → App (Unit {0})
check_seat (some sid) c e = do
  s ← map_error missing_is_mismatch (lookup (find_schedule_of_class sid e.class_id))
  now ← today
  if schedule_has_ended s.valid_until now then raise (domain schedule_ended) else do
    reject_live_enrollment e
    n ← query (seats sid)
    if leb s.capacity n then raise (domain schedule_full) else pure tt
check_seat none c e =
    if is_group c.type then raise (domain schedule_required) else reject_live_enrollment e

unfoldable pub create_if_capacity_available : Enrollment → App (Unit {0})
create_if_capacity_available e = do
  c ← lookup (find_class e.class_id)
  if not (enrollable c) then raise (domain class_not_enrollable) else do
    check_seat e.schedule_id c e
    map_error map_duplicate_enrollment (execute (insert_enrollment e))

-- ResumeUnderCapacity answers the row that it has written.
abbrev pub any_is_conflict : Error → Error
any_is_conflict e = domain enrollment_suspended_conflict

abbrev pub duplicate_is_conflict : Error → Error
duplicate_is_conflict e =
    if is_duplicate_enrollment e then domain enrollment_suspended_conflict else e

-- `if errors.Is(mapDuplicateEnrollment(err), ErrDuplicateEnrollment)`, or `return err`
unfoldable pub save_conflict : Error → Error
save_conflict e =
    if is_duplicate_enrollment (map_duplicate_enrollment e)
    then domain enrollment_suspended_conflict
    else e

unfoldable pub reclaim_seat : Option Uuid → Enrollment → App (Unit {0})
reclaim_seat none e = pure tt
reclaim_seat (some sid) e = do
  s ← map_error any_is_conflict (lookup (find_schedule_of_class sid e.class_id))
  now ← today
  if schedule_has_ended s.valid_until now then raise (domain enrollment_suspended_conflict) else do
    n ← query (seats sid)
    if leb s.capacity n then raise (domain schedule_full) else pure tt

unfoldable pub resume_under_capacity : Enrollment → App Enrollment
resume_under_capacity e = do
  reclaim_seat e.schedule_id e
  map_error duplicate_is_conflict (reject_live_enrollment e)
  now ← time_now
  let resumed = record e { status = active; updated_at = now }
  map_error save_conflict (update resumed)
  pure resumed

-- AssignSchedule
unfoldable pub assign_schedule_row : Uuid → Uuid → App (Unit {0})
assign_schedule_row i sid = do
  e ← get_by_id i
  if not (is_pending e.status) || is_some e.schedule_id
      then raise (domain invalid_enrollment_transition)
      else do
        s ← map_error missing_is_not_found (lookup (find_schedule sid))
        if not (s.class_id == e.class_id) then raise (domain schedule_class_mismatch) else do
          now ← today
          if schedule_has_ended s.valid_until now then raise (domain schedule_ended) else do
            n ← query (seats sid)
            if leb s.capacity n
                then raise (domain schedule_full)
                else update (record e { schedule_id = some sid })

-- GetByIDForAccess: the row, if it belongs to the tenant and to a child of the parent.
abbrev in_scope : Option Uuid → Uuid → Bool
in_scope none i = true
in_scope (some j) i = j == i

unfoldable pub child_of : Uuid → Uuid → Db → Bool
child_of parent student d = any (λ s. s.id == student && s.parent_id == parent) d.students

unfoldable pub belongs_to_parent : Option Uuid → Uuid → Db → Bool
belongs_to_parent none student d = true
belongs_to_parent (some parent) student d = child_of parent student d

abbrev scoped : Option Uuid → Option Uuid → Db → Option Enrollment → Option Enrollment
scoped tenant parent d none = none
scoped tenant parent d (some e) =
    if in_scope tenant e.tenant_id && belongs_to_parent parent e.student_id d then some e else none

unfoldable pub find_for_access : Option Uuid → Option Uuid → Uuid → Db → Option Enrollment
find_for_access tenant parent i d = scoped tenant parent d (find_enrollment i d)

unfoldable pub get_by_id_for_access : Option Uuid → Option Uuid → Uuid → App Enrollment
get_by_id_for_access tenant parent i = lookup (find_for_access tenant parent i)

-- GetByIdempotencyKey, ForTenant and Any: the live row with the key.
abbrev pub has_key : String → Enrollment → Bool
has_key k e = same_key (some k) e.idempotency_key && not e.deleted

unfoldable pub get_by_idempotency_key : Uuid → String → App Enrollment
get_by_idempotency_key parent k =
    lookup (λ d. first (λ e. has_key k e && child_of parent e.student_id d) d.enrollments)

unfoldable pub get_by_idempotency_key_for_tenant : Uuid → String → App Enrollment
get_by_idempotency_key_for_tenant tenant k =
    lookup (λ d. first (λ e. e.tenant_id == tenant && has_key k e) d.enrollments)

unfoldable pub get_by_idempotency_key_any : String → App Enrollment
get_by_idempotency_key_any k = lookup (λ d. first (has_key k) d.enrollments)

-- GetActiveByScheduleID and GetActiveByScheduleIDForParent
unfoldable pub get_active_by_schedule_id : Uuid → Uuid → App (List Enrollment)
get_active_by_schedule_id tenant sid =
    query (λ d. select (λ e. seated sid e && e.tenant_id == tenant) d.enrollments)

unfoldable pub get_active_by_schedule_id_for_parent : Uuid → Uuid → App (List Enrollment)
get_active_by_schedule_id_for_parent parent sid =
    query (λ d. select (λ e. seated sid e && child_of parent e.student_id d) d.enrollments)

-- TransferSchedule
unfoldable pub transfer_schedule : Uuid → Uuid → Uuid → Uuid → App (Unit {0})
transfer_schedule tenant class old new = do
  now ← time_now
  execute λ d. ok (record d {
    enrollments =
        update_where (λ e. e.tenant_id == tenant && e.class_id == class && seated old e)
          (λ e. record e { schedule_id = some new; updated_at = now }) d.enrollments;
  })

-- UpdatePaymentDetails: the write leaves the status alone.
unfoldable pub payable_row : Uuid → Enrollment → Bool
payable_row i e =
    e.id == i && not (is_some e.payment_transaction_id) && holds_seat e.status && not e.deleted

unfoldable pub update_payment_details : Uuid → Uuid → String → App (Unit {0})
update_payment_details i transaction url = do
  now ← time_now
  affected ← statement λ d. ok (
    count (payable_row i) d.enrollments,
    record d {
      enrollments =
          update_where (payable_row i)
            (λ e. record e {
              payment_transaction_id = some transaction;
              checkout_session_url = some url;
              updated_at = now;
            })
            d.enrollments;
    },
  )
  if affected == 0 then raise (domain invalid_enrollment_transition) else pure tt

-- RestoreRejectedEnrollment
unfoldable pub restorable_row : Uuid → Enrollment → Bool
restorable_row i e =
    e.id == i && is_dropped e.status && is_platform_fee_rejected e.payment_status && not e.deleted

abbrev pub restored_row : Timestamp → Enrollment → Enrollment
restored_row now e = record e {
  status = pending;
  payment_status = payment_pending;
  updated_at = now;
}

unfoldable pub restore_rows : Uuid → Timestamp → Db → Result (ℕ × Db)
restore_rows i now d =
    if any (λ e. restorable_row i e && any (clashes (restored_row now e)) d.enrollments)
      d.enrollments
    then err (unique_violation student_class_active)
    else ok (
      count (restorable_row i) d.enrollments,
      record d { enrollments = update_where (restorable_row i) (restored_row now) d.enrollments },
    )

unfoldable pub restore_rejected_enrollment : Uuid → App (Unit {0})
restore_rejected_enrollment i = do
  now ← time_now
  affected ← map_error map_duplicate_enrollment (statement (restore_rows i now))
  if affected == 1 then pure tt else raise (domain private_request_transition)
