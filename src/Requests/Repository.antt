-- ===== src/Requests/Repository.antt =====
-- internal/repository/private_schedule_request_repository.go: the writes of a request, each guarded
-- by its WHERE clause.
use kelolakelas_academic_ser.App.{
  Db, Result, ok, err, App, pure, raise, ◌>>=◌, ◌>>◌, statement, query, lookup, map_error, time_now,
}
use kelolakelas_academic_ser.Domain.{Uuid, Timestamp}
use kelolakelas_academic_ser.Domain.Request.{
  PrivateScheduleSlot, RequestStatus, rejected, declined, is_request_pending, is_rejected,
  same_status, PrivateScheduleRequest,
}
use kelolakelas_academic_ser.Errors.{
  private_request_not_found, private_request_conflict, private_request_transition,
  private_selection_conflict, primary_key, pending_student_class, Error, unique_violation, domain,
  is_not_found,
}
use kelolakelas_academic_ser.Prelude.{
  ltb, leb, ◌==◌, if◌then◌else◌, is_some, count, select, first, update_where, any, by_id, ℕ, zero,
  suc, String, Bool, true, not, ◌&&◌, ◌||◌, Option, none, some, List, [], ◌∷◌,
}

abbrev pub request_id : PrivateScheduleRequest → Uuid
request_id r = r.id

-- privateRequestScope
abbrev in_request_scope : Option Uuid → Uuid → Bool
in_request_scope none i = true
in_request_scope (some j) i = j == i

unfoldable pub scoped_request : Option Uuid → Option Uuid → PrivateScheduleRequest → Bool
scoped_request tenant parent r =
    in_request_scope tenant r.tenant_id && in_request_scope parent r.parent_id

unfoldable pub find_request : Uuid → Option Uuid → Option Uuid → Db → Option PrivateScheduleRequest
find_request i tenant parent d = first (λ r. r.id == i && scoped_request tenant parent r) d.requests

abbrev request_missing : Error → Error
request_missing e = if is_not_found e then domain private_request_not_found else e

-- Get, LockForTenant and LockForParent
unfoldable pub get_request : Uuid → Option Uuid → Option Uuid → App PrivateScheduleRequest
get_request i tenant parent = map_error request_missing (lookup (find_request i tenant parent))

-- UPDATE ... WHERE p, and RowsAffected
unfoldable pub update_requests :
    (PrivateScheduleRequest → Bool) → (PrivateScheduleRequest → PrivateScheduleRequest) → App ℕ
update_requests p f =
    statement λ d. ok (count p d.requests, record d { requests = update_where p f d.requests })

-- What follows a guarded write: the row, or why none was written.
unfoldable pub after_update : Uuid → Option Uuid → Option Uuid → ℕ → App PrivateScheduleRequest
after_update i tenant parent affected =
    if not (affected == 0)
    then get_request i tenant parent
    else do get_request i tenant parent; raise (domain private_request_transition)

unfoldable pub pending_row : Uuid → Option Uuid → Option Uuid → PrivateScheduleRequest → Bool
pending_row i tenant parent r =
    r.id == i && is_request_pending r.status && scoped_request tenant parent r

-- Transition
unfoldable pub transition :
    Uuid → Option Uuid → Option Uuid → RequestStatus → Option String → App PrivateScheduleRequest
transition i tenant parent status reason = do
  now ← time_now
  affected ←
      update_requests (pending_row i tenant parent)
        (λ r. record r { status = status; decided_at = some now; rejection_reason = reason })
  after_update i tenant parent affected

unfoldable pub reject_with_recommendation :
    Uuid → Uuid → Option String → List PrivateScheduleSlot → App PrivateScheduleRequest
reject_with_recommendation i tenant reason slots = do
  now ← time_now
  affected ← update_requests (pending_row i (some tenant) none) (λ r. record r {
    status = rejected;
    rejection_reason = reason;
    recommended_slots = some slots;
    decided_at = some now;
  })
  after_update i (some tenant) none affected

unfoldable pub declinable : Uuid → Uuid → PrivateScheduleRequest → Bool
declinable i parent r =
    r.id == i && r.parent_id == parent && is_rejected r.status && is_some r.recommended_slots

-- DeclineRecommendation
unfoldable pub decline_row : Uuid → Uuid → App PrivateScheduleRequest
decline_row i parent = do
  affected ← update_requests (declinable i parent) (λ r. record r { status = declined })
  after_update i none (some parent) affected

-- UPDATE ... SET status: a request that becomes pending again may meet another pending one of its
-- student and class.
abbrev pub waits_beside : Uuid → PrivateScheduleRequest → PrivateScheduleRequest → Bool
waits_beside i r other =
    not (other.id == i)
    && is_request_pending other.status
    && other.student_id == r.student_id
    && other.class_id == r.class_id

abbrev pub of_tenant : Uuid → Uuid → PrivateScheduleRequest → Bool
of_tenant i tenant r = r.id == i && r.tenant_id == tenant

unfoldable pub write_status : Uuid → Uuid → RequestStatus → Timestamp → Db → Result (ℕ × Db)
write_status i tenant status now d =
    if is_request_pending status
      && any (λ r. of_tenant i tenant r && any (waits_beside i r) d.requests) d.requests
    then err (unique_violation pending_student_class)
    else ok (
      count (of_tenant i tenant) d.requests,
      record d {
        requests =
            update_where (of_tenant i tenant)
              (λ r. record r { status = status; decided_at = some now }) d.requests;
      },
    )

-- SetStatus
unfoldable pub set_status : Uuid → Uuid → RequestStatus → App (Unit {0})
set_status i tenant status = do
  now ← time_now
  affected ← statement (write_status i tenant status now)
  if affected == 1 then pure tt else raise (domain private_request_not_found)

abbrev pub unselected : Uuid → Uuid → PrivateScheduleRequest → Bool
unselected i tenant r = of_tenant i tenant r && not (is_some r.approved_slots)

unfoldable pub save_approved_slots : Uuid → Uuid → List PrivateScheduleSlot → App (Unit {0})
save_approved_slots i tenant slots = do
  affected ← update_requests (unselected i tenant) (λ r. record r { approved_slots = some slots })
  if affected == 1 then pure tt else raise (domain private_selection_conflict)

-- INSERT INTO private_schedule_requests, under idx_private_request_pending_student_class
abbrev pub waits_with : PrivateScheduleRequest → PrivateScheduleRequest → Bool
waits_with r other =
    is_request_pending other.status
    && other.student_id == r.student_id
    && other.class_id == r.class_id

unfoldable pub insert_request : PrivateScheduleRequest → Db → Result Db
insert_request r d =
    if is_some (by_id request_id r.id d.requests)
    then err (unique_violation primary_key)
    else if is_request_pending r.status && any (waits_with r) d.requests
    then err (unique_violation pending_student_class)
    else ok (record d { requests = r ∷ d.requests })

abbrev pub pending_is_conflict : Error → Error
pending_is_conflict (unique_violation pending_student_class) = domain private_request_conflict
pending_is_conflict e = e

-- List: the last hundred rows by creation, then by id.
unfoldable pub listed_before : PrivateScheduleRequest → PrivateScheduleRequest → Bool
listed_before a b = ltb b.created_at a.created_at || (a.created_at == b.created_at && leb b.id a.id)

unfoldable pub insert_listed :
    PrivateScheduleRequest → List PrivateScheduleRequest → List PrivateScheduleRequest
insert_listed r [] = r ∷ []
insert_listed r (x ∷ rest) =
    let later = insert_listed r rest in if listed_before r x then r ∷ x ∷ rest else x ∷ later

unfoldable pub sort_listed : List PrivateScheduleRequest → List PrivateScheduleRequest
sort_listed [] = []
sort_listed (r ∷ rest) = insert_listed r (sort_listed rest)

unfoldable pub keep_first : {A : Type 0} → ℕ → List A → List A
keep_first zero l = []
keep_first (suc n) [] = []
keep_first (suc n) (x ∷ l) = x ∷ keep_first n l

abbrev in_status : Option RequestStatus → PrivateScheduleRequest → Bool
in_status none r = true
in_status (some s) r = same_status s r.status

unfoldable pub list_requests :
    Option Uuid → Option Uuid → Option RequestStatus → App (List PrivateScheduleRequest)
list_requests tenant parent status = query λ d.
    keep_first 100
      (sort_listed (select (λ r. scoped_request tenant parent r && in_status status r) d.requests))
