-- ===== src/Requests/Creation.antt =====
-- Create, Get and List of internal/usecase/private_schedule_request_usecase.go and Create of
-- internal/repository/private_schedule_request_repository.go.
use kelolakelas_academic_ser.App.{
  Db, App, pure, raise, ◌>>=◌, ◌>>◌, query, lookup, execute, map_error, new_uuid, time_now,
}
use kelolakelas_academic_ser.Domain.{
  Uuid, uuid_nil, Timestamp, is_private, Class, enrollable, Student,
}
use kelolakelas_academic_ser.Domain.Request.{
  PrivateScheduleSlot, RequestStatus, PrivateScheduleRequest,
}
use kelolakelas_academic_ser.Enrollment.Checkout.{accepts_method, get_class, get_student}
use kelolakelas_academic_ser.Enrollment.Lifecycle.{in_transaction}
use kelolakelas_academic_ser.Enrollment.Rows.{live_in_class}
use kelolakelas_academic_ser.Errors.{
  parent_required, invalid_payment_method, student_ownership, duplicate_enrollment,
  class_not_enrollable, private_request_not_found, private_class_required, private_request_slots,
  Error, domain, message, is_not_found, is_domain, is_student_missing,
}
use kelolakelas_academic_ser.Prelude.{
  ltb, ◌==◌, same_text, if◌then◌else◌, count, first, String, Bool, not, ◌&&◌, ◌||◌, Option, none,
  some, List,
}
use kelolakelas_academic_ser.Requests.Decisions.{trim_left, trim_right, too_long}
use kelolakelas_academic_ser.Requests.Repository.{
  get_request, insert_request, pending_is_conflict, list_requests,
}
use kelolakelas_academic_ser.Requests.Slots.{valid_private_slots}

pub record CreatePrivateScheduleRequest : Type 0 where
  pub student_id : Uuid
  pub parent_email : String
  pub billing_cycle : String
  pub payment_method : String
  pub slots : List PrivateScheduleSlot
  pub note : Option String

-- privateRequestPaymentMethod
unfoldable pub request_payment_method : String → Option String
request_payment_method m =
    if same_text m "" then some "VC" else if accepts_method m then some m else none

abbrev pub known_cycle : String → Bool
known_cycle c = same_text c "monthly" || same_text c "quarterly" || same_text c "yearly"

-- The student that the parent still owns, and the class that the tenant still offers.
unfoldable pub find_own_student : Uuid → Uuid → Db → Option Student
find_own_student i parent d =
    first (λ s. s.id == i && s.parent_id == parent && not s.deleted) d.students

unfoldable pub find_own_class : Uuid → Uuid → Db → Option Class
find_own_class i tenant d =
    first (λ c. c.id == i && c.tenant_id == tenant && not c.deleted) d.classes

abbrev pub missing_is_ownership : Error → Error
missing_is_ownership e = if is_not_found e then domain student_ownership else e

unfoldable pub create_request_row : PrivateScheduleRequest → App (Unit {0})
create_request_row r = do
  map_error missing_is_ownership (lookup (find_own_student r.student_id r.parent_id))
  c ← lookup (find_own_class r.class_id r.tenant_id)
  if not (is_private c.type)
      then raise (domain private_class_required)
      else if not (enrollable c)
      then raise (domain class_not_enrollable)
      else do
        n ← query (λ d. count (live_in_class r.student_id r.class_id) d.enrollments)
        if ltb 0 n
            then raise (domain duplicate_enrollment)
            else map_error pending_is_conflict (execute (insert_request r))

abbrev pub absent_is_ownership : Error → Error
absent_is_ownership e = if is_domain is_student_missing e then domain student_ownership else e

unfoldable pub new_request :
    Uuid
    → Timestamp
    → Uuid
    → Class
    → Uuid
    → CreatePrivateScheduleRequest
    → String
    → PrivateScheduleRequest
new_request i now parent c class req method = record {
  id = i;
  tenant_id = c.tenant_id;
  class_id = class;
  student_id = req.student_id;
  parent_id = parent;
  parent_email = trim_left (trim_right req.parent_email);
  billing_cycle = req.billing_cycle;
  payment_method = method;
  slots = req.slots;
  approved_slots = none;
  recommended_slots = none;
  note = req.note;
  status = RequestStatus.pending;
  rejection_reason = none;
  created_at = now;
  decided_at = none;
}

unfoldable pub create_checked_request :
    Bool → Uuid → Uuid → CreatePrivateScheduleRequest → String → App PrivateScheduleRequest
create_checked_request tx parent class req method = do
  student ← map_error absent_is_ownership (get_student req.student_id)
  if not (student.parent_id == parent) then raise (domain student_ownership) else do
    c ← get_class class
    if not (is_private c.type)
        then raise (domain private_class_required)
        else if not (enrollable c)
        then raise (domain class_not_enrollable)
        else do
          i ← new_uuid
          now ← time_now
          let r = new_request i now parent c class req method
          in_transaction tx (create_request_row r)
          pure r

abbrev pub with_method :
    Bool → Uuid → Uuid → CreatePrivateScheduleRequest → Option String → App PrivateScheduleRequest
with_method tx parent class req none = raise (domain invalid_payment_method)
with_method tx parent class req (some method) =
    if not (known_cycle req.billing_cycle)
    then raise (message "invalid billing cycle")
    else if not (valid_private_slots req.slots)
    then raise (domain private_request_slots)
    else if too_long req.note
    then raise (message "note is too long")
    else create_checked_request tx parent class req method

unfoldable pub create_request :
    Bool → Uuid → Uuid → CreatePrivateScheduleRequest → App PrivateScheduleRequest
create_request tx parent class req =
    if parent == uuid_nil
    then raise (domain parent_required)
    else if req.student_id == uuid_nil || class == uuid_nil
    then raise (domain private_request_slots)
    else with_method tx parent class req (request_payment_method req.payment_method)

-- A caller is a tenant or a parent, and not both.
unfoldable pub get_private_request : Uuid → Option Uuid → Option Uuid → App PrivateScheduleRequest
get_private_request i (some tenant) none = get_request i (some tenant) none
get_private_request i none (some parent) = get_request i none (some parent)
get_private_request i none none = raise (domain private_request_not_found)
get_private_request i (some tenant) (some parent) = raise (domain private_request_not_found)

abbrev pub status_named : String → Option (Option RequestStatus)
status_named s =
    if same_text s ""
    then some none
    else if same_text s "pending"
    then some (some RequestStatus.pending)
    else if same_text s "approved"
    then some (some RequestStatus.approved)
    else if same_text s "rejected"
    then some (some RequestStatus.rejected)
    else if same_text s "cancelled"
    then some (some RequestStatus.cancelled)
    else if same_text s "declined"
    then some (some RequestStatus.declined)
    else none

unfoldable pub list_named :
    Option Uuid → Option Uuid → Option (Option RequestStatus) → App (List PrivateScheduleRequest)
list_named tenant parent none = raise (message "invalid request status")
list_named tenant parent (some status) = list_requests tenant parent status

unfoldable pub list_private_requests :
    Option Uuid → Option Uuid → String → App (List PrivateScheduleRequest)
list_private_requests none none status = raise (domain private_request_not_found)
list_private_requests (some tenant) (some parent) status = raise (domain private_request_not_found)
list_private_requests (some tenant) none status =
    list_named (some tenant) none (status_named status)
list_private_requests none (some parent) status =
    list_named none (some parent) (status_named status)
