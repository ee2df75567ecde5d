-- ===== src/Requests/Decisions.antt =====
-- Reject, Cancel and DeclineRecommendation of
-- internal/usecase/private_schedule_request_usecase.go.
pub mod Final
use kelolakelas_academic_ser.App.{App, raise, ◌>>=◌, ◌>>◌, lookup, with_transaction}
use kelolakelas_academic_ser.Domain.{Uuid, uuid_nil}
use kelolakelas_academic_ser.Domain.Request.{
  PrivateScheduleSlot, RequestStatus, rejected, PrivateScheduleRequest,
}
use kelolakelas_academic_ser.Enrollment.Rows.{find_class}
use kelolakelas_academic_ser.Errors.{
  parent_required, private_slot_limit_exceeded, private_request_not_found, private_request_slots,
  domain, message,
}
use kelolakelas_academic_ser.Prelude.{
  ltb, leb, ◌==◌, if◌then◌else◌, length, ℕ, Bool, true, false, not, ◌&&◌, ◌||◌, Option, none, some,
  List,
}
use kelolakelas_academic_ser.Requests.Repository.{
  get_request, transition, reject_with_recommendation, decline_row,
}
use kelolakelas_academic_ser.Requests.Slots.{valid_private_slots}
use kelolakelas_academic_ser.Schedule.Clock.{codes}
use Prim.Native.Char.{code}
use Prim.Native.String.{String as Text}

-- unicode.IsSpace
abbrev is_space : ℕ → Bool
is_space c =
    (leb 9 c && leb c 13)
    || c == 32
    || c == 133
    || c == 160
    || c == 5760
    || (leb 8192 c && leb c 8202)
    || c == 8232
    || c == 8233
    || c == 8239
    || c == 8287
    || c == 12288

-- strings.TrimSpace
unfoldable pub trim_left : Text → Text
trim_left Text.[] = Text.[]
trim_left (Text.◌∷◌ c text) =
    let rest = trim_left text in if is_space (code c) then rest else Text.◌∷◌ c text

abbrev is_empty : Text → Bool
is_empty Text.[] = true
is_empty (Text.◌∷◌ c text) = false

unfoldable pub trim_right : Text → Text
trim_right Text.[] = Text.[]
trim_right (Text.◌∷◌ c text) =
    let rest = trim_right text in
    if is_space (code c) && is_empty rest then Text.[] else Text.◌∷◌ c rest

abbrev trimmed : Option Text → Option Text
trimmed none = none
trimmed (some text) = some (trim_left (trim_right text))

unfoldable pub too_long : Option Text → Bool
too_long none = false
too_long (some text) = ltb 2000 (length (codes text))

-- The recommended slots are nil, or a list that may be empty.
pub record RejectPrivateScheduleRequest : Type 0 where
  pub reason : Option Text
  pub recommended_slots : Option (List PrivateScheduleSlot)

unfoldable pub beyond_limit : Option ℕ → List PrivateScheduleSlot → Bool
beyond_limit none slots = false
beyond_limit (some limit) slots = ltb limit (length slots)

unfoldable pub recommend :
    Uuid → Uuid → Option Text → List PrivateScheduleSlot → App PrivateScheduleRequest
recommend tenant i reason slots = do
  r ← get_request i (some tenant) none
  c ← lookup (find_class r.class_id)
  if not (c.tenant_id == tenant)
      then raise (domain private_request_not_found)
      else if beyond_limit c.private_slot_limit slots
      then raise (domain private_slot_limit_exceeded)
      else reject_with_recommendation i tenant reason slots

unfoldable pub reject_checked :
    Uuid → Uuid → Option Text → Option (List PrivateScheduleSlot) → App PrivateScheduleRequest
reject_checked tenant i reason none = transition i (some tenant) none rejected reason
reject_checked tenant i reason (some slots) =
    if not (valid_private_slots slots)
    then raise (domain private_request_slots)
    else with_transaction (recommend tenant i reason slots)

unfoldable pub reject_request :
    Uuid → Uuid → RejectPrivateScheduleRequest → App PrivateScheduleRequest
reject_request tenant i req =
    if tenant == uuid_nil || i == uuid_nil
    then raise (domain private_request_not_found)
    else if too_long (trimmed req.reason)
    then raise (message "reason is too long")
    else reject_checked tenant i (trimmed req.reason) req.recommended_slots

unfoldable pub cancel_request : Uuid → Uuid → App PrivateScheduleRequest
cancel_request parent i =
    if parent == uuid_nil
    then raise (domain parent_required)
    else transition i none (some parent) RequestStatus.cancelled none

unfoldable pub decline_recommendation : Uuid → Uuid → App PrivateScheduleRequest
decline_recommendation parent i =
    if parent == uuid_nil || i == uuid_nil
    then raise (domain private_request_not_found)
    else decline_row i parent
