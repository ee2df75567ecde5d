-- ===== src/Requests/Agreement.antt =====
-- What a purchase is about: the request, the slots that the tenant selected or recommended, and the
-- slot limit of the class as the tenant saw it. From
-- internal/usecase/private_schedule_request_usecase.go.
use kelolakelas_academic_ser.App.{Result, ok, err, App, pure, raise}
use kelolakelas_academic_ser.Domain.{Uuid, Class, ℤ, pos}
use kelolakelas_academic_ser.Domain.Request.{
  PrivateScheduleSlot, is_request_pending, is_approved, is_rejected, PrivateScheduleRequest,
}
use kelolakelas_academic_ser.Errors.{
  private_selection, private_selection_stale, private_selection_conflict, domain,
}
use kelolakelas_academic_ser.Prelude.{
  ◌==◌, if◌then◌else◌, is_some, length, ℕ, Bool, true, false, not, ◌&&◌, ◌||◌, Option, none, some,
  List, [],
}
use kelolakelas_academic_ser.Requests.Repository.{get_request}
use kelolakelas_academic_ser.Requests.Slots.{
  same_private_slots, ApprovePrivateScheduleRequest, same_index, private_selected_slots,
}

abbrev pub slot_list : Option (List PrivateScheduleSlot) → List PrivateScheduleSlot
slot_list none = []
slot_list (some slots) = slots

abbrev pub has_slots : Option (List PrivateScheduleSlot) → Bool
has_slots slots = not (length (slot_list slots) == 0)

unfoldable pub lock_request : Bool → Uuid → Uuid → App PrivateScheduleRequest
lock_request true actor i = get_request i none (some actor)
lock_request false actor i = get_request i (some actor) none

unfoldable pub purchasable : Bool → PrivateScheduleRequest → Bool
purchasable true r = has_slots r.recommended_slots && (is_rejected r.status || is_approved r.status)
purchasable false r =
    not (has_slots r.recommended_slots) && (is_request_pending r.status || is_approved r.status)

-- A repeated approval names the selection of the first one.
unfoldable pub conflicting :
    PrivateScheduleRequest → Option ApprovePrivateScheduleRequest → List PrivateScheduleSlot → Bool
conflicting r approval selected =
    (has_slots r.approved_slots
      && is_some approval
      && not (same_private_slots selected (slot_list r.approved_slots)))
    || (is_approved r.status
        && not (has_slots r.approved_slots)
        && is_some approval
        && not (same_private_slots selected r.slots))

abbrev pub unless_conflicting :
    PrivateScheduleRequest
    → Option ApprovePrivateScheduleRequest
    → Result (List PrivateScheduleSlot)
    → App (List PrivateScheduleSlot)
unless_conflicting r approval (err x) = raise x
unless_conflicting r approval (ok selected) =
    if conflicting r approval selected
    then raise (domain private_selection_conflict)
    else pure selected

unfoldable pub choose_slots :
    Bool
    → PrivateScheduleRequest
    → Option ApprovePrivateScheduleRequest
    → App (List PrivateScheduleSlot)
choose_slots true r approval = pure []
choose_slots false r approval = unless_conflicting r approval (private_selected_slots r approval)

abbrev pub same_limit : Option ℤ → Option ℕ → Bool
same_limit none none = true
same_limit none (some b) = false
same_limit (some a) none = false
same_limit (some a) (some b) = same_index a (pos b)

-- The selection and the slot limit of the class, as the tenant saw it.
abbrev pub limit_check : Bool → Option ApprovePrivateScheduleRequest → Class → App (Unit {0})
limit_check true approval c = pure tt
limit_check false none c =
    if is_some c.private_slot_limit then raise (domain private_selection) else pure tt
limit_check false (some a) c =
    if same_limit a.expected_private_slot_limit c.private_slot_limit
    then pure tt
    else raise (domain private_selection_stale)

unfoldable pub purchase_slots :
    Bool → PrivateScheduleRequest → List PrivateScheduleSlot → List PrivateScheduleSlot
purchase_slots true r selected = slot_list r.recommended_slots
purchase_slots false r selected = selected
