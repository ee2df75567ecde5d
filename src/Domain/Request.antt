-- ===== src/Domain/Request.antt =====
-- internal/domain/private_schedule_request.go: the request of a parent for a private schedule.
use kelolakelas_academic_ser.Domain.{Uuid, Timestamp}
use kelolakelas_academic_ser.Prelude.{ℕ, String, Bool, true, false, Option, List}

pub record PrivateScheduleSlot : Type 0 where
  pub day_of_week : ℕ
  pub start_time : String
  pub end_time : String

pub data RequestStatus : Type 0 where
  pending approved rejected cancelled declined : RequestStatus

abbrev pub is_request_pending : RequestStatus → Bool
is_request_pending pending = true
is_request_pending approved = false
is_request_pending rejected = false
is_request_pending cancelled = false
is_request_pending declined = false

abbrev pub is_approved : RequestStatus → Bool
is_approved pending = false
is_approved approved = true
is_approved rejected = false
is_approved cancelled = false
is_approved declined = false

abbrev pub is_rejected : RequestStatus → Bool
is_rejected pending = false
is_rejected approved = false
is_rejected rejected = true
is_rejected cancelled = false
is_rejected declined = false

-- status = ?
abbrev pub same_status : RequestStatus → RequestStatus → Bool
same_status pending s = is_request_pending s
same_status approved s = is_approved s
same_status rejected s = is_rejected s
same_status cancelled cancelled = true
same_status cancelled pending = false
same_status cancelled approved = false
same_status cancelled rejected = false
same_status cancelled declined = false
same_status declined declined = true
same_status declined pending = false
same_status declined approved = false
same_status declined rejected = false
same_status declined cancelled = false

-- domain.PrivateScheduleRequest. A column that holds no slots is NULL, `none`.
pub record PrivateScheduleRequest : Type 0 where
  pub id : Uuid
  pub tenant_id : Uuid
  pub class_id : Uuid
  pub student_id : Uuid
  pub parent_id : Uuid
  pub parent_email : String
  pub billing_cycle : String
  pub payment_method : String
  pub slots : List PrivateScheduleSlot
  pub approved_slots : Option (List PrivateScheduleSlot)
  pub recommended_slots : Option (List PrivateScheduleSlot)
  pub note : Option String
  pub status : RequestStatus
  pub rejection_reason : Option String
  pub created_at : Timestamp
  pub decided_at : Option Timestamp
