-- ===== src/Errors.antt =====
-- The sentinel errors that the modelled code returns and tests, one type for each package that
-- declares them, and the chains that fmt.Errorf("...: %w", err) builds.
use kelolakelas_academic_ser.Prelude.{String, Bool, true, false}

-- internal/domain
pub data DomainError : Type 0 where
  invalid_enrollment_transition idempotency_conflict parent_required : DomainError
  invalid_payment_method student_ownership student_not_found : DomainError
  schedule_not_found schedule_class_mismatch schedule_full : DomainError
  schedule_ended schedule_required enrollment_suspended_conflict : DomainError
  duplicate_enrollment platform_fee_exceeds_gross voucher_rejected : DomainError
  class_not_found class_forbidden class_not_enrollable : DomainError
  private_slot_limit_exceeded schedule_forbidden session_forbidden : DomainError
  attendance_not_found attendance_duplicate attendance_forbidden : DomainError
  private_request_not_found private_request_conflict private_request_transition : DomainError
  private_class_required private_request_slots private_checkout : DomainError
  private_selection private_selection_stale private_selection_conflict : DomainError
  catalog_closed catalog_policy_unavailable : DomainError
  class_active_enrollments class_type_immutable class_name_required : DomainError
  invalid_class_price invalid_private_slot_limit category_not_found : DomainError
  category_forbidden category_active_classes category_name_required : DomainError
  student_forbidden student_active_enroll student_first_name_required : DomainError
  student_date_of_birth_future student_note_invalid : DomainError
  student_note_content_required : DomainError

-- internal/usecase and internal/repository
pub data UsecaseError : Type 0 where
  class_not_found schedule_not_found session_not_found : UsecaseError
  enrollment_required enrollment_not_found invalid_enrollment_class : UsecaseError
  invalid_enrollment_tenant invalid_schedule_change invalid_effective_date : UsecaseError
  private_schedule_capacity substitute_tutor_not_eligible : UsecaseError
  substitute_tutor_unavailable attendance_session_not_found : UsecaseError
  attendance_session_cancelled attendance_enrollment_mismatch : UsecaseError
  schedule_history_conflict schedule_seats_conflict payment_link_inactive : UsecaseError
  tenant_inactive_or_not_found invalid_class_creation : UsecaseError
  private_schedules_not_allowed class_creation_key_conflict : UsecaseError

-- pkg/billing
pub data BillingError : Type 0 where
  transaction_not_found transaction_not_cancellable : BillingError
  voucher_rejected platform_fee_exceeds_gross unavailable : BillingError

-- The unique indexes of the migrations that the modelled writes can violate.
pub data Constraint : Type 0 where
  primary_key idempotency_key_index student_class_active : Constraint
  schedule_date session_enrollment pending_student_class : Constraint

pub data Error : Type 0 where
  record_not_found : Error
  db_failure : Error
  unique_violation : Constraint → Error
  domain : DomainError → Error
  usecase : UsecaseError → Error
  billing : BillingError → Error
  message : String → Error
  wrap : String → Error → Error

-- errors.Is(err, gorm.ErrRecordNotFound)
abbrev pub is_not_found : Error → Bool
is_not_found record_not_found = true
is_not_found db_failure = false
is_not_found (unique_violation _) = false
is_not_found (domain _) = false
is_not_found (usecase _) = false
is_not_found (billing _) = false
is_not_found (message _) = false
is_not_found (wrap _ e) = is_not_found e

abbrev pub is_duplicate_enrollment_error : DomainError → Bool
is_duplicate_enrollment_error duplicate_enrollment = true
is_duplicate_enrollment_error _ = false

-- errors.Is(err, domain.ErrDuplicateEnrollment)
abbrev pub is_duplicate_enrollment : Error → Bool
is_duplicate_enrollment record_not_found = false
is_duplicate_enrollment db_failure = false
is_duplicate_enrollment (unique_violation _) = false
is_duplicate_enrollment (domain d) = is_duplicate_enrollment_error d
is_duplicate_enrollment (usecase _) = false
is_duplicate_enrollment (billing _) = false
is_duplicate_enrollment (message _) = false
is_duplicate_enrollment (wrap _ e) = is_duplicate_enrollment e

-- errors.Is(err, billing.ErrX), for the sentinel that the test names
abbrev pub is_billing : (BillingError → Bool) → Error → Bool
is_billing test record_not_found = false
is_billing test db_failure = false
is_billing test (unique_violation _) = false
is_billing test (domain _) = false
is_billing test (usecase _) = false
is_billing test (billing b) = test b
is_billing test (message _) = false
is_billing test (wrap _ e) = is_billing test e

abbrev pub is_transaction_not_found : BillingError → Bool
is_transaction_not_found transaction_not_found = true
is_transaction_not_found _ = false

abbrev pub is_transaction_not_cancellable : BillingError → Bool
is_transaction_not_cancellable transaction_not_cancellable = true
is_transaction_not_cancellable _ = false

abbrev pub is_voucher_refusal : BillingError → Bool
is_voucher_refusal voucher_rejected = true
is_voucher_refusal _ = false

abbrev pub is_platform_fee_refusal : BillingError → Bool
is_platform_fee_refusal platform_fee_exceeds_gross = true
is_platform_fee_refusal _ = false

-- errors.Is(err, domain.ErrX), for the sentinel that the test names
abbrev pub is_domain : (DomainError → Bool) → Error → Bool
is_domain test record_not_found = false
is_domain test db_failure = false
is_domain test (unique_violation _) = false
is_domain test (domain d) = test d
is_domain test (usecase _) = false
is_domain test (billing _) = false
is_domain test (message _) = false
is_domain test (wrap _ e) = is_domain test e

abbrev pub is_invalid_transition : DomainError → Bool
is_invalid_transition invalid_enrollment_transition = true
is_invalid_transition _ = false

abbrev pub is_platform_fee_answer : DomainError → Bool
is_platform_fee_answer platform_fee_exceeds_gross = true
is_platform_fee_answer _ = false

abbrev pub is_student_missing : DomainError → Bool
is_student_missing student_not_found = true
is_student_missing _ = false
