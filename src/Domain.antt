-- ===== src/Domain.antt =====
-- internal/domain: the rows of the tables and the values of their status columns. A UUID is a
-- number and uuid.Nil is 0; a DATE column is a day number (Calendar), a timestamp a number of
-- seconds. An amount of money is an int64 that the code only passes on, kept as a number.
pub mod Request
use kelolakelas_academic_ser.Prelude.{ℕ, String, Bool, true, false, ◌&&◌, Option, List}

abbrev pub Uuid : Type 0
Uuid = ℕ

abbrev pub uuid_nil : Uuid
uuid_nil = 0

-- A calendar date: the number of days since 1970-01-01.
abbrev pub Day : Type 0
Day = ℕ

abbrev pub Timestamp : Type 0
Timestamp = ℕ

pub data EnrollmentStatus : Type 0 where
  pending active suspended completed dropped : EnrollmentStatus

abbrev pub is_pending : EnrollmentStatus → Bool
is_pending pending = true
is_pending active = false
is_pending suspended = false
is_pending completed = false
is_pending dropped = false

abbrev pub is_active : EnrollmentStatus → Bool
is_active pending = false
is_active active = true
is_active suspended = false
is_active completed = false
is_active dropped = false

abbrev pub is_suspended : EnrollmentStatus → Bool
is_suspended pending = false
is_suspended active = false
is_suspended suspended = true
is_suspended completed = false
is_suspended dropped = false

abbrev pub is_completed : EnrollmentStatus → Bool
is_completed pending = false
is_completed active = false
is_completed suspended = false
is_completed completed = true
is_completed dropped = false

abbrev pub is_dropped : EnrollmentStatus → Bool
is_dropped pending = false
is_dropped active = false
is_dropped suspended = false
is_dropped completed = false
is_dropped dropped = true

-- status IN ('pending', 'active'): the statuses that hold a seat.
abbrev pub holds_seat : EnrollmentStatus → Bool
holds_seat pending = true
holds_seat active = true
holds_seat suspended = false
holds_seat completed = false
holds_seat dropped = false

pub data PaymentStatus : Type 0 where
  payment_pending platform_fee_rejected voucher_rejected : PaymentStatus

abbrev pub is_platform_fee_rejected : PaymentStatus → Bool
is_platform_fee_rejected payment_pending = false
is_platform_fee_rejected platform_fee_rejected = true
is_platform_fee_rejected voucher_rejected = false

abbrev pub is_voucher_rejected : PaymentStatus → Bool
is_voucher_rejected payment_pending = false
is_voucher_rejected platform_fee_rejected = false
is_voucher_rejected voucher_rejected = true

-- domain.Enrollment, without the preloaded associations.
pub record Enrollment : Type 0 where
  pub parent_email : String
  pub id : Uuid
  pub tenant_id : Uuid
  pub student_id : Uuid
  pub class_id : Uuid
  pub schedule_id : Option Uuid
  pub status : EnrollmentStatus
  pub billing_cycle : String
  pub idempotency_key : Option String
  pub payment_transaction_id : Option Uuid
  pub checkout_session_url : Option String
  pub payment_status : PaymentStatus
  pub gross_amount : ℕ
  pub joined_at : Timestamp
  pub updated_at : Timestamp
  pub deleted : Bool

pub data ClassType : Type 0 where
  private group : ClassType

abbrev pub is_private : ClassType → Bool
is_private private = true
is_private group = false

abbrev pub is_group : ClassType → Bool
is_group private = false
is_group group = true

pub data ClassEnrollmentStatus : Type 0 where
  opened closed full archived : ClassEnrollmentStatus

abbrev pub is_opened : ClassEnrollmentStatus → Bool
is_opened opened = true
is_opened closed = false
is_opened full = false
is_opened archived = false

-- domain.Class. A description is a jsonb document, of which equal ones have one text here.
pub record Class : Type 0 where
  pub private_slot_limit : Option ℕ
  pub id : Uuid
  pub tenant_id : Uuid
  pub category_id : Uuid
  pub name : String
  pub description : Option String
  pub type : ClassType
  pub price : ℕ
  pub is_published : Bool
  pub enrollment_status : ClassEnrollmentStatus
  pub deleted : Bool

-- domain.Category
pub record Category : Type 0 where
  pub id : Uuid
  pub tenant_id : Uuid
  pub name : String
  pub description : Option String
  pub deleted : Bool

-- domain.ClassTeacher
pub record ClassTeacher : Type 0 where
  pub class_id : Uuid
  pub teacher_id : Uuid

-- A Go integer of a request, which may be negative.
pub data ℤ : Type 0 where
  pos negsuc : ℕ → ℤ

-- class.IsPublished && class.EnrollmentStatus == "open"
abbrev pub enrollable : Class → Bool
enrollable c = c.is_published && is_opened c.enrollment_status

-- A date of birth, which may be before 1970.
pub record CivilDate : Type 0 where
  pub year : ℕ
  pub month : ℕ
  pub day : ℕ

-- domain.Student
pub record Student : Type 0 where
  pub id : Uuid
  pub parent_id : Uuid
  pub first_name : String
  pub last_name : Option String
  pub nickname : Option String
  pub gender : Option String
  pub date_of_birth : Option CivilDate
  pub updated_at : Timestamp
  pub deleted : Bool

-- domain.StudentNote. A note of a parent has no tenant.
pub record StudentNote : Type 0 where
  pub id : Uuid
  pub tenant_id : Option Uuid
  pub student_id : Uuid
  pub author_id : Uuid
  pub note_type : String
  pub content : String

-- domain.ClassSchedule. Times of day are the texts of the columns.
pub record ClassSchedule : Type 0 where
  pub id : Uuid
  pub class_id : Uuid
  pub enrollment_id : Option Uuid
  pub tutor_id : Option Uuid
  pub capacity : ℕ
  pub location : Option String
  pub day_of_week : ℕ
  pub start_time : String
  pub end_time : String
  pub valid_from : Option Day
  pub valid_until : Option Day
  pub sessions_generated_until : Option Day
  pub deleted : Bool

pub data SessionStatus : Type 0 where
  scheduled rescheduled cancelled session_completed : SessionStatus

abbrev pub is_scheduled : SessionStatus → Bool
is_scheduled scheduled = true
is_scheduled rescheduled = false
is_scheduled cancelled = false
is_scheduled session_completed = false

abbrev pub is_rescheduled : SessionStatus → Bool
is_rescheduled scheduled = false
is_rescheduled rescheduled = true
is_rescheduled cancelled = false
is_rescheduled session_completed = false

abbrev pub is_cancelled : SessionStatus → Bool
is_cancelled scheduled = false
is_cancelled rescheduled = false
is_cancelled cancelled = true
is_cancelled session_completed = false

abbrev pub is_session_completed : SessionStatus → Bool
is_session_completed scheduled = false
is_session_completed rescheduled = false
is_session_completed cancelled = false
is_session_completed session_completed = true

-- domain.ClassSession
pub record ClassSession : Type 0 where
  pub id : Uuid
  pub class_id : Uuid
  pub schedule_id : Option Uuid
  pub enrollment_id : Option Uuid
  pub rescheduled_from_session_id : Option Uuid
  pub tutor_id : Uuid
  pub session_date : Day
  pub start_time : String
  pub end_time : String
  pub status : SessionStatus
  pub deleted : Bool

-- domain.Attendance
pub record Attendance : Type 0 where
  pub id : Uuid
  pub enrollment_id : Uuid
  pub session_id : Uuid
  pub date : Day
  pub status : String
  pub updated_at : Timestamp

-- domain.CreateClassWithCategoryResponse
pub record CreateClassWithCategoryResponse : Type 0 where
  pub class : Class
  pub category : Category
  pub schedules : List ClassSchedule
  pub sessions : List ClassSession

-- The JSON of a schedule and of the response. The watermark of a schedule has the tag json:"-".
pub record ScheduleJson : Type 0 where
  pub id : Uuid
  pub class_id : Uuid
  pub enrollment_id : Option Uuid
  pub tutor_id : Option Uuid
  pub capacity : ℕ
  pub location : Option String
  pub day_of_week : ℕ
  pub start_time : String
  pub end_time : String
  pub valid_from : Option Day
  pub valid_until : Option Day
  pub deleted_at : Bool

pub record ResponseJson : Type 0 where
  pub class : Class
  pub category : Category
  pub schedules : List ScheduleJson
  pub sessions : List ClassSession

-- A row of class_creation_requests: the claim of a key, and the response that answers it, a jsonb
-- column.
pub record ClassCreation : Type 0 where
  pub tenant_id : Uuid
  pub request_key : String
  pub payload_hash : String
  pub response : Option ResponseJson
