-- ===== src/Requests.antt =====
-- The requests of parents for private schedules: private_schedule_request_usecase.go,
-- private_slot_selection.go and private_schedule_request_repository.go of internal.
pub mod Slots
pub mod Repository
pub mod Decisions
pub mod Creation
pub mod Agreement
pub mod Purchase
pub mod Payment
pub mod PaymentLink
