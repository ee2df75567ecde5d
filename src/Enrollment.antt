-- ===== src/Enrollment.antt =====
-- internal/repository/enrollment_repository.go and internal/usecase/enrollment_usecase.go.
pub mod Rows
pub mod Repository
pub mod Lifecycle
pub mod Invoice
pub mod Checkout
pub mod EnrollStudent
pub mod Capacity
pub mod Operations
