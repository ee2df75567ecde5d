-- ===== src/Attendance.antt =====
-- The attendance of sessions: internal/usecase/attendance_usecase.go and attendance_repository.go.
pub mod Bulk
pub mod Repository
pub mod Cohort
pub mod Operations
