-- ===== src/Students.antt =====
-- Students and their notes: internal/usecase/student_usecase.go and its repositories.
pub mod Dates
pub mod Notes
pub mod Rows
pub mod Operations
pub mod Access
pub mod Deletion
