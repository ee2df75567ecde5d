-- ===== src/Schedule.antt =====
-- The schedules of classes: the use case and the repositories of internal, and the worker.
pub mod Generation
pub mod Worker
pub mod Clock
pub mod Rows
pub mod Guard
pub mod Initial
pub mod Changes
pub mod Tutors
pub mod Attendees
