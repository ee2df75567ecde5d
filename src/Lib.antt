-- ===== src/Lib.antt =====
-- The academic service of a tutoring platform: parents and tenants enroll students in classes,
-- schedules generate sessions, tutors record attendance, and billing settles the invoices.
--
-- The parts, with the paths of their sources, and how they interact:
--
-- - Prelude: Boolean tests on the native numbers, and a table as the list of its rows.
-- - Domain, Domain.Request, Errors: internal/domain. A UUID is a number with 0 for uuid.Nil, a date
--   counts days from 1970-01-01, a time of day in a row is its text. The sentinel errors keep their
--   package; fmt.Errorf with %w is `wrap`.
-- - App: a use case is a function of the world, that is the tables, the clock, the source of UUIDs
--   and a script of failures. Every call of the database reads one entry of the script and fails
--   with a driver error where it is true, BEGIN and COMMIT included; so a statement about every world
--   is one about every pattern of failures. WithTransaction of internal/repository/tx_manager.go
--   restores the tables if its closure or the commit fails. App.Run is a calculus of what a use case
--   leaves, with rules that `search` follows.
-- - Calendar: the Gregorian calendar of package time, endOfMonth and getISOWeekday.
-- - Enrollment: internal/repository/enrollment_repository.go (Rows: the WHERE clauses and unique
--   indexes of the migrations; Repository: the capacity-checked writes) and
--   internal/usecase/enrollment_usecase.go (Lifecycle: the status changes; Invoice, Checkout and
--   EnrollStudent: signup and billing). Operations runs any sequence of requests. The clients of
--   billing are parameters that answer a result and may leave another world, because the database
--   moves on while they wait. `tx` is whether a transaction manager is wired.
-- - Schedule: internal/usecase/schedule_usecase.go. Clock is parseScheduleTime, Generation the
--   sessions of a schedule, Rows the repositories of schedules and sessions, Guard
--   internal/repository/schedule_change_guard.go, Initial, Changes, Tutors and Attendees the
--   operations, and Worker internal/usecase/session_generation_worker.go. The membership client is
--   a parameter.
-- - Attendance: internal/usecase/attendance_usecase.go and
--   internal/repository/attendance_repository.go.
-- - Requests: internal/usecase/private_schedule_request_usecase.go, private_slot_selection.go and
--   internal/repository/private_schedule_request_repository.go. Slots validates and selects the
--   weekly slots, Repository holds the guarded writes, Creation makes a request, Decisions rejects,
--   cancels and declines, Agreement checks what a purchase is about, Purchase turns a request into an
--   enrollment with its schedules, once it is approved or its recommendation is accepted, and Payment
--   asks billing for the invoice after that transaction. PaymentLink is
--   internal/usecase/private_payment_link.go.
-- - Classes: internal/usecase/class_usecase.go, class_creation_usecase.go and category_usecase.go.
--   Rows holds their repositories, Categories and Changes the updates and deletions, Payload what
--   validateClassCreation checks, and Creation the new classes, with the claim of an idempotency key,
--   whose response Store keeps as JSON, as internal/repository/class_creation_store.go does.
-- - Lists: Paging is listQuery of internal/delivery/http/handler/list_handler.go, Search the escaping
--   of internal/repository/search.go.
-- - Catalog: internal/usecase/catalog_policy.go, the gate that shows the public catalog or hides it.
-- - Notifications: internal/usecase/parent_notification_worker.go and
--   internal/repository/parent_notification_repository.go, an outbox with leases and a backoff.
-- - Students: internal/usecase/student_usecase.go with the repositories of students and notes.
-- - Examples: the properties at concrete inputs, and tests.
--
-- Bounds and fuel. A pass of the session worker is a loop on fuel with one round for each schedule
-- and one more; a round moves the cursor past a schedule, so the loop ends within it. A pass over the
-- notifications has the 100 rounds of the code. The year of a date is found with the date itself as
-- fuel, since a year has more than one day. Numbers that the code only passes on are natural numbers;
-- the capacity of a schedule is checked against 2147483647 as in the code, a slot limit and the
-- index of a selected slot are integers that may be negative, and a number of a query is read with
-- the bounds of int64 and an error beyond them. A date before 1970 has no day number; the date of
-- birth of a student is a year, a month and a day. A JSON document in a column has one text, whatever
-- its layout.
--
-- Parameters stand for what is not in this repository: the clients of billing, of the memberships of
-- a tenant and of the chat, which answer a result and may leave another world; the parser of URLs;
-- the name of a UUID as a text; the fingerprint of a payload, the SHA-256 of its JSON; whether a
-- reminder may still be sent; and whether a message arrives.
--
-- Row locks are not modelled: a request runs from start to end, and what other requests do between
-- two of them, or while a client waits, is a change of the world between them. Preloaded rows,
-- logging, contexts and their cancellation, and the text of responses are left out.
--
-- Not modelled: the SQL of the lists and of the catalog, the reads for display of classes, requests
-- and reports, reviews, the worker of the session reminders, the enqueueing of notifications, and the
-- outbox of the private chat. The HTTP handlers, the network clients, generated code, configuration
-- and start-up are not modelled: they bind, call and wire the parts above.
pub mod Prelude
pub mod Domain
pub mod Errors
pub mod App
pub mod Calendar
pub mod Enrollment
pub mod Schedule
pub mod Attendance
pub mod Requests
pub mod Classes
pub mod Lists
pub mod Catalog
pub mod Notifications
pub mod Students
pub mod Examples
