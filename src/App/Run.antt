-- ===== src/App/Run.antt =====
-- What a computation does from a database, whatever the clock, the UUIDs and the failures are.
mod Defs
mod Steps
mod Rules
mod Invariants
pub use Defs.*
pub use Rules.*
pub use Invariants.*
