-- ===== src/Runs.antt =====
-- The Runs of src/registry.js. Rows is the table; Release starts a Run, Refresh ends it as its tasks
-- say, Prepared fails one that has not started, and Calls has all of them as one type.
pub mod Rows
pub mod Refresh
pub mod Prepared
pub mod Release
pub mod Events
pub mod Released
pub mod Gate
pub mod Started
pub mod ReleaseTests
pub mod Calls
pub mod Final
pub mod Kept
pub mod Verdicts
pub mod Completes
pub mod Untouched
pub mod Tests
