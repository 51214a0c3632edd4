-- ===== src/Dispatches.antt =====
-- The turn dispatches of src/registry.js. A call reads the clock once and the random tokens are
-- arguments; a time is a number of milliseconds. The failure is its JSON text, of the evidence the
-- recovered result is kept, and `merged` joins two texts of evidence as the spread of two objects.
pub mod Rows
pub mod Claim
pub mod Move
pub mod Cancel
pub mod Fenced
pub mod Barred
mod Tests
