-- ===== src/Deliveries.antt =====
-- The control deliveries of src/registry.js: the results of Runs that are handed back to the thread
-- that asked for them. A call reads the clock once and random ids are arguments. `known` says
-- whether a Run is there, and `project_of` is its working directory, or "workspace".
pub mod Rows
pub mod Moves
pub mod Calls
pub mod Final
mod Tests
