-- ===== src/Graph.antt =====
-- The graphs of tasks and of projects: validateTaskGraph of src/registry.js and
-- validateGlobalProjectGraph of src/global-runs.js. Both run the same depth-first search.
pub mod Walk
pub mod Search
pub mod Order
pub mod Visits
pub mod Cycles
pub mod Accepts
pub mod Tasks
pub mod Projects
pub mod Tests
