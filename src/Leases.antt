-- ===== src/Leases.antt =====
-- The leases of src/registry.js: on worktrees, on agents and on a project's dashboard.
pub mod Worktree
pub mod Agent
pub mod Dashboard
pub mod Kept
pub mod Fenced
mod Tests
