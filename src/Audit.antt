-- ===== src/Audit.antt =====
-- internal/sync/audit.go and annotations.go: the evaluation of one commit. Each child defines one
-- role of the file; the modules below a child prove what it does.
pub mod Types
pub mod Exempt
pub mod Contributors
pub mod Reviews
pub mod Checks
pub mod Glob
pub mod Refresh
pub mod Pr
pub mod Annotations
pub mod Finish
pub mod Evaluate
