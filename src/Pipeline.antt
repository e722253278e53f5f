-- ===== src/Pipeline.antt =====
-- internal/sync: the pipeline that fetches, enriches and audits the commits of a repository.
pub mod Batch
pub mod Sync
pub mod Writer
pub mod Fetch
pub mod Branch
pub mod Run
