-- ===== src/Github.antt =====
-- internal/github: the classifiers of merges and reverts, which read a commit's message and shape,
-- and the pool of API tokens.
pub mod Merge
pub mod Revert
pub mod Diff
pub mod TokenPool
pub mod Caching
