-- ===== src/Tests.antt =====
-- The theorems at concrete inputs, and runs of the definitions.
mod Samples
mod Witnesses
mod Writer
mod Classifiers
mod Tokens
mod Config
mod Enrichment
mod Pipeline
mod Store
mod Run
mod CoAuthors
