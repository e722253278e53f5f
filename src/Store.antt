-- ===== src/Store.antt =====
-- internal/db: the tables of the database and the operations on them. A SQL statement is translated
-- as the language means it, a table as the list of its rows.
pub mod Table
pub mod Rows
pub mod Commits
pub mod Prs
pub mod Audits
pub mod OrgRepos
