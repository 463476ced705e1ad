-- ===== src/Manage.antt =====
-- The verbs that manage kept containers and images (internal/manage).
pub mod Argv
pub mod Exec
pub mod Commit
pub mod Run
