-- ===== src/Ports.antt =====
-- The verb `netcage ports` (internal/ports): the listeners of a jail.
pub mod Listeners
pub mod Sort
pub mod Show
pub mod Run
