-- ===== src/Jail.antt =====
-- internal/jail: the container that runs the tool, and the sidecar whose network it shares.
pub mod Config
pub mod Firewall
pub mod ProxyUrl
pub mod Containers
pub mod Effects
pub mod Fixtures
pub mod Setup
pub mod Resolve
pub mod Run
pub mod Start
pub mod Running
pub mod GraphRoot
