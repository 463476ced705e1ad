-- ===== src/Cli.antt =====
-- internal/cli: the command line, the proxy URL, the allowlist and the persisted configuration.
pub mod Allow
pub mod Command
pub mod Proxy
pub mod Scan
pub mod System
pub mod Config
pub mod Verbs
pub mod Parse
pub mod Preflight
