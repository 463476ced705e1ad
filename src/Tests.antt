-- ===== src/Tests.antt =====
-- Runs at concrete inputs, and the theorems at inputs that meet their hypotheses.
mod NetRuns
mod AllowRuns
mod JailRuns
mod ParseRuns
mod LaunchRuns
mod PrintRuns
mod Worlds
mod StartRuns
mod PortsRuns
mod ManageRuns
mod ForwardRuns
mod VerifyRuns
mod ConfigRuns
mod DnsRuns
mod SetupRuns
mod MainRuns
mod MainKept
mod FixtureRuns
