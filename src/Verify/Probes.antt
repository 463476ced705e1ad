-- ===== src/Verify/Probes.antt =====
-- internal/verify/verify.go: the probes through a runner of jails, and the list of checks.
use netcage.Base.{Bool, List, [], ◌∷◌, ◌++◌, if◌then◌else◌}
use netcage.Text.{Text, is_empty}
use netcage.Jail.Config.{JailConfig}
use netcage.Jail.Effects.{History, RunError, ToolResult, Io, ◌>>-◌, return}
use netcage.Jail.Setup.{contains_text}
use netcage.Verify.{Assertion}

-- `Check`.
pub record Check : Type 0 where
  pub name : Text
  pub perform : History → History × Assertion

abbrev pub with_name : Text → Assertion → Assertion
with_name name a = if is_empty a.name then record a { name = name } else a

-- `Run` of verify: every check, whatever the ones before it showed.
unfoldable pub run_checks : List Check → History → History × List Assertion
run_checks [] h = (h, [])
run_checks (c ∷ cs) h =
    let (h1, a) = c.perform h in
    let (h2, rest) = run_checks cs h1 in (h2, with_name c.name a ∷ rest)

-- `SplitTunnelChecks`.
unfoldable pub split_tunnel_checks : List Check → List Check → List Check
split_tunnel_checks core [] = core
split_tunnel_checks core (d ∷ directs) = core ++ (d ∷ directs)

-- `JailRunner`.
abbrev pub JailRunner : Type 0
JailRunner = JailConfig → Io RunError ToolResult

-- What a probe with two markers answers.
abbrev pub two_markers : Text → Text → ToolResult → Io RunError (Bool × Bool)
two_markers first second r = return (contains_text first r.stdout, contains_text second r.stdout)

-- What a probe with one marker answers.
abbrev pub one_marker : Text → ToolResult → Io RunError Bool
one_marker marker r = return (contains_text marker r.stdout)

module _ (runner : JailRunner) where
  -- `DNSProbe`.
  unfoldable pub dns_probe : JailConfig → Io RunError Text
  dns_probe c = runner c >>- (λ r. return r.stdout)

  -- `NoClearLANDNSProbe`.
  unfoldable pub no_clear_lan_dns_probe : JailConfig → Text → Io RunError Bool
  no_clear_lan_dns_probe c marker = runner c >>- one_marker marker

  -- `IPv6EgressFailsClosedProbe`.
  unfoldable pub ipv6_egress_fails_closed_probe :
      JailConfig → Text → Text → Io RunError (Bool × Bool)
  ipv6_egress_fails_closed_probe c tcp dns = runner c >>- two_markers tcp dns

  -- `NonTCPUDPDroppedProbe`.
  unfoldable pub non_tcp_udp_dropped_probe : JailConfig → Text → Text → Io RunError (Bool × Bool)
  non_tcp_udp_dropped_probe c udp quic = runner c >>- two_markers udp quic

  -- `ICMPDroppedProbe`.
  unfoldable pub icmp_dropped_probe : JailConfig → Text → Io RunError Bool
  icmp_dropped_probe c replied = runner c >>- one_marker replied

  -- `JailLoopbackConfinedProbe`.
  unfoldable pub jail_loopback_confined_probe : JailConfig → Text → Text → Io RunError (Bool × Bool)
  jail_loopback_confined_probe c other forwarder = runner c >>- two_markers other forwarder
