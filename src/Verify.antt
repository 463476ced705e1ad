-- ===== src/Verify.antt =====
-- internal/verify/verify.go: the leak test, whose runs go through the jail.
pub mod Verdicts
pub mod Printed
pub mod Probes
pub mod Green
pub mod Command
use netcage.Base.{
  ℕ, ◌+◌, ◌*◌, ◌-◌, Bool, true, false, not, ◌&&◌, ◌||◌, Option, none, some, List, [], ◌∷◌, ◌++◌,
  length, leb, ltb, ◌==◌, if◌then◌else◌, Result, ok, err,
}
use netcage.Text.{Text, codes, is_empty, split, trim_space, close_field}
use netcage.Text.Numbers.{digits_onto}
use netcage.Jail.Setup.{contains_text}
use netcage.Jail.Effects.{RunError, ToolResult}

-- What an assertion shows: that its probe could not run, a leak, a good answer that proves nothing, or
-- that it holds.
pub data Detail : Type 0 where
  not_run leak unproven holds : Detail

-- `Assertion`.
pub record Assertion : Type 0 where
  pub name : Text
  pub ok : Bool
  pub detail : Detail

abbrev pub failing : Detail → Assertion
failing d = record { name = []; ok = false; detail = d }

abbrev pub passing : Assertion
passing = record { name = []; ok = true; detail = holds }

abbrev pub all_ok : List Assertion → Bool
all_ok [] = true
all_ok (a ∷ rest) = a.ok && all_ok rest

-- `Report.Ok`.
unfoldable pub report_ok : List Assertion → Bool
report_ok [] = false
report_ok (a ∷ rest) = all_ok (a ∷ rest)

-- `Report.ExitCode`.
unfoldable pub exit_code : List Assertion → ℕ
unfolding report_ok
exit_code report = if report_ok report then 0 else 1

-- The marker is in what the tool printed; `none` is a run that failed.
unfoldable pub marker_probe : Result RunError ToolResult → Text → Option Bool
marker_probe (err e) marker = none
marker_probe (ok r) marker = some (contains_text marker r.stdout)

-- `FailClosedProbe`: a run that failed let nothing out.
unfoldable pub fail_closed_probe : Result RunError ToolResult → Text → Bool
fail_closed_probe (err e) marker = false
fail_closed_probe (ok r) marker = contains_text marker r.stdout

-- `NoClearLANDNSAssertion`; the last argument of each says that the probe failed.
unfoldable pub no_clear_lan_dns_assertion : Bool → Bool → Bool → Assertion
no_clear_lan_dns_assertion answered resolved failed =
    if failed
    then failing not_run
    else if answered
    then failing leak
    else if not resolved
    then failing unproven
    else passing

-- `IPv6EgressFailsClosedAssertion`.
unfoldable pub ipv6_egress_fails_closed_assertion : Bool → Bool → Bool → Assertion
ipv6_egress_fails_closed_assertion tcp_reached dns_reached failed =
    if failed
    then failing not_run
    else if tcp_reached
    then failing leak
    else if dns_reached
    then failing leak
    else passing

-- `NonTCPUDPDroppedAssertion`.
unfoldable pub non_tcp_udp_dropped_assertion : Bool → Bool → Bool → Assertion
non_tcp_udp_dropped_assertion udp_reached quic_reached failed =
    if failed
    then failing not_run
    else if udp_reached
    then failing leak
    else if quic_reached
    then failing leak
    else passing

-- `ICMPDroppedAssertion`.
unfoldable pub icmp_dropped_assertion : Bool → Bool → Assertion
icmp_dropped_assertion replied failed =
    if failed then failing not_run else if replied then failing leak else passing

-- `JailLoopbackConfinedAssertion`.
unfoldable pub jail_loopback_confined_assertion : Bool → Bool → Bool → Assertion
jail_loopback_confined_assertion other_reached forwarder_reachable failed =
    if failed
    then failing not_run
    else if other_reached
    then failing leak
    else if not forwarder_reachable
    then failing unproven
    else passing

-- A part of a dotted address: one to three digits, of a number up to 255.
unfoldable pub is_octet : Text → Bool
unfolding digits_onto
is_octet p =
    not (is_empty p)
    && leb (length p) 3
    && elim (digits_onto 0 p) [ none ↦ false | some n ↦ leb n 255 ]

abbrev pub all_octets : List Text → Bool
all_octets [] = true
all_octets (p ∷ ps) = is_octet p && all_octets ps

-- `isIPv4`.
unfoldable pub is_ipv4 : Text → Bool
is_ipv4 s = length (split b'.' s) == 4 && all_octets (split b'.' s)

-- `strings.FieldsFunc` at the four separators, behind the open token.
unfoldable pub tokens_onto : Text → Text → List Text
tokens_onto f [] = close_field f []
tokens_onto f (c ∷ s) = elim (c == b'\n' || c == 13 || c == b' ' || c == b'\t') [
  | true ↦ close_field f (tokens_onto [] s)
  | false ↦ tokens_onto (f ++ (c ∷ [])) s
]

abbrev pub first_of : List Text → Text
first_of [] = []
first_of (t ∷ ts) = if is_ipv4 (trim_space t) then trim_space t else first_of ts

-- `firstIP`: empty where there is none.
unfoldable pub first_ip : Text → Text
first_ip s = first_of (tokens_onto [] s)

-- `dnsOverTCPAssertion`, of the run's result; no run at all is a failed preparation of the image.
unfoldable pub dns_over_tcp_assertion : Option (Result RunError Text) → Assertion
dns_over_tcp_assertion none = failing not_run
dns_over_tcp_assertion (some (err e)) = failing not_run
dns_over_tcp_assertion (some (ok out)) =
    if is_empty (first_ip out) then failing unproven else passing
