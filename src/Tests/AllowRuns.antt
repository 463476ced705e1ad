-- ===== src/Tests/AllowRuns.antt =====
-- Runs of the parser of `--allow` values.
use netcage.Base.{Result, ◌∷◌, [], ◌≡◌, refl, false, ok, err}
use netcage.Net.{contains_ip}
use netcage.Text.{Text, trim_space, codes}
use netcage.Cli.Allow.{
  range_contains_network, last_addr, DirectAllow, AllowError, network_within_private_ranges,
  network_within_host_loopback, dispatch, parse_host_to_network, split_allow_direct_port,
  allow_parts, parse_allow_direct, blocked_loopback_port, not_private, port_omitted,
}

run : Text → Result AllowError DirectAllow
unfolding parse_allow_direct allow_parts split_allow_direct_port parse_host_to_network dispatch
    trim_space last_addr contains_ip range_contains_network network_within_host_loopback
    network_within_private_ranges codes
run = parse_allow_direct

lan_allow :
    run (codes " 192.168.1.150:8080")
    ≡ ok (record {
      network = record {
        ip = 0 ∷ 0 ∷ 0 ∷ 0 ∷ 0 ∷ 0 ∷ 0 ∷ 0 ∷ 0 ∷ 0 ∷ 255 ∷ 255 ∷ 192 ∷ 168 ∷ 1 ∷ 150 ∷ [];
        mask = 255 ∷ 255 ∷ 255 ∷ 255 ∷ [];
      };
      port = 8080;
      raw = codes " 192.168.1.150:8080";
      host_loopback = false;
    })
unfolding run netcage.Cli.Allow.within_some netcage.Cli.Allow.host_loopback_range
    netcage.Cli.Allow.private_ranges
lan_allow = refl

refused :
    (run (codes "127.0.0.1:9050") ≡ err (blocked_loopback_port (codes "127.0.0.1:9050") 9050))
    × (run (codes "10.0.0.0/7:80") ≡ err (not_private (codes "10.0.0.0/7:80")))
    × (run (codes "10.0.0.1") ≡ err (port_omitted (codes "10.0.0.1") (codes "10.0.0.1")))
unfolding run netcage.Cli.Allow.within_some netcage.Cli.Allow.host_loopback_range
    netcage.Cli.Allow.private_ranges
refused = (refl, refl, refl)
