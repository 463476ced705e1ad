-- ===== src/Jail/Firewall.antt =====
-- internal/jail/jail.go: the script of the firewall that the sidecar runs at each start, the lines that
-- are looked for once it is up, and the test that they are there.
pub mod Rules
pub mod Presence
use netcage.Base.{
  Bool, true, false, not, Option, none, some, List, [], ◌∷◌, ◌++◌, map, if◌then◌else◌,
}
use netcage.Text.{Text, codes, eqb, member, split, trim_space}
use netcage.Text.Numbers.{decimal}
use netcage.Cli.Allow.{DirectAllow}
use netcage.Jail.Config.{
  JailConfig, mapped_host_loopback, allow_dest, verify_dest, rfc1918_drop_ranges, map_exists,
  has_lan_allow,
}

-- `writeSplitTunnelAccepts`: the text with the lines behind it.
unfoldable pub write_split_tunnel_accepts : List DirectAllow → Text → Text
write_split_tunnel_accepts [] b = b
write_split_tunnel_accepts (a ∷ as') b = write_split_tunnel_accepts as' (
    b
    ++ (codes "iptables -A OUTPUT -p tcp -d "
        ++ (allow_dest a ++ (codes " --dport " ++ (decimal a.port ++ codes " -j ACCEPT\n")))))

pub write_drops : List Text → Text → Text
write_drops [] b = b
write_drops (r ∷ rs) b =
    write_drops rs (b ++ (codes "iptables -A OUTPUT -d " ++ (r ++ codes " -j DROP\n")))

-- `writeSplitTunnelDrops`.
unfoldable pub write_split_tunnel_drops : JailConfig → Text → Text
unfolding write_drops
write_split_tunnel_drops c b =
    if not (has_lan_allow c) then b else write_drops rfc1918_drop_ranges b

-- `firewallScript`, the port of the proxy behind the configuration.
unfoldable pub firewall_script : JailConfig → Text → Text
firewall_script c proxy_port =
    let b0 = codes "set -e\n" in
    let b1 = b0 ++ codes "iptables -A OUTPUT -p udp -d 127.0.0.0/8 -j ACCEPT\n" in
    let b2 = b1 ++ codes "ip6tables -A OUTPUT -p udp -d ::1/128 -j ACCEPT\n" in
    let b3 =
      if c.proxy_on_host_loopback
      then b2
        ++ (codes "iptables -A OUTPUT -p tcp -d "
            ++ (mapped_host_loopback
                ++ (codes " --dport " ++ (proxy_port ++ codes " -j ACCEPT\n"))))
      else b2 in
    let b4 = write_split_tunnel_accepts c.allow_direct b3 in
    let b5 = b4 ++ codes "iptables -A OUTPUT -p udp -j DROP\n" in
    let b6 = b5 ++ codes "ip6tables -A OUTPUT -p udp -j DROP\n" in
    let b7 =
      if map_exists c
      then b6 ++ (codes "iptables -A OUTPUT -d " ++ (mapped_host_loopback ++ codes " -j DROP\n"))
      else b6 in
    write_split_tunnel_drops c b7

-- The line that is looked for, of one entry of the allowlist.
unfoldable pub verify_allow_line : DirectAllow → Text
verify_allow_line a =
    codes "-A OUTPUT -d "
    ++ (verify_dest a
        ++ (codes " -p tcp -m tcp --dport " ++ (decimal a.port ++ codes " -j ACCEPT")))

unfoldable pub verify_drop_line : Text → Text
verify_drop_line r = codes "-A OUTPUT -d " ++ (r ++ codes " -j DROP")

-- `firewallVerifyRules`: the lines for IPv4 and for IPv6.
unfoldable pub firewall_verify_rules : JailConfig → Text → List Text × List Text
firewall_verify_rules c proxy_port =
    let base =
      codes "-A OUTPUT -d 127.0.0.0/8 -p udp -j ACCEPT" ∷ codes "-A OUTPUT -p udp -j DROP" ∷ [] in
    let v6 =
      codes "-A OUTPUT -d ::1/128 -p udp -j ACCEPT" ∷ codes "-A OUTPUT -p udp -j DROP" ∷ [] in
    let reachback =
      if c.proxy_on_host_loopback
      then (codes "-A OUTPUT -d "
          ++ (mapped_host_loopback
              ++ (codes "/32 -p tcp -m tcp --dport " ++ (proxy_port ++ codes " -j ACCEPT"))))
        ∷ []
      else [] in
    let closer =
      if map_exists c
      then (codes "-A OUTPUT -d " ++ (mapped_host_loopback ++ codes "/32 -j DROP")) ∷ []
      else [] in
    let ranges = if has_lan_allow c then map verify_drop_line rfc1918_drop_ranges else [] in
    (base ++ (reachback ++ (map verify_allow_line c.allow_direct ++ (closer ++ ranges))), v6)

-- `checkRulesPresent`: the first line that is missing, if any.
unfoldable pub missing_rule : List Text → List Text → Option Text
missing_rule [] present = none
missing_rule (w ∷ ws) present = if member w present then missing_rule ws present else some w

unfoldable pub check_rules_present : List Text → Text → Option Text
check_rules_present want output = missing_rule want (map trim_space (split b'\n' output))
