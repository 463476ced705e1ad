-- ===== src/Tests/JailRuns.antt =====
-- The firewall, its check and the routes at a configuration with a proxy on the host's loopback, one
-- LAN entry and one entry on the host's loopback.
use netcage.Base.{true, false, [], ◌∷◌, ◌++◌, ◌≡◌, refl, none, All}
use netcage.Text.{Text, codes, member, split, trim_space}
use netcage.Net.{IpNet}
use netcage.Cli.Allow.{DirectAllow}
use netcage.Jail.Config.{JailConfig, has_lan_allow, map_exists}
use netcage.Jail.Firewall.{firewall_script, firewall_verify_rules, check_rules_present}
use netcage.Jail.Firewall.Rules.{Packet, udp, tcp, firewall_rules, passes, render_all}
use netcage.Jail.Firewall.Rules.Verdict.{firewall_rules-udp, to_loopback}
use netcage.Jail.Firewall.Rules.Script.{firewall_script-render}
use netcage.Jail.Firewall.Presence.{firewall_verify_rules-IsInstalled, IsInstalled}

abbrev lan_entry : DirectAllow
lan_entry = record {
  network = record { ip = 192 ∷ 168 ∷ 1 ∷ 150 ∷ []; mask = 255 ∷ 255 ∷ 255 ∷ 255 ∷ [] };
  port = 8080;
  raw = codes "192.168.1.150:8080";
  host_loopback = false;
}

abbrev model_entry : DirectAllow
model_entry = record {
  network = record { ip = 127 ∷ 0 ∷ 0 ∷ 1 ∷ []; mask = 255 ∷ 255 ∷ 255 ∷ 255 ∷ [] };
  port = 11434;
  raw = codes "127.0.0.1:11434";
  host_loopback = true;
}

abbrev jail : JailConfig
jail = record {
  proxy = record { host = codes "127.0.0.1"; port = codes "9050"; username = []; password = [] };
  image = codes "alpine";
  tool_argv = codes "sh" ∷ [];
  mounts = [];
  workdir = [];
  run_id = codes "ab12";
  env = [];
  user = [];
  entrypoint = [];
  pass_through_flags = [];
  allow_direct = lan_entry ∷ model_entry ∷ [];
  ephemeral = true;
  proxy_on_host_loopback = true;
  interactive = false;
  dns_upstream = [];
  dns_helper_path = [];
  resolv_conf_path = [];
  hosts_path = [];
  passwd_path = [];
  group_path = [];
  machine_id_path = [];
}

abbrev dns_query : Packet
dns_query = record {
  v6 = false;
  protocol = udp;
  destination = 192 ∷ 168 ∷ 1 ∷ 150 ∷ [];
  port = 8080;
}

abbrev lan_dial : Packet
lan_dial = record dns_query { protocol = tcp }

firewall_rules-udp_example :
    passes (firewall_rules jail (codes "9050")) dns_query ≡ to_loopback dns_query
firewall_rules-udp_example = firewall_rules-udp jail (codes "9050") dns_query refl

firewall_script-render_example :
    firewall_script jail (codes "9050")
    ≡ codes "set -e\n" ++ render_all (firewall_rules jail (codes "9050"))
firewall_script-render_example = firewall_script-render jail (codes "9050")

abbrev saved_v4 : Text
saved_v4 =
    codes "-P OUTPUT ACCEPT\n-A OUTPUT -d 127.0.0.0/8 -p udp -j ACCEPT\n"
    ++ (codes "-A OUTPUT -d 169.254.1.1/32 -p tcp -m tcp --dport 9050 -j ACCEPT\n"
        ++ (codes "-A OUTPUT -d 192.168.1.150/32 -p tcp -m tcp --dport 8080 -j ACCEPT\n"
            ++ (codes "-A OUTPUT -d 169.254.1.1/32 -p tcp -m tcp --dport 11434 -j ACCEPT\n"
                ++ (codes "-A OUTPUT -p udp -j DROP\n-A OUTPUT -d 169.254.1.1/32 -j DROP\n"
                    ++ (codes
                          "-A OUTPUT -d 10.0.0.0/8 -j DROP\n-A OUTPUT -d 172.16.0.0/12 -j DROP\n"
                        ++ codes
                            "-A OUTPUT -d 192.168.0.0/16 -j DROP\n-A OUTPUT -d 169.254.0.0/16 -j DROP\n")))))

abbrev saved_v6 : Text
saved_v6 =
    codes "-P OUTPUT ACCEPT\n-A OUTPUT -d ::1/128 -p udp -j ACCEPT\n-A OUTPUT -p udp -j DROP\n"

all_present :
    (check_rules_present (firewall_verify_rules jail (codes "9050")).0 saved_v4 ≡ none)
    × (check_rules_present (firewall_verify_rules jail (codes "9050")).1 saved_v6 ≡ none)
unfolding check_rules_present netcage.Jail.Firewall.missing_rule firewall_verify_rules member split
    codes trim_space netcage.Jail.Firewall.verify_allow_line netcage.Jail.Config.verify_dest
    netcage.Net.Print.net_string netcage.Net.V4.format_ipv4 map_exists has_lan_allow
    netcage.Jail.Firewall.verify_drop_line netcage.Net.Print.ip_string
all_present = (refl, refl)

firewall_verify_rules-IsInstalled_example :
    All (IsInstalled saved_v4 saved_v6) (firewall_rules jail (codes "9050"))
firewall_verify_rules-IsInstalled_example =
    firewall_verify_rules-IsInstalled jail (codes "9050") saved_v4 saved_v6 all_present.0
      all_present.1
