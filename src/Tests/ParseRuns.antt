-- ===== src/Tests/ParseRuns.antt =====
-- The command line at a run with a proxy, a LAN entry and a pass-through flag.
use netcage.Base.{true, false, none, some, List, [], ◌∷◌, ◌≡◌, refl, ok, ◌≤◌, ◌≢◌, ◌⊎◌, arith, ℕ}
use netcage.Text.{Text, codes}
use netcage.Net.{contains_ip}
use netcage.Cli.Allow.{DirectAllow, parse_allow_direct}
use netcage.Cli.Allow.Gate.{
  IsLan, parse_allow_direct-IsLan, parse_allow_direct-loopback, parse_allow_direct-port,
}
use netcage.Cli.Command.{
  Command, command, ProxyConfig, ProxySource, flag, deny_flag_name, deny_flag,
}
use netcage.Cli.Proxy.{Url, parse_proxy}
use netcage.Cli.Proxy.Scheme.{IsProxyUrl, parse_proxy-IsProxyUrl}
use netcage.Cli.Scan.{Scan, scan, feeds}
use netcage.Cli.System.{System, not_exist}
use netcage.Cli.Parse.{parse_jail_verb}
use netcage.Cli.Parse.Resolution.{Resolved, parse_jail_verb-Resolved}

abbrev lan_text : Text
lan_text = codes "192.168.1.150:8080"

abbrev lan_entry : DirectAllow
lan_entry = record {
  network = record {
    ip = 0 ∷ 0 ∷ 0 ∷ 0 ∷ 0 ∷ 0 ∷ 0 ∷ 0 ∷ 0 ∷ 0 ∷ 255 ∷ 255 ∷ 192 ∷ 168 ∷ 1 ∷ 150 ∷ [];
    mask = 255 ∷ 255 ∷ 255 ∷ 255 ∷ [];
  };
  port = 8080;
  raw = lan_text;
  host_loopback = false;
}

lan_accepted : parse_allow_direct lan_text ≡ ok lan_entry
unfolding parse_allow_direct netcage.Text.trim_space codes netcage.Cli.Allow.split_allow_direct_port
    netcage.Cli.Allow.allow_parts netcage.Cli.Allow.parse_host_to_network netcage.Cli.Allow.dispatch
    netcage.Cli.Allow.network_within_host_loopback netcage.Cli.Allow.within_some
    netcage.Cli.Allow.host_loopback_range netcage.Cli.Allow.last_addr contains_ip
    netcage.Cli.Allow.network_within_private_ranges netcage.Cli.Allow.private_ranges
lan_accepted = refl

lan_inside : contains_ip lan_entry.network (192 ∷ 168 ∷ 1 ∷ 150 ∷ []) ≡ true
unfolding contains_ip
lan_inside = refl

parse_allow_direct-IsLan_example : IsLan (192 ∷ 168 ∷ 1 ∷ 150 ∷ [])
parse_allow_direct-IsLan_example =
    parse_allow_direct-IsLan lan_text {a = lan_entry} 192 168 1 150 lan_accepted refl (omega arith)
      (omega arith) lan_inside

abbrev model_text : Text
model_text = codes "127.0.0.1:11434"

abbrev model_entry : DirectAllow
model_entry = record {
  network = record {
    ip = 0 ∷ 0 ∷ 0 ∷ 0 ∷ 0 ∷ 0 ∷ 0 ∷ 0 ∷ 0 ∷ 0 ∷ 255 ∷ 255 ∷ 127 ∷ 0 ∷ 0 ∷ 1 ∷ [];
    mask = 255 ∷ 255 ∷ 255 ∷ 255 ∷ [];
  };
  port = 11434;
  raw = model_text;
  host_loopback = true;
}

model_accepted : parse_allow_direct model_text ≡ ok model_entry
unfolding parse_allow_direct netcage.Text.trim_space codes netcage.Cli.Allow.split_allow_direct_port
    netcage.Cli.Allow.allow_parts netcage.Cli.Allow.parse_host_to_network netcage.Cli.Allow.dispatch
    netcage.Cli.Allow.network_within_host_loopback netcage.Cli.Allow.within_some
    netcage.Cli.Allow.host_loopback_range netcage.Cli.Allow.last_addr contains_ip
model_accepted = refl

model_inside : contains_ip model_entry.network (127 ∷ 0 ∷ 0 ∷ 1 ∷ []) ≡ true
unfolding contains_ip
model_inside = refl

parse_allow_direct-loopback_example : ◌≡◌ {A = ℕ} 127 127
parse_allow_direct-loopback_example =
    parse_allow_direct-loopback model_text {a = model_entry} 127 0 0 1 model_accepted refl
      (omega arith) (omega arith) model_inside

parse_allow_direct-port_example :
    (1 ≤ lan_entry.port)
    × (lan_entry.port ≤ 65535)
    × (lan_entry.port ≢ 53)
    × (((lan_entry.host_loopback ≡ false) × (lan_entry.port ≢ 853) × (lan_entry.port ≢ 5353))
        ⊎ ((lan_entry.host_loopback ≡ true)
            × (lan_entry.port ≢ 9050)
            × (lan_entry.port ≢ 9150)
            × (lan_entry.port ≢ 9051)
            × (lan_entry.port ≢ 1080)))
parse_allow_direct-port_example = parse_allow_direct-port lan_text {a = lan_entry} lan_accepted

abbrev pub tor_url : Url
tor_url = record {
  scheme = codes "socks5h";
  hostname = codes "127.0.0.1";
  port = codes "9050";
  user = none;
}

abbrev pub tor_proxy : ProxyConfig
tor_proxy = record { host = codes "127.0.0.1"; port = codes "9050"; username = []; password = [] }

abbrev tor_text : Text
tor_text = codes "socks5h://127.0.0.1:9050"

proxy_accepted : parse_proxy (λ _. some tor_url) tor_text ≡ ok tor_proxy
unfolding parse_proxy netcage.Text.trim_space codes netcage.Cli.Proxy.proxy_of_url netcage.Text.eqb
proxy_accepted = refl

parse_proxy-IsProxyUrl_example : (u : Url) × (some tor_url ≡ some u) × IsProxyUrl u tor_proxy
parse_proxy-IsProxyUrl_example =
    parse_proxy-IsProxyUrl (λ _. some tor_url) tor_text {p = tor_proxy} proxy_accepted

abbrev arguments : List Text
arguments =
    codes "--proxy"
    ∷ tor_text
    ∷ codes "--allow"
    ∷ lan_text
    ∷ codes "--memory=1g"
    ∷ codes "alpine"
    ∷ []

abbrev scanned : Command
scanned = record (command (codes "run")) {
  pass_through_flags = codes "--memory" ∷ codes "1g" ∷ [];
  allow_direct = lan_entry ∷ [];
}

abbrev after_loop : Scan
after_loop = record {
  cmd = scanned;
  proxy_raw = tor_text;
  proxy_from_flag = true;
  allow_from_flag = true;
  positionals = codes "alpine" ∷ [];
  end_of_flags = true;
}

scan_runs : scan (codes "run") arguments ≡ ok after_loop
unfolding scan feeds netcage.Cli.Scan.feed netcage.Cli.Scan.argument netcage.Cli.Scan.act
    netcage.Cli.Scan.classify netcage.Text.member codes deny_flag netcage.Cli.Command.deny_flags
    deny_flag_name netcage.Cli.Scan.apply netcage.Text.cut_prefix
    netcage.Cli.Command.pass_through_value_flags parse_allow_direct netcage.Text.trim_space
    netcage.Cli.Allow.split_allow_direct_port netcage.Cli.Allow.allow_parts
    netcage.Cli.Allow.dispatch netcage.Cli.Allow.last_addr
    netcage.Cli.Allow.network_within_host_loopback netcage.Cli.Allow.network_within_private_ranges
    netcage.Cli.Allow.parse_host_to_network netcage.Cli.Allow.range_contains_network
    netcage.Cli.Scan.finish contains_ip netcage.Text.eqb netcage.Text.has_prefix netcage.Text.cut
    netcage.Cli.Allow.within_some netcage.Cli.Allow.host_loopback_range
    netcage.Cli.Allow.private_ranges
scan_runs = refl

abbrev after_rm : Scan
after_rm = record {
  cmd = record (command (codes "run")) { rm = true };
  proxy_raw = [];
  proxy_from_flag = false;
  allow_from_flag = false;
  positionals = [];
  end_of_flags = false;
}

abbrev pub bare_system : System
bare_system = record {
  lookup_env = λ _. none;
  read_file = λ _. not_exist;
  decode = λ _. none;
  join_path = λ _. [];
  parse_url = λ _. some tor_url;
}

abbrev parsed : Command
parsed = record scanned { proxy = tor_proxy; proxy_source = flag; image = codes "alpine" }

verb_runs : parse_jail_verb bare_system (codes "run") arguments ≡ ok parsed
unfolding scan feeds netcage.Cli.Scan.feed netcage.Cli.Scan.argument netcage.Cli.Scan.act
    netcage.Cli.Scan.classify netcage.Text.member codes deny_flag netcage.Cli.Command.deny_flags
    deny_flag_name netcage.Cli.Scan.apply netcage.Text.cut_prefix
    netcage.Cli.Command.pass_through_value_flags parse_allow_direct netcage.Text.trim_space
    netcage.Cli.Allow.split_allow_direct_port netcage.Cli.Allow.allow_parts
    netcage.Cli.Allow.dispatch netcage.Cli.Allow.last_addr
    netcage.Cli.Allow.network_within_host_loopback netcage.Cli.Allow.network_within_private_ranges
    netcage.Cli.Allow.parse_host_to_network netcage.Cli.Allow.range_contains_network
    netcage.Cli.Scan.finish contains_ip netcage.Text.eqb netcage.Text.has_prefix netcage.Text.cut
    parse_jail_verb netcage.Cli.Config.load_config netcage.Cli.Config.config_path
    netcage.Cli.Parse.resolve_jail netcage.Cli.Parse.choose_proxy netcage.Cli.Parse.choose_allow
    netcage.Cli.Parse.resolve_proxy parse_proxy netcage.Cli.Proxy.proxy_of_url
    netcage.Cli.Allow.refuse_host_loopback_proxy_port netcage.Cli.Allow.refuse_port
    netcage.Cli.Allow.proxy_host_is_loopback netcage.Cli.Parse.resolve_positionals
    netcage.Cli.Parse.resolve_run_positionals netcage.Cli.Parse.resolve_repo_mount_defaults
    netcage.Cli.Parse.default_mounts netcage.Cli.Allow.within_some
    netcage.Cli.Allow.host_loopback_range netcage.Cli.Allow.private_ranges
verb_runs = refl

parse_jail_verb-Resolved_example : Resolved bare_system parsed
parse_jail_verb-Resolved_example =
    parse_jail_verb-Resolved bare_system (codes "run") arguments {cmd = parsed} verb_runs
