-- ===== src/Tests/MainRuns.antt =====
-- A whole process, from its arguments to its exit code.
use netcage.Base.{◌≡◌, refl, true, false, none, some, List, [], ◌∷◌}
use netcage.Text.{Text, codes}
use netcage.Cli.Proxy.{Url}
use netcage.Jail.Effects.{History, Reply, World, broken}
use netcage.Jail.Run.Verified.{launches}
use netcage.Main.{run_main}
use netcage.Main.Verbs.{Host}
use netcage.Main.Guarded.{RunChecked, run_main-guarded}
use netcage.Main.Acts.{acts, MayAct, run_main-MayAct}
use netcage.Tests.ConfigRuns.{fair, encoded}
use netcage.Tests.LaunchRuns.{calm_world}
use netcage.Tests.ParseRuns.{bare_system}

abbrev remote_url : Url
remote_url = record {
  scheme = codes "socks5h";
  hostname = codes "10.0.0.9";
  port = codes "1080";
  user = none;
}

abbrev pub workstation : Host
workstation = record {
  os = record bare_system { parse_url = λ _. some remote_url };
  world = calm_world;
  account = record { getenv = λ _. []; uid = 1000 };
  stamped = codes "1.2.3";
  build = none;
  run_id = λ _ _. codes "ab12";
  host_body = none;
  process_names = [];
  port_dial = λ _. none;
  encode_report = λ _ _. none;
  encode = encoded;
  disk = λ _. fair;
  input = [];
}

abbrev words : List Text
words = codes "--proxy" ∷ codes "socks5h://10.0.0.9:1080" ∷ codes "alpine" ∷ []

launched : launches (run_main workstation (codes "run" ∷ words) []).0 ≡ true
unfolding netcage.Jail.Effects.Laws.occurs run_main netcage.Main.Version.is_version_arg
    netcage.Cli.Parse.parse_with_env netcage.Cli.Command.is_management_verb netcage.Text.member
    netcage.Cli.Command.management_verbs codes netcage.Cli.Parse.parse_jail_verb
    netcage.Cli.Scan.scan netcage.Cli.Scan.feeds netcage.Cli.Scan.feed netcage.Cli.Scan.argument
    netcage.Cli.Scan.act netcage.Cli.Scan.classify netcage.Cli.Command.deny_flag
    netcage.Cli.Command.deny_flags netcage.Cli.Command.deny_flag_name netcage.Cli.Scan.apply
    netcage.Text.cut_prefix netcage.Cli.Command.pass_through_value_flags netcage.Text.has_prefix
    netcage.Cli.Config.load_config netcage.Cli.Config.config_path netcage.Cli.Parse.resolve_jail
    netcage.Cli.Parse.resolve_proxy netcage.Text.trim_space netcage.Cli.Parse.choose_proxy
    netcage.Cli.Proxy.parse_proxy netcage.Cli.Proxy.proxy_of_url
    netcage.Cli.Allow.refuse_host_loopback_proxy_port netcage.Cli.Parse.resolve_positionals
    netcage.Cli.Preflight.preflight netcage.Cli.Command.is_proxyless
    netcage.Cli.Parse.resolve_repo_mount_defaults netcage.Cli.Parse.resolve_run_positionals
    netcage.Cli.Preflight.preflight_with netcage.Jail.Effects.◌>>-◌ netcage.Jail.Effects.attempt
    netcage.Jail.Effects.out_of netcage.Jail.Effects.return netcage.Main.dispatch_named
    netcage.Main.Verbs.run_run netcage.Jail.Run.run netcage.Jail.Run.run_body
    netcage.Jail.Run.verify_firewall netcage.Jail.Run.run_checked netcage.Jail.Run.verify_family
    netcage.Jail.Effects.after netcage.Jail.Fixtures.write_resolv_conf
    netcage.Jail.Fixtures.write_hosts netcage.Jail.Fixtures.write_passwd
    netcage.Jail.Fixtures.write_group netcage.Jail.Fixtures.write_machine_id
    netcage.Jail.Fixtures.write_fixture netcage.Jail.Run.check_reachback
    netcage.Jail.Run.warn_unreachable_directs netcage.Jail.Run.launch_tool netcage.Jail.Run.teardown
    netcage.Jail.Firewall.firewall_verify_rules netcage.Jail.Firewall.check_rules_present
    netcage.Jail.Firewall.missing_rule netcage.Text.split netcage.Jail.Config.map_exists
    netcage.Jail.Config.has_lan_allow netcage.Jail.Config.has_host_loopback_allow
    netcage.Jail.Fixtures.remove_fixtures netcage.Cli.Command.proxy_on_host_loopback
    netcage.Cli.Parse.choose_allow netcage.Jail.Run.tool_result
launched = refl

quiet : launches [] ≡ false
unfolding netcage.Jail.Effects.Laws.occurs
quiet = refl

run_main-guarded_example : RunChecked workstation words []
run_main-guarded_example = run_main-guarded workstation words [] quiet launched

-- A command of the management verbs, which needs no proxy.
acted : acts (run_main workstation (codes "ps" ∷ []) []).0 ≡ true
unfolding netcage.Jail.Effects.Laws.occurs run_main netcage.Main.Version.is_version_arg
    netcage.Text.eqb codes netcage.Cli.Parse.parse_with_env netcage.Cli.Command.is_management_verb
    netcage.Text.member netcage.Cli.Command.management_verbs netcage.Cli.Preflight.preflight
    netcage.Cli.Command.is_proxyless netcage.Jail.Effects.return netcage.Main.dispatch_named
    netcage.Main.Verbs.run_manage netcage.Manage.Run.run_verb netcage.Manage.Run.stream
    netcage.Jail.Effects.◌>>-◌ netcage.Jail.Effects.attempt netcage.Jail.Effects.out_of
acted = refl

at_rest : acts [] ≡ false
unfolding netcage.Jail.Effects.Laws.occurs
at_rest = refl

run_main-MayAct_example : MayAct workstation (codes "ps" ∷ []) []
run_main-MayAct_example = run_main-MayAct workstation (codes "ps" ∷ []) [] at_rest acted

-- The proxy is down.
abbrev offline : Host
offline = record workstation {
  world = record calm_world { reply = λ _ _. record { out = []; stderr = []; status = broken } };
}

refused_code : (run_main offline (codes "run" ∷ words) []).1.code ≡ 1
unfolding run_main netcage.Main.Version.is_version_arg netcage.Cli.Parse.parse_with_env
    netcage.Cli.Command.is_management_verb netcage.Text.member netcage.Cli.Command.management_verbs
    codes netcage.Cli.Parse.parse_jail_verb netcage.Cli.Scan.scan netcage.Cli.Scan.feeds
    netcage.Cli.Scan.feed netcage.Cli.Scan.argument netcage.Cli.Scan.act netcage.Cli.Scan.classify
    netcage.Cli.Command.deny_flag netcage.Cli.Command.deny_flags netcage.Cli.Command.deny_flag_name
    netcage.Cli.Scan.apply netcage.Text.cut_prefix netcage.Cli.Command.pass_through_value_flags
    netcage.Text.has_prefix netcage.Cli.Config.load_config netcage.Cli.Config.config_path
    netcage.Cli.Parse.resolve_jail netcage.Cli.Parse.resolve_proxy netcage.Text.trim_space
    netcage.Cli.Parse.choose_proxy netcage.Cli.Proxy.parse_proxy netcage.Cli.Proxy.proxy_of_url
    netcage.Cli.Allow.refuse_host_loopback_proxy_port netcage.Cli.Parse.resolve_positionals
    netcage.Cli.Preflight.preflight netcage.Cli.Command.is_proxyless
    netcage.Cli.Parse.resolve_repo_mount_defaults netcage.Cli.Parse.resolve_run_positionals
    netcage.Cli.Preflight.preflight_with netcage.Jail.Effects.◌>>-◌ netcage.Jail.Effects.attempt
    netcage.Jail.Effects.out_of
refused_code = refl
