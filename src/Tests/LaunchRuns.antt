-- ===== src/Tests/LaunchRuns.antt =====
-- A run of the jail in a world whose sidecar shows the whole firewall.
use netcage.Base.{none, some, true, false, [], ◌∷◌, ◌++◌, ◌≡◌, refl, All}
use netcage.Text.{Text, codes, eqb, member}
use netcage.Jail.Config.{JailConfig, sidecar_name, tool_name}
use netcage.Jail.Firewall.Rules.{firewall_rules}
use netcage.Jail.Firewall.Presence.{IsInstalled}
use netcage.Jail.Effects.{
  Event, podman, launch, find_helper, write_file, remove_file, History, Reply, World, done, out_of,
  helper_missing,
}
use netcage.Jail.Run.{run}
use netcage.Jail.Run.Verified.{answer_v4, answer_v6, launches}
use netcage.Jail.Run.Guarded.{run-guarded, with_path, with_sidecar}

abbrev pub plain_jail : JailConfig
plain_jail = record {
  proxy = record { host = codes "10.0.0.9"; port = codes "1080"; username = []; password = [] };
  image = codes "alpine";
  tool_argv = [];
  mounts = [];
  workdir = [];
  run_id = codes "ab12";
  env = [];
  user = [];
  entrypoint = [];
  pass_through_flags = [];
  allow_direct = [];
  ephemeral = true;
  proxy_on_host_loopback = false;
  interactive = false;
  dns_upstream = [];
  dns_helper_path = [];
  resolv_conf_path = [];
  hosts_path = [];
  passwd_path = [];
  group_path = [];
  machine_id_path = [];
}

abbrev pub chains : Text
chains =
    codes "-A OUTPUT -d 127.0.0.0/8 -p udp -j ACCEPT\n"
    ++ (codes "-A OUTPUT -d ::1/128 -p udp -j ACCEPT\n" ++ codes "-A OUTPUT -p udp -j DROP\n")

-- Each command succeeds, and shows the two chains together.
abbrev pub calm_world : World
calm_world = record {
  reply = λ _ _. record { out = chains; stderr = []; status = done };
  temp_path = λ name. codes "/tmp/" ++ name;
  random_bytes = λ _. some (1 ∷ 255 ∷ []);
  decode_texts = λ _. none;
}

launched : launches (run calm_world plain_jail []).0 ≡ true
unfolding run netcage.Jail.Effects.attempt out_of netcage.Jail.Run.run_body
    netcage.Jail.Run.run_checked netcage.Jail.Run.verify_firewall netcage.Jail.Run.verify_family
    netcage.Jail.Effects.◌>>-◌ netcage.Jail.Effects.after netcage.Jail.Fixtures.write_resolv_conf
    netcage.Jail.Fixtures.write_hosts netcage.Jail.Fixtures.write_passwd
    netcage.Jail.Fixtures.write_group netcage.Jail.Fixtures.write_machine_id
    netcage.Jail.Fixtures.write_fixture netcage.Jail.Run.check_reachback
    netcage.Jail.Run.warn_unreachable_directs netcage.Jail.Run.launch_tool netcage.Jail.Run.teardown
    netcage.Jail.Effects.return netcage.Jail.Firewall.firewall_verify_rules
    netcage.Jail.Firewall.check_rules_present netcage.Jail.Firewall.missing_rule member
    netcage.Text.split codes netcage.Text.trim_space netcage.Jail.Config.map_exists
    netcage.Jail.Config.has_lan_allow netcage.Jail.Config.has_host_loopback_allow
    netcage.Jail.Effects.Laws.occurs netcage.Jail.Fixtures.remove_fixtures
launched = refl

quiet : launches [] ≡ false
unfolding netcage.Jail.Effects.Laws.occurs
quiet = refl

run-guarded_example :
    (path : Text) × All
      (IsInstalled
        (answer_v4 calm_world
          (with_path plain_jail path)
          (with_sidecar (with_path plain_jail path) []))
        (answer_v6 calm_world
          (with_path plain_jail path)
          (with_sidecar (with_path plain_jail path) [])))
      (firewall_rules (with_path plain_jail path) plain_jail.proxy.port)
run-guarded_example = run-guarded calm_world plain_jail [] quiet launched
