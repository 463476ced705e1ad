-- ===== src/Tests/StartRuns.antt =====
-- A kept run revived, and a kept run whose proxy differs.
use netcage.Base.{◌≢◌, true, false, [], ◌∷◌, ◌++◌, ◌≡◌, ◌↔◌, refl, All, ok, err}
use netcage.Text.{Text, codes, eqb, member}
use netcage.Jail.Config.{JailConfig, sidecar_name}
use netcage.Jail.Containers.{sidecar_env}
use netcage.Jail.Effects.{Event, find_helper, History, World, config_changed, no_run_id}
use netcage.Jail.Resolve.{inspect_labels, read_labels, run_of, tool_of}
use netcage.Jail.Resolve.Laws.{resolve-reaches_no_missing_id}
use netcage.Jail.Run.Verified.{launches}
use netcage.Jail.Start.{
  Baked, baked_from, wanted, inspect_env, reconcile_jail_config, start, bake, nothing_baked,
}
use netcage.Jail.Start.Reconcile.{
  option_values, IsForeign, reconcile_jail_config-bake, reconcile-sidecar_env,
}
use netcage.Tests.LaunchRuns.{plain_jail, chains}
use netcage.Tests.Worlds.{kept_world, tool_labels}

abbrev pub kept : World
kept = kept_world tool_labels chains (option_values (sidecar_env plain_jail))

launched : launches (start kept plain_jail (codes "c") []).0 ≡ true
unfolding netcage.Jail.Effects.Laws.occurs start netcage.Jail.Effects.◌>>-◌
    netcage.Jail.Resolve.resolve_managed_tool netcage.Jail.Effects.attempt
    netcage.Jail.Effects.out_of netcage.Jail.Effects.settle read_labels netcage.Text.cut
    netcage.Text.trim_space netcage.Tests.Worlds.answer eqb codes netcage.Jail.Start.start_run
    netcage.Jail.Start.read_baked_sidecar_config reconcile_jail_config netcage.Jail.Start.wanted
    netcage.Jail.ProxyUrl.sidecar_proxy_url bake option_values sidecar_env
    netcage.Jail.Start.bake_one netcage.Text.cut_prefix netcage.Jail.ProxyUrl.user_part
    netcage.Jail.ProxyUrl.escape netcage.Jail.Containers.excluded_routes netcage.Text.join
    netcage.Jail.Containers.route_list netcage.Jail.Containers.add_routes
    netcage.Jail.Containers.proxy_reachback_addr netcage.Jail.Firewall.firewall_script
    netcage.Jail.Firewall.write_split_tunnel_drops netcage.Jail.Config.has_lan_allow
    netcage.Jail.Config.map_exists netcage.Jail.Config.has_host_loopback_allow
    netcage.Jail.Firewall.write_split_tunnel_accepts netcage.Jail.Run.teardown
    netcage.Jail.Fixtures.remove_fixtures netcage.Jail.Start.start_body
    netcage.Jail.Run.verify_firewall netcage.Jail.Run.verify_family
    netcage.Jail.Firewall.check_rules_present netcage.Jail.Firewall.missing_rule
    netcage.Jail.Firewall.firewall_verify_rules member netcage.Text.split
    netcage.Jail.Start.start_checked netcage.Jail.Fixtures.write_resolv_conf
    netcage.Jail.Fixtures.write_fixture netcage.Jail.Effects.return
    netcage.Jail.Fixtures.write_hosts netcage.Jail.Fixtures.write_passwd
    netcage.Jail.Fixtures.write_group netcage.Jail.Fixtures.write_machine_id_preserving
    netcage.Jail.Effects.perform netcage.Jail.Fixtures.preserve_machine_id
    netcage.Jail.Run.check_reachback netcage.Jail.Start.launch_start
launched = refl

quiet : launches [] ≡ false
unfolding netcage.Jail.Effects.Laws.occurs
quiet = refl

abbrev asked : History
asked = inspect_labels (codes "c") ∷ []

-- A sidecar made with another proxy.
abbrev other_proxy : Baked
other_proxy = record (wanted plain_jail) { proxy = codes "socks5://10.0.0.8:1080" }

reconcile_jail_config-bake_example :
    (reconcile_jail_config plain_jail other_proxy ≡ ok tt)
    ↔ (other_proxy ≡ bake nothing_baked (option_values (sidecar_env plain_jail)))
reconcile_jail_config-bake_example = reconcile_jail_config-bake plain_jail other_proxy

refused : reconcile_jail_config plain_jail other_proxy ≡ err (config_changed true false)
unfolding reconcile_jail_config eqb wanted netcage.Jail.ProxyUrl.sidecar_proxy_url codes
    netcage.Jail.ProxyUrl.user_part netcage.Jail.ProxyUrl.escape
    netcage.Jail.Containers.excluded_routes netcage.Text.join netcage.Jail.Containers.route_list
    netcage.Jail.Containers.add_routes netcage.Jail.Containers.proxy_reachback_addr
    netcage.Jail.Firewall.firewall_script netcage.Jail.Firewall.write_split_tunnel_drops
    netcage.Jail.Config.has_lan_allow netcage.Jail.Config.map_exists
    netcage.Jail.Config.has_host_loopback_allow netcage.Jail.Firewall.write_split_tunnel_accepts
refused = refl

foreign : All IsForeign (codes "HOME=/root" ∷ [])
unfolding netcage.Text.cut_prefix codes
foreign = ((refl, refl, refl), tt)

reconcile-sidecar_env_example :
    reconcile_jail_config plain_jail (
      bake nothing_baked (
        (codes "PATH=/bin" ∷ [])
        ++ (option_values (sidecar_env plain_jail) ++ (codes "HOME=/root" ∷ []))))
    ≡ ok tt
reconcile-sidecar_env_example =
    reconcile-sidecar_env plain_jail (codes "PATH=/bin" ∷ []) (codes "HOME=/root" ∷ []) foreign

resolve-reaches_no_missing_id_example :
    (run_of (read_labels (codes "true\ttool\t\n")) ≢ err no_run_id)
    × (tool_of (read_labels (codes "true\ttool\t\n")) ≢ err no_run_id)
resolve-reaches_no_missing_id_example = resolve-reaches_no_missing_id (codes "true\ttool\t\n")
