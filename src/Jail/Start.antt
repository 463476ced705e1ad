-- ===== src/Jail/Start.antt =====
-- internal/jail/start.go: `Start`, which revives a kept run, and the comparison of the configuration
-- that its sidecar was made with.
pub mod Launched
pub mod Reconcile
pub mod Guarded
use netcage.Base.{
  Bool, true, false, not, ◌&&◌, ◌||◌, Option, none, some, List, [], ◌∷◌, ◌++◌, if◌then◌else◌,
  Result, ok, err,
}
use netcage.Text.{Text, codes, eqb, cut_prefix}
use netcage.Jail.Config.{JailConfig, sidecar_name, tool_name}
use netcage.Jail.ProxyUrl.{sidecar_proxy_url}
use netcage.Jail.Firewall.{firewall_script}
use netcage.Jail.Containers.{excluded_routes}
use netcage.Jail.Fixtures.{
  write_resolv_conf, write_hosts, write_passwd, write_group, write_machine_id_preserving,
}
use netcage.Jail.Resolve.{resolve_managed_tool}
use netcage.Jail.Run.{verify_firewall, dns_args, check_reachback, tool_result, torn_down}
use netcage.Jail.Effects.{
  Event, find_helper, podman, launch, World, History, ToolResult, RunError, ResolveError,
  helper_missing, sidecar_failed, dns_failed, unresolved, config_unreadable, config_undecodable,
  config_changed, Io, after, ◌>>-◌, attempt, settle,
}

-- `bakedSidecarConfig`.
pub record Baked : Type 0 where
  pub proxy : Text
  pub excluded_routes : Text
  pub extra_commands : Text

abbrev pub nothing_baked : Baked
nothing_baked = record { proxy = []; excluded_routes = []; extra_commands = [] }

-- One entry of the environment in the loop of `readBakedSidecarConfig`.
unfoldable pub bake_one : Baked → Text → Baked
bake_one b kv = elim (cut_prefix (codes "PROXY=") kv) [
  | some v ↦ record b { proxy = v }
  | none ↦ elim (cut_prefix (codes "TUN_EXCLUDED_ROUTES=") kv) [
    | some v ↦ record b { excluded_routes = v }
    | none ↦ elim (cut_prefix (codes "EXTRA_COMMANDS=") kv) [
      | some v ↦ record b { extra_commands = v }
      | none ↦ b
    ]
  ]
]

-- The loop of `readBakedSidecarConfig`.
unfoldable pub bake : Baked → List Text → Baked
bake b [] = b
bake b (kv ∷ kvs) = bake (bake_one b kv) kvs

-- What the configuration would bake.
unfoldable pub wanted : JailConfig → Baked
wanted c = record {
  proxy = sidecar_proxy_url c;
  excluded_routes = excluded_routes c;
  extra_commands = firewall_script c c.proxy.port;
}

-- `reconcileJailConfig`: the error says whether the proxy differs, and whether the rest does.
unfoldable pub reconcile_jail_config : JailConfig → Baked → Result RunError (Unit {0})
reconcile_jail_config c b =
    let same_proxy = eqb (wanted c).proxy b.proxy in
    let same_rest =
      eqb (wanted c).excluded_routes b.excluded_routes
      && eqb (wanted c).extra_commands b.extra_commands in
    if same_proxy && same_rest then ok tt else err (config_changed (not same_proxy) (not same_rest))

-- `SidecarStartArgs`.
abbrev pub sidecar_start_args : JailConfig → List Text
sidecar_start_args c = codes "start" ∷ sidecar_name c ∷ []

-- `ToolStartArgs`.
unfoldable pub tool_start_args : JailConfig → List Text
tool_start_args c =
    codes "start"
    ∷ ((if c.interactive then codes "-a" ∷ codes "-i" ∷ [] else codes "-a" ∷ [])
        ++ (tool_name c ∷ []))

abbrev pub baked_from : Option (List Text) → Result RunError Baked
baked_from none = err config_undecodable
baked_from (some kvs) = ok (bake nothing_baked kvs)

abbrev pub inspect_env : Text → Event
inspect_env name =
    podman (codes "inspect" ∷ codes "--format" ∷ codes "{{json .Config.Env}}" ∷ name ∷ [])

abbrev pub lifted : {A : Type 0} → History × Result ResolveError A → History × Result RunError A
lifted (h, ok a) = (h, ok a)
lifted (h, err e) = (h, err (unresolved e))

module _ (w : World) where
  -- `readBakedSidecarConfig`.
  unfoldable pub read_baked_sidecar_config : Text → Io RunError Baked
  read_baked_sidecar_config name =
      attempt w (inspect_env name) config_unreadable
      >>- (λ out. settle (baked_from (w.decode_texts out)))

  -- The tool's command, attached.
  unfoldable pub launch_start : JailConfig → Io RunError ToolResult
  launch_start c h =
      (launch (tool_start_args c) ∷ h, tool_result w (w.reply h (launch (tool_start_args c))))

  -- `Start` behind the check of the firewall.
  unfoldable pub start_checked : JailConfig → Io RunError ToolResult
  start_checked c =
      attempt w (podman (dns_args c)) dns_failed
      >>- (λ _. write_resolv_conf w c.run_id)
      >>- (λ _. write_hosts w c.run_id)
      >>- (λ _. write_passwd w c.run_id)
      >>- (λ _. write_group w c.run_id)
      >>- (λ _. write_machine_id_preserving w c.run_id)
      >>- (λ _. check_reachback w c)
      >>- (λ _. launch_start c)

  -- `Start` between the comparison and the teardown.
  unfoldable pub start_body : JailConfig → Io RunError ToolResult
  start_body c =
      attempt w (podman (sidecar_start_args c)) sidecar_failed
      >>- (λ _. verify_firewall w c)
      >>- (λ _. start_checked c)

  -- `Start` once the run's id is known.
  unfoldable pub start_run : JailConfig → Io RunError ToolResult
  start_run c = attempt w find_helper helper_missing >>- (λ _.
      read_baked_sidecar_config (sidecar_name c) >>- (λ baked.
        settle (reconcile_jail_config c baked) >>- (λ _ h. torn_down w c (start_body c h))))

  -- `Start`.
  unfoldable pub start : JailConfig → Text → Io RunError ToolResult
  start c name =
      (λ h. lifted (resolve_managed_tool w name h))
      >>- (λ run_id. start_run (record c { run_id = run_id }))
