-- ===== src/Cli/Parse.antt =====
-- internal/cli/cli.go: `ParseWithEnv`. The subcommand, then for run, verify and start the flags, the
-- configuration, the proxy by its precedence, the allowlist, and the positionals.
pub mod Resolution
pub mod Chosen
use netcage.Base.{
  Bool, true, false, not, ◌&&◌, ◌||◌, Option, none, some, List, [], ◌∷◌, ◌++◌, if◌then◌else◌,
  Result, ok, err, ◌>>=◌, ◌>>◌,
}
use netcage.Text.{Text, codes, eqb, is_empty, trim_space, contains, split}
use netcage.Images.{dev_image_reference}
use netcage.Cli.Allow.{DirectAllow, AllowError, refuse_host_loopback_proxy_port}
use netcage.Cli.Command.{
  ProxySource, flag, env, config, CreateFlag, ParseError, no_subcommand, unknown_subcommand,
  bad_allow, no_proxy, start_requires_name, start_takes_one, start_rejects, verify_takes_none,
  Command, command, ProxyConfig, is_management_verb,
}
use netcage.Cli.Proxy.{parse_proxy}
use netcage.Cli.Scan.{Scan, scan}
use netcage.Cli.System.{System}
use netcage.Cli.Config.{LoadedConfig, load_config}
use netcage.Cli.Verbs.{parse_detect_proxy, parse_setup_default, parse_forward, parse_ports}

-- `resolveRunPositionals`.
unfoldable pub resolve_run_positionals : Command → List Text → Command
resolve_run_positionals cmd [] = record cmd { image = dev_image_reference }
resolve_run_positionals cmd (image ∷ argv) = record cmd { image = image; tool_argv = argv }

-- `DefaultMountTarget`.
abbrev pub default_mount_target : Text
default_mount_target = codes "/work"

-- The segment of `mountContainerTarget` among the parts between colons; the empty text is none.
abbrev second : List Text → Text
second (a ∷ b ∷ _) = b
second _ = []

-- `mountContainerTarget`.
unfoldable pub mount_container_target : Text → Text
unfolding split
mount_container_target m = second (split b':' m)

-- `mountHasNoContainerTarget`.
abbrev pub mount_has_no_container_target : Text → Bool
mount_has_no_container_target m = not (contains b':' m)

-- One mount of `resolveRepoMountDefaults`: its value, and whether it stands at the default target.
unfoldable pub default_mount : Text → Text × Bool
default_mount m =
    if mount_has_no_container_target m
    then (m ++ (b':' ∷ default_mount_target), true)
    else (m, eqb (mount_container_target m) default_mount_target)

-- The loop of `resolveRepoMountDefaults`.
unfoldable pub default_mounts : List Text → List Text × Bool
default_mounts [] = ([], false)
default_mounts (m ∷ ms) =
    let (m', here) = default_mount m in
    let (ms', there) = default_mounts ms in (m' ∷ ms', here || there)

-- `resolveRepoMountDefaults`.
unfoldable pub resolve_repo_mount_defaults : Command → Command
resolve_repo_mount_defaults cmd =
    let (ms, at_target) = default_mounts cmd.mounts in
    record cmd {
      mounts = ms;
      workdir = if is_empty cmd.workdir && at_target then default_mount_target else cmd.workdir;
    }

abbrev none_of {ℓ} : {A : Type ℓ} → List A → Bool
none_of [] = true
none_of (_ ∷ _) = false

-- `rejectStartCreateFlags`.
unfoldable pub reject_start_create_flags : Command → Result ParseError (Unit {0})
reject_start_create_flags cmd =
    if not (none_of cmd.mounts)
    then err (start_rejects CreateFlag.mounts)
    else if not (is_empty cmd.workdir)
    then err (start_rejects CreateFlag.workdir)
    else if not (none_of cmd.env)
    then err (start_rejects CreateFlag.env)
    else if not (is_empty cmd.user)
    then err (start_rejects CreateFlag.user)
    else if not (is_empty cmd.entrypoint)
    then err (start_rejects CreateFlag.entrypoint)
    else if not (none_of cmd.pass_through_flags)
    then err (start_rejects CreateFlag.pass_through)
    else ok tt

-- The last switch for `start`.
unfoldable pub start_positionals : Command → List Text → Result ParseError Command
start_positionals cmd [] = err start_requires_name
start_positionals cmd (name ∷ []) =
    let named = record cmd { start_name = name } in reject_start_create_flags named >> ok named
start_positionals cmd (a ∷ b ∷ ps) = err (start_takes_one (a ∷ b ∷ ps))

-- The last switch for `verify`.
unfoldable pub verify_positionals : Command → List Text → Result ParseError Command
verify_positionals cmd [] = ok cmd
verify_positionals cmd (a ∷ ps) = err (verify_takes_none (a ∷ ps))

-- The last switch.
unfoldable pub resolve_positionals : Text → Command → List Text → Result ParseError Command
resolve_positionals name cmd ps =
    if eqb name (codes "run")
    then ok (resolve_repo_mount_defaults (resolve_run_positionals cmd ps))
    else if eqb name (codes "start")
    then start_positionals cmd ps
    else verify_positionals cmd ps

-- The proxy's text and its source: the flag, else the environment, else the configuration. Where none
-- of them is set the text of the flag is left, which is empty.
unfoldable pub from_config : Scan → LoadedConfig → Text × ProxySource
from_config s conf =
    if conf.present && not (is_empty (trim_space conf.proxy_url))
    then (conf.proxy_url, config)
    else (s.proxy_raw, flag)

unfoldable pub choose_proxy : Option Text → Scan → LoadedConfig → Text × ProxySource
unfolding from_config
choose_proxy none s conf = if s.proxy_from_flag then (s.proxy_raw, flag) else from_config s conf
choose_proxy (some v) s conf =
    if s.proxy_from_flag
    then (s.proxy_raw, flag)
    else if not (is_empty (trim_space v))
    then (v, env)
    else from_config s conf

-- The allowlist: that of the command line if it has any entry, else the configuration's.
unfoldable pub choose_allow : Scan → LoadedConfig → List DirectAllow
choose_allow s conf =
    if not s.allow_from_flag && conf.present && not (none_of conf.allow_direct)
    then conf.allow_direct
    else s.cmd.allow_direct

abbrev lift_allow {ℓ} : {A : Type ℓ} → Result AllowError A → Result ParseError A
lift_allow (ok a) = ok a
lift_allow (err e) = err (bad_allow e)

module _ (os : System) where
  -- The resolution of the proxy.
  unfoldable pub resolve_proxy : Text × ProxySource → Result ParseError (ProxyConfig × ProxySource)
  resolve_proxy (raw, source) =
      if is_empty (trim_space raw)
      then err no_proxy
      else parse_proxy os.parse_url raw >>= λ p. ok (p, source)

  -- The command with its proxy and its allowlist, once its loop is done.
  unfoldable pub resolve_jail : Scan → LoadedConfig → Result ParseError Command
  resolve_jail s conf = do
    (p, source) ← resolve_proxy (choose_proxy (os.lookup_env (codes "NETCAGE_PROXY")) s conf)
    let allows = choose_allow s conf
    lift_allow (refuse_host_loopback_proxy_port allows p.host p.port)
    ok (record (s.cmd) { proxy = p; proxy_source = source; allow_direct = allows })

  -- The part of `ParseWithEnv` for run, verify and start.
  unfoldable pub parse_jail_verb : Text → List Text → Result ParseError Command
  parse_jail_verb name rest = do
    s ← scan name rest
    conf ← load_config os
    cmd ← resolve_jail s conf
    resolve_positionals name cmd s.positionals

  -- `ParseWithEnv`.
  unfoldable pub parse_with_env : List Text → Result ParseError Command
  parse_with_env [] = err no_subcommand
  parse_with_env (name ∷ rest) =
      if is_management_verb name
      then ok (record (command name) { manage_argv = rest })
      else if eqb name (codes "detect-proxy")
      then parse_detect_proxy rest
      else if eqb name (codes "setup-default")
      then parse_setup_default rest
      else if eqb name (codes "forward")
      then parse_forward rest
      else if eqb name (codes "ports")
      then parse_ports rest
      else if eqb name (codes "run") || eqb name (codes "verify") || eqb name (codes "start")
      then parse_jail_verb name rest
      else err (unknown_subcommand name)
