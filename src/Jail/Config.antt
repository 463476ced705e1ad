-- ===== src/Jail/Config.antt =====
-- internal/jail/jail.go: `Config`, the names of a run's containers, and what the allowlist asks for.
use netcage.Base.{Bool, true, false, not, ◌||◌, List, [], ◌∷◌, ◌++◌, if◌then◌else◌}
use netcage.Text.{Text, codes}
use netcage.Net.Print.{net_string}
use netcage.Cli.Allow.{DirectAllow}
use netcage.Cli.Command.{ProxyConfig}

-- `mappedHostLoopback`.
abbrev pub mapped_host_loopback : Text
mapped_host_loopback = codes "169.254.1.1"

-- `Config`, less its readers, its writers and the mark that the forwarder is up.
pub record JailConfig : Type 0 where
  pub proxy : ProxyConfig
  pub image : Text
  pub tool_argv : List Text
  pub mounts : List Text
  pub workdir : Text
  pub run_id : Text
  pub env : List Text
  pub user : Text
  pub entrypoint : Text
  pub pass_through_flags : List Text
  pub allow_direct : List DirectAllow
  pub ephemeral : Bool
  pub proxy_on_host_loopback : Bool
  pub interactive : Bool
  pub dns_upstream : Text
  pub dns_helper_path : Text
  pub resolv_conf_path : Text
  pub hosts_path : Text
  pub passwd_path : Text
  pub group_path : Text
  pub machine_id_path : Text

-- `sidecarName`.
abbrev pub sidecar_name : JailConfig → Text
sidecar_name c = codes "netcage-run-" ++ (c.run_id ++ codes "-sidecar")

-- `toolName`.
abbrev pub tool_name : JailConfig → Text
tool_name c = codes "netcage-run-" ++ (c.run_id ++ codes "-tool")

-- `RoleTool` and `RoleSidecar`.
abbrev pub role_tool : Text
role_tool = codes "tool"

abbrev pub role_sidecar : Text
role_sidecar = codes "sidecar"

-- `managedLabelArgs`.
unfoldable pub managed_label_args : JailConfig → Text → List Text
managed_label_args c role =
    codes "--label"
    ∷ codes "netcage.managed=true"
    ∷ codes "--label"
    ∷ (codes "netcage.role=" ++ role)
    ∷ codes "--label"
    ∷ (codes "netcage.run-id=" ++ c.run_id)
    ∷ []

some_host_loopback : List DirectAllow → Bool
some_host_loopback [] = false
some_host_loopback (a ∷ as') = if a.host_loopback then true else some_host_loopback as'

some_lan : List DirectAllow → Bool
some_lan [] = false
some_lan (a ∷ as') = if not a.host_loopback then true else some_lan as'

-- `hasHostLoopbackAllow`.
unfoldable pub has_host_loopback_allow : JailConfig → Bool
unfolding some_host_loopback
has_host_loopback_allow c = some_host_loopback c.allow_direct

-- `hasLANAllow`.
unfoldable pub has_lan_allow : JailConfig → Bool
unfolding some_lan
has_lan_allow c = some_lan c.allow_direct

-- `mapExists`.
unfoldable pub map_exists : JailConfig → Bool
map_exists c = c.proxy_on_host_loopback || has_host_loopback_allow c

-- `allowDest`.
unfoldable pub allow_dest : DirectAllow → Text
allow_dest a = if a.host_loopback then mapped_host_loopback else net_string a.network

-- `verifyDest`.
unfoldable pub verify_dest : DirectAllow → Text
verify_dest a =
    if a.host_loopback then mapped_host_loopback ++ codes "/32" else net_string a.network

-- `rfc1918DropRanges`.
abbrev pub rfc1918_drop_ranges : List Text
rfc1918_drop_ranges =
    codes "10.0.0.0/8"
    ∷ codes "172.16.0.0/12"
    ∷ codes "192.168.0.0/16"
    ∷ codes "169.254.0.0/16"
    ∷ []
