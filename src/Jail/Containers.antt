-- ===== src/Jail/Containers.antt =====
-- internal/jail/jail.go: the arguments of podman that start the sidecar and the tool.
pub mod Routes
use netcage.Base.{Bool, true, false, List, [], ◌∷◌, ◌++◌, if◌then◌else◌}
use netcage.Text.{Text, codes, is_empty, member, join}
use netcage.Images.{redirector_reference}
use netcage.Cli.Allow.{DirectAllow}
use netcage.Jail.Config.{
  JailConfig, mapped_host_loopback, allow_dest, map_exists, managed_label_args, sidecar_name,
  tool_name, role_tool, role_sidecar,
}
use netcage.Jail.ProxyUrl.{sidecar_proxy_url}
use netcage.Jail.Firewall.{firewall_script}

-- `proxyReachbackAddr`.
unfoldable pub proxy_reachback_addr : JailConfig → Text
proxy_reachback_addr c = if c.proxy_on_host_loopback then mapped_host_loopback else c.proxy.host

-- The route of one entry of the allowlist.
unfoldable pub route_of : DirectAllow → Text
route_of a = if a.host_loopback then allow_dest a ++ codes "/32" else allow_dest a

-- The loop of `excludedRoutes`: the routes so far are also the ones seen.
unfoldable pub add_routes : List Text → List DirectAllow → List Text
add_routes routes [] = routes
add_routes routes (a ∷ as') =
    add_routes (if member (route_of a) routes then routes else routes ++ (route_of a ∷ [])) as'

unfoldable pub route_list : JailConfig → List Text
route_list c = add_routes ((proxy_reachback_addr c ++ codes "/32") ∷ []) c.allow_direct

-- `excludedRoutes`.
unfoldable pub excluded_routes : JailConfig → Text
excluded_routes c = join (b',' ∷ []) (route_list c)

-- A mount of a file at a path of the container, read only, where the file is set.
unfoldable pub mount_at : Text → Text → List Text
mount_at path target =
    if is_empty path then [] else codes "-v" ∷ (path ++ (b':' ∷ (target ++ codes ":ro"))) ∷ []

-- The same option before each of the values.
unfoldable pub each_with : Text → List Text → List Text
each_with option [] = []
each_with option (v ∷ vs) = option ∷ v ∷ each_with option vs

-- An option and its value, where the value is set.
unfoldable pub option_if_set : Text → Text → List Text
option_if_set option v = if is_empty v then [] else option ∷ v ∷ []

-- The mounts of the files that stand for the host's.
unfoldable pub fixture_mounts : JailConfig → List Text
fixture_mounts c =
    mount_at c.hosts_path (codes "/etc/hosts")
    ++ (mount_at c.passwd_path (codes "/etc/passwd")
        ++ (mount_at c.group_path (codes "/etc/group")
            ++ mount_at c.machine_id_path (codes "/etc/machine-id")))

-- The part of `ToolRunArgs` that netcage sets before the caller's flags.
unfoldable pub jail_args : JailConfig → List Text
jail_args c =
    (codes "run" ∷ codes "--name" ∷ tool_name c ∷ (if c.ephemeral then codes "--rm" ∷ [] else []))
    ++ (managed_label_args c role_tool
        ++ ((codes "--network" ∷ (codes "container:" ++ sidecar_name c) ∷ [])
            ++ ((if c.interactive then codes "-it" ∷ [] else [])
                ++ (mount_at c.resolv_conf_path (codes "/etc/resolv.conf")
                    ++ ((codes "--hostname" ∷ codes "netcage" ∷ []) ++ fixture_mounts c)))))

-- `ToolRunArgs`.
unfoldable pub tool_run_args : JailConfig → List Text
tool_run_args c =
    jail_args c
    ++ (each_with (codes "-v") c.mounts
        ++ (option_if_set (codes "-w") c.workdir
            ++ (each_with (codes "-e") c.env
                ++ (option_if_set (codes "-u") c.user
                    ++ (option_if_set (codes "--entrypoint") c.entrypoint
                        ++ (c.pass_through_flags ++ (c.image ∷ c.tool_argv)))))))

-- The options of pasta that `SidecarRunArgs` composes.
unfoldable pub pasta_network : JailConfig → Text
pasta_network c =
    codes "pasta:"
    ++ join (b',' ∷ []) (
        codes "-I"
        ∷ codes "netcage0"
        ∷ (if map_exists c then codes "--map-host-loopback" ∷ mapped_host_loopback ∷ [] else []))

-- The environment of the sidecar.
unfoldable pub sidecar_env : JailConfig → List Text
sidecar_env c =
    codes "-e"
    ∷ codes "CLONE_MAIN=0"
    ∷ codes "-e"
    ∷ (codes "TUN_EXCLUDED_ROUTES=" ++ excluded_routes c)
    ∷ codes "-e"
    ∷ (codes "PROXY=" ++ sidecar_proxy_url c)
    ∷ codes "-e"
    ∷ (codes "EXTRA_COMMANDS=" ++ firewall_script c c.proxy.port)
    ∷ []

-- `SidecarRunArgs`.
unfoldable pub sidecar_run_args : JailConfig → List Text
sidecar_run_args c =
    (codes "run" ∷ codes "-d" ∷ codes "--name" ∷ sidecar_name c ∷ [])
    ++ (managed_label_args c role_sidecar
        ++ ((codes "--network" ∷ pasta_network c ∷ codes "--cap-add" ∷ codes "NET_ADMIN" ∷ [])
            ++ ((codes "--device" ∷ codes "/dev/net/tun" ∷ [])
                ++ (sidecar_env c
                    ++ (mount_at c.dns_helper_path (codes "/usr/local/bin/netcage-dns")
                        ++ (redirector_reference ∷ []))))))
