-- ===== src/Verify/Command.antt =====
-- internal/verify/verify.go: `RunCommandVerify`, whose two checks run through the jail.
pub mod Passes
use netcage.Base.{
  ℕ, Bool, true, false, ◌&&◌, ◌||◌, Option, none, some, List, [], ◌∷◌, ◌++◌, if◌then◌else◌, Result,
  ok, err,
}
use netcage.Text.{Text, codes, eqb, is_empty, member}
use netcage.Images.{dns_probe_reference}
use netcage.Cli.Command.{ProxyConfig}
use netcage.Jail.Config.{JailConfig}
use netcage.Jail.Effects.{
  return, ◌>>-◌, Io, podman, World, Reply, Status, done, exited, broken, History, RunError,
  ToolResult,
}
use netcage.Jail.Run.{run}
use netcage.Verify.{
  Assertion, failing, passing, not_run, leak, unproven, first_ip, dns_over_tcp_assertion,
}

-- `isHostLoopback`.
abbrev pub is_host_loopback : Text → Bool
is_host_loopback host = member host (codes "127.0.0.1" ∷ codes "::1" ∷ codes "localhost" ∷ [])

-- A one-shot jail for a probe, of the id that its run is given.
abbrev pub probe_jail : ProxyConfig → Text → Text → List Text → JailConfig
probe_jail proxy run_id image argv = record {
  proxy = proxy;
  image = image;
  tool_argv = argv;
  mounts = [];
  workdir = [];
  run_id = run_id;
  env = [];
  user = [];
  entrypoint = [];
  pass_through_flags = [];
  allow_direct = [];
  ephemeral = true;
  proxy_on_host_loopback = is_host_loopback proxy.host;
  interactive = false;
  dns_upstream = [];
  dns_helper_path = [];
  resolv_conf_path = [];
  hosts_path = [];
  passwd_path = [];
  group_path = [];
  machine_id_path = [];
}

-- The jail of the exit-address check.
abbrev pub exit_ip_jail : ProxyConfig → Text → JailConfig
exit_ip_jail proxy run_id =
    probe_jail proxy run_id (codes "docker.io/library/alpine:latest")
      (codes "sh" ∷ codes "-c" ∷ codes "wget -qO- -T 10 http://api.ipify.org/ 2>&1 || true" ∷ [])

-- The jail of the check of names.
abbrev pub dns_jail : ProxyConfig → Text → JailConfig
dns_jail proxy run_id = probe_jail proxy run_id dns_probe_reference (
    codes "sh"
    ∷ codes "-c"
    ∷ codes "getent ahostsv4 one.one.one.one 2>/dev/null | head -n1 || true"
    ∷ [])

-- The address that was seen, where there is one.
abbrev seen_ip : Result RunError Text → Option Text
seen_ip (err e) = none
seen_ip (ok ip) = if is_empty ip then none else some ip

abbrev with_seen : History × Result RunError Text → History × Option Text
with_seen (h, r) = (h, seen_ip r)

-- `ExitIPProbe`.
unfoldable pub exit_ip_probe : World → JailConfig → Io RunError Text
exit_ip_probe w c = run w c >>- (λ r. return (first_ip r.stdout))

-- `ExitIPForProxy`, of the id of its run; `none` is an error, which its callers pass over.
unfoldable pub exit_ip_for_proxy : World → ProxyConfig → Text → History → History × Option Text
exit_ip_for_proxy w proxy run_id h = with_seen (exit_ip_probe w (exit_ip_jail proxy run_id) h)

-- `hostExitIP`, of the body of the host's own request, which is `none` where that failed.
unfoldable pub host_exit_ip : Option Text → Option Text
host_exit_ip none = none
host_exit_ip (some body) = if is_empty (first_ip body) then none else some (first_ip body)

-- The verdict on the address that the jail was seen with.
unfoldable pub exit_ip_verdict : Text → Text → Assertion
exit_ip_verdict host_ip jail_ip =
    if is_empty jail_ip
    then failing unproven
    else if eqb jail_ip host_ip
    then failing leak
    else passing

abbrev pub judged : Text → History × Result RunError ToolResult → History × Assertion
judged host_ip (h, err e) = (h, failing not_run)
judged host_ip (h, ok r) = (h, exit_ip_verdict host_ip (first_ip r.stdout))

abbrev pub exit_ip_name : Text
exit_ip_name = codes "forced-egress-exit-ip-differs-from-host"

abbrev pub dns_name : Text
dns_name = codes "dns-resolves-over-tcp-glibc"

abbrev pub named : Text → History × Assertion → History × Assertion
named name (h, a) = (h, record a { name = name })

abbrev pub resolved : History × Result RunError ToolResult → History × Assertion
resolved (h, err e) = (h, dns_over_tcp_assertion (some (err e)))
resolved (h, ok r) = (h, dns_over_tcp_assertion (some (ok r.stdout)))

module _ (w : World) where
  unfoldable pub exit_ip_check : Option Text → JailConfig → History → History × Assertion
  exit_ip_check none c h = (h, failing not_run)
  exit_ip_check (some host_ip) c h = judged host_ip (run w c h)

  abbrev pub pulled : Status → JailConfig → History → History × Assertion
  pulled done c h = resolved (run w c h)
  pulled (exited n) c h = (h, dns_over_tcp_assertion none)
  pulled broken c h = (h, dns_over_tcp_assertion none)

  abbrev pub pull_image : List Text
  pull_image = codes "pull" ∷ dns_probe_reference ∷ []

  -- The second check: the image is pulled on the host's network, then the probe runs.
  unfoldable pub dns_check : JailConfig → History → History × Assertion
  dns_check c h = pulled (w.reply h (podman pull_image)).status c (podman pull_image ∷ h)

  -- `RunCommandVerify`, of the body that the host's own request got and the ids of the two runs: the
  -- report of the two checks in order.
  unfoldable pub run_command_verify :
      ProxyConfig → Option Text → Text → Text → History → History × List Assertion
  run_command_verify proxy body first_id second_id h =
      let first =
        named exit_ip_name (exit_ip_check (host_exit_ip body) (exit_ip_jail proxy first_id) h) in
      let second = named dns_name (dns_check (dns_jail proxy second_id) first.0) in
      (second.0, first.1 ∷ second.1 ∷ [])
