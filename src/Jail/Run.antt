-- ===== src/Jail/Run.antt =====
-- internal/jail/run.go: `Run`, from the search for the helper to the removal of the containers.
pub mod Verified
pub mod Guarded
use netcage.Base.{
  String, ℕ, ◌+◌, Bool, true, false, not, ◌&&◌, ◌||◌, Option, none, some, List, [], ◌∷◌, ◌++◌, map,
  leb, ◌==◌, if◌then◌else◌, Result, ok, err,
}
use netcage.Text.{Text, codes, is_empty, contains, has_prefix, split, trim_space}
use netcage.Text.Numbers.{decimal}
use netcage.Net.Print.{ip_string}
use netcage.Net.V4.{format_ipv4}
use netcage.Cli.Allow.{DirectAllow}
use netcage.Cli.Command.{join_host_port}
use netcage.Jail.Config.{JailConfig, mapped_host_loopback, sidecar_name, tool_name}
use netcage.Jail.Firewall.{firewall_verify_rules, check_rules_present}
use netcage.Jail.Containers.{sidecar_run_args, tool_run_args}
use netcage.Jail.Setup.{classify_podman_setup_failure}
use netcage.Jail.Fixtures.{
  write_resolv_conf, write_hosts, write_passwd, write_group, write_machine_id, remove_fixtures,
}
use netcage.Jail.Effects.{
  Event, find_helper, podman, launch, write_file, remove_file, Status, done, exited, broken, Reply,
  World, History, ToolResult, RunError, helper_missing, sidecar_failed, dns_failed,
  reachback_failed, probe_failed, rule_missing, fixture_failed, setup_failed, tool_failed, Io,
  after, return, fail, ◌>>-◌, perform, attempt,
}

-- The command that shows the chain of outgoing packets in the sidecar.
abbrev pub show_chain : JailConfig → Text → Event
show_chain c table =
    podman (codes "exec" ∷ sidecar_name c ∷ table ∷ codes "-S" ∷ codes "OUTPUT" ∷ [])

abbrev pub require : Option Text → Io RunError (Unit {0})
require none h = (h, ok tt)
require (some rule) h = (h, err (rule_missing rule))

-- The arguments that start the forwarder.
unfoldable pub dns_args : JailConfig → List Text
dns_args c =
    (codes "exec" ∷ codes "-d" ∷ sidecar_name c ∷ codes "/usr/local/bin/netcage-dns" ∷ [])
    ++ ((codes "-listen" ∷ codes "127.0.0.1:53" ∷ [])
        ++ ((codes "-proxy"
              ∷ (if c.proxy_on_host_loopback
                  then mapped_host_loopback ++ (b':' ∷ c.proxy.port)
                  else join_host_port c.proxy.host c.proxy.port)
              ∷ [])
            ++ ((if is_empty c.dns_upstream then [] else codes "-upstream" ∷ c.dns_upstream ∷ [])
                ++ (if is_empty c.proxy.username
                    then []
                    else codes "-user"
                      ∷ c.proxy.username
                      ∷ codes "-pass"
                      ∷ c.proxy.password
                      ∷ []))))

-- The arguments of the probe of a host and port from the jail's network.
unfoldable pub probe_args : JailConfig → Text → Text → List Text
probe_args c host port =
    codes "run"
    ∷ codes "--rm"
    ∷ codes "--network"
    ∷ (codes "container:" ++ sidecar_name c)
    ∷ codes "docker.io/library/alpine:latest"
    ∷ codes "sh"
    ∷ codes "-c"
    ∷ (codes "nc -z -w 3 " ++ (host ++ (b' ' ∷ port)))
    ∷ []

module _ (w : World) where
  -- The half of `verifyFirewall` for one family: the command of its chains, and the lines wanted.
  unfoldable pub verify_family : JailConfig → Text → List Text → Io RunError (Unit {0})
  verify_family c table want =
      attempt w (show_chain c table) probe_failed
      >>- (λ shown. require (check_rules_present want shown))

  -- `verifyFirewall`.
  unfoldable pub verify_firewall : JailConfig → Io RunError (Unit {0})
  verify_firewall c =
      verify_family c (codes "iptables") (firewall_verify_rules c c.proxy.port).0
      >>- (λ _. verify_family c (codes "ip6tables") (firewall_verify_rules c c.proxy.port).1)

  -- `warnUnreachableDirects`: the probes, whatever they answer.
  unfoldable pub warn_unreachable_directs : JailConfig → List DirectAllow → Io RunError (Unit {0})
  warn_unreachable_directs c [] = return tt
  warn_unreachable_directs c (a ∷ allows) =
      perform w (podman (probe_args c (ip_string a.network.ip) (decimal a.port)))
      >>- (λ _. warn_unreachable_directs c allows)

  -- `checkReachback`, where the proxy is on the host's loopback.
  unfoldable pub check_reachback : JailConfig → Io RunError Text
  check_reachback c =
      if c.proxy_on_host_loopback
      then attempt w (podman (probe_args c mapped_host_loopback c.proxy.port)) reachback_failed
      else return []

  -- What the end of the tool's command means.
  unfoldable pub tool_result : Reply → Result RunError ToolResult
  tool_result r = elim r.status [
    | done ↦ ok (record { stdout = r.out; stderr = r.stderr; exit = 0 })
    | exited n ↦ elim (classify_podman_setup_failure n r.stderr) [
      | some diagnostic ↦
          err (setup_failed (record { stdout = r.out; stderr = r.stderr; exit = 0 }) diagnostic)
      | none ↦ ok (record { stdout = r.out; stderr = r.stderr; exit = n })
    ]
    | broken ↦ err (tool_failed (record { stdout = r.out; stderr = r.stderr; exit = 0 }))
  ]

  -- The tool's command.
  unfoldable pub launch_tool : JailConfig → Io RunError ToolResult
  launch_tool c h =
      (launch (tool_run_args c) ∷ h, tool_result (w.reply h (launch (tool_run_args c))))

  -- `Run` behind the check of the firewall.
  unfoldable pub run_checked : JailConfig → Io RunError ToolResult
  run_checked c =
      attempt w (podman (dns_args c)) dns_failed
      >>- (λ _. write_resolv_conf w c.run_id)
      >>- (λ resolv. write_hosts w c.run_id >>- (λ hosts. write_passwd w c.run_id >>- (λ passwd.
          write_group w c.run_id >>- (λ group. write_machine_id w c.run_id >>- (λ machine_id.
            check_reachback c >>- (λ _. warn_unreachable_directs c c.allow_direct) >>- (λ _.
              launch_tool (record c {
                resolv_conf_path = resolv;
                hosts_path = hosts;
                passwd_path = passwd;
                group_path = group;
                machine_id_path = machine_id;
              })))))))

  -- `Run` between the search for the helper and the teardown.
  unfoldable pub run_body : JailConfig → Io RunError ToolResult
  run_body c =
      attempt w (podman (sidecar_run_args c)) sidecar_failed
      >>- (λ _. verify_firewall c)
      >>- (λ _. run_checked c)

  -- The events of `Teardown`, newest first: a removal that fails does not stop the next.
  unfoldable pub teardown : JailConfig → History → History
  teardown c h =
      if c.ephemeral
      then podman (codes "rm" ∷ codes "-f" ∷ codes "-i" ∷ sidecar_name c ∷ [])
        ∷ podman (codes "rm" ∷ codes "-f" ∷ codes "-i" ∷ tool_name c ∷ [])
        ∷ remove_fixtures w c.run_id h
      else h

  abbrev pub torn_down :
      JailConfig → History × Result RunError ToolResult → History × Result RunError ToolResult
  torn_down c (h, r) = (teardown c h, r)

  abbrev pub with_helper :
      JailConfig → History × Result RunError Text → History × Result RunError ToolResult
  with_helper c (h, err e) = (h, err e)
  with_helper c (h, ok path) = torn_down c (run_body (record c { dns_helper_path = path }) h)

  -- `Run`, the run's id behind the configuration.
  unfoldable pub run : JailConfig → Io RunError ToolResult
  run c h = with_helper c (attempt w find_helper helper_missing h)
