-- ===== src/Forward.antt =====
-- internal/forward/forward.go: a port of the host relayed to a server in a jail.
pub mod Guarded
use netcage.Base.{
  ℕ, Bool, true, false, Option, none, some, List, [], ◌∷◌, ◌++◌, drop, if◌then◌else◌, ◌==◌, Result,
  ok, err,
}
use netcage.Text.{Text, codes, eqb, is_empty}
use netcage.Text.Numbers.{decimal}
use netcage.Jail.Effects.{
  podman, socat, say, warn, World, Reply, History, ResolveError, Io, ◌>>-◌, attempt, perform,
  return, settle,
}
use netcage.Jail.GraphRoot.{Account, graph_root}
use netcage.Jail.Resolve.{resolve_managed_run, tool_name_for, sidecar_name_for}
use netcage.Jail.Running.{require_running, told}

-- `Config`; the ports are those that the command line lets through.
pub record ForwardConfig : Type 0 where
  pub container : Text
  pub port : ℕ
  pub host_port : ℕ
  pub bind : Text

pub data ForwardError : Type 0 where
  no_run : ResolveError → ForwardError
  tool_unavailable tool_stopped no_connector relay_failed : ForwardError

abbrev pub loopback_bind : Text
loopback_bind = codes "127.0.0.1"

abbrev pub all_interfaces_bind : Text
all_interfaces_bind = codes "0.0.0.0"

-- The bind address and the host's port, with their defaults.
abbrev pub bind_of : ForwardConfig → Text
bind_of c = if is_empty c.bind then loopback_bind else c.bind

abbrev pub host_port_of : ForwardConfig → ℕ
host_port_of c = if c.host_port == 0 then c.port else c.host_port

-- The address that the relay listens at.
unfoldable pub listen_address : ForwardConfig → Text
listen_address c =
    codes "TCP-LISTEN:"
    ++ (decimal (host_port_of c) ++ (codes ",bind=" ++ (bind_of c ++ codes ",fork,reuseaddr")))

-- The command that the relay runs for a connection.
unfoldable pub connect_command : Account → Text → ℕ → Text
connect_command a sidecar port =
    codes "podman --root "
    ++ (graph_root a
        ++ (codes " exec -i " ++ (sidecar ++ (codes " nc 127.0.0.1 " ++ decimal port))))

-- `ListenArgs`, of the name of the sidecar.
unfoldable pub listen_args : Account → ForwardConfig → Text → List Text
listen_args a c sidecar =
    codes "socat" ∷ listen_address c ∷ (codes "EXEC:" ++ connect_command a sidecar c.port) ∷ []

unfoldable pub exposure_warning : ForwardConfig → Text
exposure_warning c =
    codes "WARNING: exposing "
    ++ (c.container
        ++ (codes ":"
            ++ (decimal c.port
                ++ (codes " on ALL interfaces (0.0.0.0:"
                    ++ (decimal (host_port_of c)
                        ++ codes
                            "); any host on your LAN can reach the jailed tool's server. Ctrl-C to stop.\n")))))

unfoldable pub start_line : ForwardConfig → Text
start_line c =
    codes "forwarding http://"
    ++ (bind_of c
        ++ (codes ":"
            ++ (decimal (host_port_of c)
                ++ (codes " -> "
                    ++ (c.container
                        ++ (codes ":" ++ (decimal c.port ++ codes " (Ctrl-C to stop)\n")))))))

module _ (w : World) (a : Account) where
  -- `requireToolRunning`.
  unfoldable pub require_tool_running : Text → Io ForwardError (Unit {0})
  require_tool_running tool = require_running w tool_unavailable tool_stopped tool

  abbrev pub probe_connector : Text → List Text
  probe_connector sidecar =
      codes "exec" ∷ sidecar ∷ codes "sh" ∷ codes "-c" ∷ codes "command -v nc" ∷ []

  -- `requireConnector`.
  unfoldable pub require_connector : Text → Io ForwardError Text
  require_connector sidecar = attempt w (podman (probe_connector sidecar)) no_connector

  -- The warning, when the bind is on all interfaces.
  unfoldable pub warn_exposure : ForwardConfig → Io ForwardError (Unit {0})
  warn_exposure c h =
      if eqb (bind_of c) all_interfaces_bind
      then (warn (exposure_warning c) ∷ h, ok tt)
      else (h, ok tt)

  -- `Run` behind its guards; a relay that the user's interrupt ended is answered as one that is done.
  unfoldable pub relay : ForwardConfig → Text → Io ForwardError Text
  relay c sidecar = warn_exposure c >>- (λ _.
      perform w (say (start_line c))
      >>- (λ _. attempt w (socat (drop 1 (listen_args a c sidecar))) relay_failed))

  -- `Run` once the run's id is known.
  unfoldable pub forward_run : ForwardConfig → Text → Io ForwardError Text
  forward_run c run_id = require_tool_running (tool_name_for run_id) >>- (λ _.
      require_connector (sidecar_name_for run_id) >>- (λ _. relay c (sidecar_name_for run_id)))

  -- `Run`.
  unfoldable pub run_forward : ForwardConfig → Io ForwardError Text
  run_forward c = (λ h. told no_run (resolve_managed_run w c.container h)) >>- forward_run c
