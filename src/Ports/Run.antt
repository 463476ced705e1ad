-- ===== src/Ports/Run.antt =====
-- internal/ports/ports.go: `Run`, over the effects.
pub mod Guarded
use netcage.Base.{Bool, true, false, List, [], ◌∷◌, ◌++◌, if◌then◌else◌, Result, ok, err}
use netcage.Text.{Text, codes, eqb, trim_space}
use netcage.Jail.Effects.{
  Event, podman, say, World, History, Reply, ResolveError, Io, ◌>>-◌, attempt, perform,
}
use netcage.Jail.Running.{require_running, told}
use netcage.Jail.Resolve.{resolve_managed_run, sidecar_name_for}
use netcage.Ports.Listeners.{Listener, parse_proc_net_tcp}
use netcage.Ports.Show.{render_table, render_json}

-- `Config`.
pub record PortsConfig : Type 0 where
  pub container : Text
  pub json : Bool

pub data PortsError : Type 0 where
  no_run : ResolveError → PortsError
  jail_unavailable : PortsError
  jail_stopped : PortsError
  read_failed : Text → PortsError

abbrev pub tcp_path : Text
tcp_path = codes "/proc/net/tcp"

abbrev pub tcp6_path : Text
tcp6_path = codes "/proc/net/tcp6"

abbrev pub cat_in : Text → Text → Event
cat_in sidecar path = podman (codes "exec" ∷ sidecar ∷ codes "cat" ∷ path ∷ [])

-- What is printed of both files.
unfoldable pub rendered : Bool → Text → Text → Text
rendered json v4 v6 =
    if json then render_json (parse_proc_net_tcp v4 v6) else render_table (parse_proc_net_tcp v4 v6)

module _ (w : World) where
  -- `requireSidecarRunning`.
  unfoldable pub require_sidecar_running : Text → Io PortsError (Unit {0})
  require_sidecar_running sidecar = require_running w jail_unavailable jail_stopped sidecar

  -- `readProc`.
  unfoldable pub read_proc : Text → Text → Io PortsError Text
  read_proc sidecar path = attempt w (cat_in sidecar path) (read_failed path)

  -- `Run` once the sidecar's name is known.
  unfoldable pub list_ports : Bool → Text → Io PortsError Reply
  list_ports json sidecar = require_sidecar_running sidecar >>- (λ _.
      read_proc sidecar tcp_path
      >>- (λ v4. read_proc sidecar tcp6_path >>- (λ v6. perform w (say (rendered json v4 v6)))))

  -- `Run`.
  unfoldable pub run_ports : PortsConfig → Io PortsError Reply
  run_ports c =
      (λ h. told no_run (resolve_managed_run w c.container h))
      >>- (λ run_id. list_ports c.json (sidecar_name_for run_id))
