-- ===== src/Ports/Run/Guarded.antt =====
-- What `netcage ports` did before it read from a container, and what it printed.
use netcage.Base.{Bool, true, false, not, ◌&&◌, [], ◌∷◌, ◌≡◌, ◌∙◌, refl, ok}
use netcage.Text.{Text, codes, eqb}
use netcage.Text.Laws.{eqb_refl}
use netcage.Jail.Effects.{after, attempt, perform, say, Event, podman, World, History, ◌>>-◌}
use netcage.Jail.Effects.Laws.{occurs, after-quiet}
use netcage.Jail.Resolve.{inspect_labels, read_labels, run_of, sidecar_name_for}
use netcage.Jail.Running.{inspect_running, says_true}
use netcage.Jail.Running.Laws.{require_running-occurs, resolve_managed_run-occurs}
use netcage.Ports.Run.{
  PortsConfig, no_run, jail_unavailable, jail_stopped, tcp_path, tcp6_path, read_proc, rendered,
  require_sidecar_running, list_ports, run_ports,
}

-- A command in a container.
unfoldable pub is_exec : Event → Bool
unfolding eqb
is_exec (podman (verb ∷ _)) = eqb verb (codes "exec")
is_exec _ = false

abbrev pub execs : History → Bool
execs = occurs is_exec

-- A command in another container.
unfoldable pub is_exec_outside : Text → Event → Bool
unfolding eqb
is_exec_outside sidecar (podman (verb ∷ target ∷ _)) =
    eqb verb (codes "exec") && not (eqb target sidecar)
is_exec_outside sidecar (podman (verb ∷ [])) = eqb verb (codes "exec")
is_exec_outside _ _ = false

reads-inside :
    (w : World) (json : Bool) (sidecar : Text) (h : History)
    → occurs
        (is_exec_outside sidecar)
        (after
          (read_proc w sidecar tcp_path h)
          (λ v4. read_proc w sidecar tcp6_path >>- (λ v6. perform w (say (rendered json v4 v6))))).0
      ≡ occurs (is_exec_outside sidecar) h
unfolding ◌>>-◌ read_proc attempt perform occurs is_exec_outside codes
reads-inside w json sidecar h =
    let kind = is_exec_outside sidecar in
    let read : (path : Text) (h' : History)
        → occurs kind (read_proc w sidecar path h').0 ≡ occurs kind h' =
      λ path h'. rw (eqb_refl sidecar) refl in
    after-quiet kind (read_proc w sidecar tcp_path h) _ (λ v4 h1.
      after-quiet kind (read_proc w sidecar tcp6_path h1) _ (λ v6 h2. refl) ∙ read tcp6_path h1)
    ∙ read tcp_path h

-- Whatever the outside answers: if `netcage ports`, with no command in a container in the history
-- before it, runs a command in a container, then the labels of the named container were those of a
-- run of netcage, the inspection of this run's sidecar said that it is running, and no command was run
-- in another container than this sidecar.
pub ports-guarded :
    (w : World) (c : PortsConfig) (h : History)
    → execs h ≡ false
    → execs (run_ports w c h).0 ≡ true
    → (run_id : Text) × (run_of (read_labels (w.reply h (inspect_labels c.container)).out)
        ≡ ok run_id)
      × (says_true
            (w.reply
              (inspect_labels c.container ∷ h)
              (inspect_running (sidecar_name_for run_id))).out
          ≡ true)
      × (occurs (is_exec_outside (sidecar_name_for run_id)) (run_ports w c h).0
          ≡ occurs (is_exec_outside (sidecar_name_for run_id)) h)
unfolding is_exec_outside after run_ports ◌>>-◌ list_ports require_sidecar_running occurs is_exec
    codes
ports-guarded w c h quiet k =
    let (run_id, managed, told_run, k1) =
      resolve_managed_run-occurs is_exec w h no_run c.container _ quiet refl k in
    let (running, sidecar_up, _) =
      require_running-occurs is_exec w (inspect_labels c.container ∷ h) jail_unavailable
        jail_stopped (sidecar_name_for run_id) _ quiet refl k1 in
    (
      run_id,
      managed,
      running,
      rw (told_run, sidecar_up)
          (reads-inside w c.json (sidecar_name_for run_id)
            (inspect_running (sidecar_name_for run_id) ∷ inspect_labels c.container ∷ h)),
    )
