-- ===== src/Forward/Guarded.antt =====
-- What `netcage forward` looked at before it listened on the host.
use netcage.Base.{Bool, true, false, [], ◌∷◌, ◌++◌, ◌≡◌, refl, ok, Bool-cases, inl, inr}
use netcage.Text.{Text, codes, eqb}
use netcage.Text.Numbers.{decimal}
use netcage.Jail.Effects.{
  Event, podman, socat, World, History, ◌>>-◌, after, attempt, perform, out_of,
}
use netcage.Jail.Effects.Laws.{occurs, attempt-occurs}
use netcage.Jail.GraphRoot.{Account, graph_root}
use netcage.Jail.Resolve.{inspect_labels, read_labels, run_of, tool_name_for, sidecar_name_for}
use netcage.Jail.Running.{inspect_running, says_true}
use netcage.Jail.Running.Laws.{require_running-occurs, resolve_managed_run-occurs}
use netcage.Forward.{
  ForwardConfig, no_run, tool_unavailable, tool_stopped, no_connector, require_tool_running,
  probe_connector, require_connector, listen_address, listen_args, connect_command, bind_of,
  all_interfaces_bind, warn_exposure, relay, forward_run, run_forward,
}

-- The relay of the host.
abbrev pub is_relay : Event → Bool
is_relay (socat _) = true
is_relay _ = false

abbrev pub relays : History → Bool
relays = occurs is_relay

relay-history :
    (w : World) (a : Account) (c : ForwardConfig) (sidecar : Text) (h : History)
    → (before : History) × ((relay w a c sidecar h).0
        ≡ socat (
            listen_address c
            ∷ (codes "EXEC:podman --root "
                ++ (graph_root a
                    ++ (codes " exec -i "
                        ++ (sidecar ++ (codes " nc 127.0.0.1 " ++ decimal c.port)))))
            ∷ [])
          ∷ before)
unfolding relay warn_exposure ◌>>-◌ after perform attempt listen_args connect_command codes
relay-history w a c sidecar h = elim (Bool-cases (eqb (bind_of c) all_interfaces_bind)) [
  | inl e ↦ rw (e) (_, refl)
  | inr e ↦ rw (e) (_, refl)
]

-- Whatever the outside answers: if `netcage forward`, with no relay in the history before it, starts a
-- relay, then the labels of the named container were those of a run of netcage, the inspection of this
-- run's tool said that it is running, and the probe found the connector in this run's sidecar. The relay
-- is the last event: it listens at the address of the configuration and runs, for each connection, the
-- connector in this run's sidecar to the configuration's port.
pub forward-guarded :
    (w : World) (a : Account) (c : ForwardConfig) (h : History)
    → relays h ≡ false
    → relays (run_forward w a c h).0 ≡ true
    → (run_id : Text) × (run_of (read_labels (w.reply h (inspect_labels c.container)).out)
        ≡ ok run_id)
      × (says_true
            (w.reply (inspect_labels c.container ∷ h) (inspect_running (tool_name_for run_id))).out
          ≡ true)
      × (out : Text) × (out_of no_connector (
            w.reply
              (inspect_running (tool_name_for run_id) ∷ inspect_labels c.container ∷ h)
              (podman (probe_connector w a (sidecar_name_for run_id))))
          ≡ ok out)
      × (before : History) × ((run_forward w a c h).0
          ≡ socat (
              listen_address c
              ∷ (codes "EXEC:podman --root "
                  ++ (graph_root a
                      ++ (codes " exec -i "
                          ++ (sidecar_name_for run_id
                              ++ (codes " nc 127.0.0.1 " ++ decimal c.port)))))
              ∷ [])
            ∷ before)
unfolding after attempt require_connector run_forward forward_run ◌>>-◌ require_tool_running occurs
forward-guarded w a c h quiet k =
    let (run_id, managed, told_run, k1) =
      resolve_managed_run-occurs is_relay w h no_run c.container _ quiet refl k in
    let h1 = inspect_labels c.container ∷ h in
    let (running, tool_up, k2) =
      require_running-occurs is_relay w h1 tool_unavailable tool_stopped (tool_name_for run_id) _
        quiet refl k1 in
    let (out, found, _) =
      attempt-occurs is_relay (inspect_running (tool_name_for run_id) ∷ h1) quiet w _ no_connector _
        refl k2 in
    let (before, last) = relay-history w a c (sidecar_name_for run_id) (
      podman (probe_connector w a (sidecar_name_for run_id))
      ∷ inspect_running (tool_name_for run_id)
      ∷ h1) in
    (run_id, managed, running, out, found, before, rw (told_run, tool_up, found) last)
