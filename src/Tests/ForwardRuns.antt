-- ===== src/Tests/ForwardRuns.antt =====
-- A relay to a port of a kept run's tool.
use netcage.Base.{true, false, [], ◌∷◌, ◌++◌, ◌≡◌, refl, ok}
use netcage.Text.{Text, codes}
use netcage.Jail.Effects.{World, History, podman, socat, out_of}
use netcage.Jail.GraphRoot.{Account, graph_root}
use netcage.Jail.Resolve.{inspect_labels, read_labels, run_of, tool_name_for, sidecar_name_for}
use netcage.Jail.Running.{inspect_running, says_true}
use netcage.Forward.{
  ForwardConfig, no_connector, listen_address, listen_args, probe_connector, run_forward,
}
use netcage.Forward.Guarded.{relays, forward-guarded}
use netcage.Text.Numbers.{decimal}
use netcage.Tests.Worlds.{kept_world, tool_labels}

abbrev account : Account
account = record { getenv = λ _. []; uid = 1000 }

abbrev remapped : ForwardConfig
remapped = record { container = codes "c"; port = 3001; host_port = 8080; bind = [] }

argv :
    listen_args account remapped (sidecar_name_for (codes "ab12"))
    ≡ codes "socat"
      ∷ codes "TCP-LISTEN:8080,bind=127.0.0.1,fork,reuseaddr"
      ∷ (codes "EXEC:podman --root /var/tmp/netcage-storage-1000 exec -i netcage-run-ab12-sidecar"
          ++ codes " nc 127.0.0.1 3001")
      ∷ []
unfolding listen_args codes netcage.Forward.listen_address netcage.Forward.connect_command
    netcage.Text.Numbers.decimal netcage.Jail.GraphRoot.graph_root
    netcage.Jail.GraphRoot.default_graph_root
argv = refl

abbrev up : World
up = kept_world tool_labels (codes "true\n") []

quiet : relays [] ≡ false
unfolding netcage.Jail.Effects.Laws.occurs
quiet = refl

relayed : relays (run_forward up account remapped []).0 ≡ true
unfolding netcage.Jail.Effects.Laws.occurs run_forward netcage.Jail.Effects.◌>>-◌
    netcage.Jail.Running.told netcage.Jail.Resolve.resolve_managed_run netcage.Jail.Effects.attempt
    out_of netcage.Jail.Effects.settle read_labels netcage.Text.cut netcage.Text.trim_space
    netcage.Tests.Worlds.answer netcage.Text.eqb codes netcage.Forward.forward_run
    netcage.Forward.require_tool_running netcage.Jail.Running.require_running
    netcage.Jail.Running.running_of netcage.Forward.require_connector netcage.Forward.relay
    netcage.Forward.warn_exposure netcage.Jail.Effects.perform
relayed = refl

forward-guarded_example :
    (run_id : Text) × (run_of (read_labels (up.reply [] (inspect_labels (codes "c"))).out)
      ≡ ok run_id)
    × (says_true
          (up.reply (inspect_labels (codes "c") ∷ []) (inspect_running (tool_name_for run_id))).out
        ≡ true)
    × (out : Text) × (out_of no_connector (
          up.reply
            (inspect_running (tool_name_for run_id) ∷ inspect_labels (codes "c") ∷ [])
            (podman (probe_connector up account (sidecar_name_for run_id))))
        ≡ ok out)
    × (before : History) × ((run_forward up account remapped []).0
        ≡ socat (
            listen_address remapped
            ∷ (codes "EXEC:podman --root "
                ++ (graph_root account
                    ++ (codes " exec -i "
                        ++ (sidecar_name_for run_id ++ (codes " nc 127.0.0.1 " ++ decimal 3001)))))
            ∷ [])
          ∷ before)
forward-guarded_example = forward-guarded up account remapped [] quiet relayed
