-- ===== src/Tests/PortsRuns.antt =====
-- Rows of /proc/net/tcp and /proc/net/tcp6, and a run of `netcage ports`.
use netcage.Base.{ℕ, true, false, some, List, [], ◌∷◌, ◌++◌, ◌≡◌, refl, ok, arith}
use mathlib.Core.List.{Perm, Pairwise}
use netcage.Text.{Text, codes, eqb, is_empty}
use netcage.Text.Laws.{IsSolid}
use netcage.Net.{Ip}
use netcage.Net.Print.{ip_string}
use netcage.Jail.Resolve.{inspect_labels, read_labels, run_of, sidecar_name_for}
use netcage.Jail.Running.{inspect_running, says_true}
use netcage.Ports.Listeners.{Listener, parse_row, parse_proc_net_tcp, tcp_state_listen}
use netcage.Ports.Listeners.Kernel.{kernel_row, AreBytes, announced, parse_row-kernel}
use netcage.Ports.Sort.{sort_listeners}
use netcage.Ports.Sort.Sorted.{IsInOrder, at_socket, sort_listeners-sorts}
use netcage.Ports.Show.{render_table, render_json}
use netcage.Ports.Run.{PortsConfig, run_ports}
use netcage.Ports.Run.Guarded.{execs, is_exec_outside, ports-guarded}
use netcage.Jail.Effects.Laws.{occurs}
use netcage.Tests.Worlds.{kept_world, tool_labels}

abbrev listener : Text → ℕ → Listener
listener address port = record { address = address; port = port; loopback_only = false }

abbrev forwarder : Listener
forwarder = record { address = codes "127.0.0.1"; port = 53; loopback_only = true }

abbrev tcp_file : Text
tcp_file =
    codes "  sl  local_address rem_address   st tx_queue rx_queue\n"
    ++ (codes "   0: 00000000:0BB9 00000000:0000 0A 00000000:00000000\n"
        ++ (codes "   1: 0100007F:0035 00000000:0000 0A 00000000:00000000\n"
            ++ codes "   2: 0100007F:0036 00000000:0000 01 00000000:00000000\n"))

parsed : parse_proc_net_tcp tcp_file [] ≡ listener (codes "0.0.0.0") 3001 ∷ forwarder ∷ []
unfolding parse_proc_net_tcp netcage.Ports.Listeners.parse_body netcage.Ports.Listeners.parse_rows
    netcage.Text.split codes parse_row netcage.Ports.Listeners.parse_fields netcage.Text.fields eqb
    netcage.Ports.Listeners.parse_local netcage.Text.cut_last netcage.Ports.Listeners.decode_port
    netcage.Ports.Listeners.decode_v4 ip_string netcage.Ports.Listeners.is_loopback
    netcage.Net.V4.format_ipv4
parsed = refl

table :
    render_table (listener (codes "0.0.0.0") 3001 ∷ forwarder ∷ [])
    ≡ codes "ADDRESS    PORT   SCOPE           \n"
      ++ (codes "127.0.0.1  53     loopback        (netcage DNS forwarder)\n"
          ++ codes "0.0.0.0    3001   all-interfaces  \n")
unfolding codes render_table netcage.Ports.Show.table_of sort_listeners
    netcage.Ports.Show.address_width netcage.Ports.Show.table_rows netcage.Text.Numbers.decimal eqb
table = refl

json :
    render_json (forwarder ∷ [])
    ≡ codes
        "[\n  {\n    \"address\": \"127.0.0.1\",\n    \"port\": 53,\n    \"loopbackOnly\": true\n  }\n]\n"
unfolding codes render_json netcage.Ports.Show.json_of sort_listeners
    netcage.Ports.Show.json_objects netcage.Text.Numbers.decimal
json = refl

json_empty : render_json [] ≡ codes "[]\n"
unfolding codes render_json netcage.Ports.Show.json_of sort_listeners
json_empty = refl

abbrev loopback : Ip
loopback = 0 ∷ 0 ∷ 0 ∷ 0 ∷ 0 ∷ 0 ∷ 0 ∷ 0 ∷ 0 ∷ 0 ∷ 0 ∷ 0 ∷ 0 ∷ 0 ∷ 0 ∷ 1 ∷ []

word_sl : (is_empty (codes "0:") ≡ false) × IsSolid (codes "0:")
unfolding codes netcage.Text.is_space
word_sl = (refl, (refl, (refl, tt)))

word_remote : (is_empty (codes "0:0") ≡ false) × IsSolid (codes "0:0")
unfolding codes netcage.Text.is_space
word_remote = (refl, (refl, (refl, (refl, tt))))

loopback_bytes : AreBytes loopback
loopback_bytes = ground arith

v4_bytes : AreBytes (127 ∷ 0 ∷ 0 ∷ 1 ∷ [])
v4_bytes = ground arith

parse_row-kernel_example :
    parse_row true
      (kernel_row 3 (codes "0:") loopback 53 (codes "0:0") tcp_state_listen (codes "0"))
    ≡ some (announced loopback 53)
parse_row-kernel_example =
    parse_row-kernel true 3 (codes "0:") (codes "0:0") (codes "0") loopback 53 word_sl word_remote
      loopback_bytes refl (omega arith)

abbrev three : List Listener
three = listener (codes "::") 80 ∷ forwarder ∷ listener (codes "0.0.0.0") 80 ∷ []

sort_listeners-sorts_example :
    Perm (sort_listeners three) three
    × Pairwise IsInOrder (sort_listeners three)
    × ((port : ℕ) (address : Text)
        → at_socket port address (sort_listeners three) ≡ at_socket port address three)
sort_listeners-sorts_example = sort_listeners-sorts three

abbrev asking : PortsConfig
asking = record { container = codes "c"; json = false }

quiet : execs [] ≡ false
unfolding netcage.Jail.Effects.Laws.occurs
quiet = refl

read_up : execs (run_ports (kept_world tool_labels (codes "true") []) asking []).0 ≡ true
unfolding netcage.Jail.Effects.Laws.occurs run_ports netcage.Jail.Effects.◌>>-◌
    netcage.Jail.Running.told netcage.Jail.Resolve.resolve_managed_run netcage.Jail.Effects.attempt
    netcage.Jail.Effects.out_of netcage.Jail.Effects.settle read_labels netcage.Text.cut
    netcage.Text.trim_space netcage.Tests.Worlds.answer eqb codes netcage.Ports.Run.list_ports
    netcage.Ports.Run.require_sidecar_running netcage.Jail.Running.require_running
    netcage.Jail.Running.running_of netcage.Ports.Run.read_proc netcage.Jail.Effects.perform
    netcage.Ports.Run.Guarded.is_exec
read_up = refl

ports-guarded_example :
    (run_id : Text) × (run_of (
        read_labels
          ((kept_world tool_labels (codes "true") []).reply [] (inspect_labels (codes "c"))).out)
      ≡ ok run_id)
    × (says_true
          ((kept_world tool_labels (codes "true") []).reply
            (inspect_labels (codes "c") ∷ [])
            (inspect_running (sidecar_name_for run_id))).out
        ≡ true)
    × (occurs
          (is_exec_outside (sidecar_name_for run_id))
          (run_ports (kept_world tool_labels (codes "true") []) asking []).0
        ≡ occurs (is_exec_outside (sidecar_name_for run_id)) [])
ports-guarded_example =
    ports-guarded (kept_world tool_labels (codes "true") []) asking [] quiet read_up
