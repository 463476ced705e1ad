-- ===== src/Main/Verbs.antt =====
-- main.go: the outside of a process, and the function of each verb with its exit code.
use netcage.Base.{
  ℕ, Bool, true, false, ◌||◌, Option, none, some, List, [], ◌∷◌, if◌then◌else◌, Result, ok, err,
}
use netcage.Text.{Text, codes}
use netcage.Text.Numbers.{decimal}
use netcage.Cli.Command.{Command, ParseError, ProxyConfig, proxy_on_host_loopback}
use netcage.Cli.System.{FileConfig, System}
use netcage.Cli.Config.{ConfigView, config_path, read_config_view}
use netcage.Cli.Config.Write.{Disk}
use netcage.Cli.Preflight.{PreflightError}
use netcage.DetectProxy.{Candidate, default_ports, probe, dial_probe, port_hints, human}
use netcage.Forward.{ForwardError, run_forward}
use netcage.Jail.Config.{JailConfig}
use netcage.Jail.Effects.{say, World, History, ToolResult, RunError}
use netcage.Jail.GraphRoot.{Account}
use netcage.Jail.Run.{run}
use netcage.Jail.Start.{start}
use netcage.Main.Version.{BuildInfo}
use netcage.Manage.Argv.{ManageError}
use netcage.Manage.Run.{run_verb}
use netcage.Ports.Run.{PortsError, run_ports}
use netcage.SetupDefault.Prompts.{Action, Session, SetupError}
use netcage.SetupDefault.{Outcome, set_up}
use netcage.Verify.{exit_code}
use netcage.Verify.Command.{run_command_verify, exit_ip_for_proxy}

-- The outside of a process: what the components read of it, the id that the n-th run behind a history is
-- given, the body that the host's own request for its address got, the names of the running processes,
-- what a dial of each port of the host's loopback got, the encoder of the findings, and the bytes of the
-- standard input.
pub record Host : Type 0 where
  pub os : System
  pub world : World
  pub account : Account
  pub stamped : Text
  pub build : Option BuildInfo
  pub run_id : History → ℕ → Text
  pub host_body : Option Text
  pub process_names : List Text
  pub port_dial : ℕ → Option (Option (ℕ × ℕ))
  pub encode_report : List Candidate → Text → Option Text
  pub encode : FileConfig → Text
  pub disk : List Action → Disk
  pub input : Text

-- What the program prints an error of.
pub data Failure : Type 0 where
  refused : ParseError → Failure
  no_proxy : PreflightError → Failure
  ports_failed : PortsError → Failure
  manage_failed : ManageError → Failure
  run_failed start_failed : RunError → Failure
  forward_failed : ForwardError → Failure
  encode_failed : Failure
  no_config_dir : Failure
  config_failed : ParseError → Failure
  setup_failed : SetupError → Failure

-- The exit code, and the error that was printed.
pub record Exit : Type 0 where
  pub code : ℕ
  pub failure : Option Failure

abbrev pub exits : ℕ → Exit
exits n = record { code = n; failure = none }

abbrev pub fails : ℕ → Failure → Exit
fails n f = record { code = n; failure = some f }

abbrev pub ended : {E A : Type 0} → (E → Failure) → (A → ℕ) → History × Result E A → History × Exit
ended failure code (h, ok a) = (h, exits (code a))
ended failure code (h, err e) = (h, fails 1 (failure e))

abbrev zero_code : {A : Type 0} → A → ℕ
zero_code _ = 0

abbrev pub tool_code : ToolResult → ℕ
tool_code r = r.exit

-- The configuration of `runRun`, with the id that `Run` gives it.
abbrev pub run_config : Command → Text → JailConfig
run_config cmd run_id = record {
  proxy = cmd.proxy;
  image = cmd.image;
  tool_argv = cmd.tool_argv;
  mounts = cmd.mounts;
  workdir = cmd.workdir;
  run_id = run_id;
  env = cmd.env;
  user = cmd.user;
  entrypoint = cmd.entrypoint;
  pass_through_flags = cmd.pass_through_flags;
  allow_direct = cmd.allow_direct;
  ephemeral = cmd.rm;
  proxy_on_host_loopback = proxy_on_host_loopback cmd;
  interactive = cmd.interactive || cmd.tty;
  dns_upstream = [];
  dns_helper_path = [];
  resolv_conf_path = [];
  hosts_path = [];
  passwd_path = [];
  group_path = [];
  machine_id_path = [];
}

-- The configuration of `runStart`.
abbrev pub start_config : Command → JailConfig
start_config cmd = record (run_config cmd []) {
  image = [];
  tool_argv = [];
  mounts = [];
  workdir = [];
  env = [];
  user = [];
  entrypoint = [];
  pass_through_flags = [];
}

-- `firstConfirmedPort`.
unfoldable pub first_confirmed_port : List Candidate → Option ℕ
first_confirmed_port [] = none
first_confirmed_port (c ∷ cs) = if c.socks5 then some c.port else first_confirmed_port cs

abbrev pub local_proxy : ℕ → ProxyConfig
local_proxy port = record {
  host = codes "127.0.0.1";
  port = decimal port;
  username = [];
  password = [];
}

abbrev pub address_or_empty : Option Text → Text
address_or_empty none = []
address_or_empty (some ip) = ip

module _ (host : Host) where
  -- `runPorts`.
  unfoldable pub run_ports_verb : Command → History → History × Exit
  run_ports_verb cmd h =
      ended ports_failed zero_code
        (run_ports host.world (record { container = cmd.ports_container; json = cmd.json }) h)

  -- `runManage`.
  unfoldable pub run_manage : Command → History → History × Exit
  run_manage cmd h = ended manage_failed zero_code (run_verb host.world cmd.name cmd.manage_argv h)

  -- `runRun`.
  unfoldable pub run_run : Command → History → History × Exit
  run_run cmd h = ended run_failed tool_code (run host.world (run_config cmd (host.run_id h 0)) h)

  -- `runStart`.
  unfoldable pub run_start : Command → History → History × Exit
  run_start cmd h =
      ended start_failed tool_code (start host.world (start_config cmd) cmd.start_name h)

  -- `runForward`.
  unfoldable pub run_forward_verb : Command → History → History × Exit
  run_forward_verb cmd h = ended forward_failed zero_code (
      run_forward host.world host.account
        (record {
          container = cmd.forward_container;
          port = cmd.forward_port;
          host_port = cmd.forward_host_port;
          bind = cmd.forward_bind;
        })
        h)

  -- `runVerify`, less the text of the report.
  unfoldable pub run_verify : Command → History → History × Exit
  run_verify cmd h =
      let (h', report) =
        run_command_verify host.world cmd.proxy host.host_body (host.run_id h 0) (host.run_id h 1)
          h in
      (h', exits (exit_code report))

  -- The report of the detector, as `runDetectProxy` and `processHintDetector.Detect` get it.
  abbrev pub detected : List Candidate
  detected = probe (dial_probe host.port_dial (port_hints host.process_names)) default_ports

  -- The exit address of the first proxy that is confirmed, where there is any.
  unfoldable pub detected_exit : Option ℕ → History → History × Option Text
  detected_exit none h = (h, none)
  detected_exit (some port) h = exit_ip_for_proxy host.world (local_proxy port) (host.run_id h 0) h

  abbrev pub show_findings : Bool → Text → History → History × Exit
  show_findings true exit_ip h = elim (host.encode_report detected exit_ip) [
    | none ↦ (h, fails 1 encode_failed)
    | some text ↦ (say text ∷ h, exits 0)
  ]
  show_findings false exit_ip h = (say (human detected exit_ip) ∷ h, exits 0)

  -- `runDetectProxy`.
  unfoldable pub run_detect_proxy : Command → History → History × Exit
  run_detect_proxy cmd h =
      let (h', exit_ip) = detected_exit (first_confirmed_port detected) h in
      show_findings cmd.json (address_or_empty exit_ip) h'

  -- `jailVerifier.ExitIP`.
  abbrev pub jail_verifier : ProxyConfig → History → History × Option Text
  jail_verifier proxy h = exit_ip_for_proxy host.world proxy (host.run_id h 0) h

  abbrev pub set_up_ended : Session × Result SetupError Outcome → History × Exit
  set_up_ended (s, ok outcome) = (s.history, exits 0)
  set_up_ended (s, err e) = (s.history, fails 1 (setup_failed e))

  abbrev pub set_up_in : Text → Result ParseError ConfigView → History → History × Exit
  set_up_in path (err e) h = (h, fails 1 (config_failed e))
  set_up_in path (ok existing) h = set_up_ended (
      set_up
        (record {
          os = host.os;
          encode = host.encode;
          disk = host.disk;
          exit_ip = jail_verifier;
          candidates = detected;
          config_path = path;
          existing = existing;
        })
        (record { input = host.input; log = []; history = h }))

  -- `runSetupDefault`.
  unfoldable pub run_setup_default : History → History × Exit
  run_setup_default h = elim (config_path host.os) [
    | none ↦ (h, fails 1 no_config_dir)
    | some path ↦ set_up_in path (read_config_view host.os) h
  ]
