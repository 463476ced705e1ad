-- ===== src/Main.antt =====
-- main.go: `run`, from the arguments to the exit code.
pub mod Version
pub mod Verbs
pub mod Dialled
pub mod Guarded
pub mod Resumed
pub mod Passes
pub mod Acts
use netcage.Base.{
  ℕ, Bool, true, false, ◌||◌, Option, none, some, List, [], ◌∷◌, ◌++◌, if◌then◌else◌, Result, ok,
  err,
}
use netcage.Text.{Text, codes, eqb}
use netcage.Text.Numbers.{decimal}
use netcage.Cli.Command.{
  Command, ParseError, ProxyConfig, is_management_verb, proxy_on_host_loopback,
}
use netcage.Cli.System.{FileConfig, System}
use netcage.Cli.Config.{ConfigView, config_path, read_config_view}
use netcage.Cli.Config.Write.{Disk}
use netcage.Cli.Parse.{parse_with_env}
use netcage.Cli.Preflight.{PreflightError, preflight}
use netcage.DetectProxy.{Candidate, default_ports, probe, dial_probe, port_hints, human}
use netcage.Forward.{ForwardError, run_forward}
use netcage.Jail.Config.{JailConfig}
use netcage.Jail.Effects.{say, World, History, ToolResult, RunError}
use netcage.Jail.GraphRoot.{Account}
use netcage.Jail.Run.{run}
use netcage.Jail.Start.{start}
use netcage.Main.Verbs.{
  Host, Exit, exits, fails, refused, no_proxy, run_verify, run_detect_proxy, run_setup_default,
  run_start, run_forward_verb, run_ports_verb, run_manage, run_run,
}
use netcage.Main.Version.{BuildInfo, is_version_arg, resolve_version}
use netcage.Manage.Argv.{ManageError}
use netcage.Manage.Run.{run_verb}
use netcage.Ports.Run.{PortsError, run_ports}
use netcage.SetupDefault.Prompts.{Action, Session, SetupError}
use netcage.SetupDefault.{Outcome, set_up}
use netcage.Verify.{exit_code}
use netcage.Verify.Command.{run_command_verify, exit_ip_for_proxy}

module _ (host : Host) where
  -- The switch of `run`, over the name.
  unfoldable pub dispatch_named : Text → Command → History → History × Exit
  dispatch_named name cmd =
      if eqb name (codes "verify")
      then run_verify host cmd
      else if eqb name (codes "detect-proxy")
      then run_detect_proxy host cmd
      else if eqb name (codes "setup-default")
      then run_setup_default host
      else if eqb name (codes "start")
      then run_start host cmd
      else if eqb name (codes "forward")
      then run_forward_verb host cmd
      else if eqb name (codes "ports")
      then run_ports_verb host cmd
      else if is_management_verb name
      then run_manage host cmd
      else run_run host cmd

  abbrev pub dispatch_verb : Command → History → History × Exit
  dispatch_verb cmd = dispatch_named cmd.name cmd

  abbrev pub checked : Command → History × Result PreflightError (Unit {0}) → History × Exit
  checked cmd (h, err e) = (h, fails 1 (no_proxy e))
  checked cmd (h, ok u) = dispatch_verb cmd h

  abbrev pub parsed : Result ParseError Command → History → History × Exit
  parsed (err e) h = (h, fails 2 (refused e))
  parsed (ok cmd) h = checked cmd (preflight host.world cmd h)

  -- `run`.
  unfoldable pub run_main : List Text → History → History × Exit
  run_main args h =
      if is_version_arg args
      then (
        say (codes "netcage " ++ (resolve_version host.stamped host.build ++ codes "\n")) ∷ h,
        exits 0,
      )
      else parsed (parse_with_env host.os args) h
