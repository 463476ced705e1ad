-- ===== src/Main/Resumed.antt =====
-- main.go: what a whole process has done before it launches the tool of a kept run.
use netcage.Base.{List, ◌∷◌, ◌≡◌, All, ok}
use netcage.Text.{Text, codes}
use netcage.Cli.Command.{Command}
use netcage.Cli.Parse.{parse_jail_verb}
use netcage.Cli.Parse.Resolution.{Resolved}
use netcage.Jail.Effects.{find_helper, History}
use netcage.Jail.Firewall.Presence.{IsInstalled}
use netcage.Jail.Firewall.Rules.{firewall_rules}
use netcage.Jail.Run.Verified.{answer_v4, answer_v6}
use netcage.Main.{run_main}
use netcage.Main.Verbs.{start_config, Host}
use netcage.Jail.Config.{JailConfig, sidecar_name}
use netcage.Jail.Resolve.{inspect_labels, read_labels, tool_name_for, tool_of}
use netcage.Jail.Start.Launched.{launches_but}
use netcage.Jail.Start.{wanted, baked_from, inspect_env}
use netcage.Jail.Start.Guarded.{of_run, revived, compared}
use netcage.Main.Dialled.{Answered, dialled}

-- The configuration that the command stands for, with the id of the run that it resumes.
abbrev pub kept_jail : Command → Text → JailConfig
kept_jail cmd run_id = of_run (start_config cmd) run_id

-- The history once the name is resolved and the sidecar's making is read.
abbrev pub asked : Command → History → History
asked cmd h = inspect_labels cmd.start_name ∷ dialled cmd h

abbrev pub resumed : Command → Text → History → History
resumed cmd run_id h =
    revived (kept_jail cmd run_id) (compared (kept_jail cmd run_id) (asked cmd h))

-- The checks behind which a start launches its tool.
pub record StartChecked (host : Host) (rest : List Text) (h : History) : Type 0 where
  pub cmd : Command
  pub accepted : parse_jail_verb host.os (codes "start") rest ≡ ok cmd
  pub resolved : Resolved host.os cmd
  pub answered : Answered host.world h cmd
  pub run_id : Text
  pub named :
      tool_of (read_labels (host.world.reply (dialled cmd h) (inspect_labels cmd.start_name)).out)
      ≡ ok run_id
  pub launched_only :
      launches_but (tool_name_for run_id) (run_main host (codes "start" ∷ rest) h).0
      ≡ launches_but (tool_name_for run_id) h
  pub unchanged :
      baked_from (
        host.world.decode_texts
          (host.world.reply
            (find_helper ∷ asked cmd h)
            (inspect_env (sidecar_name (kept_jail cmd run_id)))).out)
      ≡ ok (wanted (kept_jail cmd run_id))
  pub installed :
      All
        (IsInstalled
          (answer_v4 host.world (kept_jail cmd run_id) (resumed cmd run_id h))
          (answer_v6 host.world (kept_jail cmd run_id) (resumed cmd run_id h)))
        (firewall_rules (kept_jail cmd run_id) cmd.proxy.port)
