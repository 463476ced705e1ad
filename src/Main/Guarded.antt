-- ===== src/Main/Guarded.antt =====
-- main.go: what a whole process has done before it launches the tool of a run.
use netcage.Base.{true, false, List, ◌∷◌, ◌≡◌, refl, sym, ap, ◌∙◌, All, ok}
use netcage.Text.{Text, codes, eqb, member}
use netcage.Cli.Command.{Command, is_management_verb, management_verbs}
use netcage.Cli.Parse.{parse_jail_verb}
use netcage.Cli.Parse.Resolution.{Resolved, parse_jail_verb-Resolved}
use netcage.Jail.Effects.{History}
use netcage.Jail.Firewall.Presence.{IsInstalled}
use netcage.Jail.Firewall.Rules.{firewall_rules}
use netcage.Jail.Run.Guarded.{with_path, with_sidecar, run-guarded}
use netcage.Jail.Run.Verified.{launches, answer_v4, answer_v6}
use netcage.Main.{dispatch_named, run_main}
use netcage.Main.Verbs.{tool_code, run_failed, Host, run_config, run_run}
use netcage.Jail.Run.{run}
use netcage.Jail.Config.{JailConfig}
use netcage.Main.Dialled.{
  run-IsJailVerb, ended-history, dialled-launches, has_launched, Answered, dialled, dispatched,
}

-- The run that the command stands for, with the helper's path.
abbrev pub jail_of : Host → Command → History → Text → JailConfig
jail_of host cmd h path = with_path (run_config cmd (host.run_id (dialled cmd h) 0)) path

-- The checks behind which a run launches its tool.
pub record RunChecked (host : Host) (rest : List Text) (h : History) : Type 0 where
  pub cmd : Command
  pub accepted : parse_jail_verb host.os (codes "run") rest ≡ ok cmd
  pub resolved : Resolved host.os cmd
  pub answered : Answered host.world h cmd
  pub path : Text
  pub installed :
      All
        (IsInstalled
          (answer_v4 host.world
            (jail_of host cmd h path)
            (with_sidecar (jail_of host cmd h path) (dialled cmd h)))
          (answer_v6 host.world
            (jail_of host cmd h path)
            (with_sidecar (jail_of host cmd h path) (dialled cmd h))))
        (firewall_rules (jail_of host cmd h path) cmd.proxy.port)

dispatch-run :
    (host : Host) (cmd : Command) → dispatch_named host (codes "run") cmd ≡ run_run host cmd
unfolding dispatch_named is_management_verb management_verbs member eqb codes
dispatch-run host cmd = refl

run_run-history :
    (host : Host) (cmd : Command) (h : History)
    → (run_run host cmd h).0 ≡ (run host.world (run_config cmd (host.run_id h 0)) h).0
unfolding run_run
run_run-history host cmd h =
    ended-history run_failed tool_code (run host.world (run_config cmd (host.run_id h 0)) h)

-- Whatever the outside answers: if the program is started with the arguments of a run, with no launch in
-- the history before it, and launches the tool, then the command line was accepted with all that an
-- accepted command line has, the proxy answered the dial, and for some path of the helper every rule of
-- the run's firewall stood in what the sidecar, once started, showed of its chains.
pub run_main-guarded :
    (host : Host) (rest : List Text) (h : History)
    → launches h ≡ false
    → launches (run_main host (codes "run" ∷ rest) h).0 ≡ true
    → RunChecked host rest h
run_main-guarded host rest h quiet k =
    let (cmd, accepted, answered, k1) =
      dispatched host (codes "run") rest h has_launched run-IsJailVerb (λ f. quiet)
        (λ cmd f. dialled-launches cmd h ∙ quiet) k in
    let (path, installed) =
      run-guarded host.world (run_config cmd (host.run_id (dialled cmd h) 0)) (dialled cmd h)
        (dialled-launches cmd h ∙ quiet)
        (ap launches (sym (run_run-history host cmd (dialled cmd h)))
          ∙ (ap (λ f. launches (f (dialled cmd h)).0) (sym (dispatch-run host cmd)) ∙ k1)) in
    record {
      cmd = cmd;
      accepted = accepted;
      resolved = parse_jail_verb-Resolved host.os (codes "run") rest {cmd = cmd} accepted;
      answered = answered;
      path = path;
      installed = installed;
    }
