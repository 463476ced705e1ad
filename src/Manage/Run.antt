-- ===== src/Manage/Run.antt =====
-- internal/manage/manage.go: `Run` and its verbs, over the effects.
pub mod Guarded
use netcage.Base.{Bool, true, false, List, [], ◌∷◌, ◌++◌, if◌then◌else◌, Result, ok, err}
use netcage.Text.{Text, codes, eqb, member}
use netcage.Jail.Config.{role_sidecar}
use netcage.Jail.Effects.{
  podman, World, ResolveError, inspect_failed, Io, ◌>>-◌, attempt, settle, return, fail,
}
use netcage.Jail.Fixtures.{remove_fixtures}
use netcage.Jail.Resolve.{
  Managed, inspect_labels, read_labels, managed_of, tool_name_for, sidecar_name_for,
}
use netcage.Jail.Running.{require_running}
use netcage.Manage.Argv.{
  ManageError, unmanaged, jail_unavailable, jail_stopped, names_sidecar, podman_failed,
  unknown_verb, ps_args, images_args, pass_through_verb_args, refuse_user_root, inspect_args,
  parse_inspect_args, rm_pair_args, named_verb_args, require_name,
}
use netcage.Manage.Exec.{ExecCommand, parse_exec_args, exec_args}
use netcage.Manage.Commit.{CommitCommand, parse_commit_args, commit_args}

abbrev pub managed_or : Result ResolveError Managed → Result ManageError Managed
managed_or (ok m) = ok m
managed_or (err e) = err (unmanaged e)

module _ (w : World) where
  -- `stream`: the command of podman, its output passed on.
  unfoldable pub stream : Text → List Text → Io ManageError (Unit {0})
  stream verb args = attempt w (podman args) (podman_failed verb) >>- (λ _. return tt)

  -- `guardManaged`.
  unfoldable pub guard_managed : Text → Io ManageError Managed
  guard_managed name =
      attempt w (inspect_labels name) (unmanaged inspect_failed)
      >>- (λ out. settle (managed_or (managed_of (read_labels out))))

  -- `requireJailHealthy`.
  unfoldable pub require_jail_healthy : Text → Text → Io ManageError (Unit {0})
  require_jail_healthy run_id tool =
      let sidecar = sidecar_name_for run_id in
      require_running w (jail_unavailable sidecar) (jail_stopped sidecar) sidecar
      >>- (λ _. require_running w (jail_unavailable tool) (jail_stopped tool) tool)

  -- `runExec` behind the parser; attached to the terminal or not, the command is the same.
  unfoldable pub exec_in : ExecCommand → Io ManageError (Unit {0})
  exec_in c =
      guard_managed c.name
      >>- (λ m. require_jail_healthy m.run_id c.name >>- (λ _. stream (codes "exec") (exec_args c)))

  -- `runExec`.
  unfoldable pub run_exec : List Text → Io ManageError (Unit {0})
  run_exec args = settle (parse_exec_args args) >>- exec_in

  unfoldable pub commit_tool : CommitCommand → Managed → Io ManageError (Unit {0})
  commit_tool c m =
      let tool = tool_name_for m.run_id in
      if eqb m.role role_sidecar
      then fail (names_sidecar tool)
      else stream (codes "commit") (commit_args c.flags tool c.image_ref)

  -- `runCommit` behind the parser.
  unfoldable pub commit_of : CommitCommand → Io ManageError (Unit {0})
  commit_of c = guard_managed c.name >>- commit_tool c

  -- `runCommit`.
  unfoldable pub run_commit : List Text → Io ManageError (Unit {0})
  run_commit args = settle (parse_commit_args args) >>- commit_of

  -- The case `build`, `pull` and `load` of `Run`.
  unfoldable pub run_store : Text → List Text → Io ManageError (Unit {0})
  run_store verb args =
      settle (refuse_user_root verb args) >>- (λ _. stream verb (pass_through_verb_args verb args))

  -- The case `inspect` behind the parser.
  unfoldable pub inspect_named : List Text × Text → Io ManageError (Unit {0})
  inspect_named (flags, name) =
      guard_managed name >>- (λ _. stream (codes "inspect") (inspect_args flags name))

  unfoldable pub run_inspect : List Text → Io ManageError (Unit {0})
  run_inspect args = settle (parse_inspect_args args) >>- inspect_named

  -- The case `logs` and `stop` behind the name.
  unfoldable pub verb_named : Text → Text → Io ManageError (Unit {0})
  verb_named verb name = guard_managed name >>- (λ _. stream verb (named_verb_args verb name))

  unfoldable pub run_named : Text → List Text → Io ManageError (Unit {0})
  run_named verb args = settle (require_name args) >>- verb_named verb

  -- The case `rm` behind the name: the pair by its sidecar, then the files of the run.
  unfoldable pub rm_named : Text → Io ManageError (Unit {0})
  rm_named name = guard_managed name >>- (λ m.
      stream (codes "rm") (rm_pair_args (sidecar_name_for m.run_id))
      >>- (λ _ h. (remove_fixtures w m.run_id h, ok tt)))

  unfoldable pub run_rm : List Text → Io ManageError (Unit {0})
  run_rm args = settle (require_name args) >>- rm_named

  -- `Run`.
  unfoldable pub run_verb : Text → List Text → Io ManageError (Unit {0})
  run_verb verb args =
      if eqb verb (codes "ps")
      then stream verb (ps_args args)
      else if eqb verb (codes "images")
      then stream verb images_args
      else if member verb (codes "build" ∷ codes "pull" ∷ codes "load" ∷ [])
      then run_store verb args
      else if eqb verb (codes "inspect")
      then run_inspect args
      else if member verb (codes "logs" ∷ codes "stop" ∷ [])
      then run_named verb args
      else if eqb verb (codes "exec")
      then run_exec args
      else if eqb verb (codes "commit")
      then run_commit args
      else if eqb verb (codes "rm")
      then run_rm args
      else fail (unknown_verb verb)
