-- ===== src/Tests/ManageRuns.antt =====
-- The flags of `netcage exec` and `netcage commit`, and runs of the verbs on a kept container.
use netcage.Base.{true, false, some, List, [], ◌∷◌, ◌++◌, ◌≡◌, refl, ok, drop}
use netcage.Text.{Text, codes, eqb, is_empty}
use netcage.Jail.Config.{role_sidecar}
use netcage.Jail.Effects.{World, podman}
use netcage.Jail.Resolve.{Managed, inspect_labels, read_labels, tool_name_for, sidecar_name_for}
use netcage.Jail.Running.{inspect_running, says_true}
use netcage.Manage.Argv.{
  ManageError, root_refused, is_root_flag, refuse_user_root, require_name, parse_inspect_args,
  inspect_args,
}
use netcage.Manage.Exec.{
  ExecFlags, ExecCommand, no_exec_flags, parse_exec_args, exec_args, exec_flag_args,
}
use netcage.Manage.Exec.Roundtrip.{exec_command, parse_exec_args-exec_args}
use netcage.Manage.Commit.{
  commit_flag_args, CommitFlags, CommitCommand, parse_commit_args, commit_args, no_commit_flags,
}
use netcage.Manage.Commit.Roundtrip.{parse_commit_args-commit_args}
use netcage.Manage.Run.{run_exec, run_commit, run_rm}
use netcage.Manage.Run.Guarded.{acted, exec-guarded, commit-guarded, rm-guarded}
use netcage.Tests.Worlds.{kept_world, tool_labels}

abbrev exec_flags : ExecFlags
exec_flags = record {
  interactive = true;
  tty = false;
  workdir = codes "/root";
  user = [];
  env = codes "K=V" ∷ codes "-w" ∷ [];
}

parsed :
    parse_exec_args (codes "-it" ∷ codes "--workdir=/x" ∷ codes "c" ∷ codes "ls" ∷ codes "-l" ∷ [])
    ≡ ok (
        exec_command
          (record no_exec_flags { interactive = true; tty = true; workdir = codes "/x" })
          (codes "c")
          (codes "ls" ∷ codes "-l" ∷ []))
unfolding parse_exec_args netcage.Manage.Exec.exec_tokens netcage.Manage.Exec.exec_token eqb codes
    netcage.Text.has_prefix netcage.Text.member netcage.Manage.Argv.split_inline netcage.Text.cut
    netcage.Manage.Exec.set_value netcage.Manage.Exec.turn_on
parsed = refl

inspected :
    parse_inspect_args (codes "c" ∷ codes "--format" ∷ codes "x" ∷ [])
    ≡ ok (codes "--format" ∷ codes "x" ∷ [], codes "c")
unfolding parse_inspect_args eqb codes netcage.Text.has_prefix netcage.Text.member
inspected = refl

-- A value behind the switch is not read.
switched :
    parse_exec_args (codes "--tty=false" ∷ codes "c" ∷ codes "ls" ∷ [])
    ≡ ok (exec_command (record no_exec_flags { tty = true }) (codes "c") (codes "ls" ∷ []))
unfolding parse_exec_args netcage.Manage.Exec.exec_tokens netcage.Manage.Exec.exec_token eqb codes
    netcage.Text.has_prefix netcage.Text.member netcage.Manage.Argv.split_inline netcage.Text.cut
    netcage.Manage.Exec.turn_on
switched = refl

parse_exec_args-exec_args_example :
    parse_exec_args (drop 1 (exec_args (exec_command exec_flags (codes "c") (codes "-x" ∷ []))))
    ≡ ok (exec_command exec_flags (codes "c") (codes "-x" ∷ []))
unfolding netcage.Text.has_prefix codes
parse_exec_args-exec_args_example =
    parse_exec_args-exec_args exec_flags (codes "c") (codes "-x") [] refl

abbrev commit_flags : CommitFlags
commit_flags = record no_commit_flags {
  message = codes "-a";
  change = codes "CMD sh" ∷ codes "ENV A=b" ∷ [];
  pause_set = true;
  quiet = true;
}

parse_commit_args-commit_args_example :
    parse_commit_args (drop 1 (commit_args commit_flags (codes "c") (codes "my:tag")))
    ≡ ok (record { flags = commit_flags; name = codes "c"; image_ref = codes "my:tag" })
unfolding netcage.Text.has_prefix codes
parse_commit_args-commit_args_example =
    parse_commit_args-commit_args commit_flags (codes "c") (codes "my:tag") (λ e. refl) refl refl

abbrev up : World
up = kept_world tool_labels (codes "true\n") []

quiet : acted [] ≡ false
unfolding netcage.Jail.Effects.Laws.occurs
quiet = refl

abbrev exec_words : List Text
exec_words = codes "c" ∷ codes "ls" ∷ []

exec_acted : acted (run_exec up exec_words []).0 ≡ true
unfolding netcage.Jail.Effects.Laws.occurs run_exec netcage.Jail.Effects.◌>>-◌
    netcage.Jail.Effects.settle parse_exec_args netcage.Manage.Exec.exec_tokens
    netcage.Manage.Exec.exec_token eqb codes netcage.Text.has_prefix netcage.Manage.Run.exec_in
    netcage.Manage.Run.guard_managed netcage.Jail.Effects.attempt netcage.Jail.Effects.out_of
    read_labels netcage.Text.cut netcage.Text.trim_space netcage.Tests.Worlds.answer
    netcage.Manage.Run.require_jail_healthy netcage.Jail.Running.require_running
    netcage.Jail.Running.running_of netcage.Manage.Run.stream netcage.Jail.Effects.return
    netcage.Manage.Run.Guarded.acts exec_args
exec_acted = refl

exec-guarded_example :
    (c : ExecCommand) × (m : Managed) × (parse_exec_args exec_words ≡ ok c)
    × (read_labels (up.reply [] (inspect_labels c.name)).out ≡ some m)
    × (says_true
          (up.reply (inspect_labels c.name ∷ []) (inspect_running (sidecar_name_for m.run_id))).out
        ≡ true)
    × (says_true
          (up.reply
            (inspect_running (sidecar_name_for m.run_id) ∷ inspect_labels c.name ∷ [])
            (inspect_running c.name)).out
        ≡ true)
    × ((run_exec up exec_words []).0
        ≡ podman (codes "exec" ∷ (exec_flag_args c.flags ++ (c.name ∷ c.command)))
          ∷ inspect_running c.name
          ∷ inspect_running (sidecar_name_for m.run_id)
          ∷ inspect_labels c.name
          ∷ [])
exec-guarded_example = exec-guarded up exec_words [] quiet exec_acted

abbrev commit_words : List Text
commit_words = codes "c" ∷ codes "my:tag" ∷ []

commit_acted : acted (run_commit up commit_words []).0 ≡ true
unfolding netcage.Jail.Effects.Laws.occurs run_commit netcage.Jail.Effects.◌>>-◌
    netcage.Jail.Effects.settle parse_commit_args netcage.Manage.Commit.commit_tokens
    netcage.Manage.Commit.commit_token eqb codes netcage.Text.has_prefix
    netcage.Manage.Run.commit_of netcage.Manage.Run.guard_managed netcage.Jail.Effects.attempt
    netcage.Jail.Effects.out_of read_labels netcage.Text.cut netcage.Text.trim_space
    netcage.Tests.Worlds.answer netcage.Manage.Run.commit_tool netcage.Manage.Run.stream
    netcage.Jail.Effects.return netcage.Manage.Run.Guarded.acts commit_args
commit_acted = refl

commit-guarded_example :
    (c : CommitCommand) × (m : Managed) × (parse_commit_args commit_words ≡ ok c)
    × (read_labels (up.reply [] (inspect_labels c.name)).out ≡ some m)
    × (eqb m.role role_sidecar ≡ false)
    × ((run_commit up commit_words []).0
        ≡ podman (
            codes "commit"
            ∷ (commit_flag_args c.flags ++ (tool_name_for m.run_id ∷ c.image_ref ∷ [])))
          ∷ inspect_labels c.name
          ∷ [])
commit-guarded_example = commit-guarded up commit_words [] quiet commit_acted

rm_acted : acted (run_rm up (codes "c" ∷ []) []).0 ≡ true
unfolding netcage.Jail.Effects.Laws.occurs run_rm netcage.Jail.Effects.◌>>-◌
    netcage.Jail.Effects.settle netcage.Manage.Run.rm_named netcage.Manage.Run.guard_managed
    netcage.Jail.Effects.attempt netcage.Jail.Effects.out_of read_labels netcage.Text.cut
    netcage.Text.trim_space netcage.Tests.Worlds.answer eqb codes netcage.Manage.Run.stream
    netcage.Jail.Effects.return netcage.Jail.Fixtures.remove_fixtures
    netcage.Manage.Run.Guarded.acts
rm_acted = refl

rm-guarded_example :
    (name : Text) × (m : Managed) × (require_name (codes "c" ∷ []) ≡ ok name)
    × (read_labels (up.reply [] (inspect_labels name)).out ≡ some m)
rm-guarded_example = rm-guarded up (codes "c" ∷ []) [] quiet rm_acted
