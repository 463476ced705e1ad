-- ===== src/Manage/Run/Guarded.antt =====
-- What the verbs of internal/manage looked at before they did anything to a container.
use netcage.Base.{
  Bool, true, false, not, Option, none, some, List, [], ◌∷◌, ◌++◌, ◌≡◌, refl, ap, ◌∙◌, ok, inl, inr,
  Bool-cases, arith,
}
use mathlib.Core.Path.{subst}
use netcage.Text.{Text, codes, eqb}
use netcage.Jail.Config.{role_sidecar}
use netcage.Jail.Effects.{
  fail, Event, podman, remove_file, World, History, inspect_failed, Io, ◌>>-◌, after, attempt,
  settle, return,
}
use netcage.Jail.Effects.Laws.{
  occurs, after-history, attempt-occurs, settle-occurs, after_assoc, out_of-ok,
}
use netcage.Jail.Resolve.{
  Managed, inspect_labels, read_labels, managed_of, tool_name_for, sidecar_name_for,
}
use netcage.Jail.Running.{require_running, inspect_running, says_true}
use netcage.Jail.Running.Laws.{require_running-occurs}
use netcage.Manage.Argv.{
  ManageError, unmanaged, jail_unavailable, jail_stopped, podman_failed, require_name,
}
use netcage.Manage.Exec.{ExecCommand, parse_exec_args, exec_args, exec_flag_args}
use netcage.Manage.Commit.{CommitCommand, parse_commit_args, commit_args, commit_flag_args}
use netcage.Manage.Run.{
  stream, managed_or, guard_managed, require_jail_healthy, exec_in, run_exec, commit_tool,
  commit_of, run_commit, rm_named, run_rm,
}

-- A command of podman that is no inspection, or the removal of a file.
unfoldable pub acts : Event → Bool
unfolding eqb
acts (podman (verb ∷ _)) = not (eqb verb (codes "inspect"))
acts (remove_file _) = true
acts _ = false

-- The history has an act.
abbrev pub acted : History → Bool
acted = occurs acts

managed_or-ok :
    (found : Option Managed) {m : Managed} → managed_or (managed_of found) ≡ ok m → found ≡ some m
managed_or-ok none k = cc
managed_or-ok (some m) k = cc

inspected-acted :
    (h : History) (args : List Text) → acted (podman (codes "inspect" ∷ args) ∷ h) ≡ acted h
unfolding occurs acts codes eqb
inspected-acted h args = refl

-- An act behind the guard.
guard_managed-acted :
    {A : Type 0} (w : World) (h : History) (name : Text) (rest : Managed → Io ManageError A)
    → acted h ≡ false
    → acted (after (guard_managed w name h) rest).0 ≡ true
    → (m : Managed) × (read_labels (w.reply h (inspect_labels name)).out ≡ some m)
      × (guard_managed w name h ≡ (inspect_labels name ∷ h, ok m))
      × (acted (rest m (inspect_labels name ∷ h)).0 ≡ true)
unfolding guard_managed ◌>>-◌ acts codes eqb after attempt settle
guard_managed-acted w h name rest quiet k =
    let asked = attempt w (inspect_labels name) (unmanaged inspect_failed) h in
    let k1 = subst (λ p. acted p.0 ≡ true) (after_assoc asked _ rest) k in
    let (out, e, k2) =
      attempt-occurs acts h quiet w (inspect_labels name) (unmanaged inspect_failed) _ refl k1 in
    let (m, passed, k3) =
      settle-occurs acts (inspect_labels name ∷ h) (inspected-acted h _ ∙ quiet)
        (managed_or (managed_of (read_labels out))) rest k2 in
    (
      m,
      ap read_labels (out_of-ok (unmanaged inspect_failed) _ e)
          ∙ managed_or-ok (read_labels out) passed,
      rw (e, passed) refl,
      k3,
    )

stream-history :
    (w : World) (verb : Text) (args : List Text) (h : History)
    → (stream w verb args h).0 ≡ podman args ∷ h
unfolding stream ◌>>-◌ return attempt
stream-history w verb args h =
    after-history (attempt w (podman args) (podman_failed verb) h) _ (λ _ _. refl)

-- Whatever the outside answers: if `netcage exec`, with no act in the history before it, acts on a
-- container, then its arguments were read as a command, the labels of the named container were those
-- of a run of netcage, and the inspections of this run's sidecar and of the container said that both
-- are running. Its one act is the command of podman, behind these three inspections, that stands for
-- what was read, in the container that was named.
pub exec-guarded :
    (w : World) (args : List Text) (h : History)
    → acted h ≡ false
    → acted (run_exec w args h).0 ≡ true
    → (c : ExecCommand) × (m : Managed) × (parse_exec_args args ≡ ok c)
      × (read_labels (w.reply h (inspect_labels c.name)).out ≡ some m)
      × (says_true
            (w.reply (inspect_labels c.name ∷ h) (inspect_running (sidecar_name_for m.run_id))).out
          ≡ true)
      × (says_true
            (w.reply
              (inspect_running (sidecar_name_for m.run_id) ∷ inspect_labels c.name ∷ h)
              (inspect_running c.name)).out
          ≡ true)
      × ((run_exec w args h).0
          ≡ podman (codes "exec" ∷ (exec_flag_args c.flags ++ (c.name ∷ c.command)))
            ∷ inspect_running c.name
            ∷ inspect_running (sidecar_name_for m.run_id)
            ∷ inspect_labels c.name
            ∷ h)
unfolding after settle exec_args run_exec exec_in ◌>>-◌ require_jail_healthy acts codes eqb
exec-guarded w args h quiet k =
    let (c, parsed, k1) = settle-occurs acts h quiet (parse_exec_args args) _ k in
    let (m, labels, guarded, k2) = guard_managed-acted w h c.name _ quiet k1 in
    let sidecar = sidecar_name_for m.run_id in
    let h1 = inspect_labels c.name ∷ h in
    let quiet1 = inspected-acted h _ ∙ quiet in
    let first = require_running w (jail_unavailable sidecar) (jail_stopped sidecar) sidecar h1 in
    let k3 = subst (λ p. acted p.0 ≡ true) (after_assoc first _ _) k2 in
    let (up, first_up, k4) =
      require_running-occurs acts w h1 (jail_unavailable sidecar) (jail_stopped sidecar) sidecar _
        quiet1 refl k3 in
    let (tool_up, second_up, _) =
      require_running-occurs acts w (inspect_running sidecar ∷ h1) (jail_unavailable c.name)
        (jail_stopped c.name) c.name _ (inspected-acted h1 _ ∙ quiet1) refl k4 in
    (
      c,
      m,
      parsed,
      labels,
      up,
      tool_up,
      rw (parsed, guarded, first_up, second_up)
          (stream-history w (codes "exec") (exec_args c)
            (inspect_running c.name ∷ inspect_running sidecar ∷ h1)),
    )

commit_tool-acted :
    (w : World) (c : CommitCommand) (m : Managed) (h : History)
    → acted h ≡ false
    → acted (commit_tool w c m h).0 ≡ true
    → eqb m.role role_sidecar ≡ false
unfolding commit_tool fail
commit_tool-acted w c m h quiet k = elim (Bool-cases (eqb m.role role_sidecar)) [
  | inl e ↦ absurd (ground (arith, quiet, k, e))
  | inr e ↦ e
]

-- Whatever the outside answers: if `netcage commit`, with no act in the history before it, acts, then
-- its arguments were read, and the labels of the named container were those of a run of netcage and
-- not those of its sidecar. Its one act is the command of podman that commits the tool of this run.
pub commit-guarded :
    (w : World) (args : List Text) (h : History)
    → acted h ≡ false
    → acted (run_commit w args h).0 ≡ true
    → (c : CommitCommand) × (m : Managed) × (parse_commit_args args ≡ ok c)
      × (read_labels (w.reply h (inspect_labels c.name)).out ≡ some m)
      × (eqb m.role role_sidecar ≡ false)
      × ((run_commit w args h).0
          ≡ podman (
              codes "commit"
              ∷ (commit_flag_args c.flags ++ (tool_name_for m.run_id ∷ c.image_ref ∷ [])))
            ∷ inspect_labels c.name
            ∷ h)
unfolding run_commit commit_of ◌>>-◌ after settle commit_args commit_tool
commit-guarded w args h quiet k =
    let (c, parsed, k1) = settle-occurs acts h quiet (parse_commit_args args) _ k in
    let (m, labels, guarded, k2) = guard_managed-acted w h c.name _ quiet k1 in
    let tool =
      commit_tool-acted w c m (inspect_labels c.name ∷ h) (inspected-acted h _ ∙ quiet) k2 in
    (
      c,
      m,
      parsed,
      labels,
      tool,
      rw (parsed, guarded, tool)
          (stream-history w (codes "commit")
            (commit_args c.flags (tool_name_for m.run_id) c.image_ref) (inspect_labels c.name ∷ h)),
    )

-- Whatever the outside answers: if `netcage rm`, with no act in the history before it, acts, then the
-- labels of the container that is named first were those of a run of netcage.
pub rm-guarded :
    (w : World) (args : List Text) (h : History)
    → acted h ≡ false
    → acted (run_rm w args h).0 ≡ true
    → (name : Text) × (m : Managed) × (require_name args ≡ ok name)
      × (read_labels (w.reply h (inspect_labels name)).out ≡ some m)
unfolding run_rm rm_named ◌>>-◌
rm-guarded w args h quiet k =
    let (name, parsed, k1) = settle-occurs acts h quiet (require_name args) _ k in
    let (m, labels, _, _) = guard_managed-acted w h name _ quiet k1 in (name, m, parsed, labels)
