-- ===== src/Jail/Resolve.antt =====
-- internal/jail/resolve.go and the resolution of internal/jail/start.go: from a container's name to the
-- id of its run, by the labels.
pub mod Laws
use netcage.Base.{
  Bool, true, false, not, Option, none, some, List, [], ◌∷◌, ◌++◌, if◌then◌else◌, Result, ok, err,
}
use netcage.Text.{Text, codes, eqb, is_empty, cut, trim_space}
use netcage.Jail.Config.{role_tool}
use netcage.Jail.Effects.{
  Event, podman, World, ResolveError, inspect_failed, not_managed, no_run_id, not_a_tool, Io, ◌>>-◌,
  attempt, settle,
}

-- The format of the inspection: the three labels between tabs.
abbrev pub label_format : Text
label_format =
    codes "{{ index .Config.Labels \"netcage.managed\" }}\t"
    ++ (codes "{{ index .Config.Labels \"netcage.role\" }}\t"
        ++ codes "{{ index .Config.Labels \"netcage.run-id\" }}")

abbrev pub inspect_labels : Text → Event
inspect_labels name = podman (codes "inspect" ∷ codes "--format" ∷ label_format ∷ name ∷ [])

-- A container of a run: its role, and the run's id.
pub record Managed : Type 0 where
  pub role : Text
  pub run_id : Text

abbrev last_two : Option (Text × Text) → Option Managed
last_two none = none
last_two (some (role, run_id)) = some (record { role = role; run_id = run_id })

abbrev behind_mark : Option (Text × Text) → Option Managed
behind_mark none = none
behind_mark (some (mark, rest)) =
    if eqb mark (codes "true") then last_two (cut b'\t' rest) else none

-- `strings.SplitN(strings.TrimSpace(out), "\t", 3)`: three parts of which the first is `true`.
unfoldable pub read_labels : Text → Option Managed
read_labels out = behind_mark (cut b'\t' (trim_space out))

abbrev pub run_of : Option Managed → Result ResolveError Text
run_of none = err not_managed
run_of (some m) = if is_empty m.run_id then err no_run_id else ok m.run_id

abbrev pub tool_of : Option Managed → Result ResolveError Text
tool_of none = err not_managed
tool_of (some m) =
    if not (eqb m.role role_tool)
    then err (not_a_tool m.role)
    else if is_empty m.run_id
    then err no_run_id
    else ok m.run_id

abbrev pub managed_of : Option Managed → Result ResolveError Managed
managed_of none = err not_managed
managed_of (some m) = ok m

module _ (w : World) where
  -- `ResolveManagedRun`: of either role.
  unfoldable pub resolve_managed_run : Text → Io ResolveError Text
  resolve_managed_run name =
      attempt w (inspect_labels name) inspect_failed >>- (λ out. settle (run_of (read_labels out)))

  -- `resolveManagedTool`: of the tool only.
  unfoldable pub resolve_managed_tool : Text → Io ResolveError Text
  resolve_managed_tool name =
      attempt w (inspect_labels name) inspect_failed >>- (λ out. settle (tool_of (read_labels out)))

-- `ToolNameFor` and `SidecarNameFor`.
abbrev pub tool_name_for : Text → Text
tool_name_for run_id = codes "netcage-run-" ++ (run_id ++ codes "-tool")

abbrev pub sidecar_name_for : Text → Text
sidecar_name_for run_id = codes "netcage-run-" ++ (run_id ++ codes "-sidecar")
