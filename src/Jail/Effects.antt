-- ===== src/Jail/Effects.antt =====
-- The effects of a run: commands of podman and files on the host, each answered by the world outside,
-- with the history of what was done.
pub mod Laws
use netcage.Base.{Option, Bool, ℕ, List, ◌∷◌, Result, ok, err}
use netcage.Text.{Text}

-- `dial` opens a connection and closes it, `launch` is the command of podman that runs the wrapped tool,
-- `socat` the relay; the other commands are `podman`. `say` and `warn` write to the standard output and to the standard error.
pub data Event : Type 0 where
  find_helper : Event
  dial : Text → Event
  socat : List Text → Event
  say : Text → Event
  warn : Text → Event
  podman : List Text → Event
  launch : List Text → Event
  write_file : Text → Text → Event
  stat_file : Text → Event
  remove_file : Text → Event

-- How a command ended; `broken` is a failure with no exit code.
pub data Status : Type 0 where
  done : Status
  exited : ℕ → Status
  broken : Status

pub record Reply : Type 0 where
  pub out : Text
  pub stderr : Text
  pub status : Status

-- Newest first.
abbrev pub History : Type 0
History = List Event

-- The world answers an event by what was done before it. `temp_path` is the path of a file of that name
-- in the directory of temporary files, `random_bytes` sixteen bytes of `crypto/rand`, and `decode_texts`
-- the decoder of a JSON array of strings.
pub record World : Type 0 where
  pub reply : History → Event → Reply
  pub temp_path : Text → Text
  pub random_bytes : History → Option (List ℕ)
  pub decode_texts : Text → Option (List Text)

-- `Result` of internal/jail/run.go.
pub record ToolResult : Type 0 where
  pub stdout : Text
  pub stderr : Text
  pub exit : ℕ

-- Why a name stands for no container of a run.
pub data ResolveError : Type 0 where
  inspect_failed not_managed no_run_id : ResolveError
  not_a_tool : Text → ResolveError

pub data RunError : Type 0 where
  helper_missing sidecar_failed dns_failed reachback_failed : RunError
  probe_failed : RunError
  rule_missing : Text → RunError
  fixture_failed : Text → RunError
  setup_failed : ToolResult → Text → RunError
  tool_failed : ToolResult → RunError
  unresolved : ResolveError → RunError
  config_unreadable config_undecodable : RunError
  config_changed : Bool → Bool → RunError

-- A computation from a history to a longer one.
abbrev pub Io : Type 0 → Type 0 → Type 0
Io E A = History → History × Result E A

unfoldable pub after : {E A B : Type 0} → History × Result E A → (A → Io E B) → History × Result E B
after (h, ok a) f = f a h
after (h, err e) f = (h, err e)

unfoldable pub return : {E A : Type 0} → A → Io E A
return a h = (h, ok a)

unfoldable pub fail : {E A : Type 0} → E → Io E A
fail e h = (h, err e)

-- What is computed without an effect.
unfoldable pub settle : {E A : Type 0} → Result E A → Io E A
settle r h = (h, r)

infixl 5 ◌>>-◌
unfoldable pub ◌>>-◌ : {E A B : Type 0} → Io E A → (A → Io E B) → Io E B
unfolding after
(m >>- f) h = after (m h) f

unfoldable pub out_of : {E : Type 0} → E → Reply → Result E Text
out_of x r = elim r.status [ done ↦ ok r.out | exited n ↦ err x | broken ↦ err x ]

module _ (w : World) where
  -- The event happens, and its answer is the result.
  unfoldable pub perform : {E : Type 0} → Event → Io E Reply
  perform e h = (e ∷ h, ok (w.reply h e))

  -- The event happens; its output, or the error where it failed.
  unfoldable pub attempt : {E : Type 0} → Event → E → Io E Text
  attempt e x h = (e ∷ h, out_of x (w.reply h e))
