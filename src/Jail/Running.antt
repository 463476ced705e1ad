-- ===== src/Jail/Running.antt =====
-- What internal/ports, internal/forward and internal/manage share: the inspection that says whether a
-- container is running, and errors of one part told as errors of another.
pub mod Laws
use netcage.Base.{Bool, true, false, List, [], ◌∷◌, if◌then◌else◌, Result, ok, err}
use netcage.Text.{Text, codes, eqb, trim_space}
use netcage.Jail.Effects.{Event, podman, World, History, Io, ◌>>-◌, attempt, settle}

-- The inspection of a container's state.
abbrev pub inspect_running : Text → Event
inspect_running name =
    podman (codes "inspect" ∷ codes "--format" ∷ codes "{{ .State.Running }}" ∷ name ∷ [])

-- The trimmed output is `true`.
abbrev pub says_true : Text → Bool
says_true out = eqb (trim_space out) (codes "true")

unfoldable pub running_of : {E : Type 0} → E → Text → Result E (Unit {0})
running_of stopped out = if says_true out then ok tt else err stopped

-- The error of a container that cannot be inspected, and of one that does not run.
unfoldable pub require_running : {E : Type 0} → World → E → E → Text → Io E (Unit {0})
require_running w unavailable stopped name =
    attempt w (inspect_running name) unavailable >>- (λ out. settle (running_of stopped out))

unfoldable pub told : {E F A : Type 0} → (E → F) → History × Result E A → History × Result F A
told f (h, ok a) = (h, ok a)
told f (h, err e) = (h, err (f e))
