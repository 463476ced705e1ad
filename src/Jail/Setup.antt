-- ===== src/Jail/Setup.antt =====
-- internal/jail/run.go: what a failed command of podman says about the setup of a container.
use netcage.Base.{
  ℕ, ◌+◌, Bool, false, not, ◌&&◌, ◌||◌, Option, none, some, List, [], ◌∷◌, leb, ◌==◌, if◌then◌else◌,
}
use netcage.Text.{Text, codes, is_empty, has_prefix, split, trim_space}

-- `strings.Contains`, the part first.
unfoldable pub contains_text : Text → Text → Bool
contains_text part [] = is_empty part
contains_text part (c ∷ s) = has_prefix part (c ∷ s) || contains_text part s

-- `strings.ToLower` of ASCII.
unfoldable pub to_lower : Text → Text
to_lower [] = []
to_lower (c ∷ s) = (if leb b'A' c && leb c b'Z' then c + 32 else c) ∷ to_lower s

abbrev pub setup_markers : List Text
setup_markers =
    codes "error:"
    ∷ codes "oci runtime"
    ∷ codes "crun:"
    ∷ codes "runc:"
    ∷ codes "executable file"
    ∷ codes "manifest unknown"
    ∷ codes "reading manifest"
    ∷ []

-- Some marker stands in the text.
unfoldable pub has_marker : List Text → Text → Bool
has_marker [] s = false
has_marker (m ∷ ms) s = contains_text m s || has_marker ms s

-- The first line, trimmed, with a marker, else the first that is not blank, else the whole.
unfoldable pub first_marked : List Text → Option Text
first_marked [] = none
first_marked (l ∷ ls) =
    if has_marker setup_markers (to_lower (trim_space l))
    then some (trim_space l)
    else first_marked ls

unfoldable pub first_not_blank : List Text → Option Text
first_not_blank [] = none
first_not_blank (l ∷ ls) =
    if is_empty (trim_space l) then first_not_blank ls else some (trim_space l)

abbrev or_else : Option Text → Text → Text
or_else none t = t
or_else (some s) t = s

-- `podmanSetupDiagnostic`.
unfoldable pub podman_setup_diagnostic : Text → Text
podman_setup_diagnostic stderr =
    let trimmed = trim_space stderr in
    let lines = split b'\n' trimmed in
    if is_empty trimmed
    then []
    else if not (has_marker setup_markers (to_lower trimmed))
    then []
    else or_else (first_marked lines) (or_else (first_not_blank lines) trimmed)

-- `classifyPodmanSetupFailure`: the diagnostic, where the exit is a failure of the setup.
unfoldable pub classify_podman_setup_failure : ℕ → Text → Option Text
classify_podman_setup_failure code stderr =
    let diagnostic = podman_setup_diagnostic stderr in
    if (code == 125 || code == 126 || code == 127) && not (is_empty diagnostic)
    then some diagnostic
    else none
