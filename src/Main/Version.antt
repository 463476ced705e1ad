-- ===== src/Main/Version.antt =====
-- version.go: the version that is printed.
use netcage.Base.{
  Bool, false, ◌||◌, Option, none, some, List, [], ◌∷◌, ◌++◌, take, not, ◌&&◌, if◌then◌else◌,
}
use netcage.Text.{Text, codes, eqb, is_empty}

-- What the program reads of `debug.BuildInfo`; the settings are the keys with their values.
pub record BuildInfo : Type 0 where
  pub main_version : Text
  pub settings : List (Text × Text)

-- `isVersionArg`.
unfoldable pub is_version_arg : List Text → Bool
is_version_arg (a ∷ []) = eqb a (codes "--version") || eqb a (codes "version")
is_version_arg _ = false

-- `vcsRevision`.
unfoldable pub vcs_revision : List (Text × Text) → Text
vcs_revision [] = []
vcs_revision ((key, value) ∷ settings) =
    if eqb key (codes "vcs.revision") then take 12 value else vcs_revision settings

-- `resolveVersion`, of the version that the build has stamped and of the build's information.
unfoldable pub resolve_version : Text → Option BuildInfo → Text
resolve_version stamped info =
    if not (is_empty stamped) && not (eqb stamped (codes "dev")) then stamped else elim info [
      | none ↦ stamped
      | some i ↦
          let v =
            if is_empty i.main_version || eqb i.main_version (codes "(devel)")
            then codes "dev"
            else i.main_version in
          let rev = vcs_revision i.settings in
          if is_empty rev then v else v ++ (codes " (" ++ (rev ++ codes ")"))
    ]
