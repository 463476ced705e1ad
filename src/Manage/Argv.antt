-- ===== src/Manage/Argv.antt =====
-- internal/manage/manage.go: the errors, the arguments of podman, and what the parsers of flags share.
pub mod Store
use netcage.Base.{
  Bool, true, false, not, ◌&&◌, ◌||◌, Option, none, some, List, [], ◌∷◌, ◌++◌, if◌then◌else◌,
  Result, ok, err,
}
use netcage.Text.{Text, codes, eqb, member, is_empty, has_prefix, cut}
use netcage.Jail.Effects.{ResolveError}

pub data ManageError : Type 0 where
  root_refused : Text → ManageError
  unknown_flag : Text → ManageError
  value_missing : ManageError
  name_missing : ManageError
  command_missing : Text → ManageError
  image_missing : Text → ManageError
  extra_positionals : List Text → ManageError
  unmanaged : ResolveError → ManageError
  jail_unavailable : Text → ManageError
  jail_stopped : Text → ManageError
  names_sidecar : Text → ManageError
  podman_failed : Text → ManageError
  unknown_verb : Text → ManageError

-- `managedFilter`.
abbrev pub managed_filter : List Text
managed_filter = codes "--filter" ∷ codes "label=netcage.managed=true" ∷ []

-- `PsArgs`.
abbrev pub ps_args : List Text → List Text
ps_args user_args = codes "ps" ∷ codes "-a" ∷ (managed_filter ++ user_args)

-- `ImagesArgs`.
abbrev pub images_args : List Text
images_args = codes "images" ∷ []

-- `passThroughVerbArgs`.
abbrev pub pass_through_verb_args : Text → List Text → List Text
pass_through_verb_args verb args = verb ∷ args

abbrev pub is_root_flag : Text → Bool
is_root_flag a = eqb a (codes "--root") || has_prefix (codes "--root=") a

-- `refuseUserRoot`.
unfoldable pub refuse_user_root : Text → List Text → Result ManageError (Unit {0})
refuse_user_root verb [] = ok tt
refuse_user_root verb (a ∷ args) = elim (is_root_flag a) [
  | true ↦ err (root_refused verb)
  | false ↦ refuse_user_root verb args
]

-- `InspectArgs`.
abbrev pub inspect_args : List Text → Text → List Text
inspect_args flags name = codes "inspect" ∷ (flags ++ (name ∷ []))

-- A token that is no flag: it is empty, does not begin with a dash, or is a dash.
abbrev pub is_subject : Text → Bool
is_subject a = not (has_prefix (codes "-") a) || eqb a (codes "-")

-- `isInspectValueFlag`.
abbrev pub is_inspect_value_flag : Text → Bool
is_inspect_value_flag a =
    member a (codes "--format" ∷ codes "-f" ∷ codes "--type" ∷ codes "-t" ∷ [])

abbrev last_name : List Text → Text → List Text → Result ManageError (List Text × Text)
last_name flags name [] = err name_missing
last_name flags name (a ∷ []) =
    if is_empty name
    then (if is_empty a then err name_missing else ok (flags, a))
    else err (extra_positionals [])
last_name flags name (a ∷ b ∷ rest) = err (extra_positionals [])

-- The loop of `ParseInspectArgs` behind the collected flags and the name; the first argument says
-- that the next token is the value of the flag in front of it.
unfoldable pub inspect_tokens :
    Bool → List Text → Text → List Text → Result ManageError (List Text × Text)
inspect_tokens true flags name [] = err value_missing
inspect_tokens true flags name (v ∷ args) = inspect_tokens false (flags ++ (v ∷ [])) name args
inspect_tokens false flags name [] = if is_empty name then err name_missing else ok (flags, name)
inspect_tokens false flags name (a ∷ args) = elim (eqb a (codes "--")) [
  | true ↦ last_name flags name args
  | false ↦ elim (is_subject a) [
    | true ↦ elim (is_empty name) [
      | true ↦ inspect_tokens false flags a args
      | false ↦ err (extra_positionals (a ∷ []))
    ]
    | false ↦ inspect_tokens (is_inspect_value_flag a) (flags ++ (a ∷ [])) name args
  ]
]

-- `ParseInspectArgs`.
unfoldable pub parse_inspect_args : List Text → Result ManageError (List Text × Text)
unfolding inspect_tokens
parse_inspect_args args = inspect_tokens false [] [] args

-- A flag with the value written behind an equals sign, if it begins with two dashes.
unfoldable pub split_inline : Text → Text × Option Text
split_inline a = if has_prefix (codes "--") a then at_equals (cut b'=' a) else (a, none)
  where
    at_equals : Option (Text × Text) → Text × Option Text
    at_equals none = (a, none)
    at_equals (some (flag, v)) = (flag, some v)

-- `RmPairArgs`.
abbrev pub rm_pair_args : Text → List Text
rm_pair_args sidecar = codes "rm" ∷ codes "-f" ∷ codes "--depend" ∷ sidecar ∷ []

-- `namedVerbArgs`.
abbrev pub named_verb_args : Text → Text → List Text
named_verb_args verb name = verb ∷ name ∷ []

-- `requireName`.
abbrev pub require_name : List Text → Result ManageError Text
require_name [] = err name_missing
require_name (name ∷ _) = ok name
