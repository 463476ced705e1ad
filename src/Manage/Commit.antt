-- ===== src/Manage/Commit.antt =====
-- internal/manage/manage.go: the flags of `netcage commit`, `ParseCommitArgs` and `CommitArgs`.
pub mod Roundtrip
use netcage.Base.{
  Bool, true, false, not, ◌&&◌, ◌||◌, Option, none, some, List, [], ◌∷◌, ◌++◌, if◌then◌else◌,
  Result, ok, err, ◌>>=◌,
}
use netcage.Text.{Text, codes, eqb, member, is_empty}
use netcage.Manage.Argv.{
  ManageError, unknown_flag, value_missing, name_missing, image_missing, extra_positionals,
  is_subject, split_inline,
}
use netcage.Manage.Exec.{value_args, each_args, switch_args}

-- `CommitFlags`.
pub record CommitFlags : Type 0 where
  pub message : Text
  pub author : Text
  pub change : List Text
  pub format : Text
  pub pause : Bool
  pub pause_set : Bool
  pub quiet : Bool

abbrev pub no_commit_flags : CommitFlags
no_commit_flags = record {
  message = [];
  author = [];
  change = [];
  format = [];
  pause = false;
  pause_set = false;
  quiet = false;
}

pub data CommitValue : Type 0 where
  message author change format : CommitValue

-- What the loop does with a token.
pub data CommitToken : Type 0 where
  ends positional : CommitToken
  pause : Bool → CommitToken
  quiet : CommitToken
  with_value : CommitValue → Text → CommitToken
  before_value : CommitValue → CommitToken
  unknown : CommitToken

abbrev valued : CommitValue → Option Text → CommitToken
valued f (some v) = with_value f v
valued f none = before_value f

abbrev paused : Option Text → CommitToken
paused (some v) = pause (eqb v (codes "true") || eqb v (codes "1"))
paused none = pause true

-- The switch of the loop, over a flag and the value written to it.
unfoldable pub commit_case : Text → Option Text → CommitToken
commit_case flag inline =
    if member flag (codes "-m" ∷ codes "--message" ∷ [])
    then valued message inline
    else if member flag (codes "-a" ∷ codes "--author" ∷ [])
    then valued author inline
    else if member flag (codes "-c" ∷ codes "--change" ∷ [])
    then valued change inline
    else if member flag (codes "-f" ∷ codes "--format" ∷ [])
    then valued format inline
    else if eqb flag (codes "--pause")
    then paused inline
    else if member flag (codes "-q" ∷ codes "--quiet" ∷ [])
    then quiet
    else unknown

unfoldable pub commit_token : Text → CommitToken
unfolding commit_case
commit_token a =
    if eqb a (codes "--")
    then ends
    else if is_subject a
    then positional
    else commit_case (split_inline a).0 (split_inline a).1

unfoldable pub set_value : CommitValue → Text → CommitFlags → CommitFlags
set_value message v fl = record fl { message = v }
set_value author v fl = record fl { author = v }
set_value change v fl = record fl { change = fl.change ++ (v ∷ []) }
set_value format v fl = record fl { format = v }

-- The loop, with the flag that waits for its value: the flags and the positionals.
unfoldable pub commit_tokens :
    Option CommitValue
    → CommitFlags
    → List Text
    → List Text
    → Result ManageError (CommitFlags × List Text)
commit_tokens (some f) fl ps [] = err value_missing
commit_tokens (some f) fl ps (v ∷ args) = commit_tokens none (set_value f v fl) ps args
commit_tokens none fl ps [] = ok (fl, ps)
commit_tokens none fl ps (a ∷ args) = elim (commit_token a) [
  | ends ↦ ok (fl, ps ++ args)
  | positional ↦ commit_tokens none fl (ps ++ (a ∷ [])) args
  | pause b ↦ commit_tokens none (record fl { pause_set = true; pause = b }) ps args
  | quiet ↦ commit_tokens none (record fl { quiet = true }) ps args
  | with_value f v ↦ commit_tokens none (set_value f v fl) ps args
  | before_value f ↦ commit_tokens (some f) fl ps args
  | unknown ↦ err (unknown_flag a)
]

pub record CommitCommand : Type 0 where
  pub flags : CommitFlags
  pub name : Text
  pub image_ref : Text

-- The two positionals.
abbrev pub commit_subject : CommitFlags × List Text → Result ManageError CommitCommand
commit_subject (fl, []) = err name_missing
commit_subject (fl, name ∷ []) = err (image_missing name)
commit_subject (fl, name ∷ image_ref ∷ []) =
    ok (record { flags = fl; name = name; image_ref = image_ref })
commit_subject (fl, name ∷ image_ref ∷ a ∷ args) = err (extra_positionals (a ∷ args))

-- `ParseCommitArgs`.
unfoldable pub parse_commit_args : List Text → Result ManageError CommitCommand
parse_commit_args args = commit_tokens none no_commit_flags [] args >>= commit_subject

-- The flag `--pause`, if it was given.
abbrev pub pause_args : Bool → Bool → List Text
pause_args false b = []
pause_args true true = codes "--pause" ∷ []
pause_args true false = codes "--pause=false" ∷ []

-- The flags of `CommitArgs`.
unfoldable pub commit_flag_args : CommitFlags → List Text
commit_flag_args fl =
    value_args (codes "-m") fl.message
    ++ (value_args (codes "-a") fl.author
        ++ (each_args (codes "-c") fl.change
            ++ (value_args (codes "-f") fl.format
                ++ (pause_args fl.pause_set fl.pause ++ switch_args (codes "-q") fl.quiet))))

-- `CommitArgs`.
unfoldable pub commit_args : CommitFlags → Text → Text → List Text
commit_args fl tool_name image_ref =
    codes "commit" ∷ (commit_flag_args fl ++ (tool_name ∷ image_ref ∷ []))
