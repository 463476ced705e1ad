-- ===== src/Manage/Exec.antt =====
-- internal/manage/manage.go: the flags of `netcage exec`, `ParseExecArgs` and `ExecArgs`.
pub mod Roundtrip
use netcage.Base.{
  Bool, true, false, not, ◌&&◌, ◌||◌, Option, none, some, List, [], ◌∷◌, ◌++◌, if◌then◌else◌,
  Result, ok, err, ◌>>=◌,
}
use netcage.Text.{Text, codes, eqb, member, is_empty}
use netcage.Manage.Argv.{
  ManageError, unknown_flag, value_missing, name_missing, command_missing, is_subject, split_inline,
}

-- `ExecFlags`.
pub record ExecFlags : Type 0 where
  pub interactive : Bool
  pub tty : Bool
  pub workdir : Text
  pub user : Text
  pub env : List Text

abbrev pub no_exec_flags : ExecFlags
no_exec_flags = record { interactive = false; tty = false; workdir = []; user = []; env = [] }

pub data ExecValue : Type 0 where
  workdir user env : ExecValue

pub data ExecSwitch : Type 0 where
  interactive tty both : ExecSwitch

-- What the loop does with a token in front of the name.
pub data ExecToken : Type 0 where
  ends : ExecToken
  subject : ExecToken
  switch : ExecSwitch → ExecToken
  with_value : ExecValue → Text → ExecToken
  before_value : ExecValue → ExecToken
  unknown : ExecToken

abbrev valued : ExecValue → Option Text → ExecToken
valued f (some v) = with_value f v
valued f none = before_value f

-- The switch of the loop, over a flag and the value written to it.
unfoldable pub exec_case : Text → Option Text → ExecToken
exec_case flag inline =
    if member flag (codes "-i" ∷ codes "--interactive" ∷ [])
    then switch interactive
    else if member flag (codes "-t" ∷ codes "--tty" ∷ [])
    then switch tty
    else if member flag (codes "-it" ∷ codes "-ti" ∷ [])
    then switch both
    else if member flag (codes "-w" ∷ codes "--workdir" ∷ [])
    then valued workdir inline
    else if member flag (codes "-u" ∷ codes "--user" ∷ [])
    then valued user inline
    else if member flag (codes "-e" ∷ codes "--env" ∷ [])
    then valued env inline
    else unknown

unfoldable pub exec_token : Text → ExecToken
unfolding exec_case
exec_token a =
    if eqb a (codes "--")
    then ends
    else if is_subject a
    then subject
    else exec_case (split_inline a).0 (split_inline a).1

unfoldable pub turn_on : ExecSwitch → ExecFlags → ExecFlags
turn_on interactive fl = record fl { interactive = true }
turn_on tty fl = record fl { tty = true }
turn_on both fl = record fl { interactive = true; tty = true }

unfoldable pub set_value : ExecValue → Text → ExecFlags → ExecFlags
set_value workdir v fl = record fl { workdir = v }
set_value user v fl = record fl { user = v }
set_value env v fl = record fl { env = fl.env ++ (v ∷ []) }

-- The loop, with the flag that waits for its value: the flags, and the tokens from the name on.
unfoldable pub exec_tokens :
    Option ExecValue → ExecFlags → List Text → Result ManageError (ExecFlags × List Text)
exec_tokens (some f) fl [] = err value_missing
exec_tokens (some f) fl (v ∷ args) = exec_tokens none (set_value f v fl) args
exec_tokens none fl [] = ok (fl, [])
exec_tokens none fl (a ∷ args) = elim (exec_token a) [
  | ends ↦ ok (fl, args)
  | subject ↦ ok (fl, a ∷ args)
  | switch f ↦ exec_tokens none (turn_on f fl) args
  | with_value f v ↦ exec_tokens none (set_value f v fl) args
  | before_value f ↦ exec_tokens (some f) fl args
  | unknown ↦ err (unknown_flag a)
]

pub record ExecCommand : Type 0 where
  pub flags : ExecFlags
  pub name : Text
  pub command : List Text

-- The name and the command behind the flags.
abbrev pub exec_subject : ExecFlags × List Text → Result ManageError ExecCommand
exec_subject (fl, []) = err name_missing
exec_subject (fl, name ∷ []) = err (command_missing name)
exec_subject (fl, name ∷ a ∷ args) = ok (record { flags = fl; name = name; command = a ∷ args })

-- `ParseExecArgs`.
unfoldable pub parse_exec_args : List Text → Result ManageError ExecCommand
parse_exec_args args = exec_tokens none no_exec_flags args >>= exec_subject

-- A flag with its value, if it has one.
abbrev pub value_args : Text → Text → List Text
value_args flag [] = []
value_args flag (c ∷ v) = flag ∷ (c ∷ v) ∷ []

-- A flag in front of each value.
unfoldable pub each_args : Text → List Text → List Text
each_args flag [] = []
each_args flag (v ∷ vs) = flag ∷ v ∷ each_args flag vs

abbrev pub switch_args : Text → Bool → List Text
switch_args flag b = if b then flag ∷ [] else []

-- The flags of `ExecArgs`.
unfoldable pub exec_flag_args : ExecFlags → List Text
exec_flag_args fl =
    switch_args (codes "-i") fl.interactive
    ++ (switch_args (codes "-t") fl.tty
        ++ (value_args (codes "-w") fl.workdir
            ++ (value_args (codes "-u") fl.user ++ each_args (codes "-e") fl.env)))

-- `ExecArgs`.
unfoldable pub exec_args : ExecCommand → List Text
exec_args c = codes "exec" ∷ (exec_flag_args c.flags ++ (c.name ∷ c.command))
