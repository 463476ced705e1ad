-- ===== src/Cli/Scan.antt =====
-- internal/cli/cli.go: the loop of `ParseWithEnv` over the arguments behind the subcommand.
pub mod Vetted
pub mod Denied
pub mod Allowlist
pub mod Named
use netcage.Base.{
  Bool, true, false, not, ◌&&◌, ◌||◌, Option, none, some, List, [], ◌∷◌, ◌++◌, if◌then◌else◌,
  Result, ok, err, ◌>>=◌,
}
use netcage.Text.{Text, codes, eqb, member, cut_prefix, has_prefix, cut}
use netcage.Cli.Allow.{parse_allow_direct}
use netcage.Cli.Command.{
  ValueFlag, proxy, volume, workdir, env_var, user, entrypoint, allow, pass_through, ParseError,
  flag_not_allowed, requires_value, bad_allow, unknown_flag, Command, command, deny_flag,
  deny_flag_name, pass_through_value_flags,
}

-- The variables of the loop.
pub record Scan : Type 0 where
  pub cmd : Command
  pub proxy_raw : Text
  pub proxy_from_flag : Bool
  pub allow_from_flag : Bool
  pub positionals : List Text
  pub end_of_flags : Bool

-- What one argument asks for: the cases of the switch.
pub data Action : Type 0 where
  end_marker : Action
  denied : Text → Action
  later : ValueFlag → Action
  now : ValueFlag → Text → Action
  interactive tty interactive_tty rm read_only : Action
  unknown : Text → Action
  positional : Text → Action

-- A case that applies, or the cases behind it.
infixr 3 ◌otherwise◌
abbrev pub ◌otherwise◌ : Option Action → Action → Action
none otherwise b = b
some a otherwise b = a

abbrev now_of : ValueFlag → Option Text → Option Action
now_of f none = none
now_of f (some v) = some (now f v)

-- `case a == name`, for any of the names.
abbrev is_one : List Text → Action → Text → Option Action
is_one names b a = if member a names then some b else none

-- `case strings.HasPrefix(a, p)`, with what `strings.TrimPrefix` leaves.
abbrev behind : Text → ValueFlag → Text → Option Action
behind p f a = now_of f (cut_prefix p a)

-- `isPassThroughValueFlagEquals` and `splitFlagEquals`.
abbrev equals_of : Option (Text × Text) → Option Action
equals_of none = none
equals_of (some (name, v)) =
    if member name pass_through_value_flags then some (now (pass_through name) v) else none

-- The switch, in the order of its cases.
unfoldable pub classify : Text → Action
classify a =
    is_one (codes "--" ∷ []) end_marker a
    otherwise (if deny_flag a then some (denied (deny_flag_name a)) else none)
    otherwise is_one (codes "--proxy" ∷ []) (later proxy) a
    otherwise behind (codes "--proxy=") proxy a
    otherwise is_one (codes "-i" ∷ codes "--interactive" ∷ []) interactive a
    otherwise is_one (codes "-t" ∷ codes "--tty" ∷ []) tty a
    otherwise is_one (codes "-it" ∷ codes "-ti" ∷ []) interactive_tty a
    otherwise is_one (codes "--rm" ∷ []) rm a
    otherwise is_one (codes "-v" ∷ codes "--volume" ∷ []) (later volume) a
    otherwise behind (codes "--volume=") volume a
    otherwise behind (codes "-v=") volume a
    otherwise is_one (codes "-w" ∷ codes "--workdir" ∷ []) (later workdir) a
    otherwise behind (codes "--workdir=") workdir a
    otherwise behind (codes "-w=") workdir a
    otherwise is_one (codes "-e" ∷ codes "--env" ∷ []) (later env_var) a
    otherwise behind (codes "--env=") env_var a
    otherwise behind (codes "-e=") env_var a
    otherwise is_one (codes "-u" ∷ codes "--user" ∷ []) (later user) a
    otherwise behind (codes "--user=") user a
    otherwise behind (codes "-u=") user a
    otherwise is_one (codes "--entrypoint" ∷ []) (later entrypoint) a
    otherwise behind (codes "--entrypoint=") entrypoint a
    otherwise is_one (codes "--read-only" ∷ []) read_only a
    otherwise is_one (codes "-l" ∷ codes "--label" ∷ []) (later (pass_through (codes "--label"))) a
    otherwise behind (codes "--label=") (pass_through (codes "--label")) a
    otherwise behind (codes "-l=") (pass_through (codes "--label")) a
    otherwise is_one pass_through_value_flags (later (pass_through a)) a
    otherwise equals_of (cut b'=' a)
    otherwise is_one (codes "--allow" ∷ []) (later allow) a
    otherwise behind (codes "--allow=") allow a
    otherwise (if has_prefix (codes "-") a && not (eqb a (codes "-"))
        then some (unknown a)
        else none)
    otherwise positional a

-- The body of a case that has its value.
unfoldable pub apply : ValueFlag → Text → Scan → Result ParseError Scan
apply proxy v s = ok (record s { proxy_raw = v; proxy_from_flag = true })
apply volume v s = ok (record s { cmd = record (s.cmd) { mounts = s.cmd.mounts ++ (v ∷ []) } })
apply workdir v s = ok (record s { cmd = record (s.cmd) { workdir = v } })
apply env_var v s = ok (record s { cmd = record (s.cmd) { env = s.cmd.env ++ (v ∷ []) } })
apply user v s = ok (record s { cmd = record (s.cmd) { user = v } })
apply entrypoint v s = ok (record s { cmd = record (s.cmd) { entrypoint = v } })
apply (pass_through name) v s = ok (record s {
  cmd = record (s.cmd) { pass_through_flags = s.cmd.pass_through_flags ++ (name ∷ v ∷ []) };
})
apply allow v s = elim (parse_allow_direct v) [
  | err e ↦ err (bad_allow e)
  | ok entry ↦ ok (record s {
    cmd = record (s.cmd) { allow_direct = s.cmd.allow_direct ++ (entry ∷ []) };
    allow_from_flag = true;
  })
]

-- The flag that waits for its value, and the variables.
abbrev pub Step : Type 0
Step = Option ValueFlag × Scan

abbrev with_cmd : Scan → Command → Result ParseError Step
with_cmd s c = ok (none, record s { cmd = c })

-- The body of the case of an argument.
unfoldable pub act : Action → Scan → Result ParseError Step
act end_marker s = ok (none, record s { end_of_flags = true })
act (denied name) s = err (flag_not_allowed name)
act (later f) s = ok (some f, s)
act (now f v) s = apply f v s >>= λ s'. ok (none, s')
act interactive s = with_cmd s (record (s.cmd) { interactive = true })
act tty s = with_cmd s (record (s.cmd) { tty = true })
act interactive_tty s = with_cmd s (record (s.cmd) { interactive = true; tty = true })
act rm s = with_cmd s (record (s.cmd) { rm = true })
act read_only s =
    with_cmd s (record (s.cmd) {
      pass_through_flags = s.cmd.pass_through_flags ++ (codes "--read-only" ∷ []);
    })
act (unknown a) s = err (unknown_flag a)
act (positional a) s =
    ok (none, record s { end_of_flags = true; positionals = s.positionals ++ (a ∷ []) })

-- An argument that is no value: a positional behind the flags, or a case of the switch.
unfoldable pub argument : Bool → Text → Scan → Result ParseError Step
argument true a s = ok (none, record s { positionals = s.positionals ++ (a ∷ []) })
argument false a s = act (classify a) s

-- One argument: the value of the flag in front of it, or one that is no value.
unfoldable pub feed : Step → Text → Result ParseError Step
feed (some f, s) a = apply f a s >>= λ s'. ok (none, s')
feed (none, s) a = argument s.end_of_flags a s

-- The loop.
unfoldable pub feeds : Step → List Text → Result ParseError Step
feeds t [] = ok t
feeds t (a ∷ rest) = feed t a >>= λ u. feeds u rest

-- `next` finds no value behind the last flag.
unfoldable pub finish : Step → Result ParseError Scan
finish (none, s) = ok s
finish (some f, s) = err (requires_value f)

-- The state in front of the first argument.
abbrev pub initial : Text → Step
initial name = (
  none,
  record {
    cmd = command name;
    proxy_raw = [];
    proxy_from_flag = false;
    allow_from_flag = false;
    positionals = [];
    end_of_flags = false;
  },
)

unfoldable pub scan : Text → List Text → Result ParseError Scan
unfolding finish
scan name rest = feeds (initial name) rest >>= finish
