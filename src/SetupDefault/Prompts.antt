-- ===== src/SetupDefault/Prompts.antt =====
-- main.go: `stdinPrompter` and `stderrConsole`, over the bytes of the standard input that are left and
-- what the onboarding did.
use netcage.Base.{Bool, ◌||◌, List, [], ◌∷◌, ◌++◌, ◌==◌, if◌then◌else◌, Result, ok, err}
use netcage.Text.{Text, codes, eqb, is_empty, trim_space}
use netcage.Cli.Command.{ParseError, ProxyConfig}
use netcage.Cli.Config.Write.{WriteError}
use netcage.Jail.Effects.{History}
use netcage.Jail.Setup.{to_lower}

-- Why an entry is no proxy.
pub data EntryError : Type 0 where
  empty_entry : EntryError
  rejected : ParseError → EntryError

-- `printed` is a line of the console, `prompted` one of the prompter; `entered` and `answered` are what
-- was read. `invalid` and `refused` print an error. `probed` asks for the exit address through a proxy,
-- `persist` is a call of the writer.
pub data Action : Type 0 where
  printed : Text → Action
  prompted : Text → Action
  entered : Text → Action
  answered : Bool → Action
  invalid : EntryError → Action
  refused : WriteError → Action
  probed : ProxyConfig → Action
  persist : Text → List Text → Action

-- The actions are the newest first; `history` is that of the jail.
pub record Session : Type 0 where
  pub input : Text
  pub log : List Action
  pub history : History

pub data SetupError : Type 0 where
  reading_input : SetupError
  persist_failed : WriteError → SetupError
  out_of_fuel : SetupError

abbrev pub Dialog : Type 0 → Type 0
Dialog A = Session → Session × Result SetupError A

unfoldable pub and_then :
    {A B : Type 0} → Session × Result SetupError A → (A → Dialog B) → Session × Result SetupError B
and_then (s, ok a) f = f a s
and_then (s, err e) f = (s, err e)

abbrev pub act : Action → Session → Session
act a s = record s { log = a ∷ s.log }

-- `Reader.ReadString('\n')` on an input that is not empty: the line with its end, and what follows.
unfoldable pub next_line : Text → Text × Text
next_line [] = ([], [])
next_line (c ∷ s) =
    let (line, rest) = next_line s in if c == b'\n' then (c ∷ [], s) else (c ∷ line, rest)

-- A line is read, unless the input is at its end.
unfoldable pub read_line : Dialog Text
read_line s = elim s.input [
  | [] ↦ (s, err reading_input)
  | c ∷ cs ↦ (record s { input = (next_line (c ∷ cs)).1 }, ok (next_line (c ∷ cs)).0)
]

-- `stdinPrompter.Ask`.
unfoldable pub ask : Text → Dialog Text
ask prompt s =
    and_then (read_line (act (prompted (prompt ++ codes ": ")) s))
      λ line s'. (act (entered (trim_space line)) s', ok (trim_space line))

-- What a line says to a question with a default.
unfoldable pub says_yes : Bool → Text → Bool
says_yes default line =
    let answer = to_lower (trim_space line) in
    if is_empty answer then default else eqb answer (codes "y") || eqb answer (codes "yes")

-- `stdinPrompter.Confirm`.
unfoldable pub confirm : Text → Bool → Dialog Bool
confirm prompt default s =
    let suffix = if default then codes " [Y/n]" else codes " [y/N]" in
    and_then (read_line (act (prompted (prompt ++ (suffix ++ codes ": "))) s))
      λ line s'. (act (answered (says_yes default line)) s', ok (says_yes default line))
