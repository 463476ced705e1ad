-- ===== src/Cli/Verbs.antt =====
-- internal/cli/cli.go: the small surfaces of the verbs that carry no proxy.
pub mod Ports
use netcage.Base.{
  ℕ, Bool, true, false, not, ◌&&◌, ◌||◌, Option, none, some, List, [], ◌∷◌, ◌++◌, ltb,
  if◌then◌else◌, Result, ok, err, ◌>>=◌, ℤ, pos, negsuc,
}
use netcage.Text.{Text, codes, eqb, has_prefix, cut_prefix, split}
use netcage.Text.Numbers.{atoi}
use netcage.Cli.Command.{
  Command, command, ParseError, unknown_flag, takes_no_proxy, bind_requires_value, bind_not_allowed,
  forward_takes_two, port_not_a_number, port_out_of_range, too_many_colons, ports_takes_one,
  takes_no_positional,
}

abbrev is_proxy_flag : Text → Bool
is_proxy_flag a = eqb a (codes "--proxy") || has_prefix (codes "--proxy=") a

abbrev is_flag : Text → Bool
is_flag a = has_prefix (codes "-") a && not (eqb a (codes "-"))

abbrev port_in_range : ℤ → Result ParseError ℕ
port_in_range (negsuc n) = err (port_out_of_range (negsuc n))
port_in_range (pos n) = if ltb n 1 || ltb 65535 n then err (port_out_of_range (pos n)) else ok n

-- `parseForwardPort`.
unfoldable pub parse_forward_port : Text → Result ParseError ℕ
unfolding atoi
parse_forward_port s = elim (atoi s) [ none ↦ err (port_not_a_number s) | some p ↦ port_in_range p ]

-- The switch of `parseForwardPortSpec` over the parts between the colons.
unfoldable pub port_parts : Text → List Text → Result ParseError (ℕ × ℕ)
unfolding parse_forward_port
port_parts s (jail ∷ []) = parse_forward_port jail >>= λ p. ok (p, p)
port_parts s (host ∷ jail ∷ []) =
    parse_forward_port host >>= λ hp. parse_forward_port jail >>= λ jp. ok (hp, jp)
port_parts s _ = err (too_many_colons s)

-- `parseForwardPortSpec`: the host port and the port in the jail.
unfoldable pub parse_forward_port_spec : Text → Result ParseError (ℕ × ℕ)
unfolding port_parts split
parse_forward_port_spec s = port_parts s (split b':' s)

-- `resolveForwardBind`.
unfoldable pub resolve_forward_bind : Text → Result ParseError Text
unfolding eqb codes
resolve_forward_bind v =
    if eqb v (codes "127.0.0.1") || eqb v (codes "0.0.0.0") then ok v else err (bind_not_allowed v)

-- The loop of `parseForward`: whether `--bind` waits for its value, the bind, the positionals.
pub record ForwardScan : Type 0 where
  pub waits : Bool
  pub bind : Text
  pub positionals : List Text

abbrev set_bind : ForwardScan → Text → Result ParseError ForwardScan
set_bind s v = resolve_forward_bind v >>= λ b. ok (record s { waits = false; bind = b })

abbrev forward_flag : ForwardScan → Text → Option Text → Result ParseError ForwardScan
forward_flag s a (some v) = set_bind s v
forward_flag s a none =
    if is_proxy_flag a
    then err (takes_no_proxy (codes "forward"))
    else if is_flag a
    then err (unknown_flag a)
    else ok (record s { positionals = s.positionals ++ (a ∷ []) })

unfoldable pub forward_arg : ForwardScan → Text → Result ParseError ForwardScan
forward_arg s a =
    if s.waits
    then set_bind s a
    else if eqb a (codes "--bind")
    then ok (record s { waits = true })
    else forward_flag s a (cut_prefix (codes "--bind=") a)

unfoldable pub forward_args : ForwardScan → List Text → Result ParseError ForwardScan
unfolding forward_arg
forward_args s [] = if s.waits then err bind_requires_value else ok s
forward_args s (a ∷ rest) = forward_arg s a >>= λ t. forward_args t rest

-- What `parseForward` does behind its loop.
unfoldable pub forward_command : Text → List Text → Result ParseError Command
forward_command bind (container ∷ spec ∷ []) = parse_forward_port_spec spec >>= λ (hp, jp).
    ok (record (command (codes "forward")) {
      forward_container = container;
      forward_port = jp;
      forward_host_port = hp;
      forward_bind = bind;
    })
forward_command bind ps = err (forward_takes_two ps)

-- `parseForward`.
unfoldable pub parse_forward : List Text → Result ParseError Command
parse_forward rest =
    forward_args (record { waits = false; bind = codes "127.0.0.1"; positionals = [] }) rest
    >>= λ s. forward_command s.bind s.positionals

-- The loop of `parsePorts`: the flag `--json` and the positionals.
unfoldable pub ports_args : Bool → List Text → List Text → Result ParseError (Bool × List Text)
ports_args json ps [] = ok (json, ps)
ports_args json ps (a ∷ rest) =
    let more =
      ports_args (json || eqb a (codes "--json"))
        (if eqb a (codes "--json") then ps else ps ++ (a ∷ [])) rest in
    if eqb a (codes "--json")
    then more
    else if is_proxy_flag a
    then err (takes_no_proxy (codes "ports"))
    else if is_flag a
    then err (unknown_flag a)
    else more

abbrev ports_command : Bool × List Text → Result ParseError Command
ports_command (json, (container ∷ [])) =
    ok (record (command (codes "ports")) { json = json; ports_container = container })
ports_command (json, ps) = err (ports_takes_one ps)

-- `parsePorts`.
unfoldable pub parse_ports : List Text → Result ParseError Command
unfolding ports_args
parse_ports rest = ports_args false [] rest >>= ports_command

-- The loop of `parseDetectProxy`.
unfoldable pub detect_args : Bool → List Text → Result ParseError Command
detect_args json [] = ok (record (command (codes "detect-proxy")) { json = json })
detect_args json (a ∷ rest) =
    let more = detect_args true rest in
    if eqb a (codes "--json")
    then more
    else if is_proxy_flag a
    then err (takes_no_proxy (codes "detect-proxy"))
    else if is_flag a
    then err (unknown_flag a)
    else err (takes_no_positional (codes "detect-proxy") a)

-- `parseDetectProxy`.
unfoldable pub parse_detect_proxy : List Text → Result ParseError Command
unfolding detect_args
parse_detect_proxy = detect_args false

-- `parseSetupDefault`: the first argument, if there is one, is an error.
unfoldable pub parse_setup_default : List Text → Result ParseError Command
parse_setup_default [] = ok (command (codes "setup-default"))
parse_setup_default (a ∷ rest) =
    if is_proxy_flag a
    then err (takes_no_proxy (codes "setup-default"))
    else if is_flag a
    then err (unknown_flag a)
    else err (takes_no_positional (codes "setup-default") a)
