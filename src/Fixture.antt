-- ===== src/Fixture.antt =====
-- internal/socks5hfixture/fixture.go: the SOCKS5h server of the tests, over the bytes of a connection.
pub mod Connect
use netcage.Base.{
  ℕ, ◌+◌, ◌*◌, Bool, true, false, not, Option, none, some, List, [], ◌∷◌, ◌++◌, ◌==◌, if◌then◌else◌,
}
use netcage.Text.{Text, is_empty, eqb}
use netcage.Text.Numbers.{decimal}
use netcage.Net.{parse_ip}
use netcage.Net.Print.{ip_string}
use netcage.Cli.Command.{join_host_port}
use netcage.DnsForwarder.{read_full}

-- `Options`, less the address to dial from.
pub record FixtureOptions : Type 0 where
  pub known_hosts : List (Text × Text)
  pub allow_ip_connect : Bool
  pub redirect_target : Text

-- What a request comes to: an error, an error behind a reply with its code, or a host and a port.
pub data Request : Type 0 where
  failed : Request
  rejected : ℕ → Request
  requested : Text → Text → Request

-- What the server did on a connection: the bytes that it wrote, the hosts that it recorded, the target
-- that it dialled, and whether it joined the two connections.
pub record Handled : Type 0 where
  pub written : Text
  pub resolved : List Text
  pub dialled : Option Text
  pub spliced : Bool

abbrev pub socks_ver : ℕ
socks_ver = 5

abbrev pub rep_host_unreachable : ℕ
rep_host_unreachable = 4

abbrev pub rep_command_not_support : ℕ
rep_command_not_support = 7

abbrev pub rep_atyp_not_supported : ℕ
rep_atyp_not_supported = 8

-- `writeReply`.
abbrev pub write_reply : ℕ → Text
write_reply rep = socks_ver ∷ rep ∷ 0 ∷ 1 ∷ 0 ∷ 0 ∷ 0 ∷ 0 ∷ 0 ∷ 0 ∷ []

abbrev behind : Option (Text × Text) → Option Text
behind none = none
behind (some (m, rest)) = some rest

-- `handshake`: what follows it, if it is accepted.
unfoldable pub handshake_rest : Text → Option Text
unfolding read_full
handshake_rest (v ∷ n ∷ s) = if v == socks_ver then behind (read_full n s) else none
handshake_rest _ = none

abbrev pub with_port : Text → Text → Request
with_port host (a ∷ b ∷ s) = requested host (decimal (a * 256 + b))
with_port host _ = failed

abbrev pub name_request : Option (Text × Text) → Request
name_request none = failed
name_request (some (name, s)) = with_port name s

abbrev pub ip_request : Bool → Option (Text × Text) → Request
ip_request false _ = rejected rep_atyp_not_supported
ip_request true none = failed
ip_request true (some (ip, s)) = with_port (ip_string ip) s

abbrev pub domain_request : Text → Request
domain_request (n ∷ s) = name_request (read_full n s)
domain_request [] = failed

-- The switch of `readConnectRequest` over the type of the address.
unfoldable pub typed_request : FixtureOptions → ℕ → Text → Request
typed_request o atyp s =
    if atyp == 3
    then domain_request s
    else if atyp == 1
    then ip_request o.allow_ip_connect (read_full 4 s)
    else if atyp == 4
    then ip_request o.allow_ip_connect (read_full 16 s)
    else rejected rep_atyp_not_supported

-- `readConnectRequest`.
unfoldable pub read_connect_request : FixtureOptions → Text → Request
read_connect_request o (v ∷ cmd ∷ rsv ∷ atyp ∷ s) =
    if not (v == socks_ver)
    then failed
    else if not (cmd == 1)
    then rejected rep_command_not_support
    else typed_request o atyp s
read_connect_request o _ = failed

unfoldable pub known_host : Text → List (Text × Text) → Option Text
known_host host [] = none
known_host host ((name, ip) ∷ hosts) = if eqb name host then some ip else known_host host hosts

-- Of the parts of `handle`, `dial` says whether a dial of the target succeeds.
module _ (o : FixtureOptions) (dial : Text → Bool) where
  -- The dial, and the reply to what it got.
  unfoldable pub connect : Text → Text → List Text → Handled
  connect ip port hosts =
      let target =
        if is_empty o.redirect_target then join_host_port ip port else o.redirect_target in
      record {
        written = if dial target then write_reply 0 else write_reply rep_host_unreachable;
        resolved = hosts;
        dialled = some target;
        spliced = dial target;
      }

  abbrev unresolved : Text → Handled
  unresolved host = record {
    written = write_reply rep_host_unreachable;
    resolved = host ∷ [];
    dialled = none;
    spliced = false;
  }

  -- The resolution of the host, an address standing for itself.
  unfoldable pub resolve_host : Text → Text → Handled
  resolve_host host port = elim (parse_ip host) [
    | some ip ↦ connect host port []
    | none ↦ elim (known_host host o.known_hosts) [
      | none ↦ unresolved host
      | some ip ↦ connect ip port (host ∷ [])
    ]
  ]

  abbrev pub quiet : Text → Handled
  quiet bytes = record { written = bytes; resolved = []; dialled = none; spliced = false }

  unfoldable pub handle_request : Request → Handled
  handle_request failed = quiet []
  handle_request (rejected rep) = quiet (write_reply rep)
  handle_request (requested host port) = resolve_host host port

  abbrev pub behind_greeting : Handled → Handled
  behind_greeting r = record r { written = socks_ver ∷ 0 ∷ r.written }

  -- `handle`.
  unfoldable pub handle : Text → Handled
  handle s = elim (handshake_rest s) [
    | none ↦ quiet []
    | some rest ↦ behind_greeting (handle_request (read_connect_request o rest))
  ]
