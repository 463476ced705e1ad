-- ===== src/DetectProxy.antt =====
-- internal/detectproxy/detectproxy.go: the ports of the host's loopback that may be a SOCKS5 proxy.
pub mod Confirmed
use netcage.Base.{
  ℕ, Bool, true, false, not, ◌&&◌, ◌||◌, Option, none, some, List, [], ◌∷◌, ◌++◌, if◌then◌else◌,
  ◌==◌,
}
use netcage.Text.{Text, codes, eqb, is_empty, member, trim_space}
use netcage.Text.Numbers.{decimal}
use netcage.Jail.Setup.{to_lower}

-- `PortSpec`, of the ports in use only.
pub record PortSpec : Type 0 where
  pub port : ℕ
  pub note : Text

-- `DefaultPorts`.
abbrev pub default_ports : List PortSpec
default_ports =
    record { port = 9050; note = codes "Tor default" }
    ∷ record { port = 9150; note = codes "Tor Browser default" }
    ∷ record { port = 1080; note = codes "generic SOCKS (wireproxy / ssh -D / other)" }
    ∷ []

-- `Candidate`.
pub record Candidate : Type 0 where
  pub port : ℕ
  pub is_open : Bool
  pub socks5 : Bool
  pub process_hint : Text

-- `PortResult`.
pub record PortResult : Type 0 where
  pub is_open : Bool
  pub socks5 : Bool
  pub process_hint : Text

-- `Probe`, over the prober.
unfoldable pub probe : (ℕ → PortResult) → List PortSpec → List Candidate
probe p [] = []
probe p (spec ∷ specs) =
    record {
      port = spec.port;
      is_open = (p spec.port).is_open;
      socks5 = (p spec.port).socks5;
      process_hint = (p spec.port).process_hint;
    }
    ∷ probe p specs

-- `Handshake`, of the two bytes that came behind the greeting; `none` is a failed write or read. Both
-- methods of a SOCKS5 server, and the refusal of both, are a confirmation.
unfoldable pub handshake : Option (ℕ × ℕ) → Bool
handshake none = false
handshake (some (version, method)) = version == 5

-- `PortHints`.
unfoldable pub port_hints : List Text → ℕ → Text
port_hints names port =
    if has_tor names && (port == 9050 || port == 9150)
    then codes "a `tor` process is running -> likely Tor"
    else []
  where
    has_tor : List Text → Bool
    has_tor [] = false
    has_tor (n ∷ ns) = eqb (to_lower (trim_space n)) (codes "tor") || has_tor ns

abbrev pub dialled : Option (Option (ℕ × ℕ)) → Text → PortResult
dialled none hint = record { is_open = false; socks5 = false; process_hint = hint }
dialled (some answer) hint = record {
  is_open = true;
  socks5 = handshake answer;
  process_hint = hint;
}

-- `DialProber.Probe`, of what a dial of each port got: no connection, or the answer to the greeting.
unfoldable pub dial_probe : (ℕ → Option (Option (ℕ × ℕ))) → (ℕ → Text) → ℕ → PortResult
dial_probe dial hints port = dialled (dial port) (hints port)

-- `Report.anyConfirmed`.
unfoldable pub any_confirmed : List Candidate → Bool
any_confirmed [] = false
any_confirmed (c ∷ cs) = c.socks5 || any_confirmed cs

abbrev pub note_for : List PortSpec → ℕ → Text
note_for [] port = []
note_for (s ∷ ss) port = if s.port == port then s.note else note_for ss port

abbrev pub state_of : Candidate → Text
state_of c =
    if c.socks5
    then codes "  open, SOCKS5 confirmed"
    else if c.is_open
    then codes "  open, but NOT confirmed SOCKS5 (an open port is not enough)"
    else codes "  closed"

abbrev pub unless_empty : Text → Text → Text → Text
unless_empty before [] behind = []
unless_empty before (c ∷ s) behind = before ++ ((c ∷ s) ++ behind)

-- The line of a candidate.
unfoldable pub candidate_line : Candidate → Text
candidate_line c =
    codes "  127.0.0.1:"
    ++ (decimal c.port
        ++ (state_of c
            ++ (unless_empty (codes "  [") (note_for default_ports c.port) (codes "]")
                ++ (unless_empty (codes "  hint: ") c.process_hint [] ++ codes "\n"))))

unfoldable pub candidate_lines : List Candidate → Text
candidate_lines [] = []
candidate_lines (c ∷ cs) = candidate_line c ++ candidate_lines cs

-- `Report.Human`.
unfoldable pub human : List Candidate → Text → Text
human candidates exit_ip =
    codes "netcage detect-proxy findings (evidence only):\n"
    ++ (candidate_lines candidates
        ++ (unless_empty (codes "  exit IP (via netcage verify): ") exit_ip
              (codes " (evidence the egress is not your host IP)\n")
            ++ (if any_confirmed candidates
                then []
                else codes
                    "  no SOCKS5 proxy confirmed on the common ports. Start one (e.g. Tor) or pass its"
                  ++ codes " host:port to `netcage setup-default`.\n")))
