-- ===== src/Ports/Listeners.antt =====
-- internal/ports/procnet.go: the sockets that listen, out of /proc/net/tcp and /proc/net/tcp6.
pub mod Kernel
use netcage.Base.{
  ℕ, ◌+◌, ◌*◌, Bool, true, false, not, ◌&&◌, ◌||◌, Option, none, some, List, [], ◌∷◌, ◌++◌, length,
  get_elem?, if◌then◌else◌, ◌==◌, leb, ltb,
}
use netcage.Text.{Text, codes, eqb, fields, split, cut_last}
use netcage.Text.Numbers.{hex_digit}
use netcage.Net.{Ip, to4, v4_in_v6_prefix}
use netcage.Net.Print.{ip_string}

-- `Listener`.
pub record Listener : Type 0 where
  pub address : Text
  pub port : ℕ
  pub loopback_only : Bool

-- `tcpStateListen`.
abbrev pub tcp_state_listen : Text
tcp_state_listen = codes "0A"

abbrev pub cons_byte : Option ℕ → Option ℕ → Option (List ℕ) → Option (List ℕ)
cons_byte (some hi) (some lo) (some bs) = some ((hi * 16 + lo) ∷ bs)
cons_byte _ _ _ = none

-- `hex.DecodeString`.
unfoldable pub decode_hex : Text → Option (List ℕ)
unfolding hex_digit
decode_hex [] = some []
decode_hex (c ∷ []) = none
decode_hex (c ∷ d ∷ s) = cons_byte (hex_digit c) (hex_digit d) (decode_hex s)

abbrev pub big_endian : Option (List ℕ) → Option ℕ
big_endian (some (a ∷ b ∷ [])) = some (a * 256 + b)
big_endian _ = none

-- `decodePort`: `ParseUint` of four characters to base 16 takes hexadecimal digits only.
unfoldable pub decode_port : Text → Option ℕ
unfolding decode_hex
decode_port s = if length s == 4 then big_endian (decode_hex s) else none

-- `net.IPv4` of the bytes in reverse.
abbrev pub ip_v4 : Option (List ℕ) → Option Ip
ip_v4 (some (d ∷ c ∷ b ∷ a ∷ [])) = some (v4_in_v6_prefix ++ (a ∷ b ∷ c ∷ d ∷ []))
ip_v4 _ = none

-- `decodeV4`.
unfoldable pub decode_v4 : Text → Option Ip
unfolding decode_hex
decode_v4 s = if length s == 8 then ip_v4 (decode_hex s) else none

-- The bytes of each word of four in reverse.
abbrev pub swap_words : List ℕ → List ℕ
swap_words (a ∷ b ∷ c ∷ d ∷ bs) = d ∷ c ∷ b ∷ a ∷ swap_words bs
swap_words _ = []

abbrev pub ip_v6 : Option (List ℕ) → Option Ip
ip_v6 none = none
ip_v6 (some bs) = some (swap_words bs)

-- `decodeV6`.
unfoldable pub decode_v6 : Text → Option Ip
unfolding decode_hex
decode_v6 s = if length s == 32 then ip_v6 (decode_hex s) else none

abbrev pub loopback_v6 : Ip
loopback_v6 = 0 ∷ 0 ∷ 0 ∷ 0 ∷ 0 ∷ 0 ∷ 0 ∷ 0 ∷ 0 ∷ 0 ∷ 0 ∷ 0 ∷ 0 ∷ 0 ∷ 0 ∷ 1 ∷ []

abbrev begins_127 : Ip → Bool
begins_127 [] = false
begins_127 (a ∷ _) = a == 127

-- `IP.IsLoopback`.
unfoldable pub is_loopback : Ip → Bool
unfolding to4 eqb
is_loopback ip = elim (to4 ip) [ some v4 ↦ begins_127 v4 | none ↦ eqb ip loopback_v6 ]

-- The listener of the decoded parts; `renderIP` is `IP.String`.
abbrev pub listener_of : Option ℕ → Option Ip → Option Listener
listener_of (some port) (some ip) =
    some (record { address = ip_string ip; port = port; loopback_only = is_loopback ip })
listener_of _ _ = none

-- The local address behind its split at the last colon.
unfoldable pub parse_local : Bool → Option (Text × Text) → Option Listener
parse_local is_v6 none = none
parse_local is_v6 (some (addr_hex, port_hex)) =
    listener_of (decode_port port_hex) (if is_v6 then decode_v6 addr_hex else decode_v4 addr_hex)

-- The columns of a row.
unfoldable pub parse_fields : Bool → List Text → Option Listener
parse_fields is_v6 (_ ∷ local ∷ _ ∷ st ∷ _) =
    if eqb st tcp_state_listen then parse_local is_v6 (cut_last b':' local) else none
parse_fields is_v6 _ = none

-- `parseRow`.
unfoldable pub parse_row : Bool → Text → Option Listener
parse_row is_v6 line = parse_fields is_v6 (fields line)

abbrev pub cons_some : Option Listener → List Listener → List Listener
cons_some none ls = ls
cons_some (some l) ls = l ∷ ls

unfoldable pub parse_rows : Bool → List Text → List Listener
parse_rows is_v6 [] = []
parse_rows is_v6 (line ∷ lines) = cons_some (parse_row is_v6 line) (parse_rows is_v6 lines)

-- `parseBody`.
unfoldable pub parse_body : Bool → Text → List Listener
parse_body is_v6 body = parse_rows is_v6 (split b'\n' body)

-- `parseProcNetTCP`.
unfoldable pub parse_proc_net_tcp : Text → Text → List Listener
parse_proc_net_tcp v4 v6 = parse_body false v4 ++ parse_body true v6
