-- ===== src/DnsForwarder.antt =====
-- internal/dnsforwarder/dnsforwarder.go: DNS messages between a connection of the jail and the resolver
-- behind the proxy.
pub mod Frames
pub mod Server
use netcage.Base.{
  ℕ, zero, suc, ◌+◌, ◌*◌, ◌/◌, ◌%◌, ◌^◌, Option, none, some, List, [], ◌∷◌, ◌++◌, length,
}
use netcage.Text.{Text}

-- A message behind its length in two bytes; a length wraps around as a `uint16`.
unfoldable pub frame : Text → Text
frame m = length m % 2 ^ 16 / 256 ∷ length m % 2 ^ 16 % 256 ∷ m

abbrev cons_first : ℕ → Option (Text × Text) → Option (Text × Text)
cons_first c none = none
cons_first c (some (m, rest)) = some (c ∷ m, rest)

-- `io.ReadFull` of a number of bytes, and what is left.
unfoldable pub read_full : ℕ → Text → Option (Text × Text)
read_full zero s = some ([], s)
read_full (suc n) [] = none
read_full (suc n) (c ∷ s) = cons_first c (read_full n s)

-- The two reads of a message.
unfoldable pub read_message : Text → Option (Text × Text)
unfolding read_full
read_message (a ∷ b ∷ s) = read_full (a * 256 + b) s
read_message _ = none

abbrev pub message_of : Option (Text × Text) → Option Text
message_of none = none
message_of (some (m, rest)) = some m

-- The bytes that come back for the bytes that are sent through the proxy; `none` is a failure.
abbrev pub Upstream : Type 0
Upstream = Text → Option Text

abbrev pub answer_of : Option Text → Option Text
answer_of none = none
answer_of (some back) = message_of (read_message back)

-- `Forwarder.resolveViaSOCKS`.
unfoldable pub resolve_via_socks : Upstream → Text → Option Text
resolve_via_socks up query = answer_of (up (frame query))

-- `Forwarder.handleTCPConn`: what is written for the bytes that the jail sent, where no write fails and
-- no deadline passes. Each round takes two bytes at least, so the fuel is their number.
unfoldable pub handle_messages : ℕ → Upstream → Text → Text
handle_messages zero up s = []
handle_messages (suc fuel) up s = elim (read_message s) [
  | none ↦ []
  | some (query, rest) ↦ elim (resolve_via_socks up query) [
    | none ↦ []
    | some resp ↦ frame resp ++ handle_messages fuel up rest
  ]
]

unfoldable pub handle_tcp_conn : Upstream → Text → Text
handle_tcp_conn up s = handle_messages (length s) up s
