-- ===== src/DnsForwarder/Frames.antt =====
-- internal/dnsforwarder/dnsforwarder.go: a connection of the jail from its first message to its last.
use netcage.Base.{
  append-nil, ℕ, zero, suc, ◌^◌, ◌<◌, ◌≤◌, none, some, List, [], ◌∷◌, ◌++◌, ◌≡◌, refl, sym, ap, ◌∙◌,
  All, length, length-append, append_assoc, map, arith,
}
use netcage.Text.{Text}
use netcage.DnsForwarder.{
  frame, read_full, read_message, Upstream, resolve_via_socks, handle_messages, handle_tcp_conn,
}

pub read_full-append : (m rest : Text) → read_full (length m) (m ++ rest) ≡ some (m, rest)
unfolding read_full
read_full-append [] rest = refl
read_full-append (c ∷ m) rest = rw (read_full, read_full-append m rest) refl

abbrev pub Fits : Text → Type 0
Fits m = length m < 2 ^ 16

-- A message that fits is read back in front of anything.
read_message-frame : (m rest : Text) → Fits m → read_message (frame m ++ rest) ≡ some (m, rest)
unfolding read_message frame
read_message-frame m rest fits =
    ap (λ n. read_full n (m ++ rest)) (omega (arith, fits)) ∙ read_full-append m rest

unfoldable pub frames : List Text → Text
frames [] = []
frames (m ∷ ms) = frame m ++ frames ms

-- The resolver's answer to a query, both of which fit.
abbrev pub Answers : Upstream → (Text → Text) → Text → Type 0
Answers up answer q = Fits q × Fits (answer q) × (up (frame q) ≡ some (frame (answer q)))

resolve_via_socks-frame :
    (up : Upstream) (answer : Text → Text) (q : Text)
    → Answers up answer q
    → resolve_via_socks up q ≡ some (answer q)
unfolding resolve_via_socks
resolve_via_socks-frame up answer q (_, fits, sent) =
    rw (sent, sym (append-nil (frame (answer q))), read_message-frame (answer q) [] fits) refl

frame-longer : (q t rest : Text) → length (t ++ rest) < length ((frame q ++ t) ++ rest)
unfolding frame
frame-longer q t rest =
    omega (arith, length-append (q ++ t) rest, length-append q t, length-append t rest)

handle_messages-frames :
    (fuel : ℕ) (up : Upstream) (answer : Text → Text) (qs : List Text) (rest : Text)
    → length (frames qs ++ rest) ≤ fuel
    → All (Answers up answer) qs
    → read_message rest ≡ none
    → handle_messages fuel up (frames qs ++ rest) ≡ frames (map answer qs)
unfolding handle_messages frames
handle_messages-frames zero up answer [] rest h hs cut = refl
handle_messages-frames (suc fuel) up answer [] rest h hs cut = rw (handle_messages, cut) refl
handle_messages-frames zero up answer (q ∷ qs) rest h hs cut =
    absurd (omega (arith, h, frame-longer q (frames qs) rest))
handle_messages-frames (suc fuel) up answer (q ∷ qs) rest h (a, hs) cut =
    rw
      (
        handle_messages,
        append_assoc (frame q) (frames qs) rest,
        read_message-frame q (frames qs ++ rest) a.0,
        resolve_via_socks-frame up answer q a,
      )
      (ap (λ s. frame (answer q) ++ s)
        (handle_messages-frames fuel up answer qs rest
          (omega (arith, h, frame-longer q (frames qs) rest)) hs cut))

-- A connection is served to its end: for any number of queries, each of which fits its length and is
-- answered by the resolver with a message that fits, and for any bytes behind them that are no whole
-- message, what is written is the answers, framed, in the order of the queries.
pub handle_tcp_conn-frames :
    (up : Upstream) (answer : Text → Text) (qs : List Text) (rest : Text)
    → All (Answers up answer) qs
    → read_message rest ≡ none
    → handle_tcp_conn up (frames qs ++ rest) ≡ frames (map answer qs)
unfolding handle_tcp_conn
handle_tcp_conn-frames up answer qs rest hs cut =
    handle_messages-frames (length (frames qs ++ rest)) up answer qs rest (omega arith) hs cut
