-- ===== src/DnsForwarder/Server.antt =====
-- internal/dnsforwarder/dnsforwarder.go: `serveUDP`, whose goroutines end in any order.
use mathlib.Core.List.{Perm, perm_middle}
use mathlib.Core.List.Perm
use mathlib.Core.Path.{subst}
use netcage.Base.{
  ℕ, ◌≡◌, refl, sym, ap, Option, none, some, List, [], ◌∷◌, ◌++◌, append_assoc, map, take, All,
}
use netcage.Text.{Text}
use netcage.DnsForwarder.{frame, answer_of}

-- The query of a goroutine, and the address that `WriteTo` is given for its answer.
pub record Packet : Type 0 where
  pub from : Text
  pub body : Text

-- A call of `WriteTo`.
pub record Sent : Type 0 where
  pub to : Text
  pub resp : Text

-- The goroutines that run, each with its packet, and the calls of `WriteTo`, newest first.
pub record UdpServer : Type 0 where
  pub waiting : List Packet
  pub sent : List Sent

abbrev pub started : UdpServer
started = record { waiting = []; sent = [] }

-- What `ReadFrom` reads of a datagram.
abbrev pub buffer_size : ℕ
buffer_size = 65535

abbrev pub read_packet : Text → Text → Packet
read_packet addr datagram = record { from = addr; body = take buffer_size datagram }

abbrev pub spawned : UdpServer → Packet → UdpServer
spawned s p = record s { waiting = p ∷ s.waiting }

abbrev pub replied : UdpServer → List Packet → Packet → Option Text → UdpServer
replied s rest p none = record s { waiting = rest }
replied s rest p (some resp) = record {
  waiting = rest;
  sent = record { to = p.from; resp = resp } ∷ s.sent;
}

-- The end of a goroutine, of what came back through the proxy; `none` is a failed exchange.
abbrev pub finished : UdpServer → List Packet → Packet → Option Text → UdpServer
finished s rest p back = replied s rest p (answer_of back)

-- What may come back through the proxy for the bytes that are sent.
abbrev pub Exchange : Type 1
Exchange = Text → Option Text → Type 0

-- The server once it was sent these datagrams, each with its address, newest first: its loop reads a
-- datagram, or one of the goroutines ends, whichever it is; each has a connection of its own through the
-- proxy.
pub data UdpRun (Back : Exchange) : List (Text × Text) → UdpServer → Type 0 where
  start : UdpRun Back [] started
  receive :
      {ds : List (Text × Text)} {s : UdpServer} (addr datagram : Text)
      → UdpRun Back ds s
      → UdpRun Back ((addr, datagram) ∷ ds) (spawned s (read_packet addr datagram))
  finish :
      {ds : List (Text × Text)} {s : UdpServer} (before behind : List Packet) (p : Packet)
      (back : Option Text)
      → UdpRun Back ds s
      → s.waiting ≡ before ++ (p ∷ behind)
      → Back (frame p.body) back
      → UdpRun Back ds (finished s (before ++ behind) p back)

-- What a datagram asks, and whom its answer goes to.
abbrev pub asked : Text × Text → Packet
asked (addr, datagram) = record { from = addr; body = take 65535 datagram }

-- The call goes to where the packet came from, with the message that came back for the packet's query.
abbrev pub IsAnswer : Exchange → Packet × Sent → Type 0
IsAnswer Back (p, w) =
    (w.to ≡ p.from)
    × (back : Option Text) × Back (frame p.body) back
    × (answer_of back ≡ some w.resp)

-- No message came back for the packet's query.
abbrev pub IsFailed : Exchange → Packet → Type 0
IsFailed Back p = (back : Option Text) × Back (frame p.body) back × (answer_of back ≡ none)

abbrev pub packet_of : Packet × Sent → Packet
packet_of (p, w) = p

abbrev pub call_of : Packet × Sent → Sent
call_of (p, w) = w

pub record IsFair (Back : Exchange) (ds : List (Text × Text)) (s : UdpServer) : Type 0 where
  pub answered : List (Packet × Sent)
  pub dropped : List Packet
  pub kept : Perm (map asked ds) (s.waiting ++ (map packet_of answered ++ dropped))
  pub calls : s.sent ≡ map call_of answered
  pub relayed : All (IsAnswer Back) answered
  pub failed : All (IsFailed Back) dropped

out_of_waiting :
    (before behind rest : List Packet) (p : Packet)
    → Perm ((before ++ (p ∷ behind)) ++ rest) (p ∷ ((before ++ behind) ++ rest))
out_of_waiting before behind rest p =
    rw (append_assoc, append_assoc) (perm_middle before (behind ++ rest))

into_sent :
    (waiting answered dropped : List Packet) (p : Packet)
    → Perm (p ∷ (waiting ++ (answered ++ dropped))) (waiting ++ ((p ∷ answered) ++ dropped))
into_sent waiting answered dropped p = Perm.symm (perm_middle waiting (answered ++ dropped))

into_dropped :
    (waiting answered dropped : List Packet) (p : Packet)
    → Perm (p ∷ (waiting ++ (answered ++ dropped))) (waiting ++ (answered ++ (p ∷ dropped)))
into_dropped waiting answered dropped p =
    rw
      (
        sym (append_assoc waiting answered dropped),
        sym (append_assoc waiting answered (p ∷ dropped)),
      )
      (Perm.symm (perm_middle (waiting ++ answered) dropped))

module _ (Back : Exchange) {ds : List (Text × Text)} (s : UdpServer) (before behind : List Packet)
    (p : Packet) (here : s.waiting ≡ before ++ (p ∷ behind)) (fair : IsFair Back ds s)
    (back : Option Text) (came : Back (frame p.body) back) where
  -- The packet that leaves the goroutines stands in front of the others.
  taken :
      Perm
        (map asked ds)
        (p ∷ ((before ++ behind) ++ (map packet_of fair.answered ++ fair.dropped)))
  taken =
      Perm.trans
        (subst (λ w. Perm (map asked ds) (w ++ (map packet_of fair.answered ++ fair.dropped))) here
          fair.kept)
        (out_of_waiting before behind (map packet_of fair.answered ++ fair.dropped) p)

  replied-IsFair :
      (answer : Option Text)
      → answer_of back ≡ answer
      → IsFair Back ds (replied s (before ++ behind) p answer)
  replied-IsFair none e = record {
    answered = fair.answered;
    dropped = p ∷ fair.dropped;
    kept =
        Perm.trans taken
          (into_dropped (before ++ behind) (map packet_of fair.answered) fair.dropped p);
    calls = fair.calls;
    relayed = fair.relayed;
    failed = ((back, came, e), fair.failed);
  }
  replied-IsFair (some resp) e = record {
    answered = (p, record { to = p.from; resp = resp }) ∷ fair.answered;
    dropped = fair.dropped;
    kept =
        Perm.trans taken
          (into_sent (before ++ behind) (map packet_of fair.answered) fair.dropped p);
    calls = ap (λ ws. record { to = p.from; resp = resp } ∷ ws) fair.calls;
    relayed = ((refl, back, came, e), fair.relayed);
    failed = fair.failed;
  }

-- However the goroutines of the UDP server interleave and whatever comes back through the proxy: the
-- packets of the datagrams that were read are, in some order and each as often as it was read, those
-- that are worked on, those that were answered and those that were dropped. Each call of the writer is
-- that of one answered packet, to where it came from, with the message that came back for its own query;
-- for a dropped packet no message came back.
pub UdpRun-IsFair :
    (Back : Exchange) {ds : List (Text × Text)} {s : UdpServer}
    → UdpRun Back ds s
    → IsFair Back ds s
UdpRun-IsFair Back start = record {
  answered = [];
  dropped = [];
  kept = Perm.refl [];
  calls = refl;
  relayed = tt;
  failed = tt;
}
UdpRun-IsFair Back (receive addr datagram run) =
    let fair = UdpRun-IsFair Back run in
    record {
      answered = fair.answered;
      dropped = fair.dropped;
      kept = Perm.cons (asked (addr, datagram)) fair.kept;
      calls = fair.calls;
      relayed = fair.relayed;
      failed = fair.failed;
    }
UdpRun-IsFair Back (finish {s = s} before behind p back run here came) =
    replied-IsFair Back s before behind p here (UdpRun-IsFair Back run) back came (answer_of back)
      refl
