-- ===== src/Tests/DnsRuns.antt =====
-- Two queries on one connection, with a broken one behind them.
use netcage.Base.{◌⊎◌, inl, inr, none, some, List, [], ◌∷◌, ◌++◌, ◌≡◌, refl, map, All, drop, arith}
use netcage.Text.{Text, codes}
use netcage.DnsForwarder.{Upstream, frame, read_message, handle_tcp_conn}
use netcage.DnsForwarder.Server.{
  Packet, UdpServer, Exchange, UdpRun, start, receive, finish, read_packet, IsFair, UdpRun-IsFair,
}
use netcage.DnsForwarder.Frames.{frames, Answers, handle_tcp_conn-frames}

abbrev marked : Text → Text
marked q = b'!' ∷ q

-- A resolver that puts a mark in front of the query.
abbrev marking : Upstream
marking sent = some (frame (marked (drop 2 sent)))

abbrev queries : List Text
queries = codes "one" ∷ codes "three" ∷ []

answered : All (Answers marking marked) queries
unfolding frame codes
answered = ((omega arith, omega arith, refl), ((omega arith, omega arith, refl), tt))

cut : read_message (0 ∷ 9 ∷ 1 ∷ []) ≡ none
unfolding read_message
cut = refl

handle_tcp_conn-frames_example :
    handle_tcp_conn marking (frames queries ++ (0 ∷ 9 ∷ 1 ∷ [])) ≡ frames (map marked queries)
handle_tcp_conn-frames_example =
    handle_tcp_conn-frames marking marked queries (0 ∷ 9 ∷ 1 ∷ []) answered cut

-- A query comes back with a mark, or not at all.
abbrev MayMark : Exchange
MayMark q back = (back ≡ marking q) ⊎ (back ≡ none)

abbrev datagrams : List (Text × Text)
datagrams = (codes "127.0.0.1:40001", codes "two") ∷ (codes "127.0.0.1:40000", codes "one") ∷ []

abbrev far : Packet
far = read_packet (codes "127.0.0.1:40001") (codes "two")

abbrev near : Packet
near = read_packet (codes "127.0.0.1:40000") (codes "one")

-- Both packets are read, and the first of them is answered before the second is dropped.
abbrev served : UdpServer
served = record {
  waiting = [];
  sent = record { to = codes "127.0.0.1:40000"; resp = marked (codes "one") } ∷ [];
}

served_run : UdpRun MayMark datagrams served
unfolding read_message frame codes netcage.DnsForwarder.read_full
served_run =
    finish [] [] far none
      (finish (far ∷ []) [] near (marking (frame near.body))
        (receive (codes "127.0.0.1:40001") (codes "two")
          (receive (codes "127.0.0.1:40000") (codes "one") start))
        refl (inl refl))
      refl (inr refl)

UdpRun-IsFair_example : IsFair MayMark datagrams served
UdpRun-IsFair_example = UdpRun-IsFair MayMark served_run
