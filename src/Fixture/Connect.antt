-- ===== src/Fixture/Connect.antt =====
-- internal/socks5hfixture/fixture.go: the requests that clients send, as the server takes them.
use netcage.Base.{ℕ, ◌/◌, ◌%◌, ◌≡◌, refl, ap, Bool, some, [], ◌∷◌, ◌++◌, length, arith}
use netcage.Text.{Text}
use netcage.Text.Numbers.{decimal}
use netcage.Net.{Ip, parse_ip}
use netcage.Cli.Command.{join_host_port}
use netcage.DnsForwarder.Frames.{read_full-append}
use netcage.Fixture.{
  FixtureOptions, requested, handshake_rest, typed_request, read_connect_request, connect,
  resolve_host, handle_request, handle,
}

-- The greeting of RFC 1928, of the methods that the client knows.
abbrev pub greeting : Text → Text
greeting methods = 5 ∷ length methods ∷ methods

-- The request of RFC 1928 to connect to a name and a port.
abbrev pub connect_request : Text → ℕ → Text
connect_request name port = 5 ∷ 1 ∷ 0 ∷ 3 ∷ length name ∷ (name ++ (port / 256 ∷ port % 256 ∷ []))

greeting-read : (methods rest : Text) → handshake_rest (greeting methods ++ rest) ≡ some rest
unfolding handshake_rest
greeting-read methods rest = rw (read_full-append methods rest) refl

connect_request-read :
    (o : FixtureOptions) (name : Text) (port : ℕ)
    → read_connect_request o (connect_request name port) ≡ requested name (decimal port)
unfolding read_connect_request typed_request
connect_request-read o name port =
    rw (read_full-append name (port / 256 ∷ port % 256 ∷ []))
      (ap (λ n. requested name (decimal n)) (omega arith))

-- A client that asks to connect to a name that is itself a numeric address has it dialled as it is, and
-- no host is recorded, also where addresses are not allowed: the rejection of addresses goes by the type
-- of the request only. The server has no redirection here.
pub handle-literal :
    (o : FixtureOptions) (dial : Text → Bool) (methods name : Text) (port : ℕ) (ip : Ip)
    → parse_ip name ≡ some ip
    → o.redirect_target ≡ []
    → let r = handle o dial (greeting methods ++ connect_request name port) in
      (r.dialled ≡ some (join_host_port name (decimal port))) × (r.resolved ≡ [])
unfolding handle handle_request resolve_host connect
handle-literal o dial methods name port ip literal direct =
    rw
      (
        handle,
        greeting-read methods (connect_request name port),
        connect_request-read o name port,
        resolve_host,
        literal,
        direct,
      )
      (refl, refl)
