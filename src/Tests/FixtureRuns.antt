-- ===== src/Tests/FixtureRuns.antt =====
-- Connections of the server of the tests.
use netcage.Base.{◌≡◌, refl, true, false, some, [], ◌∷◌, ◌++◌}
use netcage.Text.{Text, codes}
use netcage.Text.Numbers.{decimal}
use netcage.Net.{Ip, parse_ip}
use netcage.Cli.Command.{join_host_port}
use netcage.Fixture.{FixtureOptions, handle, write_reply, rep_atyp_not_supported}
use netcage.Fixture.Connect.{greeting, connect_request, handle-literal}

abbrev strict : FixtureOptions
strict = record {
  known_hosts = (codes "unique.test", codes "127.0.0.7") ∷ [];
  allow_ip_connect = false;
  redirect_target = [];
}

abbrev numeric : Text
numeric = codes "10.0.0.9"

abbrev parsed_ip : Ip
parsed_ip = 0 ∷ 0 ∷ 0 ∷ 0 ∷ 0 ∷ 0 ∷ 0 ∷ 0 ∷ 0 ∷ 0 ∷ 255 ∷ 255 ∷ 10 ∷ 0 ∷ 0 ∷ 9 ∷ []

literal : parse_ip numeric ≡ some parsed_ip
unfolding parse_ip codes
literal = refl

handle-literal_example :
    ((handle strict (λ _. true) (greeting (0 ∷ []) ++ connect_request numeric 80)).dialled
      ≡ some (join_host_port numeric (decimal 80)))
    × ((handle strict (λ _. true) (greeting (0 ∷ []) ++ connect_request numeric 80)).resolved ≡ [])
handle-literal_example =
    handle-literal strict (λ _. true) (0 ∷ []) numeric 80 parsed_ip literal refl

-- A known name, and a request of the type of IPv4.
named :
    (handle strict
      (λ _. true)
      (greeting (0 ∷ []) ++ connect_request (codes "unique.test") 80)).resolved
    ≡ codes "unique.test" ∷ []
unfolding handle netcage.Fixture.handshake_rest netcage.Fixture.handle_request
    netcage.Fixture.read_connect_request netcage.Fixture.typed_request codes
    netcage.Fixture.resolve_host parse_ip netcage.Fixture.known_host netcage.Text.eqb
    netcage.Fixture.connect
named = refl

by_address :
    (handle strict
      (λ _. true)
      (greeting (0 ∷ []) ++ (5 ∷ 1 ∷ 0 ∷ 1 ∷ 10 ∷ 0 ∷ 0 ∷ 9 ∷ 0 ∷ 80 ∷ []))).written
    ≡ 5 ∷ 0 ∷ write_reply rep_atyp_not_supported
unfolding handle netcage.Fixture.handshake_rest netcage.Fixture.handle_request
    netcage.Fixture.read_connect_request netcage.Fixture.typed_request
by_address = refl
