-- ===== src/Tests/NetRuns.antt =====
-- Runs of the literal parsers.
use netcage.Base.{some, [], ◌∷◌, ◌≡◌, refl, replicate, ◌++◌, pos}
use netcage.Text.{codes}
use netcage.Text.Numbers.{atoi, decimal}
use netcage.Net.{parse_addr, parse_cidr}

t1 : parse_addr (codes "192.168.1.150") ≡ some (192 ∷ 168 ∷ 1 ∷ 150 ∷ [])
unfolding parse_addr codes
t1 = refl

t2 : parse_addr (codes "fe80::1:2") ≡ some (254 ∷ 128 ∷ (replicate 10 0 ++ (0 ∷ 1 ∷ 0 ∷ 2 ∷ [])))
unfolding parse_addr codes
t2 = refl

t3 :
    parse_cidr (codes "10.1.2.3/8")
    ≡ some (record { ip = 10 ∷ 0 ∷ 0 ∷ 0 ∷ []; mask = 255 ∷ 0 ∷ 0 ∷ 0 ∷ [] })
unfolding parse_cidr codes
t3 = refl

t4 : atoi (codes "8080") ≡ some (pos 8080)
unfolding atoi codes
t4 = refl

t5 : decimal 8080 ≡ codes "8080"
unfolding decimal codes
t5 = refl
