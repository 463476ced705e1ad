-- ===== src/Tests/PrintRuns.antt =====
-- Printed addresses and networks.
use netcage.Base.{[], ◌∷◌, ◌≡◌, refl}
use netcage.Text.{Text, codes}
use netcage.Net.Print.{ip_string}

v6_texts :
    (ip_string (0 ∷ 0 ∷ 0 ∷ 0 ∷ 0 ∷ 0 ∷ 0 ∷ 0 ∷ 0 ∷ 0 ∷ 0 ∷ 0 ∷ 0 ∷ 0 ∷ 0 ∷ 1 ∷ []) ≡ codes "::1")
    × (ip_string (0 ∷ 0 ∷ 0 ∷ 0 ∷ 0 ∷ 0 ∷ 0 ∷ 0 ∷ 0 ∷ 0 ∷ 0 ∷ 0 ∷ 0 ∷ 0 ∷ 0 ∷ 0 ∷ []) ≡ codes "::")
    × (ip_string (32 ∷ 1 ∷ 13 ∷ 184 ∷ 0 ∷ 0 ∷ 0 ∷ 1 ∷ 0 ∷ 0 ∷ 0 ∷ 0 ∷ 0 ∷ 0 ∷ 0 ∷ 1 ∷ [])
        ≡ codes "2001:db8:0:1::1")
    × (ip_string (0 ∷ 0 ∷ 0 ∷ 0 ∷ 0 ∷ 0 ∷ 0 ∷ 0 ∷ 0 ∷ 0 ∷ 255 ∷ 255 ∷ 10 ∷ 0 ∷ 0 ∷ 9 ∷ [])
        ≡ codes "10.0.0.9")
unfolding codes ip_string netcage.Text.join netcage.Net.V4.format_ipv4
v6_texts = (refl, refl, refl, refl)
