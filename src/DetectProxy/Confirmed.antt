-- ===== src/DetectProxy/Confirmed.antt =====
-- internal/detectproxy/detectproxy.go: what a confirmed candidate says.
use netcage.Base.{
  ℕ, true, Option, none, some, List, [], ◌∷◌, ◌≡◌, ◌↔◌, refl, inl, inr, ◌⊎◌, Bool-cases, ap, arith,
}
use netcage.Text.{Text}
use netcage.DetectProxy.{PortSpec, probe, handshake, dial_probe, dialled, any_confirmed}

-- A port of the list answered the greeting with the version of SOCKS5.
abbrev pub SomeAnswers : (ℕ → Option (Option (ℕ × ℕ))) → List PortSpec → Type 0
SomeAnswers dial [] = ⊥
SomeAnswers dial (s ∷ ss) =
    ((method : ℕ) × (dial s.port ≡ some (some (5, method)))) ⊎ SomeAnswers dial ss

dialled-confirmed :
    (got : Option (Option (ℕ × ℕ))) (hint : Text)
    → ((dialled got hint).socks5 ≡ true) ↔ ((method : ℕ) × (got ≡ some (some (5, method))))
unfolding handshake
dialled-confirmed none hint = (λ h. cc, λ (method, h). cc)
dialled-confirmed (some none) hint = (λ h. cc, λ (method, h). cc)
dialled-confirmed (some (some (version, method))) hint = (
  λ h. let five : version ≡ 5 = ground arith in (method, ap (λ v. some (some (v, method))) five),
  λ (m, h). ground arith,
)

-- The report of the ports has a confirmed candidate exactly where some of them was open and answered
-- the greeting with the version of SOCKS5, whichever method it chose or refused; an open port alone is
-- not enough.
pub any_confirmed-probe :
    (dial : ℕ → Option (Option (ℕ × ℕ))) (hints : ℕ → Text) (specs : List PortSpec)
    → (any_confirmed (probe (dial_probe dial hints) specs) ≡ true) ↔ SomeAnswers dial specs
unfolding any_confirmed probe dial_probe
any_confirmed-probe dial hints [] = (λ h. cc, λ h. absurd h)
any_confirmed-probe dial hints (s ∷ ss) =
    let here = dialled-confirmed (dial s.port) (hints s.port) in
    let there = any_confirmed-probe dial hints ss in
    elim (Bool-cases (dialled (dial s.port) (hints s.port)).socks5) [
      | inl e ↦ (λ _. inl (here.0 e), λ _. rw (e) refl)
      | inr e ↦ (
        λ h. inr (there.0 (ground (arith, e, h))),
        λ h. elim h [
          | inl answered ↦ rw (here.1 answered) refl
          | inr behind ↦ rw (e) (there.1 behind)
        ],
      )
    ]
