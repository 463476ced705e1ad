-- ===== src/Verify/Green.antt =====
-- internal/verify/verify.go: when the checks through a jail, and a list of checks, are green.
use netcage.Base.{
  ◌∙◌, append-nil, map, Bool-cases, inl, inr, sym, Bool, true, false, List, [], ◌∷◌, ◌++◌, ◌≡◌, ◌≢◌,
  ◌↔◌, refl, All, Result, ok, err, arith,
}
use netcage.Text.{Text, is_empty}
use netcage.Jail.Config.{JailConfig}
use netcage.Jail.Effects.{History, RunError, ToolResult, after, ◌>>-◌, return}
use netcage.Jail.Setup.{contains_text}
use netcage.Verify.{
  Assertion, exit_code, ipv6_egress_fails_closed_assertion, non_tcp_udp_dropped_assertion,
  icmp_dropped_assertion, jail_loopback_confined_assertion,
}
use netcage.Verify.Probes.{
  two_markers, one_marker, with_name, Check, run_checks, split_tunnel_checks, JailRunner,
  ipv6_egress_fails_closed_probe, non_tcp_udp_dropped_probe, icmp_dropped_probe,
  jail_loopback_confined_probe,
}
use netcage.Verify.Verdicts.{exit_code_iff}

-- The verdict on what a probe answered; an error of the run is passed on as such.
abbrev pub on_one : (Bool → Bool → Assertion) → History × Result RunError Bool → Assertion
on_one verdict (h, ok a) = verdict a false
on_one verdict (h, err e) = verdict false true

abbrev pub on_two :
    (Bool → Bool → Bool → Assertion) → History × Result RunError (Bool × Bool) → Assertion
on_two verdict (h, ok (a, b)) = verdict a b false
on_two verdict (h, err e) = verdict false false true

-- The run gave a result whose output has the first text or not, as is said, and likewise the second.
abbrev pub Showed : Result RunError ToolResult → Text → Bool → Text → Bool → Type 0
Showed r first a second b =
    (t : ToolResult) × (r ≡ ok t)
    × (contains_text first t.stdout ≡ a)
    × (contains_text second t.stdout ≡ b)

module _ (first second : Text) where
  unreached :
      (p : History × Result RunError ToolResult)
      → ((on_two ipv6_egress_fails_closed_assertion (after p (two_markers first second))).ok ≡ true)
        ↔ Showed p.1 first false second false
  unfolding ipv6_egress_fails_closed_assertion after return
  unreached (h, ok t) = (
    λ k. (t, refl, ground (arith, k), ground (arith, k)),
    λ (u, e, a, b). ground (arith, e, a, b),
  )
  unreached (h, err e) =
      (λ k. absurd (ground (arith, k)), λ (u, k, a, b). absurd (ground (arith, k)))

  undelivered :
      (p : History × Result RunError ToolResult)
      → ((on_two non_tcp_udp_dropped_assertion (after p (two_markers first second))).ok ≡ true)
        ↔ Showed p.1 first false second false
  unfolding non_tcp_udp_dropped_assertion after return
  undelivered (h, ok t) = (
    λ k. (t, refl, ground (arith, k), ground (arith, k)),
    λ (u, e, a, b). ground (arith, e, a, b),
  )
  undelivered (h, err e) =
      (λ k. absurd (ground (arith, k)), λ (u, k, a, b). absurd (ground (arith, k)))

  confined :
      (p : History × Result RunError ToolResult)
      → ((on_two jail_loopback_confined_assertion (after p (two_markers first second))).ok ≡ true)
        ↔ Showed p.1 first false second true
  unfolding jail_loopback_confined_assertion after return
  confined (h, ok t) = (
    λ k. (t, refl, ground (arith, k), ground (arith, k)),
    λ (u, e, a, b). ground (arith, e, a, b),
  )
  confined (h, err e) =
      (λ k. absurd (ground (arith, k)), λ (u, k, a, b). absurd (ground (arith, k)))

  unanswered :
      (p : History × Result RunError ToolResult)
      → ((on_one icmp_dropped_assertion (after p (one_marker first))).ok ≡ true)
        ↔ Showed p.1 first false first false
  unfolding icmp_dropped_assertion after return
  unanswered (h, ok t) = (
    λ k. (t, refl, ground (arith, k), ground (arith, k)),
    λ (u, e, a, b). ground (arith, e, a, b),
  )
  unanswered (h, err e) =
      (λ k. absurd (ground (arith, k)), λ (u, k, a, b). absurd (ground (arith, k)))

-- The four checks of leaks beside TCP, each of one run of the jail. Those of IPv6 and of raw UDP pass
-- exactly where the run gave a result whose output has neither marker; that of ICMP exactly where it
-- gave one without the marker of a reply; that of the loopback exactly where it gave one without the
-- marker of another service and with the marker of the forwarder. A run that failed passes none.
pub probes_green_iff :
    (runner : JailRunner) (c : JailConfig) (h : History) (first second : Text)
    → (((on_two ipv6_egress_fails_closed_assertion
            (ipv6_egress_fails_closed_probe runner c first second h)).ok
          ≡ true)
        ↔ Showed (runner c h).1 first false second false)
      × (((on_two non_tcp_udp_dropped_assertion
              (non_tcp_udp_dropped_probe runner c first second h)).ok
            ≡ true)
          ↔ Showed (runner c h).1 first false second false)
      × (((on_one icmp_dropped_assertion (icmp_dropped_probe runner c first h)).ok ≡ true)
          ↔ Showed (runner c h).1 first false first false)
      × (((on_two jail_loopback_confined_assertion
              (jail_loopback_confined_probe runner c first second h)).ok
            ≡ true)
          ↔ Showed (runner c h).1 first false second true)
unfolding ipv6_egress_fails_closed_probe non_tcp_udp_dropped_probe icmp_dropped_probe
    jail_loopback_confined_probe ◌>>-◌
probes_green_iff runner c h first second = (
  unreached first second (runner c h),
  undelivered first second (runner c h),
  unanswered first second (runner c h),
  confined first second (runner c h),
)

-- Each check passes, run on the history that the ones before it left.
unfoldable pub AllPass : List Check → History → Type 0
AllPass [] h = Unit
AllPass (c ∷ cs) h = ((c.perform h).1.ok ≡ true) × AllPass cs (c.perform h).0

-- The verdict of each check, run on the history that the ones before it left.
unfoldable pub verdicts : List Check → History → List Bool
verdicts [] h = []
verdicts (c ∷ cs) h = (c.perform h).1.ok ∷ verdicts cs (c.perform h).0

abbrev pub is_ok : Assertion → Bool
is_ok a = a.ok

with_name-ok : (name : Text) (a : Assertion) → (with_name name a).ok ≡ a.ok
with_name-ok name a = elim (Bool-cases (is_empty a.name)) [
  | inl e ↦ rw (e) refl
  | inr e ↦ rw (e) refl
]

run_checks-verdicts :
    (checks : List Check) (h : History) → map is_ok (run_checks checks h).1 ≡ verdicts checks h
unfolding run_checks verdicts
run_checks-verdicts [] h = refl
run_checks-verdicts (c ∷ cs) h =
    rw (with_name-ok c.name (c.perform h).1, run_checks-verdicts cs (c.perform h).0) refl

run_checks-AllPass :
    (checks : List Check) (h : History)
    → All (λ a. a.ok ≡ true) (run_checks checks h).1 ↔ AllPass checks h
unfolding run_checks AllPass
run_checks-AllPass [] h = (λ k. k, λ k. k)
run_checks-AllPass (c ∷ cs) h =
    let (forth, back) = run_checks-AllPass cs (c.perform h).0 in
    let same = with_name-ok c.name (c.perform h).1 in
    (λ (k, ks). (sym same ∙ k, forth ks), λ (k, ks). (same ∙ k, back ks))

split-append : (core directs : List Check) → split_tunnel_checks core directs ≡ core ++ directs
unfolding split_tunnel_checks
split-append core [] = sym (append-nil core)
split-append core (d ∷ directs) = refl

run_checks-nonempty :
    (core directs : List Check) (h : History) → core ≢ [] → (run_checks (core ++ directs) h).1 ≢ []
unfolding run_checks
run_checks-nonempty [] directs h some' e = some' refl
run_checks-nonempty (c ∷ core) directs h some' e = cc

-- The verification of a jail with direct destinations runs every core check and behind them every check
-- of a direct, each on the history that the ones before it left, whatever they showed, and its report
-- has the verdict of each in this order. With some core check it is green, its exit code 0, exactly where
-- each of these checks passes.
pub split_tunnel-green :
    (core directs : List Check) (h : History)
    → core ≢ []
    → (map is_ok (run_checks (split_tunnel_checks core directs) h).1 ≡ verdicts (core ++ directs) h)
      × ((exit_code (run_checks (split_tunnel_checks core directs) h).1 ≡ 0)
          ↔ AllPass (core ++ directs) h)
split_tunnel-green core directs h some' =
    let (green, passed) = exit_code_iff (run_checks (core ++ directs) h).1 in
    let (forth, back) = run_checks-AllPass (core ++ directs) h in
    rw (split-append core directs) (
      run_checks-verdicts (core ++ directs) h,
      (λ k. forth (green k).1, λ k. passed (run_checks-nonempty core directs h some', back k)),
    )
