-- ===== src/Verify/Verdicts.antt =====
-- internal/verify/verify.go: when the assertions and the report pass.
use netcage.Base.{
  Bool, true, false, List, [], ◌∷◌, ◌≡◌, ◌≢◌, ◌↔◌, refl, All, inl, inr, Bool-cases, arith,
}
use netcage.Text.{Text, is_empty, trim_space}
use netcage.Verify.{
  Assertion, all_ok, report_ok, exit_code, no_clear_lan_dns_assertion,
  ipv6_egress_fails_closed_assertion, non_tcp_udp_dropped_assertion, icmp_dropped_assertion,
  jail_loopback_confined_assertion, is_ipv4, first_of, first_ip, tokens_onto,
}

-- The five verdicts pass exactly where the probe ran and saw no leak and, for the two that could pass
-- with a dead resolver, the forwarder answered.
pub assertions_iff :
    (a b failed : Bool)
    → (((no_clear_lan_dns_assertion a b failed).ok ≡ true)
        ↔ ((failed ≡ false) × (a ≡ false) × (b ≡ true)))
      × (((ipv6_egress_fails_closed_assertion a b failed).ok ≡ true)
          ↔ ((failed ≡ false) × (a ≡ false) × (b ≡ false)))
      × (((non_tcp_udp_dropped_assertion a b failed).ok ≡ true)
          ↔ ((failed ≡ false) × (a ≡ false) × (b ≡ false)))
      × (((icmp_dropped_assertion a failed).ok ≡ true) ↔ ((failed ≡ false) × (a ≡ false)))
      × (((jail_loopback_confined_assertion a b failed).ok ≡ true)
          ↔ ((failed ≡ false) × (a ≡ false) × (b ≡ true)))
unfolding no_clear_lan_dns_assertion ipv6_egress_fails_closed_assertion
    non_tcp_udp_dropped_assertion icmp_dropped_assertion jail_loopback_confined_assertion
assertions_iff a b failed = (ground arith, ground arith, ground arith, ground arith, ground arith)

all_ok_iff : (report : List Assertion) → (all_ok report ≡ true) ↔ All (λ a. a.ok ≡ true) report
all_ok_iff [] = (λ _. tt, λ _. refl)
all_ok_iff (a ∷ rest) = ground (arith, all_ok_iff rest)

-- The exit code is 0 exactly where the report has an assertion and each of them passed.
pub exit_code_iff :
    (report : List Assertion)
    → (exit_code report ≡ 0) ↔ ((report ≢ []) × All (λ a. a.ok ≡ true) report)
unfolding exit_code report_ok
exit_code_iff [] = (λ h. absurd (omega (arith, h)), λ h. absurd (h.0 refl))
exit_code_iff (a ∷ rest) =
    let each = all_ok_iff (a ∷ rest) in
    elim (Bool-cases (all_ok (a ∷ rest))) [
      | inl e ↦ (λ _. (λ same. cc, each.0 e), λ _. rw (e) refl)
      | inr e ↦ (λ h. absurd (ground (arith, e, h)), λ h. absurd (ground (arith, e, each.1 h.1)))
    ]

first_of-ipv4 : (ts : List Text) → is_empty (first_of ts) ≡ false → is_ipv4 (first_of ts) ≡ true
first_of-ipv4 [] h = cc
first_of-ipv4 (t ∷ ts) h = elim (Bool-cases (is_ipv4 (trim_space t))) [
  | inl e ↦ rw (e) e
  | inr e ↦ rw (e) (first_of-ipv4 ts (rw (e) at h))
]

-- What is taken from a text, if anything, is a dotted address.
pub first_ip-is_ipv4 : (s : Text) → is_empty (first_ip s) ≡ false → is_ipv4 (first_ip s) ≡ true
unfolding first_ip
first_ip-is_ipv4 s h = first_of-ipv4 (tokens_onto [] s) h
