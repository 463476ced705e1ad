-- ===== src/Verify/Command/Passes.antt =====
-- internal/verify/verify.go: what a green report of `RunCommandVerify` says.
use netcage.Base.{
  true, Option, none, some, ◌∷◌, ◌≡◌, ◌≢◌, refl, sym, ◌∙◌, Result, ok, err, inl, inr, Bool-cases,
  arith,
}
use mathlib.Core.Path.{subst}
use netcage.Text.{Text, is_empty}
use netcage.Text.Laws.{eqb_iff}
use netcage.Cli.Command.{ProxyConfig}
use netcage.Jail.Config.{JailConfig}
use netcage.Jail.Effects.{
  podman, World, Status, done, exited, broken, History, RunError, ToolResult,
}
use netcage.Jail.Run.{run}
use netcage.Verify.{Assertion, exit_code, first_ip, is_ipv4, dns_over_tcp_assertion}
use netcage.Verify.Verdicts.{exit_code_iff, first_ip-is_ipv4}
use netcage.Verify.Command.{
  exit_ip_jail, dns_jail, host_exit_ip, exit_ip_verdict, judged, named, exit_ip_name, dns_name,
  resolved, exit_ip_check, pulled, pull_image, dns_check, run_command_verify,
}

-- An address that the tool printed.
abbrev pub Printed : ToolResult → Type 0
Printed r = is_ipv4 (first_ip r.stdout) ≡ true

judged-ok :
    (host_ip : Text) (p : History × Result RunError ToolResult)
    → (judged host_ip p).1.ok ≡ true
    → (r : ToolResult) × (p.1 ≡ ok r) × Printed r × (first_ip r.stdout ≢ host_ip)
unfolding exit_ip_verdict
judged-ok host_ip (h, err e) k = cc
judged-ok host_ip (h, ok r) k = elim (Bool-cases (is_empty (first_ip r.stdout))) [
  | inl e ↦ absurd (ground (arith, e, k))
  | inr e ↦ (
    r,
    refl,
    first_ip-is_ipv4 r.stdout e,
    λ same. ground (arith, e, k, same, eqb_iff (first_ip r.stdout) host_ip),
  )
]

resolved-ok :
    (p : History × Result RunError ToolResult)
    → (resolved p).1.ok ≡ true
    → (r : ToolResult) × (p.1 ≡ ok r) × Printed r
unfolding dns_over_tcp_assertion
resolved-ok (h, err e) k = cc
resolved-ok (h, ok r) k = elim (Bool-cases (is_empty (first_ip r.stdout))) [
  | inl e ↦ absurd (ground (arith, e, k))
  | inr e ↦ (r, refl, first_ip-is_ipv4 r.stdout e)
]

exit_ip_check-ok :
    (w : World) (host : Option Text) (c : JailConfig) (h : History)
    → (exit_ip_check w host c h).1.ok ≡ true
    → (host_ip : Text) × (host ≡ some host_ip)
      × (r : ToolResult) × ((run w c h).1 ≡ ok r)
      × Printed r
      × (first_ip r.stdout ≢ host_ip)
unfolding exit_ip_check
exit_ip_check-ok w none c h k = cc
exit_ip_check-ok w (some host_ip) c h k =
    let (r, ran, printed, other) = judged-ok host_ip (run w c h) k in
    (host_ip, refl, r, ran, printed, other)

judged-history :
    (host_ip : Text) (p : History × Result RunError ToolResult) → (judged host_ip p).0 ≡ p.0
judged-history host_ip (h, ok r) = refl
judged-history host_ip (h, err e) = refl

exit_ip_check-history :
    (w : World) (host : Option Text) (c : JailConfig) (h : History)
    → (exit_ip_check w host c h).1.ok ≡ true
    → (exit_ip_check w host c h).0 ≡ (run w c h).0
unfolding exit_ip_check
exit_ip_check-history w none c h k = cc
exit_ip_check-history w (some host_ip) c h k = judged-history host_ip (run w c h)

-- The image was pulled behind the history, and then the probe of names ran and printed an address.
abbrev pub NamesAnswered : World → JailConfig → History → Type 0
NamesAnswered w c h =
    ((w.reply h (podman (pull_image w))).status ≡ done)
    × (r : ToolResult) × ((run w c (podman (pull_image w) ∷ h)).1 ≡ ok r)
    × Printed r

pulled-ok :
    (w : World) (s : Status) (c : JailConfig) (h : History)
    → (pulled w s c h).1.ok ≡ true
    → (s ≡ done) × (r : ToolResult) × ((run w c h).1 ≡ ok r) × Printed r
unfolding dns_over_tcp_assertion
pulled-ok w done c h k =
    let (r, ran, printed) = resolved-ok (run w c h) k in (refl, r, ran, printed)
pulled-ok w (exited n) c h k = cc
pulled-ok w broken c h k = cc

dns_check-ok :
    (w : World) (c : JailConfig) (h : History) → (dns_check w c h).1.ok ≡ true → NamesAnswered w c h
unfolding dns_check
dns_check-ok w c h k =
    pulled-ok w (w.reply h (podman (pull_image w))).status c (podman (pull_image w) ∷ h) k

named-history : (name : Text) (p : History × Assertion) → (named name p).0 ≡ p.0
named-history name (h, a) = refl

named-ok : (name : Text) (p : History × Assertion) → (named name p).1.ok ≡ p.1.ok
named-ok name (h, a) = refl

-- Whatever the outside answers, `netcage verify` ends with the exit code 0 only where the host's own
-- request showed an address, the first jail ran and printed another address than this one, and behind
-- the first run the image of the second probe was pulled and the second jail ran and printed an
-- address.
pub run_command_verify-passes :
    (w : World) (proxy : ProxyConfig) (body : Option Text) (first_id second_id : Text) (h : History)
    → exit_code (run_command_verify w proxy body first_id second_id h).1 ≡ 0
    → ((host_ip : Text) × (host_exit_ip body ≡ some host_ip)
        × (r : ToolResult) × ((run w (exit_ip_jail proxy first_id) h).1 ≡ ok r)
        × Printed r
        × (first_ip r.stdout ≢ host_ip))
      × NamesAnswered w (dns_jail proxy second_id) (run w (exit_ip_jail proxy first_id) h).0
unfolding run_command_verify
run_command_verify-passes w proxy body first_id second_id h k =
    let passed = ((exit_code_iff (run_command_verify w proxy body first_id second_id h).1).0 k).1 in
    let c = exit_ip_jail proxy first_id in
    let first = exit_ip_check w (host_exit_ip body) c h in
    let first_ok = sym (named-ok exit_ip_name first) ∙ passed.0 in
    let before = (named exit_ip_name first).0 in
    let behind =
      named-history exit_ip_name first ∙ exit_ip_check-history w (host_exit_ip body) c h first_ok in
    (
      exit_ip_check-ok w (host_exit_ip body) c h first_ok,
      subst (NamesAnswered w (dns_jail proxy second_id)) behind (
          dns_check-ok w (dns_jail proxy second_id) before
            (sym (named-ok dns_name (dns_check w (dns_jail proxy second_id) before)) ∙ passed.1.0)),
    )
