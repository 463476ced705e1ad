-- ===== src/Jail/Run/Guarded.antt =====
-- The launch of the tool and the teardown, over the history of a run.
use netcage.Jail.Fixtures.{remove_fixtures}
use netcage.Base.{true, false, ◌∷◌, ◌≡◌, refl, sym, ◌∙◌, All, ok, inl, inr, arith, Result-cases}
use netcage.Text.{Text}
use netcage.Jail.Config.{JailConfig}
use netcage.Jail.Firewall.Rules.{firewall_rules}
use netcage.Jail.Firewall.Presence.{IsInstalled, firewall_verify_rules-IsInstalled}
use netcage.Jail.Containers.{sidecar_run_args}
use netcage.Jail.Effects.Laws.{occurs}
use netcage.Jail.Effects.{
  find_helper, podman, World, History, ◌>>-◌, attempt, sidecar_failed, helper_missing, out_of,
}
use netcage.Jail.Run.{remove_fixtures, verify_firewall, run_checked, run_body, teardown, run}
use netcage.Jail.Run.Verified.{
  launched-verified, launches, answer_v4, answer_v6, verify_firewall-ok,
}

run_body-guarded :
    (w : World) (c : JailConfig) (h : History)
    → launches h ≡ false
    → launches (run_body w c h).0 ≡ true
    → (verify_firewall w c (podman (sidecar_run_args c) ∷ h)).1 ≡ ok tt
unfolding run_body ◌>>-◌
run_body-guarded w c h quiet k =
    launched-verified w c h (podman (sidecar_run_args c)) sidecar_failed (λ _. run_checked w c)
      quiet refl k

pub teardown-launches :
    (w : World) (c : JailConfig) (h : History) → launches (teardown w c h) ≡ launches h
unfolding teardown occurs remove_fixtures
teardown-launches w c h = ground arith

-- The configuration with the helper's path, and the history once its sidecar is started.
abbrev pub with_path : JailConfig → Text → JailConfig
with_path c path = record c { dns_helper_path = path }

abbrev pub with_sidecar : JailConfig → History → History
with_sidecar c h = podman (sidecar_run_args c) ∷ find_helper ∷ h

-- Whatever the outside answers: if a run, with no launch in the history before it, launches the tool,
-- then for some path of the helper every rule of the run's firewall stood in what the sidecar, once
-- started, showed of its chains.
pub run-guarded :
    (w : World) (c : JailConfig) (h : History)
    → launches h ≡ false
    → launches (run w c h).0 ≡ true
    → (path : Text) × All
        (IsInstalled
          (answer_v4 w (with_path c path) (with_sidecar (with_path c path) h))
          (answer_v6 w (with_path c path) (with_sidecar (with_path c path) h)))
        (firewall_rules (with_path c path) c.proxy.port)
unfolding run attempt occurs teardown
run-guarded w c h quiet k = elim (Result-cases (out_of helper_missing (w.reply h find_helper))) [
  | inl (path, e) ↦
      let c' = with_path c path in
      let k' : launches (teardown w c' (run_body w c' (find_helper ∷ h)).0) ≡ true = rw (e) at k in
      let checks =
        verify_firewall-ok w c' (with_sidecar c' h)
          (run_body-guarded w c' (find_helper ∷ h) quiet (sym (teardown-launches w c' _) ∙ k')) in
      (path, firewall_verify_rules-IsInstalled c' c.proxy.port _ _ checks.0 checks.1)
  | inr (x, e) ↦
      let k' : launches (find_helper ∷ h) ≡ true = rw (e) at k in absurd (ground (arith, k', quiet))
]
