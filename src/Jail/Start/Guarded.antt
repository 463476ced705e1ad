-- ===== src/Jail/Start/Guarded.antt =====
-- The launch of a revived tool, over the history.
use mathlib.Core.Path.{subst}
use netcage.Base.{true, false, ◌∷◌, ◌≡◌, refl, sym, ap, ◌∙◌, All, Result, ok, err, inl, inr, arith}
use netcage.Text.{Text}
use netcage.Jail.Config.{JailConfig, sidecar_name}
use netcage.Jail.Firewall.Rules.{firewall_rules}
use netcage.Jail.Firewall.Presence.{IsInstalled, firewall_verify_rules-IsInstalled}
use netcage.Jail.Effects.{
  ResolveError, inspect_failed, find_helper, podman, World, History, ◌>>-◌, after, attempt, settle,
  sidecar_failed, helper_missing, config_unreadable,
}
use netcage.Jail.Effects.Laws.{
  occurs, after-ok, after-occurs, after-history, after_assoc, attempt-occurs, settle-occurs,
  out_of-ok,
}
use netcage.Jail.Resolve.{inspect_labels, read_labels, tool_name_for, tool_of, resolve_managed_tool}
use netcage.Jail.Start.Launched.{launches_but, start_run-Quiet}
use netcage.Jail.Run.{verify_firewall, teardown}
use netcage.Jail.Run.Verified.{
  launched-verified, launched-verified, launched-verified, launched-verified, launched-verified,
  launched-verified, is_launch, launches, answer_v4, answer_v6, verify_firewall-ok,
}
use netcage.Jail.Run.Guarded.{teardown-launches}
use netcage.Jail.Start.{
  baked_from, wanted, reconcile_jail_config, sidecar_start_args, inspect_env, lifted,
  read_baked_sidecar_config, start_checked, start_body, start_run, start,
}
use netcage.Jail.Start.Reconcile.{reconcile_jail_config_iff}

abbrev pub of_run : JailConfig → Text → JailConfig
of_run c run_id = record c { run_id = run_id }

-- The history once the sidecar is revived.
abbrev pub revived : JailConfig → History → History
revived c h = podman (sidecar_start_args c) ∷ h

start_body-guarded :
    (w : World) (c : JailConfig) (h : History)
    → launches h ≡ false
    → launches (start_body w c h).0 ≡ true
    → (verify_firewall w c (revived c h)).1 ≡ ok tt
unfolding start_body ◌>>-◌
start_body-guarded w c h quiet k =
    launched-verified w c h (podman (sidecar_start_args c)) sidecar_failed (λ _. start_checked w c)
      quiet refl k

-- The history once the sidecar's environment is read.
abbrev pub compared : JailConfig → History → History
compared c h = inspect_env (sidecar_name c) ∷ find_helper ∷ h

start_run-guarded :
    (w : World) (c : JailConfig) (h : History)
    → launches h ≡ false
    → launches (start_run w c h).0 ≡ true
    → (baked_from (w.decode_texts (w.reply (find_helper ∷ h) (inspect_env (sidecar_name c))).out)
        ≡ ok (wanted c))
      × ((verify_firewall w c (revived c (compared c h))).1 ≡ ok tt)
unfolding start_run ◌>>-◌ read_baked_sidecar_config occurs teardown
start_run-guarded w c h quiet k =
    let (_, _, k1) = attempt-occurs is_launch h quiet w find_helper helper_missing _ refl k in
    let h1 = find_helper ∷ h in
    let read = attempt w (inspect_env (sidecar_name c)) config_unreadable h1 in
    let k2 = subst (λ p. launches p.0 ≡ true) (after_assoc read _ _) k1 in
    let (out, e, k3) =
      attempt-occurs is_launch h1 quiet w (inspect_env (sidecar_name c)) config_unreadable _ refl
        k2 in
    let h2 = compared c h in
    let (b, eb, k4) = settle-occurs is_launch h2 quiet (baked_from (w.decode_texts out)) _ k3 in
    let (_, er, k5) = settle-occurs is_launch h2 quiet (reconcile_jail_config c b) _ k4 in
    let same = (reconcile_jail_config_iff c b).0 er in
    (
      ap (λ t. baked_from (w.decode_texts t)) (out_of-ok config_unreadable _ e) ∙ (eb ∙ ap ok same),
      start_body-guarded w c h2 quiet (sym (teardown-launches w c (start_body w c h2).0) ∙ k5),
    )

lifted-history : {A : Type 0} (p : History × Result ResolveError A) → (lifted p).0 ≡ p.0
lifted-history (h, ok a) = refl
lifted-history (h, err e) = refl

resolve_managed_tool-history :
    (w : World) (name : Text) (h : History)
    → (resolve_managed_tool w name h).0 ≡ inspect_labels name ∷ h
unfolding resolve_managed_tool ◌>>-◌ attempt settle
resolve_managed_tool-history w name h =
    after-history (attempt w (inspect_labels name) inspect_failed h) _ (λ _ _. refl)

lifted-ok :
    {A : Type 0} (p : History × Result ResolveError A) {a : A} → (lifted p).1 ≡ ok a → p.1 ≡ ok a
lifted-ok (h, ok a) k = cc
lifted-ok (h, err e) k = cc

resolve_managed_tool-ok :
    (w : World) (name : Text) (h : History) {run_id : Text}
    → (resolve_managed_tool w name h).1 ≡ ok run_id
    → tool_of (read_labels (w.reply h (inspect_labels name)).out) ≡ ok run_id
unfolding resolve_managed_tool ◌>>-◌ attempt settle
resolve_managed_tool-ok w name h k =
    let (out, e, settled) = after-ok (attempt w (inspect_labels name) inspect_failed h) _ k in
    ap (λ t. tool_of (read_labels t)) (out_of-ok inspect_failed _ e) ∙ settled

asked-launches : (name : Text) (h : History) → launches (inspect_labels name ∷ h) ≡ launches h
unfolding occurs
asked-launches name h = refl

-- Whatever the outside answers: if a start, with no launch in the history before it, launches the tool,
-- then the labels of the named container were those of the tool of a run, the proxy, the routes and the
-- script of the firewall that this run's sidecar was made with are what the configuration would make now,
-- every rule of the firewall stood in what the revived sidecar showed of its chains, and nothing but the
-- tool of this run was launched.
pub start-guarded :
    (w : World) (c : JailConfig) (name : Text) (h : History)
    → launches h ≡ false
    → launches (start w c name h).0 ≡ true
    → (run_id : Text) × (tool_of (read_labels (w.reply h (inspect_labels name)).out) ≡ ok run_id)
      × (launches_but (tool_name_for run_id) (start w c name h).0
          ≡ launches_but (tool_name_for run_id) h)
      × (baked_from (
            w.decode_texts
              (w.reply
                (find_helper ∷ inspect_labels name ∷ h)
                (inspect_env (sidecar_name (of_run c run_id)))).out)
          ≡ ok (wanted (of_run c run_id)))
      × All
          (IsInstalled
            (answer_v4 w
              (of_run c run_id)
              (revived (of_run c run_id) (compared (of_run c run_id) (inspect_labels name ∷ h))))
            (answer_v6 w
              (of_run c run_id)
              (revived (of_run c run_id) (compared (of_run c run_id) (inspect_labels name ∷ h)))))
          (firewall_rules (of_run c run_id) c.proxy.port)
unfolding start ◌>>-◌ after occurs
start-guarded w c name h quiet k =
    let resolved = resolve_managed_tool w name h in
    elim (after-occurs is_launch (lifted resolved) (λ run_id. start_run w (of_run c run_id)) k) [
      | inl seen ↦
          let e = lifted-history resolved ∙ resolve_managed_tool-history w name h in
          absurd (ground (arith, ap launches e, seen, asked-launches name h))
      | inr (run_id, accepted, k') ↦
          let e = lifted-history resolved ∙ resolve_managed_tool-history w name h in
          let c' = of_run c run_id in
          let h1 = inspect_labels name ∷ h in
          let (same, verified) =
            start_run-guarded w c' h1 (asked-launches name h ∙ quiet)
              (subst (λ h'. launches (start_run w c' h').0 ≡ true) e k') in
          let (v4, v6) = verify_firewall-ok w c' (revived c' (compared c' h1)) verified in
          let passed : lifted resolved ≡ (h1, ok run_id) = cc (e, accepted) in
          (
            run_id,
            resolve_managed_tool-ok w name h (lifted-ok resolved accepted),
            rw (passed) (start_run-Quiet w c' h1),
            same,
            firewall_verify_rules-IsInstalled c' c.proxy.port _ _ v4 v6,
          )
    ]
