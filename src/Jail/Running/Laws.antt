-- ===== src/Jail/Running/Laws.antt =====
-- What holds once a guard of internal/ports, internal/forward or internal/manage let a command pass.
use netcage.Base.{Bool, true, false, ◌∷◌, ◌≡◌, refl, ap, ◌∙◌, Result, ok, err, inl, inr, arith}
use mathlib.Core.Path.{subst}
use netcage.Text.{Text}
use netcage.Jail.Effects.{
  Event, World, History, ResolveError, inspect_failed, Io, ◌>>-◌, after, attempt, settle,
}
use netcage.Jail.Effects.Laws.{
  occurs, attempt-occurs, settle-occurs, after-occurs, after-ok, after-history, after_assoc,
  out_of-ok,
}
use netcage.Jail.Resolve.{inspect_labels, read_labels, run_of, resolve_managed_run}
use netcage.Jail.Running.{inspect_running, says_true, running_of, require_running, told}

running_of-ok :
    {E : Type 0} (stopped : E) (out : Text) {u : Unit {0}}
    → running_of stopped out ≡ ok u
    → says_true out ≡ true
unfolding running_of
running_of-ok stopped out h = ground arith

told-ok :
    {E F A : Type 0} (f : E → F) (p : History × Result E A) {a : A}
    → (told f p).1 ≡ ok a
    → p.1 ≡ ok a
unfolding told
told-ok f (h, ok a) k = cc
told-ok f (h, err e) k = cc

told-history : {E F A : Type 0} (f : E → F) (p : History × Result E A) → (told f p).0 ≡ p.0
unfolding told
told-history f (h, ok a) = refl
told-history f (h, err e) = refl

pub resolve_managed_run-history :
    (w : World) (name : Text) (h : History)
    → (resolve_managed_run w name h).0 ≡ inspect_labels name ∷ h
unfolding resolve_managed_run ◌>>-◌ attempt settle
resolve_managed_run-history w name h =
    after-history (attempt w (inspect_labels name) inspect_failed h) _ (λ _ _. refl)

pub resolve_managed_run-ok :
    (w : World) (name : Text) (h : History) {run_id : Text}
    → (resolve_managed_run w name h).1 ≡ ok run_id
    → run_of (read_labels (w.reply h (inspect_labels name)).out) ≡ ok run_id
unfolding resolve_managed_run ◌>>-◌ attempt settle
resolve_managed_run-ok w name h k =
    let (out, e, settled) = after-ok (attempt w (inspect_labels name) inspect_failed h) _ k in
    ap (λ t. run_of (read_labels t)) (out_of-ok inspect_failed _ e) ∙ settled

module _ {E A : Type 0} (kind : Event → Bool) (w : World) (h : History) where
  -- An event that comes behind the check that a container runs.
  pub require_running-occurs :
      (unavailable stopped : E) (name : Text) (rest : Unit {0} → Io E A)
      → occurs kind h ≡ false
      → kind (inspect_running name) ≡ false
      → occurs kind (after (require_running w unavailable stopped name h) rest).0 ≡ true
      → (says_true (w.reply h (inspect_running name)).out ≡ true)
        × (require_running w unavailable stopped name h ≡ (inspect_running name ∷ h, ok tt))
        × (occurs kind (rest tt (inspect_running name ∷ h)).0 ≡ true)
  unfolding require_running ◌>>-◌ occurs after attempt settle
  require_running-occurs unavailable stopped name rest quiet other k =
      let asked = attempt w (inspect_running name) unavailable h in
      let k1 = subst (λ p. occurs kind p.0 ≡ true) (after_assoc asked _ rest) k in
      let (out, e, k2) =
        attempt-occurs kind h quiet w (inspect_running name) unavailable _ other k1 in
      let (_, passed, k3) =
        settle-occurs kind (inspect_running name ∷ h) (ground (arith, quiet, other))
          (running_of stopped out) rest k2 in
      (
        ap (λ t. says_true t) (out_of-ok unavailable _ e) ∙ running_of-ok stopped out passed,
        rw (e, passed) refl,
        k3,
      )

  -- An event that comes behind the resolution of a run.
  pub resolve_managed_run-occurs :
      (f : ResolveError → E) (name : Text) (rest : Text → Io E A)
      → occurs kind h ≡ false
      → kind (inspect_labels name) ≡ false
      → occurs kind (after (told f (resolve_managed_run w name h)) rest).0 ≡ true
      → (run_id : Text) × (run_of (read_labels (w.reply h (inspect_labels name)).out) ≡ ok run_id)
        × (told f (resolve_managed_run w name h) ≡ (inspect_labels name ∷ h, ok run_id))
        × (occurs kind (rest run_id (inspect_labels name ∷ h)).0 ≡ true)
  unfolding occurs
  resolve_managed_run-occurs f name rest quiet other k =
      let p = resolve_managed_run w name h in
      let past = told-history f p ∙ resolve_managed_run-history w name h in
      elim (after-occurs kind (told f p) rest k) [
        | inl seen ↦ absurd (ground (arith, ap (occurs kind) past, seen, quiet, other))
        | inr (run_id, accepted, more) ↦ (
          run_id,
          resolve_managed_run-ok w name h (told-ok f p accepted),
          cc (past, accepted),
          subst (λ h'. occurs kind (rest run_id h').0 ≡ true) past more,
        )
      ]
