-- ===== src/Main/Dialled.antt =====
-- main.go: the way of a verb that has a proxy from the arguments to its own function.
use netcage.Base.{
  List-cases, ℕ, Bool, true, false, List, ◌∷◌, ◌≡◌, refl, sym, ap, ◌∙◌, Result, ok, err,
  Result-cases, inl, inr, arith,
}
use netcage.Text.{Text, codes, eqb, member}
use netcage.Cli.Command.{
  Command, address, command, is_proxyless, is_management_verb, management_verbs,
}
use netcage.Cli.Parse.{parse_jail_verb, parse_with_env}
use netcage.Cli.Parse.Chosen.{parse_jail_verb-name}
use netcage.Cli.Preflight.{PreflightError, unreachable, preflight, preflight_with}
use netcage.Cli.System.{System}
use netcage.Jail.Effects.{return, after, ◌>>-◌, World, History, Reply, done, dial, attempt, out_of}
use netcage.Jail.Effects.Laws.{occurs}
use netcage.Jail.Run.Verified.{launches}
use netcage.Main.Version.{is_version_arg}
use netcage.Main.{dispatch_named, checked, run_main}
use netcage.Main.Verbs.{no_proxy, refused, fails, Exit, Host, Failure, ended}

-- The proxy answered the dial.
abbrev pub Answered : World → History → Command → Type 0
Answered w h cmd = (w.reply h (dial (address cmd.proxy))).status ≡ done

-- The history once the proxy was dialled.
abbrev pub dialled : Command → History → History
dialled cmd h = dial (address cmd.proxy) ∷ h

out_of-done : {E : Type 0} (x : E) (r : Reply) {t : Text} → out_of x r ≡ ok t → r.status ≡ done
unfolding out_of
out_of-done x r h = ground arith

-- What the preflight of a verb with a proxy comes to.
pub data Dialled (w : World) (cmd : Command) (h : History)
    (p : History × Result PreflightError (Unit {0})) : Type 0 where
  up : Answered w h cmd → p ≡ (dialled cmd h, ok tt) → Dialled w cmd h p
  down : (e : PreflightError) → p ≡ (dialled cmd h, err e) → Dialled w cmd h p

pub preflight-Dialled :
    (w : World) (cmd : Command) (h : History)
    → is_proxyless cmd ≡ false
    → Dialled w cmd h (preflight w cmd h)
unfolding preflight preflight_with attempt ◌>>-◌ after return
preflight-Dialled w cmd h proxied =
    let a = address cmd.proxy in
    elim (Result-cases (out_of (unreachable a) (w.reply h (dial a)))) [
      | inl (t, e) ↦ up (out_of-done (unreachable a) _ e) (rw (preflight, proxied, e) refl)
      | inr (x, e) ↦ down x (rw (preflight, proxied, e) refl)
    ]

-- A verb that goes through the parser of run, verify and start, and that has a proxy.
pub record IsJailVerb (name : Text) : Type 0 where
  pub no_version : (rest : List Text) → is_version_arg (name ∷ rest) ≡ false
  pub parses :
      (os : System) (rest : List Text)
      → parse_with_env os (name ∷ rest) ≡ parse_jail_verb os name rest
  pub has_proxy : is_proxyless (command name) ≡ false

proxyless_by_name : (cmd : Command) → is_proxyless cmd ≡ is_proxyless (command cmd.name)
unfolding is_proxyless
proxyless_by_name cmd = refl

-- What holds of the outcome, and of no outcome of a refusal, holds of the outcome of the verb itself, of
-- an accepted command whose proxy answered.
pub dispatched :
    (host : Host) (name : Text) (rest : List Text) (h : History) (P : History × Exit → Bool)
    → IsJailVerb name
    → ((f : Failure) → P (h, fails 2 f) ≡ false)
    → ((cmd : Command) (f : Failure) → P (dialled cmd h, fails 1 f) ≡ false)
    → P (run_main host (name ∷ rest) h) ≡ true
    → (cmd : Command) × (parse_jail_verb host.os name rest ≡ ok cmd)
      × Answered host.world h cmd
      × (P (dispatch_named host name cmd (dialled cmd h)) ≡ true)
unfolding run_main
dispatched host name rest h P verb refusal outage k =
    elim (Result-cases (parse_jail_verb host.os name rest)) [
      | inr (x, e) ↦
          let k1 : P (h, fails 2 (refused x)) ≡ true =
            rw (run_main, verb.no_version rest, verb.parses host.os rest, e) at k in
          absurd (ground (arith, refusal (refused x), k1))
      | inl (cmd, e) ↦
          let k1 : P (checked host cmd (preflight host.world cmd h)) ≡ true =
            rw (run_main, verb.no_version rest, verb.parses host.os rest, e) at k in
          let named = parse_jail_verb-name host.os name rest {cmd = cmd} e in
          let has_proxy : is_proxyless cmd ≡ false =
            proxyless_by_name cmd ∙ ap (λ n. is_proxyless (command n)) named ∙ verb.has_proxy in
          elim (preflight-Dialled host.world cmd h has_proxy) [
            | down x e1 ↦
                let k2 : P (dialled cmd h, fails 1 (no_proxy x)) ≡ true =
                  ap (λ p. P (checked host cmd p)) (sym e1) ∙ k1 in
                absurd (ground (arith, k2, outage cmd (no_proxy x)))
            | up answered e1 ↦ (
              cmd,
              e,
              answered,
              ap (λ n. P (dispatch_named host n cmd (dialled cmd h))) (sym named)
                  ∙ (ap (λ p. P (checked host cmd p)) (sym e1) ∙ k1),
            )
          ]
    ]

preflight-up :
    (w : World) (cmd : Command) (h : History)
    → is_proxyless cmd ≡ false
    → Answered w h cmd
    → preflight w cmd h ≡ (dialled cmd h, ok tt)
unfolding preflight preflight_with attempt ◌>>-◌ after return out_of
preflight-up w cmd h proxied answered = rw (preflight, proxied, answered) refl

-- An accepted command whose proxy answered reaches the function of its verb.
pub reaches :
    (host : Host) (name : Text) (rest : List Text) (h : History) (cmd : Command)
    → IsJailVerb name
    → parse_jail_verb host.os name rest ≡ ok cmd
    → Answered host.world h cmd
    → run_main host (name ∷ rest) h ≡ dispatch_named host name cmd (dialled cmd h)
unfolding run_main
reaches host name rest h cmd verb accepted answered =
    let named = parse_jail_verb-name host.os name rest {cmd = cmd} accepted in
    let has_proxy : is_proxyless cmd ≡ false =
      proxyless_by_name cmd ∙ ap (λ n. is_proxyless (command n)) named ∙ verb.has_proxy in
    rw (run_main, verb.no_version rest, verb.parses host.os rest, accepted)
      (ap (checked host cmd) (preflight-up host.world cmd h has_proxy answered)
        ∙ ap (λ n. dispatch_named host n cmd (dialled cmd h)) named)

pub run-IsJailVerb : IsJailVerb (codes "run")
unfolding is_version_arg parse_with_env is_proxyless is_management_verb management_verbs member eqb
    codes
run-IsJailVerb = record {
  no_version = λ rest. elim (List-cases rest) [ inl e ↦ rw e refl | inr (a, as', e) ↦ rw e refl ];
  parses = λ os rest. refl;
  has_proxy = refl;
}

pub start-IsJailVerb : IsJailVerb (codes "start")
unfolding is_version_arg parse_with_env is_proxyless is_management_verb management_verbs member eqb
    codes
start-IsJailVerb = record {
  no_version = λ rest. elim (List-cases rest) [ inl e ↦ rw e refl | inr (a, as', e) ↦ rw e refl ];
  parses = λ os rest. refl;
  has_proxy = refl;
}

pub verify-IsJailVerb : IsJailVerb (codes "verify")
unfolding is_version_arg parse_with_env is_proxyless is_management_verb management_verbs member eqb
    codes
verify-IsJailVerb = record {
  no_version = λ rest. elim (List-cases rest) [ inl e ↦ rw e refl | inr (a, as', e) ↦ rw e refl ];
  parses = λ os rest. refl;
  has_proxy = refl;
}

pub ended-history :
    {E A : Type 0} (failure : E → Failure) (code : A → ℕ) (p : History × Result E A)
    → (ended failure code p).0 ≡ p.0
ended-history failure code (h, ok a) = refl
ended-history failure code (h, err e) = refl

pub dialled-launches : (cmd : Command) (h : History) → launches (dialled cmd h) ≡ launches h
unfolding occurs
dialled-launches cmd h = refl

abbrev pub has_launched : History × Exit → Bool
has_launched p = launches p.0
