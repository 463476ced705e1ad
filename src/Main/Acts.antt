-- ===== src/Main/Acts.antt =====
-- main.go: what the program does before its command line is accepted and its proxy answers.
use netcage.Base.{
  ◌++◌, ◌⊎◌, Bool, true, false, List, ◌∷◌, ◌≡◌, refl, sym, ap, ◌∙◌, ok, Result-cases, Bool-cases,
  inl, inr, arith,
}
use netcage.Text.{Text, codes}
use netcage.Cli.Command.{Command, address, is_proxyless}
use netcage.Cli.Parse.{parse_with_env}
use netcage.Cli.Preflight.{preflight}
use netcage.Jail.Effects.{warn, say, Event, History, dial}
use netcage.Jail.Effects.Laws.{occurs}
use netcage.Main.Version.{resolve_version, is_version_arg}
use netcage.Main.{checked, run_main}
use netcage.Main.Verbs.{Host}
use netcage.Main.Dialled.{Answered, dialled, up, down, preflight-Dialled}

-- Any event but a line that is printed and the dial of the proxy.
abbrev pub is_act : Event → Bool
is_act (say t) = false
is_act (warn t) = false
is_act (dial a) = false
is_act _ = true

abbrev pub acts : History → Bool
acts = occurs is_act

quiet-acts : (e : Event) (h : History) → is_act e ≡ false → acts h ≡ false → acts (e ∷ h) ≡ false
unfolding occurs
quiet-acts e h p q = rw (p, occurs, q) refl

-- The condition under which the program goes on from its arguments.
abbrev pub MayAct : Host → List Text → History → Type 0
MayAct host args h =
    (cmd : Command) × (parse_with_env host.os args ≡ ok cmd)
    × ((is_proxyless cmd ≡ true) ⊎ Answered host.world h cmd)

parsed-acts :
    (host : Host) (cmd : Command) (h : History)
    → acts h ≡ false
    → acts (checked host cmd (preflight host.world cmd h)).0 ≡ true
    → (is_proxyless cmd ≡ true) ⊎ Answered host.world h cmd
parsed-acts host cmd h quiet k = elim (Bool-cases (is_proxyless cmd)) [
  | inl none' ↦ inl none'
  | inr has ↦ elim (preflight-Dialled host.world cmd h has) [
    | up answered e ↦ inr answered
    | down x e ↦
        let k' : acts (dialled cmd h) ≡ true = ap (λ p. acts (checked host cmd p).0) (sym e) ∙ k in
        absurd (ground (arith, k', quiet-acts (dial (address cmd.proxy)) h refl quiet))
  ]
]

-- Whatever the arguments and whatever the outside answers: with no act in the history before it, if the
-- program does more than to print and to dial the proxy, be it a command of podman, a relay or a file,
-- then the command line was accepted, and the verb is one that carries no proxy or the proxy answered.
pub run_main-MayAct :
    (host : Host) (args : List Text) (h : History)
    → acts h ≡ false
    → acts (run_main host args h).0 ≡ true
    → MayAct host args h
unfolding run_main
run_main-MayAct host args h quiet k = elim (Bool-cases (is_version_arg args)) [
  | inl v ↦
      let line = codes "netcage " ++ (resolve_version host.stamped host.build ++ codes "\n") in
      let k' : acts (say line ∷ h) ≡ true = rw (run_main, v) at k in
      absurd (ground (arith, k', quiet-acts (say line) h refl quiet))
  | inr v ↦ elim (Result-cases (parse_with_env host.os args)) [
    | inl (cmd, e) ↦ (cmd, e, parsed-acts host cmd h quiet (rw (run_main, v, e) at k))
    | inr (x, e) ↦
        let k' : acts h ≡ true = rw (run_main, v, e) at k in absurd (ground (arith, k', quiet))
  ]
]
