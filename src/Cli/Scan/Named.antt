-- ===== src/Cli/Scan/Named.antt =====
-- The subcommand's name through the loop of `ParseWithEnv`.
use netcage.Base.{
  Bool, true, false, none, some, List, [], ◌∷◌, ◌≡◌, sym, ◌∙◌, ok, ◌>>=◌, >>=-eq-ok, Result-cases,
  ok_injective, arith, inl, inr, ap,
}
use netcage.Text.{Text}
use netcage.Cli.Allow.{parse_allow_direct}
use netcage.Cli.Command.{ValueFlag, allow}
use netcage.Cli.Scan.{
  Scan, Action, now, apply, act, classify, argument, Step, feed, feeds, finish, initial, scan,
}

abbrev step_name : Step → Text
step_name (p, s) = s.cmd.name

apply-name :
    (f : ValueFlag) (v : Text) (s : Scan) {t : Scan} → apply f v s ≡ ok t → t.cmd.name ≡ s.cmd.name
unfolding apply
apply-name allow v s h = elim (Result-cases (parse_allow_direct v)) [
  | inl (a, e) ↦ ground arith
  | inr (x, e) ↦ absurd (ground arith)
]
apply-name _ v s h = ground arith

with_value-name :
    (f : ValueFlag) (v : Text) (s : Scan) {t : Step}
    → (apply f v s >>= λ s'. ok (none, s')) ≡ ok t
    → step_name t ≡ s.cmd.name
with_value-name f v s h =
    let (s', e, e') = >>=-eq-ok (apply f v s) (λ s'. ok (none, s')) h in
    ap step_name (sym (ok_injective e')) ∙ apply-name f v s e

act-name : (a : Action) (s : Scan) {t : Step} → act a s ≡ ok t → step_name t ≡ s.cmd.name
unfolding act
act-name (now f v) s {t} h = with_value-name f v s {t = t} h
act-name _ s h = ground arith

argument-name :
    (b : Bool) (a : Text) (s : Scan) {t : Step} → argument b a s ≡ ok t → step_name t ≡ s.cmd.name
unfolding argument
argument-name true a s h = ground arith
argument-name false a s {t} h = act-name (classify a) s {t = t} h

feed-name : (t : Step) (a : Text) {u : Step} → feed t a ≡ ok u → step_name u ≡ step_name t
unfolding feed
feed-name (some f, s) a {u} h = with_value-name f a s {t = u} h
feed-name (none, s) a {u} h = argument-name s.end_of_flags a s {t = u} h

feeds-name :
    (t : Step) (args : List Text) {u : Step} → feeds t args ≡ ok u → step_name u ≡ step_name t
unfolding feeds
feeds-name t [] h = ap step_name (sym (ok_injective h))
feeds-name t (a ∷ args) {u} h =
    let (t', e, e') = >>=-eq-ok (feed t a) (λ u. feeds u args) h in
    feeds-name t' args {u = u} e' ∙ feed-name t a {u = t'} e

finish-name : (t : Step) {s : Scan} → finish t ≡ ok s → s.cmd.name ≡ step_name t
unfolding finish
finish-name (none, s) h = ground arith
finish-name (some f, s) h = cc

-- The command of an accepted loop keeps the name of its verb.
pub scan-name :
    (name : Text) (args : List Text) {s : Scan} → scan name args ≡ ok s → s.cmd.name ≡ name
unfolding scan
scan-name name args h =
    let (t, e, e') = >>=-eq-ok (feeds (initial name) args) finish h in
    finish-name t e' ∙ feeds-name (initial name) args {u = t} e
