-- ===== src/Cli/Scan/Allowlist.antt =====
-- The entries of the scanned allowlist.
use mathlib.Core.Path.{subst}
use netcage.Base.{
  Bool, true, false, none, some, List, [], ◌∷◌, ◌≡◌, All, All-append, ok, ◌>>=◌, >>=-eq-ok,
  Result-cases, ok_injective, arith, inl, inr,
}
use netcage.Text.{Text}
use netcage.Net.{IpNet}
use netcage.Base.{ℕ}
use netcage.Cli.Allow.{DirectAllow, dispatch, parse_allow_direct}
use netcage.Cli.Allow.Shape.{parse_allow_direct-Accepted}
use netcage.Cli.Command.{ValueFlag, allow}
use netcage.Cli.Scan.{
  Scan, Action, now, apply, act, classify, argument, Step, feed, feeds, finish, initial, scan,
}

-- The entry is what the parser makes of the text that it keeps.
abbrev pub IsParsed : DirectAllow → Type 0
IsParsed a = parse_allow_direct a.raw ≡ ok a

abbrev pub AllParsed : List DirectAllow → Type 0
AllParsed = All IsParsed

dispatch-raw :
    (raw : Text) (n : IpNet) (port : ℕ) {a : DirectAllow} → dispatch raw n port ≡ ok a → raw ≡ a.raw
unfolding dispatch
dispatch-raw raw n port h = ground arith

pub parse_allow_direct-IsParsed :
    (raw : Text) {a : DirectAllow} → parse_allow_direct raw ≡ ok a → IsParsed a
parse_allow_direct-IsParsed raw {a} h =
    let accepted = parse_allow_direct-Accepted raw h in
    subst (λ r. parse_allow_direct r ≡ ok a) (dispatch-raw raw a.network a.port accepted.dispatched)
      h

apply-AllParsed :
    (f : ValueFlag) (v : Text) (s : Scan) {t : Scan}
    → AllParsed s.cmd.allow_direct
    → apply f v s ≡ ok t
    → AllParsed t.cmd.allow_direct
unfolding apply
apply-AllParsed allow v s g h = elim (Result-cases (parse_allow_direct v)) [
  | inl (a, e) ↦
      let more =
        All-append IsParsed s.cmd.allow_direct (a ∷ []) g (parse_allow_direct-IsParsed v e, tt) in
      ground (arith, more)
  | inr (x, e) ↦ absurd (ground arith)
]
apply-AllParsed _ v s g h = ground arith

abbrev StepParsed : Step → Type 0
StepParsed (p, s) = AllParsed s.cmd.allow_direct

with_value-StepParsed :
    (f : ValueFlag) (v : Text) (s : Scan) {t : Step}
    → AllParsed s.cmd.allow_direct
    → (apply f v s >>= λ s'. ok (none, s')) ≡ ok t
    → StepParsed t
with_value-StepParsed f v s g h =
    let (s', e, e') = >>=-eq-ok (apply f v s) (λ s'. ok (none, s')) h in
    ground (arith, apply-AllParsed f v s g e)

act-StepParsed :
    (a : Action) (s : Scan) {t : Step}
    → AllParsed s.cmd.allow_direct
    → act a s ≡ ok t
    → StepParsed t
unfolding act
act-StepParsed (now f v) s {t} g h = with_value-StepParsed f v s {t = t} g h
act-StepParsed _ s g h = ground arith

argument-StepParsed :
    (b : Bool) (a : Text) (s : Scan) {t : Step}
    → AllParsed s.cmd.allow_direct
    → argument b a s ≡ ok t
    → StepParsed t
unfolding argument
argument-StepParsed true a s g h = ground arith
argument-StepParsed false a s {t} g h = act-StepParsed (classify a) s {t = t} g h

feed-StepParsed : (t : Step) (a : Text) {u : Step} → StepParsed t → feed t a ≡ ok u → StepParsed u
unfolding feed
feed-StepParsed (some f, s) a {u} g h = with_value-StepParsed f a s {t = u} g h
feed-StepParsed (none, s) a {u} g h = argument-StepParsed s.end_of_flags a s {t = u} g h

feeds-StepParsed :
    (t : Step) (args : List Text) {u : Step} → StepParsed t → feeds t args ≡ ok u → StepParsed u
unfolding feeds
feeds-StepParsed t [] k h = subst StepParsed (ok_injective h) k
feeds-StepParsed t (a ∷ args) {u} k h =
    let (t', e, e') = >>=-eq-ok (feed t a) (λ u. feeds u args) h in
    feeds-StepParsed t' args {u = u} (feed-StepParsed t a {u = t'} k e) e'

finish-AllParsed :
    (t : Step) {s : Scan} → StepParsed t → finish t ≡ ok s → AllParsed s.cmd.allow_direct
unfolding finish
finish-AllParsed (none, s) g h = ground arith
finish-AllParsed (some f, s) g h = cc

-- Where the loop accepts the arguments, the allow parser accepts the text that each entry of the
-- collected allowlist keeps, and its result is that very entry.
pub scan-AllParsed :
    (name : Text) (args : List Text) {s : Scan}
    → scan name args ≡ ok s
    → AllParsed s.cmd.allow_direct
unfolding scan
scan-AllParsed name args h =
    let (t, e, e') = >>=-eq-ok (feeds (initial name) args) finish h in
    finish-AllParsed t (feeds-StepParsed (initial name) args {u = t} tt e) e'
