-- ===== src/Cli/Scan/Vetted.antt =====
-- The flags that reach podman untouched, against the vetted list.
use mathlib.Core.Path.{subst}
use netcage.Base.{
  ok_injective, Bool, true, false, Option, none, some, List, [], ◌∷◌, ◌++◌, ◌≡◌, refl, ◌⊎◌, inl,
  inr, ok, ◌>>=◌, Result-cases, >>=-eq-ok, arith,
}
use netcage.Text.{Text, codes, member}
use netcage.Cli.Allow.{parse_allow_direct}
use netcage.Cli.Command.{ValueFlag, allow, pass_through, pass_through_value_flags}
use netcage.Cli.Scan.{
  argument, initial, Scan, Action, later, now, read_only, classify, apply, act, Step, feed, feeds,
  finish, scan,
}

-- A name under which a flag with a value may be passed on.
abbrev pub IsVettedName : Text → Type 0
IsVettedName n = (n ≡ codes "--label") ⊎ (member n pass_through_value_flags ≡ true)

-- A sequence of vetted flags, each value behind its flag.
pub data IsVetted : List Text → Type 0 where
  nil : IsVetted []
  read_only_flag :
      {n : Text} {fs : List Text} → n ≡ codes "--read-only" → IsVetted fs → IsVetted (n ∷ fs)
  valued : {n v : Text} {fs : List Text} → IsVettedName n → IsVetted fs → IsVetted (n ∷ v ∷ fs)

IsVetted-append : {fs gs : List Text} → IsVetted fs → IsVetted gs → IsVetted (fs ++ gs)
IsVetted-append nil g = g
IsVetted-append (read_only_flag e f) g = read_only_flag e (IsVetted-append f g)
IsVetted-append (valued n f) g = valued n (IsVetted-append f g)

abbrev FlagOk : ValueFlag → Type 0
FlagOk (pass_through n) = IsVettedName n
FlagOk _ = Unit

abbrev ActionOk : Action → Type 0
ActionOk (later f) = FlagOk f
ActionOk (now f v) = FlagOk f
ActionOk _ = Unit

classify-ActionOk : (a : Text) → ActionOk (classify a)
unfolding classify
classify-ActionOk a = ground arith

abbrev PendingOk : Option ValueFlag → Type 0
PendingOk none = Unit
PendingOk (some f) = FlagOk f

abbrev StepOk : Step → Type 0
StepOk (p, s) = PendingOk p × IsVetted s.cmd.pass_through_flags

apply-IsVetted :
    (f : ValueFlag) (v : Text) (s : Scan) {t : Scan}
    → FlagOk f
    → IsVetted s.cmd.pass_through_flags
    → apply f v s ≡ ok t
    → IsVetted t.cmd.pass_through_flags
unfolding apply
apply-IsVetted (pass_through n) v s k g h = ground (arith, IsVetted-append g (valued {v = v} k nil))
apply-IsVetted allow v s k g h = elim (Result-cases (parse_allow_direct v)) [
  | inl (a, e) ↦ ground arith
  | inr (x, e) ↦ absurd (ground arith)
]
apply-IsVetted _ v s k g h = ground arith

with_value-StepOk :
    (f : ValueFlag) (v : Text) (s : Scan) {t : Step}
    → FlagOk f
    → IsVetted s.cmd.pass_through_flags
    → (apply f v s >>= λ s'. ok (none, s')) ≡ ok t
    → StepOk t
with_value-StepOk f v s k g h =
    let (s', e, e') = >>=-eq-ok (apply f v s) (λ s'. ok (none, s')) h in
    ground (arith, apply-IsVetted f v s k g e)

act-StepOk :
    (a : Action) (s : Scan) {t : Step}
    → ActionOk a
    → IsVetted s.cmd.pass_through_flags
    → act a s ≡ ok t
    → StepOk t
unfolding act
act-StepOk (now f v) s k g h = with_value-StepOk f v s k g h
act-StepOk read_only s k g h = ground (arith, IsVetted-append g (read_only_flag refl nil))
act-StepOk (later f) s k g h = ground arith
act-StepOk _ s k g h = ground arith

argument-StepOk :
    (b : Bool) (a : Text) (s : Scan) {t : Step}
    → IsVetted s.cmd.pass_through_flags
    → argument b a s ≡ ok t
    → StepOk t
unfolding argument
argument-StepOk true a s g h = ground arith
argument-StepOk false a s {t} g h = act-StepOk (classify a) s {t = t} (classify-ActionOk a) g h

feed-StepOk : (t : Step) (a : Text) {u : Step} → StepOk t → feed t a ≡ ok u → StepOk u
unfolding feed
feed-StepOk (some f, s) a {u} (k, g) h = with_value-StepOk f a s {t = u} k g h
feed-StepOk (none, s) a {u} (k, g) h = argument-StepOk s.end_of_flags a s {t = u} g h

feeds-StepOk : (t : Step) (args : List Text) {u : Step} → StepOk t → feeds t args ≡ ok u → StepOk u
unfolding feeds
feeds-StepOk t [] k h = subst StepOk (ok_injective h) k
feeds-StepOk t (a ∷ args) k h =
    let (t', e, e') = >>=-eq-ok (feed t a) (λ u. feeds u args) h in
    feeds-StepOk t' args (feed-StepOk t a k e) e'

finish-IsVetted :
    (t : Step) {s : Scan} → StepOk t → finish t ≡ ok s → IsVetted s.cmd.pass_through_flags
unfolding finish
finish-IsVetted (none, s) (k, g) h = ground arith
finish-IsVetted (some f, s) (k, g) h = cc

-- Where the loop accepts the arguments, the pass-through flags that it collects are a sequence of
-- `--read-only`, of `--label` with a value and of flags of the vetted list with a value each.
pub scan-IsVetted :
    (name : Text) (args : List Text) {s : Scan}
    → scan name args ≡ ok s
    → IsVetted s.cmd.pass_through_flags
unfolding scan
scan-IsVetted name args h =
    let (t, e, e') = >>=-eq-ok (feeds (initial name) args) finish h in
    finish-IsVetted t (feeds-StepOk (initial name) args (tt, nil) e) e'
