-- ===== src/SetupDefault/Ends.antt =====
-- internal/setupdefault/setupdefault.go: the loops of the onboarding, which end by the input.
use netcage.Base.{
  ℕ, zero, suc, ◌≤◌, ◌<◌, Bool, true, false, Option, none, some, List, [], ◌∷◌, ◌++◌, ◌≡◌, ◌≢◌,
  refl, Result, ok, err, length, Result-cases, Option-cases, Bool-cases, List-cases, inl, inr,
  arith,
}
use netcage.Text.{Text, codes, trim_space}
use netcage.SetupDefault.Prompts.{
  invalid, printed, prompted, Session, SetupError, out_of_fuel, Dialog, and_then, next_line,
  read_line, act, ask, confirm,
}
use netcage.SetupDefault.Entry.{sorted_ints, normalize_proxy_input, confirmed_ports, warning_text}
use netcage.SetupDefault.{
  is_credentialed, existing_allow_direct, write_config, parse_proxy, Options, write_prompt,
  entry_hint, entry_of, ask_proxy, choose_proxy, say_detected, weigh, gather, warn_and_confirm,
  store, store_if, write_if, settle_choice, round, rounds, set_up,
}

-- A result with less than `n` bytes left to read, or an error that is not that of the fuel.
abbrev pub Ends : {A : Type 0} → ℕ → Session × Result SetupError A → Type 0
Ends n (s, ok a) = length s.input < n
Ends n (s, err e) = e ≢ out_of_fuel

module _ {A B : Type 0} where
  pub and_then-Ends :
      (m n : ℕ) (p : Session × Result SetupError A) (f : A → Dialog B)
      → m ≤ n
      → Ends m p
      → ((a : A) (s : Session) → length s.input < m → Ends n (f a s))
      → Ends n (and_then p f)
  unfolding and_then
  and_then-Ends m n (s, ok a) f le h k = k a s h
  and_then-Ends m n (s, err e) f le h k = h

weaker : {A : Type 0} (m n : ℕ) (p : Session × Result SetupError A) → m ≤ n → Ends m p → Ends n p
weaker m n (s, ok a) le h = omega arith
weaker m n (s, err e) le h = h

next_line-shorter : (c : ℕ) (s : Text) → length (next_line (c ∷ s)).1 < length (c ∷ s)
unfolding next_line
next_line-shorter c [] = ground arith
next_line-shorter c (d ∷ s) = ground (arith, next_line-shorter d s)

read_line-Ends : (s : Session) → Ends (length s.input) (read_line s)
unfolding read_line
read_line-Ends s = elim (List-cases s.input) [
  | inl e ↦ rw (e, read_line) (λ k. cc)
  | inr (c, cs, e) ↦ rw (e, read_line) (next_line-shorter c cs)
]

pub ask-Ends : (prompt : Text) (s : Session) → Ends (length s.input) (ask prompt s)
unfolding ask
ask-Ends prompt s =
    and_then-Ends (length s.input) (length s.input)
      (read_line (act (prompted (prompt ++ codes ": ")) s)) _ (omega arith) (read_line-Ends _)
      (λ line s' h. h)

confirm-Ends :
    (n : ℕ) (prompt : Text) (default : Bool) (s : Session)
    → length s.input < n
    → Ends n (confirm prompt default s)
unfolding confirm
confirm-Ends n prompt default s h =
    and_then-Ends (length s.input) n (read_line _) _ (omega arith) (read_line-Ends _)
      (λ line s' k. omega arith)

module _ (o : Options) where
  ask_proxy-Ends :
      (fuel : ℕ) (ports : List ℕ) (s : Session)
      → length s.input < fuel
      → Ends (length s.input) (ask_proxy o fuel ports s)
  unfolding ask_proxy
  ask_proxy-Ends zero ports s h = absurd (omega arith)
  ask_proxy-Ends (suc fuel) ports s h =
      and_then-Ends (length s.input) (length s.input) (ask (entry_hint o ports) s) _ (omega arith)
        (ask-Ends (entry_hint o ports) s)
        λ raw s' k. elim (Option-cases (entry_of o ports (trim_space raw))) [
          | inl e1 ↦ rw (e1) k
          | inr (entry, e1) ↦ elim (Result-cases (normalize_proxy_input o.os.parse_url entry)) [
            | inl (url, e2) ↦ rw (e1, e2) k
            | inr (x, e2) ↦
                rw (e1, e2)
                  (weaker (length s'.input) (length s.input)
                    (ask_proxy o fuel ports (act (invalid x) s')) (omega arith)
                    (ask_proxy-Ends fuel ports (act (invalid x) s') (omega arith)))
          ]
        ]

  say_detected-input : (ports : List ℕ) (s : Session) → (say_detected ports s).input ≡ s.input
  say_detected-input [] s = refl
  say_detected-input (p ∷ ps) s = say_detected-input ps _

  choose_proxy-Ends :
      (ports : List ℕ) (s : Session) → Ends (length s.input) (choose_proxy o ports s)
  unfolding choose_proxy
  choose_proxy-Ends ports s =
      let e = say_detected-input (sorted_ints ports) s in
      rw e at (
        ask_proxy-Ends (suc (length s.input)) (sorted_ints ports)
          (say_detected (sorted_ints ports) s) (rw e (omega arith)))

  weigh-Ends :
      (n : ℕ) (evidence : Option Text) (s : Session)
      → length s.input < n
      → Ends n (weigh o evidence s)
  unfolding weigh
  weigh-Ends n none s h = confirm-Ends n _ false _ h
  weigh-Ends n (some []) s h = confirm-Ends n _ false _ h
  weigh-Ends n (some (c ∷ ip)) s h = h

  gather-Ends : (n : ℕ) (url : Text) (s : Session) → length s.input < n → Ends n (gather o url s)
  unfolding gather
  gather-Ends n url s h = elim (Result-cases (parse_proxy o.os.parse_url url)) [
    | inl (proxy, e) ↦ rw (e, gather) (weigh-Ends n (o.exit_ip proxy s.history).1 _ h)
    | inr (x, e) ↦ rw (e, gather) h
  ]

  store_if-Ends :
      (n : ℕ) (url : Text) (answer : Bool) (s : Session)
      → length s.input < n
      → Ends n (store_if o url answer s)
  unfolding store_if store
  store_if-Ends n url false s h = h
  store_if-Ends n url true s h =
      elim (Result-cases
        (write_config o.os o.encode (o.disk s.log) url (existing_allow_direct o.existing))) [
          | inl (written, e) ↦ rw (e, store) h
          | inr (x, e) ↦ elim (Bool-cases (is_credentialed x)) [
            | inl e1 ↦ rw (e, store, e1) h
            | inr e1 ↦ rw (e, store, e1) (λ k. cc)
          ]
        ]

  write_if-Ends :
      (n : ℕ) (url : Text) (go_on : Bool) (s : Session)
      → length s.input < n
      → Ends n (write_if o url go_on s)
  unfolding write_if warn_and_confirm
  write_if-Ends n url false s h = h
  write_if-Ends n url true s h =
      and_then-Ends n n (warn_and_confirm o url s) (store_if o url) (omega arith)
        (confirm-Ends n (write_prompt o) false (act (printed (warning_text url ++ codes "\n")) s) h)
        (λ answer s' k. store_if-Ends n url answer s' k)

  settle_choice-Ends :
      (n : ℕ) (chosen : Option Text) (s : Session)
      → length s.input < n
      → Ends n (settle_choice o chosen s)
  unfolding settle_choice
  settle_choice-Ends n none s h = h
  settle_choice-Ends n (some url) s h =
      and_then-Ends n n (gather o url s) (write_if o url) (omega arith) (gather-Ends n url s h)
        (λ go_on s' k. write_if-Ends n url go_on s' k)

  round-Ends : (ports : List ℕ) (s : Session) → Ends (length s.input) (round o ports s)
  unfolding round
  round-Ends ports s =
      and_then-Ends (length s.input) (length s.input) (choose_proxy o ports s) (settle_choice o)
        (omega arith) (choose_proxy-Ends ports s)
        (λ chosen s' k. settle_choice-Ends (length s.input) chosen s' k)

  rounds-Ends :
      (fuel : ℕ) (ports : List ℕ) (s : Session)
      → length s.input < fuel
      → Ends (length s.input) (rounds o fuel ports s)
  unfolding rounds
  rounds-Ends zero ports s h = absurd (omega arith)
  rounds-Ends (suc fuel) ports s h =
      and_then-Ends (length s.input) (length s.input) (round o ports s) _ (omega arith)
        (round-Ends ports s)
        λ ended s' k. elim (Option-cases ended) [
          | inl e1 ↦ rw (e1) (
              weaker (length s'.input) (length s.input) (rounds o fuel ports s') (omega arith)
                (rounds-Ends fuel ports s' (omega arith)))
          | inr (outcome, e1) ↦ rw (e1) k
        ]

-- The onboarding ends, whatever is typed and whatever the detector, the verifier and the disk answer: it
-- has an outcome, and then less of the input is left than there was, or it ends with an error of the
-- input or of the writer. The fuel of its two loops, one more than the bytes of the input, is enough,
-- since each round of either loop reads.
pub set_up-Ends : (o : Options) (s : Session) → Ends (length s.input) (set_up o s)
unfolding set_up
set_up-Ends o s =
    rounds-Ends o (suc (length s.input)) (confirmed_ports o.candidates) _ (omega arith)
