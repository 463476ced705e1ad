-- ===== src/Net/V6/Laws.antt =====
-- An accepted literal of either family has no closing bracket.
use netcage.Base.{
  ◌&&◌, ◌==◌, Bool-cases, All, ◌%◌, ◌/◌, ◌≢◌, ◌++◌, ℕ, zero, suc, ◌+◌, ◌*◌, false, Option, none,
  some, List, [], ◌∷◌, ◌≡◌, refl, inl, inr, Option-cases, arith,
}
use netcage.Text.Laws.{split-contains}
use netcage.Text.{split, Text, contains}
use netcage.Text.Numbers.{digit, digits_onto, unsigned, atoi, hex_digit}
use netcage.Net.V4.{octet, octets, parse_ipv4}
use netcage.Net.V6.{
  hex_run, Groups, Next, fail, stop, again, groups, after_group, read_group, read_groups,
  close_groups, open_groups, parse_ipv6,
}

pub digits_onto-contains :
    (s : Text) (acc n : ℕ) → digits_onto acc s ≡ some n → contains b']' s ≡ false
unfolding digits_onto contains
digits_onto-contains [] acc n h = refl
digits_onto-contains (c ∷ s) acc n h = elim (Option-cases (digit c)) [
  | inl e ↦ ground arith
  | inr (d, e) ↦ ground (arith, digits_onto-contains s (acc * 10 + d) n)
]

pub unsigned-contains : (s : Text) (n : ℕ) → unsigned s ≡ some n → contains b']' s ≡ false
unfolding unsigned
unsigned-contains [] n h = cc
unsigned-contains (c ∷ s) n h = digits_onto-contains (c ∷ s) 0 n h

hex_run-contains :
    (s : Text) (acc n : ℕ) → contains b']' (hex_run acc n s).2 ≡ false → contains b']' s ≡ false
unfolding hex_run contains
hex_run-contains [] acc n h = refl
hex_run-contains (c ∷ s) acc n h = elim (Option-cases (hex_digit c)) [
  | inl e ↦ rw (e, hex_run) at h
  | inr (d, e) ↦ ground (arith, hex_run-contains s (acc * 16 + d) (suc n))
]

abbrev pub NoBracket : Text → Type 0
NoBracket s = contains b']' s ≡ false

octet-contains : (s : Text) (n : ℕ) → octet s ≡ some n → NoBracket s
unfolding octet
octet-contains [] n h = cc
octet-contains (c ∷ []) n h = elim (Option-cases (unsigned (c ∷ []))) [
  | inl e ↦ ground arith
  | inr (m, e) ↦ unsigned-contains (c ∷ []) m e
]
octet-contains (c ∷ d ∷ s) n h = elim (Option-cases (unsigned (c ∷ d ∷ s))) [
  | inl e ↦ ground arith
  | inr (m, e) ↦ unsigned-contains (c ∷ d ∷ s) m e
]

octet-lacks : (s : Text) → octet s ≢ none → NoBracket s
octet-lacks s h = elim (Option-cases (octet s)) [
  | inl e ↦ absurd (h e)
  | inr (n, e) ↦ octet-contains s n e
]

octets-lacks : (fs : List Text) {ip : List ℕ} → octets fs ≡ some ip → All NoBracket fs
octets-lacks [] h = unfold octets in cc
octets-lacks (s ∷ []) h = unfold octets in cc
octets-lacks (s ∷ t ∷ []) h = unfold octets in cc
octets-lacks (s ∷ t ∷ u ∷ []) h = unfold octets in cc
octets-lacks (s ∷ t ∷ u ∷ v ∷ []) h =
    unfold octets in ground (arith, octet-lacks s, octet-lacks t, octet-lacks u, octet-lacks v)
octets-lacks (s ∷ t ∷ u ∷ v ∷ w ∷ r) h = unfold octets in cc

pub parse_ipv4-lacks : (s : Text) {ip : List ℕ} → parse_ipv4 s ≡ some ip → NoBracket s
unfolding parse_ipv4
parse_ipv4-lacks s h = split-contains b']' b'.' s (omega arith) (octets-lacks (split b'.' s) h)

-- What a round of the loop leaves unread has the bracket, if the text at its start has it.
abbrev Unread : Next → Type 0
Unread fail = ⊥
Unread (stop g) = NoBracket g.rest
Unread (again g) = NoBracket g.rest

after_group-lacks :
    (out : List ℕ) (e : Option ℕ) (s : Text) → Unread (after_group out e s) → NoBracket s
unfolding contains
after_group-lacks out e [] h = refl
after_group-lacks out e (c ∷ []) h = absurd h
after_group-lacks out (some n) (c ∷ d ∷ s) h = ground arith
after_group-lacks out none (c ∷ d ∷ []) h = ground arith
after_group-lacks out none (c ∷ d ∷ x ∷ s) h = ground arith

parse_ipv4-lacks_of_ne : (s : Text) → parse_ipv4 s ≢ none → NoBracket s
parse_ipv4-lacks_of_ne s h = elim (Option-cases (parse_ipv4 s)) [
  | inl e ↦ absurd (h e)
  | inr (ip, e) ↦ parse_ipv4-lacks s e
]

read_group-lacks :
    (out : List ℕ) (e : Option ℕ) (s : Text) → Unread (read_group out e s) → NoBracket s
unfolding read_group
read_group-lacks out e s h =
    let run = hex_run 0 0 s in
    ground (
      arith,
      hex_run-contains s 0 0,
      parse_ipv4-lacks_of_ne s,
      after_group-lacks (out ++ (run.0 / 256 ∷ run.0 % 256 ∷ [])) e run.2,
    )

-- The rest of the loop behind a round.
abbrev after_round : ℕ → Next → Option Groups
after_round fuel x = elim x [ fail ↦ none | stop g' ↦ some g' | again g' ↦ read_groups fuel g' ]

after_round-Unread :
    (fuel : ℕ) (x : Next) {g' : Groups}
    → ((g : Groups) → read_groups fuel g ≡ some g' → NoBracket g.rest)
    → after_round fuel x ≡ some g'
    → g'.rest ≡ []
    → Unread x
unfolding contains
after_round-Unread fuel fail ih h r = cc
after_round-Unread fuel (stop g) ih h r = ground arith
after_round-Unread fuel (again g) ih h r = ih g h

read_groups-lacks :
    (fuel : ℕ) (g : Groups) {g' : Groups}
    → read_groups fuel g ≡ some g'
    → g'.rest ≡ []
    → NoBracket g.rest
unfolding read_groups contains
read_groups-lacks zero g h r = ground arith
read_groups-lacks (suc fuel) g h r = read_group-lacks g.bytes g.ellipsis g.rest (
    after_round-Unread fuel (read_group g.bytes g.ellipsis g.rest)
      (λ k e. read_groups-lacks fuel k e r) h r)

close_groups-lacks :
    (g : Groups) {ip : List ℕ} → close_groups (read_groups 8 g) ≡ some ip → NoBracket g.rest
close_groups-lacks g h = elim (Option-cases (read_groups 8 g)) [
  | inl e ↦ ground arith
  | inr (g', e) ↦ read_groups-lacks 8 g e (ground arith)
]

open_groups-lacks : (s : Text) {ip : List ℕ} → open_groups s ≡ some ip → NoBracket s
unfolding contains
open_groups-lacks [] h = refl
open_groups-lacks (c ∷ []) h = close_groups-lacks (groups [] none (c ∷ [])) h
open_groups-lacks (c ∷ d ∷ []) h = elim (Bool-cases (c == b':' && d == b':')) [
  | inl e ↦ ground arith
  | inr e ↦ close_groups-lacks (groups [] none (c ∷ d ∷ [])) (rw e at h)
]
open_groups-lacks (c ∷ d ∷ x ∷ s) h = elim (Bool-cases (c == b':' && d == b':')) [
  | inl e ↦ ground (arith, close_groups-lacks (groups [] (some 0) (x ∷ s)) (rw e at h))
  | inr e ↦ close_groups-lacks (groups [] none (c ∷ d ∷ x ∷ s)) (rw e at h)
]

pub parse_ipv6-lacks : (s : Text) {ip : List ℕ} → parse_ipv6 s ≡ some ip → NoBracket s
unfolding parse_ipv6
parse_ipv6-lacks s h = elim (Bool-cases (contains b'%' s)) [
  | inl e ↦ ground arith
  | inr e ↦ open_groups-lacks s (rw e at h)
]

unsigned-lacks : (s : Text) → unsigned s ≢ none → NoBracket s
unsigned-lacks s h = elim (Option-cases (unsigned s)) [
  | inl e ↦ absurd (h e)
  | inr (n, e) ↦ unsigned-contains s n e
]

pub atoi-lacks : (s : Text) → atoi s ≢ none → NoBracket s
unfolding atoi contains
atoi-lacks [] h = absurd (h refl)
atoi-lacks (c ∷ s) h = ground (arith, unsigned-lacks s, unsigned-lacks (c ∷ s))
