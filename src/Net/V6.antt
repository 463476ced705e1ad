-- ===== src/Net/V6.antt =====
-- IPv6 literals: the colon form of `netip.ParseAddr` with no zone, and its print.
pub mod Laws
use netcage.Base.{
  ℕ, zero, suc, ◌+◌, ◌-◌, ◌*◌, ◌/◌, ◌%◌, Bool, true, false, not, ◌&&◌, ◌||◌, Option, none, some,
  List, [], ◌∷◌, ◌++◌, length, take, drop, replicate, leb, ltb, ◌==◌, if◌then◌else◌,
}
use netcage.Text.{Text, contains}
use netcage.Text.Numbers.{hex_digit}
use netcage.Net.V4.{parse_ipv4}

-- The hexadecimal digits at the front: their value behind `acc`, their number behind `n`, the rest.
pub hex_run : ℕ → ℕ → Text → ℕ × ℕ × Text
unfolding hex_digit
hex_run acc n [] = (acc, n, [])
hex_run acc n (c ∷ s) = elim (hex_digit c) [
  | none ↦ (acc, n, c ∷ s)
  | some d ↦ hex_run (acc * 16 + d) (suc n) s
]

-- The groups read: the bytes, where the ellipsis stands among them, and what is left of the text.
pub record Groups : Type 0 where
  pub bytes : List ℕ
  pub ellipsis : Option ℕ
  pub rest : Text

-- After one group: an error, the end of the loop, or another round.
pub data Next : Type 0 where
  fail : Next
  stop : Groups → Next
  again : Groups → Next

abbrev pub is_some {ℓ} : {A : Type ℓ} → Option A → Bool
is_some none = false
is_some (some _) = true

abbrev pub groups : List ℕ → Option ℕ → Text → Groups
groups out e s = record { bytes = out; ellipsis = e; rest = s }

-- An IPv4 address at the end, in the place of two groups.
abbrev pub tail_ipv4 : List ℕ → Option ℕ → Option (List ℕ) → Next
tail_ipv4 out e none = fail
tail_ipv4 out e (some v4) = stop (groups (out ++ v4) e [])

-- Whether a dotted end has its right place and room.
abbrev pub has_room : List ℕ → Option ℕ → Bool
has_room out e = (is_some e || length out == 12) && leb (length out + 4) 16

-- The second colon of an ellipsis behind the bytes `out`, with the rest of the text.
abbrev pub at_ellipsis : List ℕ → Option ℕ → Text → Next
at_ellipsis out (some _) s = fail
at_ellipsis out none [] = stop (groups out (some (length out)) [])
at_ellipsis out none (c ∷ s) = again (groups out (some (length out)) (c ∷ s))

-- What stands behind a group that is not dotted, whose bytes end `out`.
abbrev pub after_group : List ℕ → Option ℕ → Text → Next
after_group out e [] = stop (groups out e [])
after_group out e (c ∷ []) = fail
after_group out e (c ∷ d ∷ s) =
    if not (c == b':')
    then fail
    else if d == b':'
    then at_ellipsis out e s
    else again (groups out e (d ∷ s))

abbrev pub is_dotted : Text → Bool
is_dotted [] = false
is_dotted (c ∷ _) = c == b'.'

-- One round of the loop at the text `s`.
pub read_group : List ℕ → Option ℕ → Text → Next
unfolding hex_run parse_ipv4
read_group out e s =
    let (value, n, rest) = hex_run 0 0 s in
    if n == 0 || ltb 4 n
    then fail
    else if is_dotted rest
    then (if has_room out e then tail_ipv4 out e (parse_ipv4 s) else fail)
    else after_group (out ++ (value / 256 ∷ value % 256 ∷ [])) e rest

-- The loop: eight groups fill the address.
pub read_groups : ℕ → Groups → Option Groups
unfolding read_group
read_groups zero g = some g
read_groups (suc fuel) g = elim (read_group g.bytes g.ellipsis g.rest) [
  | fail ↦ none
  | stop g' ↦ some g'
  | again g' ↦ read_groups fuel g'
]

-- Zeros in the place of the ellipsis.
abbrev pub expand : List ℕ → Option ℕ → Option (List ℕ)
expand out none = if length out == 16 then some out else none
expand out (some at) =
    if ltb (length out) 16
    then some (take at out ++ (replicate (16 - length out) 0 ++ drop at out))
    else none

abbrev pub close_groups : Option Groups → Option (List ℕ)
close_groups none = none
close_groups (some g) = elim (g.rest) [ [] ↦ expand g.bytes g.ellipsis | _ ∷ _ ↦ none ]

-- An ellipsis at the front is no part of the loop.
abbrev pub open_groups : Text → Option (List ℕ)
open_groups [] = close_groups (read_groups 8 (groups [] none []))
open_groups (c ∷ []) = close_groups (read_groups 8 (groups [] none (c ∷ [])))
open_groups (c ∷ d ∷ []) =
    if c == b':' && d == b':'
    then some (replicate 16 0)
    else close_groups (read_groups 8 (groups [] none (c ∷ d ∷ [])))
open_groups (c ∷ d ∷ e ∷ s) =
    if c == b':' && d == b':'
    then close_groups (read_groups 8 (groups [] (some 0) (e ∷ s)))
    else close_groups (read_groups 8 (groups [] none (c ∷ d ∷ e ∷ s)))

-- The sixteen bytes of a literal; a zone is refused, as `net.ParseIP` and `net.ParseCIDR` do.
unfoldable pub parse_ipv6 : Text → Option (List ℕ)
unfolding read_groups contains
parse_ipv6 s = if contains b'%' s then none else open_groups s
