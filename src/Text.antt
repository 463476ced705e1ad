-- ===== src/Text.antt =====
-- Go strings as lists of bytes, and what the program uses of the packages `strings` and `strconv`.
-- White space is the ASCII white space: the texts of the program are ASCII.
pub mod Laws
pub mod Numbers
use Prim.Native.Char.{code}
use netcage.Base.{
  ℕ, zero, suc, ◌+◌, String, Bool, true, false, not, ◌&&◌, ◌||◌, Option, none, some, List, [], ◌∷◌,
  ◌++◌, leb, ◌==◌, if◌then◌else◌,
}

abbrev pub Text : Type 0
Text = List ℕ

-- A literal; every literal of the program is ASCII.
unfoldable pub codes : String → Text
codes String.[] = []
codes (String.◌∷◌ c s) = code c ∷ codes s

-- `==` on strings.
unfoldable pub eqb : Text → Text → Bool
eqb [] [] = true
eqb (x ∷ xs) (y ∷ ys) = x == y && eqb xs ys
eqb _ _ = false

-- `s == ""`.
abbrev pub is_empty : Text → Bool
is_empty [] = true
is_empty (_ ∷ _) = false

-- A list of strings has `s` as a member: a Go map with string keys has the key `s`.
unfoldable pub member : Text → List Text → Bool
unfolding eqb
member s [] = false
member s (t ∷ ts) = eqb t s || member s ts

-- `strings.CutPrefix(s, p)`, the prefix first: what follows it, if `s` begins with it.
unfoldable pub cut_prefix : Text → Text → Option Text
cut_prefix [] s = some s
cut_prefix (x ∷ p) [] = none
cut_prefix (x ∷ p) (y ∷ s) = elim (x == y) [ true ↦ cut_prefix p s | false ↦ none ]

-- `strings.HasPrefix(s, p)`, the prefix first.
unfoldable pub has_prefix : Text → Text → Bool
has_prefix [] s = true
has_prefix (x ∷ p) [] = false
has_prefix (x ∷ p) (y ∷ s) = x == y && has_prefix p s

-- `strings.Count` of a one-byte text.
unfoldable pub count : ℕ → Text → ℕ
count b [] = 0
count b (c ∷ s) = (if c == b then 1 else 0) + count b s

-- `strings.Contains` of a one-byte text.
unfoldable pub contains : ℕ → Text → Bool
contains b [] = false
contains b (c ∷ s) = c == b || contains b s

abbrev cons_first : ℕ → Option (Text × Text) → Option (Text × Text)
cons_first c none = none
cons_first c (some (a, z)) = some (c ∷ a, z)

-- `i := strings.IndexByte(s, b)`, with `s[:i]` and `s[i+1:]`; `none` is a negative index.
unfoldable pub cut : ℕ → Text → Option (Text × Text)
cut b [] = none
cut b (c ∷ s) = elim (c == b) [ true ↦ some ([], s) | false ↦ cons_first c (cut b s) ]

abbrev or_here : ℕ → ℕ → Text → Option (Text × Text) → Option (Text × Text)
or_here b c s none = if c == b then some ([], s) else none
or_here b c s (some (a, z)) = some (c ∷ a, z)

-- `i := strings.LastIndexByte(s, b)`, with `s[:i]` and `s[i+1:]`.
unfoldable pub cut_last : ℕ → Text → Option (Text × Text)
cut_last b [] = none
cut_last b (c ∷ s) = or_here b c s (cut_last b s)

abbrev pub cons_head : ℕ → List Text → List Text
cons_head c [] = (c ∷ []) ∷ []
cons_head c (t ∷ ts) = (c ∷ t) ∷ ts

-- `strings.Split(s, sep)` at a one-byte separator: never the empty list.
unfoldable pub split : ℕ → Text → List Text
split b [] = [] ∷ []
split b (c ∷ s) = let rest = split b s in if c == b then [] ∷ rest else cons_head c rest

-- `strings.Join`.
unfoldable pub join : Text → List Text → Text
join sep [] = []
join sep (t ∷ []) = t
join sep (t ∷ u ∷ ts) = t ++ (sep ++ join sep (u ∷ ts))

unfoldable pub is_space : ℕ → Bool
is_space c = c == 32 || (leb 9 c && leb c 13)

unfoldable pub trim_left : Text → Text
unfolding is_space
trim_left [] = []
trim_left (c ∷ s) = elim (is_space c) [ true ↦ trim_left s | false ↦ c ∷ s ]

abbrev pub keep_unless_blank : ℕ → Text → Text
keep_unless_blank c [] = if is_space c then [] else c ∷ []
keep_unless_blank c (d ∷ s) = c ∷ d ∷ s

unfoldable pub trim_right : Text → Text
unfolding is_space
trim_right [] = []
trim_right (c ∷ s) = keep_unless_blank c (trim_right s)

-- `strings.TrimSpace`.
unfoldable pub trim_space : Text → Text
unfolding trim_left trim_right
trim_space s = trim_right (trim_left s)

abbrev pub close_field : Text → List Text → List Text
close_field [] fs = fs
close_field (c ∷ cs) fs = (c ∷ cs) ∷ fs

-- The fields of `s` behind the open field `f`.
unfoldable pub fields_onto : Text → Text → List Text
unfolding is_space
fields_onto f [] = close_field f []
fields_onto f (c ∷ s) = elim (is_space c) [
  | true ↦ close_field f (fields_onto [] s)
  | false ↦ fields_onto (f ++ (c ∷ [])) s
]

-- `strings.Fields`.
unfoldable pub fields : Text → List Text
unfolding fields_onto
fields = fields_onto []
