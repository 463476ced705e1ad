-- ===== src/Text/Laws.antt =====
-- What the tests and cuts of texts mean.
use netcage.Base.{
  append_assoc, ap, ◌∙◌, append-nil, zero, suc, replicate, ◌==◌, List, Bool-cases, All, ◌||◌, ◌≢◌,
  ℕ, ◌+◌, true, false, none, some, [], ◌∷◌, ◌++◌, ◌≡◌, refl, ◌↔◌, inl, inr, Option-cases, arith,
}
use netcage.Text.{
  is_empty, close_field, fields_onto, fields, is_space, cons_head, Text, eqb, cut, cut_last, count,
  contains, split,
}

pub eqb_iff : (a b : Text) → (eqb a b ≡ true) ↔ (a ≡ b)
unfolding eqb
eqb_iff (x ∷ a) (y ∷ b) = ground (arith, eqb_iff a b)
eqb_iff _ _ = ground arith

pub eqb_refl : (a : Text) → eqb a a ≡ true
eqb_refl a = (eqb_iff a a).1 refl

-- A cut gives the text back around the byte, and the first part lacks it.
pub cut-eq :
    (b : ℕ) (s a z : Text) → cut b s ≡ some (a, z) → (s ≡ a ++ (b ∷ z)) × (contains b a ≡ false)
unfolding cut contains
cut-eq b [] a z h = cc
cut-eq b (c ∷ s) a z h = elim (Option-cases (cut b s)) [
  | inl e ↦ ground arith
  | inr ((a', z'), e) ↦ ground (arith, cut-eq b s a' z' e)
]

pub cut_last-eq-none : (b : ℕ) (s : Text) → cut_last b s ≡ none → contains b s ≡ false
unfolding cut_last contains
cut_last-eq-none b [] h = refl
cut_last-eq-none b (c ∷ s) h = elim (Option-cases (cut_last b s)) [
  | inl e ↦ ground (arith, cut_last-eq-none b s e)
  | inr ((a', z'), e) ↦ ground arith
]

pub cut_last-eq :
    (b : ℕ) (s a z : Text)
    → cut_last b s ≡ some (a, z)
    → (s ≡ a ++ (b ∷ z)) × (contains b z ≡ false)
unfolding cut_last contains
cut_last-eq b [] a z h = cc
cut_last-eq b (c ∷ s) a z h = elim (Option-cases (cut_last b s)) [
  | inl e ↦ ground (arith, cut_last-eq-none b s e)
  | inr ((a', z'), e) ↦ ground (arith, cut_last-eq b s a' z' e)
]

pub count-zero : (b : ℕ) (s : Text) → (count b s ≡ 0) ↔ (contains b s ≡ false)
unfolding count contains
count-zero b [] = ground arith
count-zero b (c ∷ s) = ground (arith, count-zero b s)

pub count-append : (b : ℕ) (s t : Text) → count b (s ++ t) ≡ count b s + count b t
unfolding count
count-append b [] t = omega arith
count-append b (c ∷ s) t = ground (arith, count-append b s t)

pub contains-append : (b : ℕ) (s t : Text) → contains b (s ++ t) ≡ (contains b s || contains b t)
unfolding contains
contains-append b [] t = refl
contains-append b (c ∷ s) t = ground (arith, contains-append b s t)

cons_head-lacks :
    (b c : ℕ) (fs : List Text)
    → All (λ f. contains b f ≡ false) (cons_head c fs)
    → ((c == b) ≡ false) × All (λ f. contains b f ≡ false) fs
unfolding contains
cons_head-lacks b c [] (h, _) = (ground arith, tt)
cons_head-lacks b c (f ∷ fs) (h, hs) = (ground arith, (ground arith, hs))

-- A text whose fields all lack `b` lacks it, if `b` is not the separator.
pub split-contains :
    (b sep : ℕ) (s : Text)
    → b ≢ sep
    → All (λ f. contains b f ≡ false) (split sep s)
    → contains b s ≡ false
unfolding split contains
split-contains b sep [] ne h = refl
split-contains b sep (c ∷ s) ne h = elim (Bool-cases (c == sep)) [
  | inl e ↦
      let fs : All (λ f. contains b f ≡ false) ([] ∷ split sep s) = rw (e, split) at h in
      ground (arith, split-contains b sep s ne fs.1)
  | inr e ↦
      let fs : All (λ f. contains b f ≡ false) (cons_head c (split sep s)) = rw (e, split) at h in
      let (first, others) = cons_head-lacks b c (split sep s) fs in
      ground (arith, first, split-contains b sep s ne others)
]

-- A text without the separator is one part, alone or in front of a separator.
pub split-lacks : (b : ℕ) (s : Text) → contains b s ≡ false → split b s ≡ s ∷ []
unfolding split contains
split-lacks b [] h = refl
split-lacks b (c ∷ s) h = ground (arith, split-lacks b s)

pub split-append :
    (b : ℕ) (s t : Text) → contains b s ≡ false → split b (s ++ (b ∷ t)) ≡ s ∷ split b t
unfolding split contains
split-append b [] t h = ground arith
split-append b (c ∷ s) t h = ground (arith, split-append b s t)

cut_last-none : (b : ℕ) (s : Text) → contains b s ≡ false → cut_last b s ≡ none
unfolding cut_last contains
cut_last-none b [] h = refl
cut_last-none b (c ∷ s) h = ground (arith, cut_last-none b s)

-- The last separator is the one behind which there is no other.
pub cut_last-append :
    (b : ℕ) (s t : Text) → contains b t ≡ false → cut_last b (s ++ (b ∷ t)) ≡ some (s, t)
unfolding cut_last
cut_last-append b [] t h = ground (arith, cut_last-none b t h)
cut_last-append b (c ∷ s) t h = ground (arith, cut_last-append b s t h)

pub is_empty-append : (s : Text) (b : ℕ) (t : Text) → is_empty (s ++ (b ∷ t)) ≡ false
is_empty-append [] b t = refl
is_empty-append (c ∷ s) b t = refl

-- No byte of the text is white space.
abbrev pub IsSolid : Text → Type 0
IsSolid = All (λ c. is_space c ≡ false)

fields_onto-solid :
    (f t s : Text) → IsSolid t → fields_onto f (t ++ (b' ' ∷ s)) ≡ close_field (f ++ t) (fields s)
unfolding fields_onto fields is_space
fields_onto-solid f [] s h = rw (append-nil f) refl
fields_onto-solid f (c ∷ t) s (h, hs) =
    rw (h, fields_onto)
      (fields_onto-solid (f ++ (c ∷ [])) t s hs
        ∙ ap (λ g. close_field g (fields s)) (append_assoc f (c ∷ []) t))

-- The field in front of the first space.
pub fields-cons :
    (t s : Text) → is_empty t ≡ false → IsSolid t → fields (t ++ (b' ' ∷ s)) ≡ t ∷ fields s
unfolding fields
fields-cons [] s h solid = absurd (ground (arith, h))
fields-cons (c ∷ t) s h solid = fields_onto-solid [] (c ∷ t) s solid

-- Spaces in front are passed over.
pub fields-indent : (n : ℕ) (s : Text) → fields (replicate n b' ' ++ s) ≡ fields s
unfolding fields
fields-indent zero s = refl
fields-indent (suc n) s = fields-indent n s
