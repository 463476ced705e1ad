-- ===== src/Text/Numbers/Decimal.antt =====
-- `strconv.Itoa` against the readers of digits: its rounds are enough for every number.
use netcage.Base.{
  lt→ltb, pos, false, ◌^◌, ℕ, zero, suc, ◌+◌, ◌*◌, ◌/◌, ◌%◌, ◌<◌, ◌≤◌, some, [], ◌∷◌, ◌≡◌, refl,
  ◌∙◌, ltb, inl, inr, Bool-cases, ltb→lt, ap, All, arith,
}
use netcage.Text.{Text, is_empty, contains}
use netcage.Text.Numbers.{atoi, digit, digits_onto, unsigned, decimal_onto, decimal}

digit-char : (d : ℕ) → d < 10 → digit (b'0' + d) ≡ some d
unfolding digit
digit-char d h = ground arith

digits_onto-char :
    (acc d : ℕ) (s : Text)
    → d < 10
    → digits_onto acc ((b'0' + d) ∷ s) ≡ digits_onto (acc * 10 + d) s
unfolding digits_onto
digits_onto-char acc d s h = rw (digits_onto, digit-char d h) refl

digits_onto-decimal_onto :
    (fuel n : ℕ) (s : Text) → n < fuel → digits_onto 0 (decimal_onto fuel n s) ≡ digits_onto n s
unfolding decimal_onto
digits_onto-decimal_onto zero n s h = absurd (omega (arith, h))
digits_onto-decimal_onto (suc fuel) n s h = elim (Bool-cases (ltb n 10)) [
  | inl e ↦
      let small = ltb→lt n 10 e in
      rw (e) (digits_onto-char 0 (n % 10) s (omega arith) ∙ ap (λ m. digits_onto m s) (omega arith))
  | inr e ↦ rw (e) (
      digits_onto-decimal_onto fuel (n / 10) ((b'0' + n % 10) ∷ s) (ground arith)
      ∙ (digits_onto-char (n / 10) (n % 10) s (omega arith)
          ∙ ap (λ m. digits_onto m s) (omega arith)))
]

-- A character of a decimal digit.
abbrev pub IsDigit : ℕ → Type 0
IsDigit c = (b'0' ≤ c) × (c ≤ b'9')

decimal_onto-digits : (fuel n : ℕ) (s : Text) → All IsDigit s → All IsDigit (decimal_onto fuel n s)
unfolding decimal_onto
decimal_onto-digits zero n s h = h
decimal_onto-digits (suc fuel) n s h =
    let here : IsDigit (b'0' + n % 10) = (omega arith, omega arith) in
    elim (Bool-cases (ltb n 10)) [
      | inl e ↦ rw (e) (here, h)
      | inr e ↦ rw (e) (decimal_onto-digits fuel (n / 10) ((b'0' + n % 10) ∷ s) (here, h))
    ]

decimal_onto-is_empty :
    (fuel n : ℕ) (s : Text) → is_empty s ≡ false → is_empty (decimal_onto fuel n s) ≡ false
unfolding decimal_onto
decimal_onto-is_empty zero n s h = h
decimal_onto-is_empty (suc fuel) n s h = elim (Bool-cases (ltb n 10)) [
  | inl e ↦ rw (e) refl
  | inr e ↦ rw (e) (decimal_onto-is_empty fuel (n / 10) ((b'0' + n % 10) ∷ s) refl)
]

digits_onto-decimal : (n : ℕ) → digits_onto 0 (decimal n) ≡ some n
unfolding decimal digits_onto
digits_onto-decimal n = digits_onto-decimal_onto (suc n) n [] (omega arith)

decimal-digits : (n : ℕ) → All IsDigit (decimal n)
unfolding decimal
decimal-digits n = decimal_onto-digits (suc n) n [] tt

decimal-is_empty : (n : ℕ) → is_empty (decimal n) ≡ false
unfolding decimal decimal_onto
decimal-is_empty n = elim (Bool-cases (ltb n 10)) [
  | inl e ↦ rw (e) refl
  | inr e ↦ rw (e) (decimal_onto-is_empty n (n / 10) ((b'0' + n % 10) ∷ []) refl)
]

atoi-digits :
    (t : Text) (n : ℕ)
    → is_empty t ≡ false
    → All IsDigit t
    → digits_onto 0 t ≡ some n
    → n < 2 ^ 63
    → atoi t ≡ some (pos n)
unfolding atoi unsigned
atoi-digits [] n h ds e lt = cc
atoi-digits (c ∷ t) n h (d, ds) e lt = ground (arith, e, lt→ltb n (2 ^ 63) lt)

-- A number that an `int` holds is read back from its decimal form.
pub atoi-decimal : (n : ℕ) → n < 2 ^ 63 → atoi (decimal n) ≡ some (pos n)
atoi-decimal n lt =
    atoi-digits (decimal n) n (decimal-is_empty n) (decimal-digits n) (digits_onto-decimal n) lt

digits-lack : (b : ℕ) (t : Text) → b'9' < b → All IsDigit t → contains b t ≡ false
unfolding contains
digits-lack b [] big h = refl
digits-lack b (c ∷ t) big (d, h) = ground (arith, digits-lack b t big h)

pub decimal-contains : (b n : ℕ) → b'9' < b → contains b (decimal n) ≡ false
decimal-contains b n big = digits-lack b (decimal n) big (decimal-digits n)
