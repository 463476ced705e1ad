-- ===== src/Text/Numbers.antt =====
-- `strconv.Atoi`, the hexadecimal digits, and `strconv.Itoa`.
pub mod Decimal
use netcage.Base.{
  ℕ, zero, suc, ◌+◌, ◌-◌, ◌*◌, ◌/◌, ◌%◌, ◌^◌, ◌&&◌, Option, none, some, [], ◌∷◌, ℤ, pos, neg_ℕ, leb,
  ltb, ◌==◌, if◌then◌else◌,
}
use netcage.Text.{Text}

unfoldable pub digit : ℕ → Option ℕ
digit c = if leb b'0' c && leb c b'9' then some (c - b'0') else none

-- The value of a text of decimal digits, read behind the value `acc`.
unfoldable pub digits_onto : ℕ → Text → Option ℕ
unfolding digit
digits_onto acc [] = some acc
digits_onto acc (c ∷ s) = elim (digit c) [ none ↦ none | some d ↦ digits_onto (acc * 10 + d) s ]

abbrev positive : Option ℕ → Option ℤ
positive none = none
positive (some n) = if ltb n (2 ^ 63) then some (pos n) else none

abbrev negative : Option ℕ → Option ℤ
negative none = none
negative (some n) = if leb n (2 ^ 63) then some (neg_ℕ n) else none

-- What follows the sign: at least one digit.
unfoldable pub unsigned : Text → Option ℕ
unfolding digits_onto
unsigned [] = none
unsigned (c ∷ s) = digits_onto 0 (c ∷ s)

-- `strconv.Atoi`, where an `int` has 64 bits; `none` is an error.
unfoldable pub atoi : Text → Option ℤ
unfolding unsigned
atoi [] = none
atoi (c ∷ s) =
    if c == b'-'
    then negative (unsigned s)
    else if c == b'+'
    then positive (unsigned s)
    else positive (unsigned (c ∷ s))

-- The value of a hexadecimal digit, in either case.
unfoldable pub hex_digit : ℕ → Option ℕ
hex_digit c =
    if leb b'0' c && leb c b'9'
    then some (c - b'0')
    else if leb b'a' c && leb c b'f'
    then some (c - b'a' + 10)
    else if leb b'A' c && leb c b'F'
    then some (c - b'A' + 10)
    else none

-- The bytes of `n` in base ten in front of `s`, with more rounds than digits.
unfoldable pub decimal_onto : ℕ → ℕ → Text → Text
decimal_onto zero n s = s
decimal_onto (suc fuel) n s =
    let c = b'0' + n % 10 in
    let rest = decimal_onto fuel (n / 10) (c ∷ s) in if ltb n 10 then c ∷ s else rest

-- `strconv.Itoa` and the verb `%d`, of a number that is not negative.
unfoldable pub decimal : ℕ → Text
unfolding decimal_onto
decimal n = decimal_onto (suc n) n []
