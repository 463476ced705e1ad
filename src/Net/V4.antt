-- ===== src/Net/V4.antt =====
-- IPv4 literals: the dotted form of `netip.ParseAddr`, and its print.
pub mod Laws
use netcage.Base.{ℕ, Option, none, some, List, [], ◌∷◌, ◌++◌, leb, ◌==◌, if◌then◌else◌}
use netcage.Text.{Text, split}
use netcage.Text.Numbers.{unsigned, decimal}

abbrev byte_only : Option ℕ → Option ℕ
byte_only none = none
byte_only (some n) = if leb n 255 then some n else none

abbrev plain_octet : Text → Option ℕ
plain_octet s = byte_only (unsigned s)

-- One field: decimal digits, no zero in front, at most 255.
unfoldable pub octet : Text → Option ℕ
unfolding unsigned
octet [] = none
octet (c ∷ []) = plain_octet (c ∷ [])
octet (c ∷ d ∷ s) = if c == b'0' then none else plain_octet (c ∷ d ∷ s)

abbrev pub cons_octet : Option ℕ → Option (List ℕ) → Option (List ℕ)
cons_octet none r = none
cons_octet (some n) none = none
cons_octet (some n) (some ns) = some (n ∷ ns)

-- Exactly the four fields between the dots.
unfoldable pub octets : List Text → Option (List ℕ)
unfolding octet
octets (a ∷ b ∷ c ∷ d ∷ []) =
    cons_octet (octet a)
      (cons_octet (octet b) (cons_octet (octet c) (cons_octet (octet d) (some []))))
octets _ = none

-- The four bytes of a dotted literal.
unfoldable pub parse_ipv4 : Text → Option (List ℕ)
unfolding octets split
parse_ipv4 s = octets (split b'.' s)

-- `IP.String` of four bytes.
unfoldable pub format_ipv4 : List ℕ → Text
unfolding decimal
format_ipv4 [] = []
format_ipv4 (x ∷ []) = decimal x
format_ipv4 (x ∷ y ∷ ys) = decimal x ++ (b'.' ∷ format_ipv4 (y ∷ ys))
