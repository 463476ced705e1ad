-- ===== src/Net/Print.antt =====
-- `IP.String` and `IPNet.String`.
use netcage.Base.{
  drop, take, ◌&&◌, leb, length, map, suc, ◌*◌, ℕ, ◌+◌, ◌/◌, ◌%◌, ◌-◌, Bool, true, false, Option,
  none, some, List, [], ◌∷◌, ◌++◌, ltb, ◌==◌, if◌then◌else◌,
}
use netcage.Text.{Text, codes}
use netcage.Text.Numbers.{decimal}
use netcage.Net.{to4, join, IpNet, Ip, number_and_mask}
use netcage.Net.V4.{format_ipv4}

-- The bits set at the top of a byte, if no other bit is set.
unfoldable pub ones_of_byte : ℕ → Option ℕ
ones_of_byte m =
    if m == 255
    then some 8
    else if m == 254
    then some 7
    else if m == 252
    then some 6
    else if m == 248
    then some 5
    else if m == 240
    then some 4
    else if m == 224
    then some 3
    else if m == 192
    then some 2
    else if m == 128
    then some 1
    else if m == 0
    then some 0
    else none

all_zero : List ℕ → Bool
all_zero [] = true
all_zero (m ∷ ms) = if m == 0 then all_zero ms else false

-- `simpleMaskLength`.
unfoldable pub simple_mask_length : List ℕ → Option ℕ
unfolding ones_of_byte all_zero
simple_mask_length [] = some 0
simple_mask_length (m ∷ ms) =
    let rest = simple_mask_length ms in
    if m == 255
    then elim rest [ none ↦ none | some n ↦ some (8 + n) ]
    else if all_zero ms
    then ones_of_byte m
    else none

-- A hexadecimal digit in lower case.
hex_char : ℕ → ℕ
hex_char d = if ltb d 10 then b'0' + d else b'a' + (d - 10)

-- `IPMask.String`.
unfoldable pub mask_hex : List ℕ → Text
unfolding hex_char
mask_hex [] = []
mask_hex (m ∷ ms) = hex_char (m / 16) ∷ hex_char (m % 16) ∷ mask_hex ms

mask_text : List ℕ → Text
unfolding simple_mask_length mask_hex
mask_text m = elim (simple_mask_length m) [ some l ↦ decimal l | none ↦ mask_hex m ]

-- The sixteen-bit groups of an address of sixteen bytes.
pair_groups : List ℕ → List ℕ
pair_groups (a ∷ b ∷ bs) = (a * 256 + b) ∷ pair_groups bs
pair_groups _ = []

-- A group in hexadecimal digits, no zero in front.
group_hex : ℕ → Text
unfolding hex_char
group_hex n =
    if ltb n 16
    then hex_char n ∷ []
    else if ltb n 256
    then hex_char (n / 16) ∷ hex_char (n % 16) ∷ []
    else if ltb n 4096
    then hex_char (n / 256) ∷ hex_char (n / 16 % 16) ∷ hex_char (n % 16) ∷ []
    else hex_char (n / 4096)
      ∷ hex_char (n / 256 % 16)
      ∷ hex_char (n / 16 % 16)
      ∷ hex_char (n % 16)
      ∷ []

leading_zeros : List ℕ → ℕ
leading_zeros [] = 0
leading_zeros (g ∷ gs) = if g == 0 then suc (leading_zeros gs) else 0

-- The first of the longest runs of at least two zero groups, as its start and its length.
longest_zeros : ℕ → List ℕ → ℕ × ℕ → ℕ × ℕ
unfolding leading_zeros
longest_zeros i [] best = best
longest_zeros i (g ∷ gs) (start, len) =
    let here = leading_zeros (g ∷ gs) in
    longest_zeros (suc i) gs (if leb 2 here && ltb len here then (i, here) else (start, len))

-- `Addr.String` of the groups.
groups_text : List ℕ → Text
unfolding longest_zeros group_hex
groups_text gs =
    let (start, len) = longest_zeros 0 gs (0, 0) in
    if len == 0
    then join (b':' ∷ []) (map group_hex gs)
    else join (b':' ∷ []) (map group_hex (take start gs))
      ++ (b':' ∷ b':' ∷ join (b':' ∷ []) (map group_hex (drop (start + len) gs)))

-- `IP.String`.
unfoldable pub ip_string : Ip → Text
unfolding to4 pair_groups groups_text mask_hex
ip_string ip = elim (to4 ip) [
  | some v4 ↦ format_ipv4 v4
  | none ↦
      if length ip == 0
      then codes "<nil>"
      else if length ip == 16
      then groups_text (pair_groups ip)
      else b'?' ∷ mask_hex ip
]

network_text : Option (Ip × List ℕ) → Text
unfolding mask_text
network_text none = codes "<nil>"
network_text (some (ip, m)) = ip_string ip ++ (b'/' ∷ mask_text m)

-- `IPNet.String`.
unfoldable pub net_string : IpNet → Text
unfolding number_and_mask network_text
net_string n = network_text (number_and_mask n)
