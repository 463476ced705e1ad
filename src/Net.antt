-- ===== src/Net.antt =====
-- What the program uses of Go's package `net`: addresses as lists of bytes (4 or 16 of them), masks,
-- the parsers of literals and their printed forms.
pub mod Masks
pub mod Literals
pub mod V4
pub mod V6
pub mod Print
use netcage.Base.{
  ℕ, zero, suc, ◌+◌, ◌-◌, ◌*◌, ◌/◌, ◌%◌, ◌^◌, bit_and, bit_or, Bool, true, false, not, ◌&&◌, ◌||◌,
  Option, none, some, List, [], ◌∷◌, ◌++◌, map, length, take, drop, replicate, leb, ltb, ◌==◌,
  if◌then◌else◌,
}
use netcage.Text.{Text, codes, eqb, cut, contains, split, join}
use netcage.Text.Numbers.{unsigned, decimal}
use netcage.Net.V4.{parse_ipv4, format_ipv4}
use netcage.Net.V6.{parse_ipv6}

-- `net.IP` and `net.IPMask`.
abbrev pub Ip : Type 0
Ip = List ℕ

-- `net.IPNet`.
pub record IpNet : Type 0 where
  pub ip : Ip
  pub mask : List ℕ

-- The twelve bytes in front of an IPv4 address of sixteen bytes.
abbrev pub v4_in_v6_prefix : List ℕ
v4_in_v6_prefix = 0 ∷ 0 ∷ 0 ∷ 0 ∷ 0 ∷ 0 ∷ 0 ∷ 0 ∷ 0 ∷ 0 ∷ 255 ∷ 255 ∷ []

-- `IP.To4`.
unfoldable pub to4 : Ip → Option Ip
unfolding eqb
to4 ip =
    if length ip == 4
    then some ip
    else if length ip == 16 && eqb (take 12 ip) v4_in_v6_prefix
    then some (drop 12 ip)
    else none

-- The byte with its `n` upper bits set.
abbrev upper_bits : ℕ → ℕ
upper_bits n = 256 - 2 ^ (8 - n)

-- `net.CIDRMask` of `ones` bits, for a mask of that many bytes.
unfoldable pub cidr_mask : ℕ → ℕ → List ℕ
cidr_mask ones zero = []
cidr_mask ones (suc bytes) =
    (if leb 8 ones then 255 else upper_bits ones) ∷ cidr_mask (ones - 8) bytes

-- Byte by byte, up to the shorter of the two.
unfoldable pub zip_bytes : (ℕ → ℕ → ℕ) → List ℕ → List ℕ → List ℕ
zip_bytes f [] ys = []
zip_bytes f (x ∷ xs) [] = []
zip_bytes f (x ∷ xs) (y ∷ ys) = f x y ∷ zip_bytes f xs ys

-- `IP.Mask` and the loop over the bytes of an address and a mask.
abbrev pub and_bytes : List ℕ → List ℕ → List ℕ
and_bytes = zip_bytes bit_and

-- The kind of literal that the first of `.`, `:` and `%` announces, as `netip.ParseAddr` does.
pub data Family : Type 0 where
  v4 v6 bad : Family

family : Text → Family
family [] = bad
family (c ∷ s) = elim (c == b'.') [
  | true ↦ v4
  | false ↦ elim (c == b':') [
    | true ↦ v6
    | false ↦ elim (c == b'%') [ true ↦ bad | false ↦ family s ]
  ]
]

-- `netip.ParseAddr` with no zone: four bytes or sixteen.
unfoldable pub parse_addr : Text → Option Ip
unfolding family parse_ipv4 parse_ipv6
parse_addr s = elim (family s) [ v4 ↦ parse_ipv4 s | v6 ↦ parse_ipv6 s | bad ↦ none ]

-- `Addr.As16`.
abbrev pub as16 : Ip → Ip
as16 ip = if length ip == 4 then v4_in_v6_prefix ++ ip else ip

-- `net.ParseIP`: sixteen bytes, or nil.
unfoldable pub parse_ip : Text → Option Ip
unfolding parse_addr
parse_ip s = elim (parse_addr s) [ none ↦ none | some ip ↦ some (as16 ip) ]

-- The network of a literal address and the number of its mask bits.
abbrev pub masked : Ip → Option ℕ → Option IpNet
masked ip none = none
masked ip (some ones) =
    if leb ones (8 * length ip)
    then some (record {
      ip = and_bytes ip (cidr_mask ones (length ip));
      mask = cidr_mask ones (length ip);
    })
    else none

abbrev pub cidr_parts : Option (Text × Text) → Option IpNet
cidr_parts none = none
cidr_parts (some (addr, bits)) = elim (parse_addr addr) [
  | none ↦ none
  | some ip ↦ masked ip (unsigned bits)
]

-- `net.ParseCIDR`: the network of the second result.
unfoldable pub parse_cidr : Text → Option IpNet
unfolding parse_addr cidr_mask zip_bytes unsigned cut
parse_cidr s = cidr_parts (cut b'/' s)

-- `networkNumberAndMask`: the shorter form of both, or nil.
unfoldable pub number_and_mask : IpNet → Option (Ip × List ℕ)
unfolding to4
number_and_mask n = elim (to4 n.ip) [
  | some ip ↦
      if length n.mask == 4
      then some (ip, n.mask)
      else if length n.mask == 16
      then some (ip, drop 12 n.mask)
      else none
  | none ↦ if length n.ip == 16 && length n.mask == 16 then some (n.ip, n.mask) else none
]

-- The loop of `IPNet.Contains` over addresses of one length.
unfoldable pub same_under : List ℕ → List ℕ → List ℕ → Bool
same_under (x ∷ xs) (y ∷ ys) (m ∷ ms) = bit_and x m == bit_and y m && same_under xs ys ms
same_under _ _ _ = true

abbrev contains_short : Option (Ip × List ℕ) → Ip → Bool
contains_short none ip = false
contains_short (some (nn, m)) ip = length ip == length nn && same_under nn ip m

abbrev short : Ip → Option Ip → Ip
short ip none = ip
short ip (some ip4) = ip4

-- `IPNet.Contains`.
unfoldable pub contains_ip : IpNet → Ip → Bool
unfolding number_and_mask same_under to4
contains_ip n ip = contains_short (number_and_mask n) (short ip (to4 ip))
