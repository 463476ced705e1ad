-- ===== src/Net/Literals.antt =====
-- What the parsers of address and network literals accept.
use netcage.Base.{
  length, ◌||◌, ◌⊎◌, ℕ, true, false, Option, none, some, List, [], ◌∷◌, ◌≡◌, refl, inl, inr, arith,
}
use netcage.Text.{Text, contains, cut}
use netcage.Text.Laws.{cut-eq, contains-append}
use netcage.Text.Numbers.{unsigned}
use netcage.Net.{
  cidr_parts, masked, IpNet, Family, v4, v6, bad, family, parse_addr, parse_cidr, cidr_mask,
  and_bytes,
}
use netcage.Net.V4.{parse_ipv4}
use netcage.Net.V6.{parse_ipv6}
use netcage.Net.V4.Laws.{FourBytes, parse_ipv4-FourBytes}
use netcage.Net.V6.Laws.{NoBracket, parse_ipv4-lacks, parse_ipv6-lacks, unsigned-contains}

parse_addr-cases :
    (s : Text) {ip : List ℕ}
    → parse_addr s ≡ some ip
    → (parse_ipv4 s ≡ some ip) ⊎ ((family s ≡ v6) × (parse_ipv6 s ≡ some ip))
unfolding parse_addr
parse_addr-cases s {ip} h = by (family s) refl h
  where
    by :
        (f : Family)
        → family s ≡ f
        → elim f [ v4 ↦ parse_ipv4 s | v6 ↦ parse_ipv6 s | bad ↦ none ] ≡ some ip
        → (parse_ipv4 s ≡ some ip) ⊎ ((family s ≡ v6) × (parse_ipv6 s ≡ some ip))
    by v4 e k = inl k
    by v6 e k = inr (e, k)
    by bad e k = cc

pub parse_addr-lacks : (s : Text) {ip : List ℕ} → parse_addr s ≡ some ip → NoBracket s
parse_addr-lacks s h = elim (parse_addr-cases s h) [
  | inl k ↦ parse_ipv4-lacks s k
  | inr (_, k) ↦ parse_ipv6-lacks s k
]

family-v6 : (s : Text) → family s ≡ v6 → contains b':' s ≡ true
unfolding family contains
family-v6 [] h = cc
family-v6 (c ∷ s) h = ground (arith, family-v6 s)

pub parse_addr-FourBytes :
    (s : Text) {ip : List ℕ} → contains b':' s ≡ false → parse_addr s ≡ some ip → FourBytes ip
parse_addr-FourBytes s lacks h = elim (parse_addr-cases s h) [
  | inl k ↦ parse_ipv4-FourBytes s k
  | inr (e, _) ↦ absurd (ground (arith, family-v6 s e))
]

-- The network of a literal with a prefix: the two parts of the literal.
record CidrParts (s : Text) (n : IpNet) : Type 0 where
  addr : Text
  bits : Text
  ip : List ℕ
  ones : ℕ
  is_cut : cut b'/' s ≡ some (addr, bits)
  is_addr : parse_addr addr ≡ some ip
  is_bits : unsigned bits ≡ some ones
  is_masked : masked ip (some ones) ≡ some n

parse_cidr-CidrParts : (s : Text) {n : IpNet} → parse_cidr s ≡ some n → CidrParts s n
unfolding parse_cidr
parse_cidr-CidrParts s {n} h = by_cut (cut b'/' s) refl h
  where
    by_bits :
        (addr bits : Text) (ip : List ℕ) (o : Option ℕ)
        → cut b'/' s ≡ some (addr, bits)
        → parse_addr addr ≡ some ip
        → unsigned bits ≡ o
        → masked ip o ≡ some n
        → CidrParts s n
    by_bits addr bits ip none c a e k = cc
    by_bits addr bits ip (some ones) c a e k = record {
      addr = addr;
      bits = bits;
      ip = ip;
      ones = ones;
      is_cut = c;
      is_addr = a;
      is_bits = e;
      is_masked = k;
    }

    by_addr :
        (addr bits : Text) (o : Option (List ℕ))
        → cut b'/' s ≡ some (addr, bits)
        → parse_addr addr ≡ o
        → elim o [ none ↦ none | some ip ↦ masked ip (unsigned bits) ] ≡ some n
        → CidrParts s n
    by_addr addr bits none c e k = cc
    by_addr addr bits (some ip) c e k = by_bits addr bits ip (unsigned bits) c e refl k

    by_cut : (o : Option (Text × Text)) → cut b'/' s ≡ o → cidr_parts o ≡ some n → CidrParts s n
    by_cut none e k = cc
    by_cut (some (addr, bits)) e k = by_addr addr bits (parse_addr addr) e refl k

pub parse_cidr-lacks : (s : Text) {n : IpNet} → parse_cidr s ≡ some n → NoBracket s
unfolding contains
parse_cidr-lacks s h =
    let p = parse_cidr-CidrParts s h in
    let (is_append, _) = cut-eq b'/' s p.addr p.bits p.is_cut in
    rw is_append (
      rw contains-append (
        ground
          (arith, parse_addr-lacks p.addr p.is_addr, unsigned-contains p.bits p.ones p.is_bits)))

-- The parts of an accepted IPv4 network.
pub record Prefix4 (n : IpNet) : Type 0 where
  pub ip : List ℕ
  pub ones : ℕ
  pub four : FourBytes ip
  pub is_net : n ≡ record { ip = and_bytes ip (cidr_mask ones 4); mask = cidr_mask ones 4 }

masked-Prefix4 :
    (ip : List ℕ) (ones : ℕ) {n : IpNet} → FourBytes ip → masked ip (some ones) ≡ some n → Prefix4 n
masked-Prefix4 ip ones f h =
    let len : length ip ≡ 4 = rw (f.is_list) in
    record { ip = ip; ones = ones; four = f; is_net = ground (arith, rw len at h) }

pub parse_cidr-Prefix4 :
    (s : Text) {n : IpNet} → contains b':' s ≡ false → parse_cidr s ≡ some n → Prefix4 n
unfolding contains
parse_cidr-Prefix4 s lacks h =
    let p = parse_cidr-CidrParts s h in
    let (is_append, _) = cut-eq b'/' s p.addr p.bits p.is_cut in
    let both : (contains b':' p.addr || contains b':' (b'/' ∷ p.bits)) ≡ false =
      rw contains-append at (rw is_append at lacks) in
    masked-Prefix4 p.ip p.ones (parse_addr-FourBytes p.addr (ground arith) p.is_addr) p.is_masked
