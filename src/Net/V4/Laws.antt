-- ===== src/Net/V4/Laws.antt =====
-- An accepted dotted literal has four bytes.
use netcage.Base.{ℕ, ◌<◌, Option, none, some, List, [], ◌∷◌, ◌≡◌, refl, arith}
use netcage.Text.{Text, split}
use netcage.Net.V4.{cons_octet, octet, octets, parse_ipv4}

octet_bound : (s : Text) (n : ℕ) → octet s ≡ some n → n < 256
unfolding octet
octet_bound [] n h = cc
octet_bound (c ∷ []) n h = ground arith
octet_bound (c ∷ d ∷ s) n h = ground arith

-- The four bytes, in their order.
pub record FourBytes (ip : List ℕ) : Type 0 where
  pub a : ℕ
  pub b : ℕ
  pub c : ℕ
  pub d : ℕ
  pub a_lt : a < 256
  pub b_lt : b < 256
  pub c_lt : c < 256
  pub d_lt : d < 256
  pub is_list : ip ≡ a ∷ b ∷ c ∷ d ∷ []

cons_octets :
    (o p q r : Option ℕ) {ip : List ℕ}
    → ((n : ℕ) → o ≡ some n → n < 256)
    → ((n : ℕ) → p ≡ some n → n < 256)
    → ((n : ℕ) → q ≡ some n → n < 256)
    → ((n : ℕ) → r ≡ some n → n < 256)
    → cons_octet o (cons_octet p (cons_octet q (cons_octet r (some [])))) ≡ some ip
    → FourBytes ip
cons_octets (some a) (some b) (some c) (some d) ha hb hc hd h = record {
  a = a;
  b = b;
  c = c;
  d = d;
  a_lt = ha a refl;
  b_lt = hb b refl;
  c_lt = hc c refl;
  d_lt = hd d refl;
  is_list = ground arith;
}
cons_octets none p q r ha hb hc hd h = cc
cons_octets (some a) none q r ha hb hc hd h = cc
cons_octets (some a) (some b) none r ha hb hc hd h = cc
cons_octets (some a) (some b) (some c) none ha hb hc hd h = cc

octets-FourBytes : (fs : List Text) {ip : List ℕ} → octets fs ≡ some ip → FourBytes ip
octets-FourBytes [] h = unfold octets in cc
octets-FourBytes (s ∷ []) h = unfold octets in cc
octets-FourBytes (s ∷ t ∷ []) h = unfold octets in cc
octets-FourBytes (s ∷ t ∷ u ∷ []) h = unfold octets in cc
octets-FourBytes (s ∷ t ∷ u ∷ v ∷ []) h =
    cons_octets (octet s) (octet t) (octet u) (octet v) (octet_bound s) (octet_bound t)
      (octet_bound u) (octet_bound v) (unfold octets in h)
octets-FourBytes (s ∷ t ∷ u ∷ v ∷ w ∷ r) h = unfold octets in cc

pub parse_ipv4-FourBytes : (s : Text) {ip : List ℕ} → parse_ipv4 s ≡ some ip → FourBytes ip
unfolding parse_ipv4
parse_ipv4-FourBytes s h = octets-FourBytes (split b'.' s) h
