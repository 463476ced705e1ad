-- ===== src/Cli/Allow/Shape.antt =====
-- The networks that a value of `--allow` can name.
use netcage.Base.{
  ◌≤◌, ◌==◌, >>=-eq-ok, ◌||◌, ◌+◌, none, not, ◌&&◌, negsuc, pos, ltb, refl, Option-cases, Option,
  true, ◌≢◌, ◌⊎◌, false, ok, inr, leb→le, inl, Bool-cases, leb, arith, ◌∙◌, List, if◌then◌else◌,
  map, [], some, ◌∷◌, ◌≡◌, ℕ, ◌-◌, ◌^◌, ◌<◌,
}
use netcage.Text.{eqb, Text, contains}
use mathlib.Core.Path.{ap, subst}
use netcage.Text.Laws.{cut_last-eq, count-append, count-zero, contains-append}
use netcage.Net.V6.Laws.{NoBracket, atoi-lacks}
use netcage.Net.Masks.{bit_and_255}
use netcage.Net.{
  parse_ip, parse_cidr, parse_addr, parse_addr, IpNet, to4, cidr_mask, zip_bytes, and_bytes,
  number_and_mask, as16,
}
use netcage.Net.V4.Laws.{FourBytes}
use netcage.Net.Literals.{
  Prefix4, parse_cidr-Prefix4, parse_cidr-lacks, parse_addr-FourBytes, parse_addr-lacks,
}
use netcage.Cli.Allow.{
  trim_space, is_empty, DirectAllow, dispatch, allow_parts, parse_allow_direct, count, atoi,
  parse_ip, parse_cidr, port_part, port_of, cut_last, host_route, eqb, last_bytes, last_addr,
  parse_host_to_network, split_allow_direct_port,
}

-- The byte with all but its lowest `k` bits set.
abbrev pub keep : ℕ → ℕ
keep k = 256 - 2 ^ k

-- The bytes of the first address.
abbrev pub first_of : List ℕ → List ℕ → List ℕ
first_of ks ns = and_bytes ns (map keep ks)

-- A network of four bytes under the mask of `ones` bits, in either form in which the code holds it:
-- the bytes with their mask, or sixteen bytes with a mask of four.
pub record Ipv4Net (n : IpNet) : Type 0 where
  pub k0 : ℕ
  pub k1 : ℕ
  pub k2 : ℕ
  pub k3 : ℕ
  pub n0 : ℕ
  pub n1 : ℕ
  pub n2 : ℕ
  pub n3 : ℕ
  pub k0_lt : k0 < 9
  pub k1_lt : k1 < 9
  pub k2_lt : k2 < 9
  pub k3_lt : k3 < 9
  pub n0_lt : n0 < 256
  pub n1_lt : n1 < 256
  pub n2_lt : n2 < 256
  pub n3_lt : n3 < 256
  pub is_first : to4 n.ip ≡ some (first_of (k0 ∷ k1 ∷ k2 ∷ k3 ∷ []) (n0 ∷ n1 ∷ n2 ∷ n3 ∷ []))
  pub is_numbered :
      number_and_mask n
      ≡ some (
        first_of (k0 ∷ k1 ∷ k2 ∷ k3 ∷ []) (n0 ∷ n1 ∷ n2 ∷ n3 ∷ []),
        map keep (k0 ∷ k1 ∷ k2 ∷ k3 ∷ []),
      )
  pub is_last :
      last_addr n
      ≡ some (
          last_bytes
            (first_of (k0 ∷ k1 ∷ k2 ∷ k3 ∷ []) (n0 ∷ n1 ∷ n2 ∷ n3 ∷ []))
            (map keep (k0 ∷ k1 ∷ k2 ∷ k3 ∷ [])))

upper-keep : (o : ℕ) → (if leb 8 o then 255 else keep (8 - o)) ≡ keep (8 - o)
upper-keep o = elim (Bool-cases (leb 8 o)) [
  | inl e ↦ let z : 8 - o ≡ 0 = omega (arith, leb→le 8 o e) in rw (e, z)
  | inr e ↦ rw e
]

-- The mask of `ones` bits, by the bits that each byte leaves free.
abbrev free_bits : ℕ → List ℕ
free_bits ones =
    (8 - ones) ∷ (8 - (ones - 8)) ∷ (8 - (ones - 8 - 8)) ∷ (8 - (ones - 8 - 8 - 8)) ∷ []

cidr_mask-keep : (ones : ℕ) → cidr_mask ones 4 ≡ map keep (free_bits ones)
unfolding cidr_mask
cidr_mask-keep ones = cc (
  upper-keep ones,
  upper-keep (ones - 8),
  upper-keep (ones - 8 - 8),
  upper-keep (ones - 8 - 8 - 8),
)

Prefix4-Ipv4Net : {n : IpNet} → Prefix4 n → Ipv4Net n
unfolding to4 number_and_mask last_addr zip_bytes
Prefix4-Ipv4Net {n} p =
    let f = p.four in
    let e : n ≡ record {
      ip = first_of (free_bits p.ones) (f.a ∷ f.b ∷ f.c ∷ f.d ∷ []);
      mask = map keep (free_bits p.ones);
    } =
      p.is_net ∙ rw (cidr_mask-keep, f.is_list) in
    record {
      k0 = 8 - p.ones;
      k1 = 8 - (p.ones - 8);
      k2 = 8 - (p.ones - 8 - 8);
      k3 = 8 - (p.ones - 8 - 8 - 8);
      n0 = f.a;
      n1 = f.b;
      n2 = f.c;
      n3 = f.d;
      k0_lt = omega arith;
      k1_lt = omega arith;
      k2_lt = omega arith;
      k3_lt = omega arith;
      n0_lt = f.a_lt;
      n1_lt = f.b_lt;
      n2_lt = f.c_lt;
      n3_lt = f.d_lt;
      is_first = rw e;
      is_numbered = rw e;
      is_last = rw e;
    }

host_route-Ipv4Net : {ip : List ℕ} → FourBytes ip → Ipv4Net (host_route (as16 ip))
unfolding to4 number_and_mask last_addr zip_bytes cidr_mask eqb
host_route-Ipv4Net {ip} f = rw f.is_list (record {
  k0 = 0;
  k1 = 0;
  k2 = 0;
  k3 = 0;
  n0 = f.a;
  n1 = f.b;
  n2 = f.c;
  n3 = f.d;
  k0_lt = omega arith;
  k1_lt = omega arith;
  k2_lt = omega arith;
  k3_lt = omega arith;
  n0_lt = f.a_lt;
  n1_lt = f.b_lt;
  n2_lt = f.c_lt;
  n3_lt = f.d_lt;
  is_first = cc (
    bit_and_255 f.a f.a_lt,
    bit_and_255 f.b f.b_lt,
    bit_and_255 f.c f.c_lt,
    bit_and_255 f.d f.d_lt,
  );
  is_numbered = cc (
    bit_and_255 f.a f.a_lt,
    bit_and_255 f.b f.b_lt,
    bit_and_255 f.c f.c_lt,
    bit_and_255 f.d f.d_lt,
  );
  is_last = cc (
    bit_and_255 f.a f.a_lt,
    bit_and_255 f.b f.b_lt,
    bit_and_255 f.c f.c_lt,
    bit_and_255 f.d f.d_lt,
  );
})

port_of-ok :
    (value a z host : Text) (port : ℕ)
    → port_of value a z ≡ ok (host, port)
    → (host ≡ a) × NoBracket z × (1 ≤ port) × (port ≤ 65535)
unfolding port_of
port_of-ok value a [] host port h = cc
port_of-ok value a (c ∷ z) host port h = elim (Option-cases (atoi (c ∷ z))) [
  | inl e ↦ ground arith
  | inr (pos n, e) ↦ ground (arith, atoi-lacks (c ∷ z))
  | inr (negsuc n, e) ↦ ground arith
]

port_part-host :
    (value : Text) (o : Option (Text × Text)) (host : Text) (port : ℕ)
    → cut_last b':' value ≡ o
    → port_part value o ≡ ok (host, port)
    → port ≢ 0
    → (contains b':' host ≡ false) ⊎ (contains b']' host ≡ true)
unfolding port_part
port_part-host value none host port e h ne = absurd (ne (ground arith))
port_part-host value (some (a, z)) host port e h ne =
    let (is_append, z_lacks) = cut_last-eq b':' value a z e in
    let colons : count b':' value ≡ count b':' a + count b':' (b':' ∷ z) =
      rw is_append (count-append b':' a (b':' ∷ z)) in
    let brackets : contains b']' value ≡ (contains b']' a || contains b']' (b':' ∷ z)) =
      rw is_append (contains-append b']' a (b':' ∷ z)) in
    elim (Bool-cases (ltb 1 (count b':' value) && not (contains b']' value))) [
      | inl k ↦ absurd (ne (ground arith))
      | inr k ↦
          ground (arith, port_of-ok value a z host port (rw (k, port_part) at h), count-zero b':' a)
    ]

-- A host that comes with a port has no colon, or a bracket that no literal has.
pub split_allow_direct_port-host :
    (value host : Text) (port : ℕ)
    → split_allow_direct_port value ≡ ok (host, port)
    → port ≢ 0
    → (contains b':' host ≡ false) ⊎ (contains b']' host ≡ true)
unfolding split_allow_direct_port
split_allow_direct_port-host value host port h ne =
    port_part-host value (cut_last b':' value) host port refl h ne

parse_host_to_network-cases :
    (host value : Text) {n : IpNet}
    → parse_host_to_network host value ≡ ok n
    → (parse_cidr host ≡ some n)
      ⊎ ((ip : List ℕ) × (parse_addr host ≡ some ip) × (host_route (as16 ip) ≡ n))
parse_host_to_network-cases host value h = elim (Bool-cases (contains b'/' host)) [
  | inl e ↦ elim (Option-cases (parse_cidr host)) [
    | inl k ↦ absurd (unfold parse_host_to_network in ground arith)
    | inr (m, k) ↦ inl (unfold parse_host_to_network in ground arith)
  ]
  | inr e ↦ elim (Option-cases (parse_addr host)) [
    | inl k ↦ absurd (unfold parse_host_to_network parse_ip in ground arith)
    | inr (ip, k) ↦ inr (ip, k, unfold parse_host_to_network parse_ip in ground arith)
  ]
]

pub parse_host_to_network-Ipv4Net :
    (host value : Text) {n : IpNet}
    → (contains b':' host ≡ false) ⊎ (contains b']' host ≡ true)
    → parse_host_to_network host value ≡ ok n
    → Ipv4Net n
parse_host_to_network-Ipv4Net host value (inl lacks) h =
    elim (parse_host_to_network-cases host value h) [
      | inl k ↦ Prefix4-Ipv4Net (parse_cidr-Prefix4 host lacks k)
      | inr (ip, k, e) ↦ subst Ipv4Net e (host_route-Ipv4Net (parse_addr-FourBytes host lacks k))
    ]
parse_host_to_network-Ipv4Net host value (inr has) h =
    elim (parse_host_to_network-cases host value h) [
      | inl k ↦ absurd (cc (parse_cidr-lacks host k))
      | inr (ip, k, e) ↦ absurd (cc (parse_addr-lacks host k))
    ]

port_part-bounds :
    (value : Text) (o : Option (Text × Text)) (host : Text) (port : ℕ)
    → port_part value o ≡ ok (host, port)
    → port ≢ 0
    → port ≤ 65535
unfolding port_part
port_part-bounds value none host port h ne = absurd (ne (ground arith))
port_part-bounds value (some (a, z)) host port h ne =
    elim (Bool-cases (ltb 1 (count b':' value) && not (contains b']' value))) [
      | inl k ↦ absurd (ne (ground arith))
      | inr k ↦ ground (arith, port_of-ok value a z host port (rw (k, port_part) at h))
    ]

split_allow_direct_port-le :
    (value host : Text) (port : ℕ)
    → split_allow_direct_port value ≡ ok (host, port)
    → port ≢ 0
    → port ≤ 65535
unfolding split_allow_direct_port
split_allow_direct_port-le value host port h ne = port_part-bounds value _ host port h ne

-- What an accepted value went through.
pub record Accepted (raw : Text) (a : DirectAllow) : Type 0 where
  pub port_ne_zero : a.port ≢ 0
  pub port_le : a.port ≤ 65535
  pub net : Ipv4Net a.network
  pub dispatched : dispatch raw a.network a.port ≡ ok a

dispatch-fields :
    (raw : Text) (n : IpNet) (port : ℕ) {a : DirectAllow}
    → dispatch raw n port ≡ ok a
    → (a.network ≡ n) × (a.port ≡ port)
unfolding dispatch
dispatch-fields raw n port h = ground arith

allow_parts-Accepted :
    (raw value host : Text) (port : ℕ) {a : DirectAllow}
    → split_allow_direct_port value ≡ ok (host, port)
    → allow_parts raw value (host, port) ≡ ok a
    → Accepted raw a
unfolding allow_parts
allow_parts-Accepted raw value host port {a} split h = elim (Bool-cases (port == 0)) [
  | inl z ↦ absurd (ground arith)
  | inr nz ↦
      let (n, parsed, k) =
        >>=-eq-ok (parse_host_to_network host value) (λ n. dispatch raw n port)
          (rw (nz, allow_parts) at h) in
      let (same_net, same_port) = dispatch-fields raw n port k in
      let ne : port ≢ 0 = ground arith in
      record {
        port_ne_zero = rw same_port ne;
        port_le = rw same_port (split_allow_direct_port-le value host port split ne);
        net = rw same_net (
            parse_host_to_network-Ipv4Net host value
              (split_allow_direct_port-host value host port split ne) parsed);
        dispatched = ap (λ m. dispatch raw m a.port) same_net ∙ ap (dispatch raw n) same_port ∙ k;
      }
]

pub parse_allow_direct-Accepted :
    (raw : Text) {a : DirectAllow} → parse_allow_direct raw ≡ ok a → Accepted raw a
unfolding parse_allow_direct
parse_allow_direct-Accepted raw h = elim (Bool-cases (is_empty (trim_space raw))) [
  | inl e ↦ absurd (ground arith)
  | inr e ↦
      let value = trim_space raw in
      let ((host, port), split, k) =
        >>=-eq-ok (split_allow_direct_port value) (allow_parts raw value)
          (rw (e, parse_allow_direct) at h) in
      allow_parts-Accepted raw value host port split k
]
