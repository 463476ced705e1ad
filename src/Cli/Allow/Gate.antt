-- ===== src/Cli/Allow/Gate.antt =====
-- The security gate of `--allow`: which destinations an accepted value opens.
use netcage.Base.{
  ◌≢◌, ◌||◌, false, arith, ok, ◌-◌, bit_or, bit_and, true, ◌∙◌, ◌<◌, Bool, ◌≤◌, [], ◌⊎◌, ◌&&◌, some,
  ◌∷◌, ℕ, ◌≡◌, List, refl,
}
use netcage.Text.{Text}
use netcage.Net.{Ip, IpNet, contains_ip, number_and_mask, to4, same_under, zip_bytes}
use netcage.Net.Masks.{bit_and_255, and_mask, between}
use netcage.Cli.Allow.{
  DirectAllow, has_key, host_loopback_blocked_ports, clear_dns_ports, range_contains_network,
  within_some, host_loopback_range, private_ranges, network_within_host_loopback,
  network_within_private_ranges, dispatch, parse_allow_direct, last_addr,
}
use netcage.Cli.Allow.Shape.{Ipv4Net, keep, parse_allow_direct-Accepted}

-- An IPv4 address of RFC1918 or a link-local one.
abbrev pub IsLan : Ip → Type 0
IsLan (a ∷ b ∷ c ∷ d ∷ []) =
    (a ≡ 10) ⊎ ((a ≡ 172) × (16 ≤ b) × (b ≤ 31)) ⊎ ((a ≡ 192) × (b ≡ 168)) ⊎ ((a ≡ 169) × (b ≡ 254))
IsLan _ = ⊥

-- The built-in range of a network literal: its first address and its mask.
abbrev range : Ip → List ℕ → IpNet
range ip mask = record { ip = ip; mask = mask }

private_ranges-eq :
    private_ranges
    ≡ range (10 ∷ 0 ∷ 0 ∷ 0 ∷ []) (255 ∷ 0 ∷ 0 ∷ 0 ∷ [])
      ∷ range (172 ∷ 16 ∷ 0 ∷ 0 ∷ []) (255 ∷ 240 ∷ 0 ∷ 0 ∷ [])
      ∷ range (192 ∷ 168 ∷ 0 ∷ 0 ∷ []) (255 ∷ 255 ∷ 0 ∷ 0 ∷ [])
      ∷ range (169 ∷ 254 ∷ 0 ∷ 0 ∷ []) (255 ∷ 255 ∷ 0 ∷ 0 ∷ [])
      ∷ []
unfolding private_ranges
private_ranges-eq = refl

host_loopback_range-eq :
    host_loopback_range ≡ range (127 ∷ 0 ∷ 0 ∷ 0 ∷ []) (255 ∷ 0 ∷ 0 ∷ 0 ∷ []) ∷ []
unfolding host_loopback_range
host_loopback_range-eq = refl

abbrev four : ℕ → ℕ → ℕ → ℕ → Ip
four a b c d = a ∷ b ∷ c ∷ d ∷ []

contains_ip-to4 :
    (r : IpNet) (ip f : Ip) → to4 ip ≡ some f → to4 f ≡ some f → contains_ip r ip ≡ contains_ip r f
unfolding contains_ip
contains_ip-to4 r ip f h k = cc

-- A network of four bytes lies in a range if its first and its last address do.
range_contains_network-four :
    (r n : IpNet) (f l : Ip)
    → to4 n.ip ≡ some f
    → to4 f ≡ some f
    → last_addr n ≡ some l
    → range_contains_network r n ≡ (contains_ip r f && contains_ip r l)
unfolding range_contains_network
range_contains_network-four r n f l first f4 last = rw (last, contains_ip-to4 r n.ip f first f4)

-- The test of an address against a mask of four bytes.
abbrev agrees : (r m x : Ip) → Bool
agrees r m x = same_under r x m

contains_ip-range :
    (a b c d p q r s w x y z : ℕ)
    → contains_ip (range (four a b c d) (four p q r s)) (four w x y z)
      ≡ agrees (four a b c d) (four p q r s) (four w x y z)
unfolding contains_ip number_and_mask to4
contains_ip-range a b c d p q r s w x y z = refl

-- An address between the first and the last address of a network, byte by byte.
record Span (n : IpNet) (x0 x1 x2 x3 : ℕ) : Type 0 where
  l0 : ℕ
  l1 : ℕ
  l2 : ℕ
  l3 : ℕ
  h0 : ℕ
  h1 : ℕ
  h2 : ℕ
  h3 : ℕ
  is_first : to4 n.ip ≡ some (four l0 l1 l2 l3)
  is_last : last_addr n ≡ some (four h0 h1 h2 h3)
  in0 : (l0 ≤ x0) × (x0 ≤ h0) × (h0 < 256)
  in1 : (l1 ≤ x1) × (x1 ≤ h1) × (h1 < 256)

same_under-four :
    (n : IpNet) (f0 f1 f2 f3 m0 m1 m2 m3 x0 x1 x2 x3 : ℕ)
    → number_and_mask n ≡ some (four f0 f1 f2 f3, four m0 m1 m2 m3)
    → contains_ip n (four x0 x1 x2 x3) ≡ true
    → (bit_and f0 m0 ≡ bit_and x0 m0) × (bit_and f1 m1 ≡ bit_and x1 m1)
unfolding contains_ip
same_under-four n f0 f1 f2 f3 m0 m1 m2 m3 x0 x1 x2 x3 e h = ground arith

contains_ip-Span :
    (n : IpNet) (x0 x1 x2 x3 : ℕ)
    → Ipv4Net n
    → x0 < 256
    → x1 < 256
    → contains_ip n (four x0 x1 x2 x3) ≡ true
    → Span n x0 x1 x2 x3
unfolding zip_bytes
contains_ip-Span n x0 x1 x2 x3 s b0 b1 h =
    let lo = λ (k m : ℕ). bit_and m (keep k) in
    let hi = λ (k m : ℕ). bit_or (bit_and m (keep k)) (255 - keep k) in
    let (e0, e1) = same_under-four n _ _ _ _ _ _ _ _ x0 x1 x2 x3 s.is_numbered h in
    record {
      l0 = lo s.k0 s.n0;
      l1 = lo s.k1 s.n1;
      l2 = lo s.k2 s.n2;
      l3 = lo s.k3 s.n3;
      h0 = hi s.k0 s.n0;
      h1 = hi s.k1 s.n1;
      h2 = hi s.k2 s.n2;
      h3 = hi s.k3 s.n3;
      is_first = s.is_first;
      is_last = s.is_last;
      in0 = between s.k0 s.n0 x0 s.k0_lt s.n0_lt b0 e0;
      in1 = between s.k1 s.n1 x1 s.k1_lt s.n1_lt b1 e1;
    }

range_contains_network-Span :
    (a b c d p q r s : ℕ) {n : IpNet} {x0 x1 x2 x3 : ℕ} (t : Span n x0 x1 x2 x3)
    → range_contains_network (range (four a b c d) (four p q r s)) n ≡ (
        agrees (four a b c d) (four p q r s) (four t.l0 t.l1 t.l2 t.l3)
        && agrees (four a b c d) (four p q r s) (four t.h0 t.h1 t.h2 t.h3))
range_contains_network-Span a b c d p q r s {n} t =
    range_contains_network-four _ n _ _ t.is_first (unfold to4 in refl) t.is_last
    ∙ rw contains_ip-range (rw contains_ip-range)

network_within_private_ranges-eq :
    (n : IpNet)
    → network_within_private_ranges n ≡ (
        range_contains_network (range (four 10 0 0 0) (four 255 0 0 0)) n
        || (range_contains_network (range (four 172 16 0 0) (four 255 240 0 0)) n
            || (range_contains_network (range (four 192 168 0 0) (four 255 255 0 0)) n
                || (range_contains_network (range (four 169 254 0 0) (four 255 255 0 0)) n
                    || false))))
unfolding network_within_private_ranges within_some
network_within_private_ranges-eq n = rw private_ranges-eq

network_within_host_loopback-eq :
    (n : IpNet)
    → network_within_host_loopback n
      ≡ (range_contains_network (range (four 127 0 0 0) (four 255 0 0 0)) n || false)
unfolding network_within_host_loopback within_some
network_within_host_loopback-eq n = rw host_loopback_range-eq

-- The guardrails of the two classes.
dispatch-lan :
    (raw : Text) (n : IpNet) (port : ℕ) {a : DirectAllow}
    → dispatch raw n port ≡ ok a
    → a.host_loopback ≡ false
    → (has_key port clear_dns_ports ≡ false) × (network_within_private_ranges n ≡ true)
unfolding dispatch
dispatch-lan raw n port h lan = ground arith

dispatch-loopback :
    (raw : Text) (n : IpNet) (port : ℕ) {a : DirectAllow}
    → dispatch raw n port ≡ ok a
    → a.host_loopback ≡ true
    → (has_key port host_loopback_blocked_ports ≡ false) × (network_within_host_loopback n ≡ true)
unfolding dispatch
dispatch-loopback raw n port h own = ground arith

module _ {n : IpNet} {x0 x1 x2 x3 : ℕ} (t : Span n x0 x1 x2 x3) where
  -- A range of eight fixed bits fixes the first byte.
  in_slash8 :
      (a : ℕ)
      → a < 256
      → range_contains_network (range (four a 0 0 0) (four 255 0 0 0)) n ≡ true
      → x0 ≡ a
  unfolding same_under
  in_slash8 a b h =
      let both = range_contains_network-Span a 0 0 0 255 0 0 0 t in
      ground (arith, both, bit_and_255 a, bit_and_255 t.l0, bit_and_255 t.h0)

  -- A range of sixteen fixed bits fixes the first two.
  in_slash16 :
      (a b : ℕ)
      → a < 256
      → b < 256
      → range_contains_network (range (four a b 0 0) (four 255 255 0 0)) n ≡ true
      → (x0 ≡ a) × (x1 ≡ b)
  unfolding same_under
  in_slash16 a b ba bb h =
      let both = range_contains_network-Span a b 0 0 255 255 0 0 t in
      ground (
        arith,
        both,
        bit_and_255 a,
        bit_and_255 t.l0,
        bit_and_255 t.h0,
        bit_and_255 b,
        bit_and_255 t.l1,
        bit_and_255 t.h1,
      )

  in_172 :
      range_contains_network (range (four 172 16 0 0) (four 255 240 0 0)) n ≡ true
      → (x0 ≡ 172) × (16 ≤ x1) × (x1 ≤ 31)
  unfolding same_under
  in_172 h =
      let both = range_contains_network-Span 172 16 0 0 255 240 0 0 t in
      ground (arith, both, bit_and_255 t.l0, bit_and_255 t.h0, and_mask 4 t.l1, and_mask 4 t.h1)

  within-IsLan : network_within_private_ranges n ≡ true → IsLan (four x0 x1 x2 x3)
  within-IsLan h = ground (
    arith,
    network_within_private_ranges-eq n,
    in_slash8 10,
    in_172,
    in_slash16 192 168,
    in_slash16 169 254,
  )

  within-loopback : network_within_host_loopback n ≡ true → x0 ≡ 127
  within-loopback h = ground (arith, network_within_host_loopback-eq n, in_slash8 127)

-- An accepted value of the LAN class opens private and link-local addresses only: every IPv4
-- address of its network, first bytes below 256, is one.
pub parse_allow_direct-IsLan :
    (raw : Text) {a : DirectAllow} (x0 x1 x2 x3 : ℕ)
    → parse_allow_direct raw ≡ ok a
    → a.host_loopback ≡ false
    → x0 < 256
    → x1 < 256
    → contains_ip a.network (x0 ∷ x1 ∷ x2 ∷ x3 ∷ []) ≡ true
    → IsLan (x0 ∷ x1 ∷ x2 ∷ x3 ∷ [])
parse_allow_direct-IsLan raw {a} x0 x1 x2 x3 h lan b0 b1 inside =
    let accepted = parse_allow_direct-Accepted raw h in
    let t = contains_ip-Span a.network x0 x1 x2 x3 accepted.net b0 b1 inside in
    let (_, private) = dispatch-lan raw a.network a.port accepted.dispatched lan in
    within-IsLan t private

-- An accepted value of the host-loopback class names addresses of 127.0.0.0/8 only: every IPv4
-- address of its network, first bytes below 256, begins with 127.
pub parse_allow_direct-loopback :
    (raw : Text) {a : DirectAllow} (x0 x1 x2 x3 : ℕ)
    → parse_allow_direct raw ≡ ok a
    → a.host_loopback ≡ true
    → x0 < 256
    → x1 < 256
    → contains_ip a.network (x0 ∷ x1 ∷ x2 ∷ x3 ∷ []) ≡ true
    → x0 ≡ 127
parse_allow_direct-loopback raw {a} x0 x1 x2 x3 h own b0 b1 inside =
    let accepted = parse_allow_direct-Accepted raw h in
    let t = contains_ip-Span a.network x0 x1 x2 x3 accepted.net b0 b1 inside in
    let (_, loopback) = dispatch-loopback raw a.network a.port accepted.dispatched own in
    within-loopback t loopback

-- An accepted value names exactly one TCP port, between 1 and 65535. It is never 53. It is no
-- port of clear DNS on the LAN, and no port of the anonymizer on the host's loopback.
pub parse_allow_direct-port :
    (raw : Text) {a : DirectAllow}
    → parse_allow_direct raw ≡ ok a
    → (1 ≤ a.port)
      × (a.port ≤ 65535)
      × (a.port ≢ 53)
      × (((a.host_loopback ≡ false) × (a.port ≢ 853) × (a.port ≢ 5353))
          ⊎ ((a.host_loopback ≡ true)
              × (a.port ≢ 9050)
              × (a.port ≢ 9150)
              × (a.port ≢ 9051)
              × (a.port ≢ 1080)))
parse_allow_direct-port raw {a} h =
    let accepted = parse_allow_direct-Accepted raw h in
    let ne = accepted.port_ne_zero in
    let le = accepted.port_le in
    ground (
      arith,
      dispatch-lan raw a.network a.port accepted.dispatched,
      dispatch-loopback raw a.network a.port accepted.dispatched,
    )
