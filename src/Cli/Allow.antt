-- ===== src/Cli/Allow.antt =====
-- internal/cli/allowdirect.go: the values of `--allow`.
pub mod Shape
pub mod Gate
use netcage.Base.{
  ℕ, zero, suc, ◌-◌, bit_or, Bool, true, false, not, ◌&&◌, ◌||◌, Option, none, some, List, [], ◌∷◌,
  length, ltb, ◌==◌, if◌then◌else◌, Result, ok, err, ◌>>=◌, ◌>>◌, ℤ, pos, negsuc,
}
use netcage.Text.{Text, codes, eqb, is_empty, trim_space, cut_last, count, contains, member}
use netcage.Text.Numbers.{atoi}
use netcage.Net.{Ip, IpNet, to4, cidr_mask, zip_bytes, parse_ip, parse_cidr, contains_ip}

-- `DirectAllow`.
pub record DirectAllow : Type 0 where
  pub network : IpNet
  pub port : ℕ
  pub raw : Text
  pub host_loopback : Bool

-- The errors of the parser, with the values that their messages name.
pub data AllowError : Type 0 where
  empty_value : AllowError
  empty_port : Text → AllowError
  non_numeric_port : Text → Text → AllowError
  out_of_range_port : Text → ℤ → AllowError
  port_omitted : Text → Text → AllowError
  bad_cidr : Text → AllowError
  bad_ip : Text → AllowError
  blocked_loopback_port : Text → ℕ → AllowError
  not_private : Text → AllowError
  clear_dns_port : Text → ℕ → AllowError
  configured_proxy_port : Text → ℕ → AllowError

-- The keys of `clearDNSPorts`.
abbrev pub clear_dns_ports : List ℕ
clear_dns_ports = 53 ∷ 853 ∷ 5353 ∷ []

-- The keys of `hostLoopbackBlockedPorts`.
abbrev pub host_loopback_blocked_ports : List ℕ
host_loopback_blocked_ports = 53 ∷ 9050 ∷ 9150 ∷ 9051 ∷ 1080 ∷ []

-- A map with numbers as keys has the key `n`.
abbrev pub has_key : ℕ → List ℕ → Bool
has_key n [] = false
has_key n (m ∷ ms) = n == m || has_key n ms

-- The networks of literals; one that does not parse is the panic that is marked unreachable.
built_in : List Text → List IpNet
unfolding parse_cidr
built_in [] = []
built_in (c ∷ cs) = elim (parse_cidr c) [ none ↦ built_in cs | some n ↦ n ∷ built_in cs ]

unfoldable pub host_loopback_range : List IpNet
unfolding built_in codes
host_loopback_range = built_in (codes "127.0.0.0/8" ∷ [])

unfoldable pub private_ranges : List IpNet
unfolding built_in codes
private_ranges = built_in (
    codes "10.0.0.0/8"
    ∷ codes "172.16.0.0/12"
    ∷ codes "192.168.0.0/16"
    ∷ codes "169.254.0.0/16"
    ∷ [])

-- The loop of `lastAddr`: `ip[i] | ^mask[i]`.
abbrev pub last_bytes : List ℕ → List ℕ → List ℕ
last_bytes = zip_bytes (λ x m. bit_or x (255 - m))

-- `lastAddr`; nil where the lengths do not fit.
unfoldable pub last_addr : IpNet → Option Ip
unfolding zip_bytes to4
last_addr n =
    if length n.ip == length n.mask then some (last_bytes n.ip n.mask) else elim (to4 n.ip) [
      | none ↦ none
      | some v4 ↦ if length n.mask == 4 then some (last_bytes v4 n.mask) else none
    ]

abbrev pub contains_both : IpNet → Ip → Option Ip → Bool
contains_both r first none = false
contains_both r first (some last) = contains_ip r first && contains_ip r last

-- `rangeContainsNetwork`.
unfoldable pub range_contains_network : IpNet → IpNet → Bool
range_contains_network r n = contains_both r n.ip (last_addr n)

-- The loop of `networkWithinPrivateRanges` over the given ranges.
unfoldable pub within_some : List IpNet → IpNet → Bool
unfolding range_contains_network
within_some [] n = false
within_some (r ∷ rs) n = range_contains_network r n || within_some rs n

unfoldable pub network_within_host_loopback : IpNet → Bool
network_within_host_loopback = within_some host_loopback_range

unfoldable pub network_within_private_ranges : IpNet → Bool
network_within_private_ranges = within_some private_ranges

-- The check of the port's range.
abbrev pub in_range : Text → Text → ℤ → Result AllowError (Text × ℕ)
in_range value host (negsuc n) = err (out_of_range_port value (negsuc n))
in_range value host (pos n) =
    if ltb n 1 || ltb 65535 n then err (out_of_range_port value (pos n)) else ok (host, n)

-- A host, and the text behind the last colon.
unfoldable pub port_of : Text → Text → Text → Result AllowError (Text × ℕ)
unfolding atoi
port_of value host [] = err (empty_port value)
port_of value host (c ∷ s) = elim (atoi (c ∷ s)) [
  | none ↦ err (non_numeric_port value (c ∷ s))
  | some p ↦ in_range value host p
]

-- The host and the port of a value that was cut at its last colon.
unfoldable pub port_part : Text → Option (Text × Text) → Result AllowError (Text × ℕ)
unfolding port_of count contains
port_part value none = ok (value, 0)
port_part value (some (host, port)) =
    if ltb 1 (count b':' value) && not (contains b']' value)
    then ok (value, 0)
    else port_of value host port

-- `splitAllowDirectPort`; the port 0 says that there is none.
unfoldable pub split_allow_direct_port : Text → Result AllowError (Text × ℕ)
unfolding port_part cut_last
split_allow_direct_port value = port_part value (cut_last b':' value)

-- The host route of an address: all the bits of its family.
abbrev pub host_route : Ip → IpNet
host_route ip = record {
  ip = ip;
  mask = elim (to4 ip) [ none ↦ cidr_mask 128 16 | some _ ↦ cidr_mask 32 4 ];
}

-- `parseHostToNetwork`.
unfoldable pub parse_host_to_network : Text → Text → Result AllowError IpNet
unfolding contains parse_cidr parse_ip to4 cidr_mask
parse_host_to_network host value =
    if contains b'/' host
    then elim (parse_cidr host) [ none ↦ err (bad_cidr value) | some n ↦ ok n ]
    else elim (parse_ip host) [ none ↦ err (bad_ip value) | some ip ↦ ok (host_route ip) ]

-- What `parseAllowDirect` does once it has the network and a port: the class of the destination, and
-- the guardrails of that class.
unfoldable pub dispatch : Text → IpNet → ℕ → Result AllowError DirectAllow
dispatch raw network port =
    if network_within_host_loopback network
    then (if has_key port host_loopback_blocked_ports
        then err (blocked_loopback_port raw port)
        else ok (record { network = network; port = port; raw = raw; host_loopback = true }))
    else if not (network_within_private_ranges network)
    then err (not_private raw)
    else if has_key port clear_dns_ports
    then err (clear_dns_port raw port)
    else ok (record { network = network; port = port; raw = raw; host_loopback = false })

-- The part of `parseAllowDirect` behind the split of host and port.
unfoldable pub allow_parts : Text → Text → Text × ℕ → Result AllowError DirectAllow
allow_parts raw value (host, port) =
    if port == 0
    then err (port_omitted raw value)
    else parse_host_to_network host value >>= λ network. dispatch raw network port

-- `parseAllowDirect`.
unfoldable pub parse_allow_direct : Text → Result AllowError DirectAllow
parse_allow_direct raw =
    let value = trim_space raw in
    if is_empty value
    then err empty_value
    else split_allow_direct_port value >>= allow_parts raw value

-- `proxyHostIsLoopback`, and the host set of `Command.ProxyOnHostLoopback`.
unfoldable pub proxy_host_is_loopback : Text → Bool
unfolding eqb codes
proxy_host_is_loopback host =
    eqb host (codes "127.0.0.1") || eqb host (codes "::1") || eqb host (codes "localhost")

-- The loop of `refuseHostLoopbackProxyPort`.
unfoldable pub refuse_port : List DirectAllow → ℤ → Result AllowError (Unit {0})
refuse_port [] port = ok tt
refuse_port (a ∷ as') (negsuc n) = refuse_port as' (negsuc n)
refuse_port (a ∷ as') (pos port) =
    if a.host_loopback && a.port == port
    then err (configured_proxy_port a.raw a.port)
    else refuse_port as' (pos port)

-- `refuseHostLoopbackProxyPort`.
unfoldable pub refuse_host_loopback_proxy_port :
    List DirectAllow → Text → Text → Result AllowError (Unit {0})
unfolding refuse_port proxy_host_is_loopback atoi trim_space
refuse_host_loopback_proxy_port allows proxy_host proxy_port =
    if not (proxy_host_is_loopback proxy_host)
    then ok tt
    else elim (atoi (trim_space proxy_port)) [ none ↦ ok tt | some port ↦ refuse_port allows port ]
