-- ===== src/Jail/Firewall/Rules/Verdict.antt =====
-- Which packets the firewall lets pass.
use netcage.Base.{
  Bool, true, false, not, ◌&&◌, ◌||◌, List, [], ◌∷◌, ◌++◌, ◌≡◌, refl, ap, ◌∙◌, map, if◌then◌else◌,
  All, All-append, arith, ◌==◌,
}
use netcage.Text.{Text}
use netcage.Net.{Ip, contains_ip}
use netcage.Cli.Allow.{DirectAllow}
use netcage.Jail.Config.{JailConfig, map_exists, has_lan_allow}
use netcage.Jail.Firewall.Rules.{
  Rule, Packet, udp, matches, any_matches, passes, same_protocol, accept_rules, drop_rules,
  firewall_rules, allow_rule, reachback_rule, opened, map_network, map_target, drop_to,
  private_targets, loopback_rules, drop_udp, loopback_v4, loopback_v6, Target, matches_port,
  written,
}

Accepts : Rule → Type 0
Accepts r = r.accepts ≡ true

Drops : Rule → Type 0
Drops r = r.accepts ≡ false

passes-Drops : (rs : List Rule) (p : Packet) → All Drops rs → passes rs p ≡ not (any_matches rs p)
unfolding passes any_matches Drops
passes-Drops [] p h = refl
passes-Drops (r ∷ rs) p (h, hs) = ground (arith, passes-Drops rs p hs)

passes-append :
    (rs ss : List Rule) (p : Packet)
    → All Accepts rs
    → passes (rs ++ ss) p ≡ (any_matches rs p || passes ss p)
unfolding passes any_matches Accepts
passes-append [] ss p h = refl
passes-append (r ∷ rs) ss p (h, hs) = ground (arith, passes-append rs ss p hs)

any_matches-append :
    (rs ss : List Rule) (p : Packet)
    → any_matches (rs ++ ss) p ≡ (any_matches rs p || any_matches ss p)
unfolding any_matches
any_matches-append [] ss p = refl
any_matches-append (r ∷ rs) ss p = ground (arith, any_matches-append rs ss p)

allows-Accepts : (allows : List DirectAllow) → All Accepts (map allow_rule allows)
unfolding Accepts
allows-Accepts [] = tt
allows-Accepts (a ∷ allows) = (refl, allows-Accepts allows)

reach-Accepts :
    (test : Bool) (port : Text) → All Accepts (if test then reachback_rule port ∷ [] else [])
unfolding Accepts
reach-Accepts true port = (refl, tt)
reach-Accepts false port = tt

accept_rules-Accepts : (c : JailConfig) (port : Text) → All Accepts (accept_rules c port)
unfolding accept_rules Accepts
accept_rules-Accepts c port = (
  refl,
  (
    refl,
    All-append Accepts (if c.proxy_on_host_loopback then reachback_rule port ∷ [] else [])
        (map allow_rule c.allow_direct) (reach-Accepts c.proxy_on_host_loopback port)
        (allows-Accepts c.allow_direct),
  ),
)

closer-Drops : (test : Bool) → All Drops (if test then drop_to map_target ∷ [] else [])
unfolding Drops
closer-Drops true = (refl, tt)
closer-Drops false = tt

ranges-Drops : (test : Bool) → All Drops (if test then map drop_to private_targets else [])
unfolding Drops
ranges-Drops true = (refl, (refl, (refl, (refl, tt))))
ranges-Drops false = tt

drop_rules-Drops : (c : JailConfig) → All Drops (drop_rules c)
unfolding drop_rules Drops
drop_rules-Drops c = (
  refl,
  (
    refl,
    All-append Drops (if map_exists c then drop_to map_target ∷ [] else [])
        (if has_lan_allow c then map drop_to private_targets else []) (closer-Drops (map_exists c))
        (ranges-Drops (has_lan_allow c)),
  ),
)

firewall_rules-passes :
    (c : JailConfig) (port : Text) (p : Packet)
    → passes (firewall_rules c port) p
      ≡ (any_matches (accept_rules c port) p || not (any_matches (drop_rules c) p))
firewall_rules-passes c port p =
    passes-append (accept_rules c port) (drop_rules c) p (accept_rules-Accepts c port)
    ∙ ap (λ b. any_matches (accept_rules c port) p || b)
        (passes-Drops (drop_rules c) p (drop_rules-Drops c))

-- The packet goes to the address of the family's loopback.
pub to_loopback : Packet → Bool
to_loopback p =
    if p.v6
    then contains_ip loopback_v6.network p.destination
    else contains_ip loopback_v4.network p.destination

-- Some entry opens the packet's destination and port.
pub allowed : List DirectAllow → Packet → Bool
allowed [] p = false
allowed (a ∷ allows) p =
    (contains_ip (opened a) p.destination && (a.port == p.port)) || allowed allows p

-- The packet is the dial to the proxy on the host's loopback.
pub is_reachback : JailConfig → Text → Packet → Bool
is_reachback c port p =
    c.proxy_on_host_loopback
    && (contains_ip map_network p.destination && matches_port (written port) p.port)

pub any_in : List Target → Ip → Bool
any_in [] ip = false
any_in (t ∷ ts) ip = contains_ip t.network ip || any_in ts ip

-- The packet goes to one of the private ranges.
pub to_private : Packet → Bool
to_private p = any_in private_targets p.destination

allows-udp :
    (allows : List DirectAllow) (p : Packet)
    → p.protocol ≡ udp
    → any_matches (map allow_rule allows) p ≡ false
unfolding any_matches matches same_protocol
allows-udp [] p h = refl
allows-udp (a ∷ allows) p h = ground (arith, allows-udp allows p h)

reach-udp :
    (test : Bool) (port : Text) (p : Packet)
    → p.protocol ≡ udp
    → any_matches (if test then reachback_rule port ∷ [] else []) p ≡ false
unfolding any_matches matches same_protocol
reach-udp true port p h = ground arith
reach-udp false port p h = refl

loopback-udp :
    (rs : List Rule) (p : Packet)
    → p.protocol ≡ udp
    → any_matches rs p ≡ false
    → any_matches (loopback_rules ++ rs) p ≡ to_loopback p
unfolding any_matches matches same_protocol to_loopback
loopback-udp rs p h k = ground arith

closing-udp :
    (rs : List Rule) (p : Packet)
    → p.protocol ≡ udp
    → any_matches (drop_udp false ∷ drop_udp true ∷ rs) p ≡ true
unfolding any_matches matches same_protocol
closing-udp rs p h = ground arith

drop_rules-udp :
    (c : JailConfig) (p : Packet) → p.protocol ≡ udp → any_matches (drop_rules c) p ≡ true
unfolding drop_rules
drop_rules-udp c p h =
    closing-udp
      ((if map_exists c then drop_to map_target ∷ [] else [])
        ++ (if has_lan_allow c then map drop_to private_targets else []))
      p h

accept_rules-udp :
    (c : JailConfig) (port : Text) (p : Packet)
    → p.protocol ≡ udp
    → any_matches (accept_rules c port) p ≡ to_loopback p
unfolding accept_rules
accept_rules-udp c port p h =
    let reach = if c.proxy_on_host_loopback then reachback_rule port ∷ [] else [] in
    let e = any_matches-append reach (map allow_rule c.allow_direct) p in
    let f = reach-udp c.proxy_on_host_loopback port p h in
    let g = allows-udp c.allow_direct p h in
    loopback-udp (reach ++ map allow_rule c.allow_direct) p h (ground (arith, e, f, g))

-- Whatever the configuration, UDP passes exactly where it stays on the loopback of its family: no
-- entry of the allowlist and no reachback lets a UDP packet out.
pub firewall_rules-udp :
    (c : JailConfig) (port : Text) (p : Packet)
    → p.protocol ≡ udp
    → passes (firewall_rules c port) p ≡ to_loopback p
firewall_rules-udp c port p h =
    let e = firewall_rules-passes c port p in
    let f = accept_rules-udp c port p h in let g = drop_rules-udp c p h in ground (arith, e, f, g)
