-- ===== src/Jail/Firewall/Rules.antt =====
-- The rules behind the firewall's script, as data: their text, and what a chain of them does.
pub mod Script
pub mod Verdict
use netcage.Base.{
  ℕ, Bool, true, false, not, ◌&&◌, ◌||◌, Option, none, some, List, [], ◌∷◌, ◌++◌, map,
  if◌then◌else◌, ◌==◌, ℤ, pos, negsuc,
}
use netcage.Text.{Text, codes}
use netcage.Text.Numbers.{decimal, atoi}
use netcage.Net.{Ip, IpNet, contains_ip}
use netcage.Cli.Allow.{DirectAllow}
use netcage.Jail.Config.{
  JailConfig, mapped_host_loopback, allow_dest, verify_dest, map_exists, has_lan_allow,
}

pub data Protocol : Type 0 where
  udp tcp other : Protocol

-- A destination: how the rule writes it, how the saved rule does, and the addresses that it means.
pub record Target : Type 0 where
  pub shown : Text
  pub saved : Text
  pub network : IpNet

-- The port of a rule, as the configuration writes it or as a number.
pub data PortMatch : Type 0 where
  any_port : PortMatch
  written : Text → PortMatch
  number : ℕ → PortMatch

-- A rule of the chain of outgoing packets, in the table of IPv6 or of IPv4.
pub record Rule : Type 0 where
  pub v6 : Bool
  pub protocol : Option Protocol
  pub target : Option Target
  pub port : PortMatch
  pub accepts : Bool

abbrev pub target_of : Text → List ℕ → List ℕ → Target
target_of t ip mask = record { shown = t; saved = t; network = record { ip = ip; mask = mask } }

abbrev pub loopback_v4 : Target
loopback_v4 = target_of (codes "127.0.0.0/8") (127 ∷ 0 ∷ 0 ∷ 0 ∷ []) (255 ∷ 0 ∷ 0 ∷ 0 ∷ [])

abbrev pub loopback_v6 : Target
loopback_v6 =
    target_of (codes "::1/128") (0 ∷ 0 ∷ 0 ∷ 0 ∷ 0 ∷ 0 ∷ 0 ∷ 0 ∷ 0 ∷ 0 ∷ 0 ∷ 0 ∷ 0 ∷ 0 ∷ 0 ∷ 1 ∷ [])
      (255 ∷ 255 ∷ 255 ∷ 255 ∷ 255 ∷ 255 ∷ 255 ∷ 255 ∷ 255 ∷ 255 ∷ 255 ∷ 255 ∷ 255 ∷ 255 ∷ 255 ∷ 255
        ∷ [])

abbrev pub map_network : IpNet
map_network = record { ip = 169 ∷ 254 ∷ 1 ∷ 1 ∷ []; mask = 255 ∷ 255 ∷ 255 ∷ 255 ∷ [] }

abbrev pub map_target : Target
map_target = record {
  shown = mapped_host_loopback;
  saved = mapped_host_loopback ++ codes "/32";
  network = map_network;
}

abbrev pub private_targets : List Target
private_targets =
    target_of (codes "10.0.0.0/8") (10 ∷ 0 ∷ 0 ∷ 0 ∷ []) (255 ∷ 0 ∷ 0 ∷ 0 ∷ [])
    ∷ target_of (codes "172.16.0.0/12") (172 ∷ 16 ∷ 0 ∷ 0 ∷ []) (255 ∷ 240 ∷ 0 ∷ 0 ∷ [])
    ∷ target_of (codes "192.168.0.0/16") (192 ∷ 168 ∷ 0 ∷ 0 ∷ []) (255 ∷ 255 ∷ 0 ∷ 0 ∷ [])
    ∷ target_of (codes "169.254.0.0/16") (169 ∷ 254 ∷ 0 ∷ 0 ∷ []) (255 ∷ 255 ∷ 0 ∷ 0 ∷ [])
    ∷ []

-- The addresses that an entry of the allowlist opens inside the jail.
unfoldable pub opened : DirectAllow → IpNet
opened a = if a.host_loopback then map_network else a.network

abbrev pub allow_rule : DirectAllow → Rule
allow_rule a = record {
  v6 = false;
  protocol = some tcp;
  target = some (record { shown = allow_dest a; saved = verify_dest a; network = opened a });
  port = number a.port;
  accepts = true;
}

abbrev pub reachback_rule : Text → Rule
reachback_rule port = record {
  v6 = false;
  protocol = some tcp;
  target = some map_target;
  port = written port;
  accepts = true;
}

abbrev pub loopback_udp : Bool → Target → Rule
loopback_udp family t = record {
  v6 = family;
  protocol = some udp;
  target = some t;
  port = any_port;
  accepts = true;
}

abbrev pub drop_udp : Bool → Rule
drop_udp family = record {
  v6 = family;
  protocol = some udp;
  target = none;
  port = any_port;
  accepts = false;
}

abbrev pub drop_to : Target → Rule
drop_to t = record {
  v6 = false;
  protocol = none;
  target = some t;
  port = any_port;
  accepts = false;
}

abbrev pub loopback_rules : List Rule
loopback_rules = loopback_udp false loopback_v4 ∷ loopback_udp true loopback_v6 ∷ []

unfoldable pub accept_rules : JailConfig → Text → List Rule
accept_rules c port =
    loopback_rules
    ++ ((if c.proxy_on_host_loopback then reachback_rule port ∷ [] else [])
        ++ map allow_rule c.allow_direct)

unfoldable pub drop_rules : JailConfig → List Rule
drop_rules c =
    drop_udp false
    ∷ drop_udp true
    ∷ ((if map_exists c then drop_to map_target ∷ [] else [])
        ++ (if has_lan_allow c then map drop_to private_targets else []))

-- The firewall of a configuration: what it opens, then what it drops.
abbrev pub firewall_rules : JailConfig → Text → List Rule
firewall_rules c port = accept_rules c port ++ drop_rules c

-- The name of a protocol in a rule; no rule has the third.
abbrev protocol_text : Protocol → Text
protocol_text udp = codes "udp"
protocol_text tcp = codes "tcp"
protocol_text other = codes "all"

abbrev render_protocol : Option Protocol → Text → Text
render_protocol none rest = rest
render_protocol (some p) rest = codes " -p " ++ (protocol_text p ++ rest)

abbrev render_target : Option Target → Text → Text
render_target none rest = rest
render_target (some t) rest = codes " -d " ++ (t.shown ++ rest)

abbrev render_port : PortMatch → Text → Text
render_port any_port rest = rest
render_port (written t) rest = codes " --dport " ++ (t ++ rest)
render_port (number n) rest = codes " --dport " ++ (decimal n ++ rest)

abbrev render_verdict : Bool → Text
render_verdict true = codes " -j ACCEPT\n"
render_verdict false = codes " -j DROP\n"

-- The command that adds the rule.
unfoldable pub render : Rule → Text
unfolding codes
render r =
    (if r.v6 then codes "ip6tables -A OUTPUT" else codes "iptables -A OUTPUT")
    ++ render_protocol r.protocol
        (render_target r.target (render_port r.port (render_verdict r.accepts)))

unfoldable pub render_all : List Rule → Text
render_all [] = []
render_all (r ∷ rs) = render r ++ render_all rs

-- An outgoing packet.
pub record Packet : Type 0 where
  pub v6 : Bool
  pub protocol : Protocol
  pub destination : Ip
  pub port : ℕ

unfoldable pub same_protocol : Protocol → Protocol → Bool
same_protocol udp udp = true
same_protocol tcp tcp = true
same_protocol other other = true
same_protocol _ _ = false

abbrev matches_protocol : Option Protocol → Protocol → Bool
matches_protocol none p = true
matches_protocol (some q) p = same_protocol q p

abbrev matches_target : Option Target → Ip → Bool
matches_target none ip = true
matches_target (some t) ip = contains_ip t.network ip

abbrev is_number : Option ℤ → ℕ → Bool
is_number (some (pos m)) n = m == n
is_number _ n = false

abbrev pub matches_port : PortMatch → ℕ → Bool
matches_port any_port n = true
matches_port (written t) n = is_number (atoi t) n
matches_port (number m) n = m == n

abbrev same_family : Bool → Bool → Bool
same_family true b = b
same_family false b = not b

-- The packet is one that the rule is about.
unfoldable pub matches : Rule → Packet → Bool
matches r p =
    same_family r.v6 p.v6
    && (matches_protocol r.protocol p.protocol
        && (matches_target r.target p.destination && matches_port r.port p.port))

-- Some rule is about the packet.
unfoldable pub any_matches : List Rule → Packet → Bool
any_matches [] p = false
any_matches (r ∷ rs) p = matches r p || any_matches rs p

-- The chain lets the packet pass: its first rule about the packet decides, and without one it passes.
unfoldable pub passes : List Rule → Packet → Bool
passes [] p = true
passes (r ∷ rs) p = if matches r p then r.accepts else passes rs p
