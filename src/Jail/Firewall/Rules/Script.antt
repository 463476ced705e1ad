-- ===== src/Jail/Firewall/Rules/Script.antt =====
-- The firewall's script and the text of its rules.
use netcage.Base.{
  not, Bool, true, false, List, [], ◌∷◌, ◌++◌, ◌≡◌, refl, sym, ap, ◌∙◌, map, append_assoc,
  append-nil, if◌then◌else◌,
}
use netcage.Text.{Text, codes}
use netcage.Cli.Allow.{DirectAllow}
use netcage.Jail.Config.{JailConfig, map_exists, has_lan_allow, rfc1918_drop_ranges}
use netcage.Jail.Firewall.{
  write_split_tunnel_accepts, write_split_tunnel_drops, write_drops, firewall_script,
}
use netcage.Jail.Firewall.Rules.{
  Rule, render, render_all, allow_rule, accept_rules, drop_rules, firewall_rules, reachback_rule,
  drop_to, map_target, private_targets,
}

-- The text with the rules written behind it, one after the other.
emits : Text → List Rule → Text
emits b [] = b
emits b (r ∷ rs) = emits (b ++ render r) rs

emits-append : (b : Text) (rs ss : List Rule) → emits b (rs ++ ss) ≡ emits (emits b rs) ss
unfolding emits
emits-append b [] ss = refl
emits-append b (r ∷ rs) ss = emits-append (b ++ render r) rs ss

emits-eq : (b : Text) (rs : List Rule) → emits b rs ≡ b ++ render_all rs
unfolding emits render_all
emits-eq b [] = sym (append-nil b)
emits-eq b (r ∷ rs) = emits-eq (b ++ render r) rs ∙ append_assoc b (render r) (render_all rs)

emits-allows :
    (b : Text) (allows : List DirectAllow)
    → emits b (map allow_rule allows) ≡ write_split_tunnel_accepts allows b
unfolding emits write_split_tunnel_accepts render codes
emits-allows b [] = refl
emits-allows b (a ∷ allows) = emits-allows (b ++ render (allow_rule a)) allows

emits-one :
    (b : Text) (test : Bool) (r : Rule)
    → emits b (if test then r ∷ [] else []) ≡ (if test then b ++ render r else b)
unfolding emits
emits-one b true r = refl
emits-one b false r = refl

emits-drops :
    (b : Text) (test : Bool)
    → emits b (if test then map drop_to private_targets else [])
      ≡ (if not test then b else write_drops rfc1918_drop_ranges b)
unfolding emits write_drops render codes
emits-drops b true = refl
emits-drops b false = refl

-- The text behind the first three lines, and the reachback where there is one.
abbrev opening : Text
opening =
    (codes "set -e\n" ++ codes "iptables -A OUTPUT -p udp -d 127.0.0.0/8 -j ACCEPT\n")
    ++ codes "ip6tables -A OUTPUT -p udp -d ::1/128 -j ACCEPT\n"

with_reachback : JailConfig → Text → Text
with_reachback c port =
    if c.proxy_on_host_loopback then opening ++ render (reachback_rule port) else opening

emits-accepts :
    (c : JailConfig) (port : Text)
    → emits (codes "set -e\n") (accept_rules c port)
      ≡ write_split_tunnel_accepts c.allow_direct (with_reachback c port)
unfolding emits render codes accept_rules with_reachback
emits-accepts c port =
    emits-append opening (if c.proxy_on_host_loopback then reachback_rule port ∷ [] else [])
      (map allow_rule c.allow_direct)
    ∙ (ap (λ b. emits b (map allow_rule c.allow_direct))
          (emits-one opening c.proxy_on_host_loopback (reachback_rule port))
        ∙ emits-allows (with_reachback c port) c.allow_direct)

with_udp : Text → Text
with_udp b =
    (b ++ codes "iptables -A OUTPUT -p udp -j DROP\n")
    ++ codes "ip6tables -A OUTPUT -p udp -j DROP\n"

with_closer : JailConfig → Text → Text
with_closer c b = if map_exists c then b ++ render (drop_to map_target) else b

emits-closing :
    (c : JailConfig) (b : Text)
    → emits b (drop_rules c) ≡ write_split_tunnel_drops c (with_closer c (with_udp b))
unfolding emits render codes drop_rules with_udp with_closer write_split_tunnel_drops
emits-closing c b =
    emits-append (with_udp b) (if map_exists c then drop_to map_target ∷ [] else [])
      (if has_lan_allow c then map drop_to private_targets else [])
    ∙ (ap (λ t. emits t (if has_lan_allow c then map drop_to private_targets else []))
          (emits-one (with_udp b) (map_exists c) (drop_to map_target))
        ∙ emits-drops (with_closer c (with_udp b)) (has_lan_allow c))

-- The script is its first line and then, in their order, the commands that add the rules of the
-- configuration: all that accept, and behind them all that drop.
pub firewall_script-render :
    (c : JailConfig) (port : Text)
    → firewall_script c port ≡ codes "set -e\n" ++ render_all (firewall_rules c port)
unfolding firewall_script render codes with_reachback with_closer with_udp
firewall_script-render c port =
    sym (
      emits-append (codes "set -e\n") (accept_rules c port) (drop_rules c)
      ∙ (ap (λ b. emits b (drop_rules c)) (emits-accepts c port)
          ∙ emits-closing c (write_split_tunnel_accepts c.allow_direct (with_reachback c port))))
    ∙ emits-eq (codes "set -e\n") (firewall_rules c port)
