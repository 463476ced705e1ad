-- ===== src/Jail/Firewall/Presence.antt =====
-- What the look at the installed rules establishes.
use netcage.Base.{
  Bool, true, false, Option, none, some, List, [], ◌∷◌, ◌++◌, ◌≡◌, refl, map, if◌then◌else◌, All,
  All-append, arith, ◌↔◌,
}
use netcage.Text.{Text, codes, member, split, trim_space}
use netcage.Text.Numbers.{decimal}
use netcage.Cli.Allow.{DirectAllow}
use netcage.Jail.Config.{JailConfig, map_exists, has_lan_allow, rfc1918_drop_ranges}
use netcage.Jail.Firewall.{
  missing_rule, check_rules_present, firewall_verify_rules, verify_allow_line, verify_drop_line,
}
use netcage.Jail.Firewall.Rules.{
  Rule, Protocol, udp, tcp, other, Target, PortMatch, any_port, written, number, allow_rule,
  reachback_rule, drop_to, map_target, private_targets, accept_rules, drop_rules, firewall_rules,
}

-- The lines of a saved chain, without the white space around them.
abbrev lines_of : Text → List Text
lines_of output = map trim_space (split b'\n' output)

-- The line stands in the saved chain.
pub IsLineOf : Text → Text → Type 0
IsLineOf output w = member w (lines_of output) ≡ true

missing_rule-none :
    (want present : List Text)
    → missing_rule want present ≡ none
    → All (λ w. member w present ≡ true) want
unfolding missing_rule
missing_rule-none [] present h = tt
missing_rule-none (w ∷ ws) present h = (ground arith, missing_rule-none ws present (ground arith))

missing_rule_complete :
    (want present : List Text)
    → All (λ w. member w present ≡ true) want
    → missing_rule want present ≡ none
unfolding missing_rule
missing_rule_complete [] present h = refl
missing_rule_complete (w ∷ ws) present (h, hs) = ground (arith, missing_rule_complete ws present hs)

-- The test of the installed rules finds nothing missing exactly where every line that it wants stands
-- in the output, white space around its lines aside.
pub check_rules_present-none :
    (want : List Text) (output : Text)
    → (check_rules_present want output ≡ none) ↔ All (IsLineOf output) want
unfolding check_rules_present IsLineOf
check_rules_present-none want output =
    (missing_rule-none want (lines_of output), missing_rule_complete want (lines_of output))

abbrev saved_protocol : Option Protocol → Text → Text
saved_protocol none rest = rest
saved_protocol (some udp) rest = codes " -p udp" ++ rest
saved_protocol (some tcp) rest = codes " -p tcp" ++ rest
saved_protocol (some other) rest = codes " -p all" ++ rest

abbrev saved_target : Option Target → Text → Text
saved_target none rest = rest
saved_target (some t) rest = codes " -d " ++ (t.saved ++ rest)

abbrev saved_port : PortMatch → Text → Text
saved_port any_port rest = rest
saved_port (written t) rest = codes " -m tcp --dport " ++ (t ++ rest)
saved_port (number n) rest = codes " -m tcp --dport " ++ (decimal n ++ rest)

-- The line under which `iptables -S` shows the rule.
pub saved : Rule → Text
unfolding codes
saved r =
    codes "-A OUTPUT"
    ++ saved_target r.target (
        saved_protocol r.protocol
          (saved_port r.port (if r.accepts then codes " -j ACCEPT" else codes " -j DROP")))

-- The rule's line stands in the output of its family.
pub IsInstalled : Text → Text → Rule → Type 0
IsInstalled out4 out6 r = if r.v6 then IsLineOf out6 (saved r) else IsLineOf out4 (saved r)

All-split : (P : Text → Type 0) (xs ys : List Text) → All P (xs ++ ys) → All P xs × All P ys
All-split P [] ys h = (tt, h)
All-split P (x ∷ xs) ys (h, hs) = let (k, l) = All-split P xs ys hs in ((h, k), l)

allows-IsInstalled :
    (out4 out6 : Text) (allows : List DirectAllow)
    → All (IsLineOf out4) (map verify_allow_line allows)
    → All (IsInstalled out4 out6) (map allow_rule allows)
unfolding IsInstalled saved verify_allow_line codes
allows-IsInstalled out4 out6 [] h = tt
allows-IsInstalled out4 out6 (a ∷ allows) (h, hs) = (h, allows-IsInstalled out4 out6 allows hs)

reach-IsInstalled :
    (out4 out6 port : Text) (test : Bool)
    → All (IsLineOf out4) (
        if test
        then (codes "-A OUTPUT -d 169.254.1.1"
            ++ (codes "/32 -p tcp -m tcp --dport " ++ (port ++ codes " -j ACCEPT")))
          ∷ []
        else [])
    → All (IsInstalled out4 out6) (if test then reachback_rule port ∷ [] else [])
unfolding IsInstalled saved codes
reach-IsInstalled out4 out6 port true h = h
reach-IsInstalled out4 out6 port false h = tt

closer-IsInstalled :
    (out4 out6 : Text) (test : Bool)
    → All (IsLineOf out4) (if test then codes "-A OUTPUT -d 169.254.1.1/32 -j DROP" ∷ [] else [])
    → All (IsInstalled out4 out6) (if test then drop_to map_target ∷ [] else [])
unfolding IsInstalled saved codes
closer-IsInstalled out4 out6 true h = h
closer-IsInstalled out4 out6 false h = tt

ranges-IsInstalled :
    (out4 out6 : Text) (test : Bool)
    → All (IsLineOf out4) (if test then map verify_drop_line rfc1918_drop_ranges else [])
    → All (IsInstalled out4 out6) (if test then map drop_to private_targets else [])
unfolding IsInstalled saved verify_drop_line codes
ranges-IsInstalled out4 out6 true h = h
ranges-IsInstalled out4 out6 false h = tt

-- Where the test finds nothing missing in the two outputs, every rule that the script adds, in either
-- family, stands in the output of its family: the lines looked for leave out no rule.
pub firewall_verify_rules-IsInstalled :
    (c : JailConfig) (port out4 out6 : Text)
    → check_rules_present (firewall_verify_rules c port).0 out4 ≡ none
    → check_rules_present (firewall_verify_rules c port).1 out6 ≡ none
    → All (IsInstalled out4 out6) (firewall_rules c port)
unfolding firewall_verify_rules accept_rules drop_rules IsInstalled saved codes
firewall_verify_rules-IsInstalled c port out4 out6 h4 h6 =
    let (lo4, (udp4, more)) =
      (check_rules_present-none (firewall_verify_rules c port).0 out4).0 h4 in
    let (lo6, (udp6, _)) = (check_rules_present-none (firewall_verify_rules c port).1 out6).0 h6 in
    let (reach, more1) = All-split (IsLineOf out4) _ _ more in
    let (allows, more2) =
      All-split (IsLineOf out4) (map verify_allow_line c.allow_direct) _ more1 in
    let (closer, ranges) = All-split (IsLineOf out4) _ _ more2 in
    let reach' = reach-IsInstalled out4 out6 port c.proxy_on_host_loopback reach in
    let allows' = allows-IsInstalled out4 out6 c.allow_direct allows in
    let closer' = closer-IsInstalled out4 out6 (map_exists c) closer in
    let ranges' = ranges-IsInstalled out4 out6 (has_lan_allow c) ranges in
    All-append (IsInstalled out4 out6) (accept_rules c port) (drop_rules c)
      (
        lo4,
        (lo6, All-append (IsInstalled out4 out6) _ (map allow_rule c.allow_direct) reach' allows'),
      )
      (udp4, (udp6, All-append (IsInstalled out4 out6) _ _ closer' ranges'))
