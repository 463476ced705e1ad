-- ===== src/Jail/Run/Verified.antt =====
-- The check of the firewall, over the history: what it asks, and what its success shows.
use mathlib.Core.Path.{subst}
use netcage.Base.{
  Bool, true, false, Option, none, some, List, ◌∷◌, ◌≡◌, refl, sym, ap, ◌∙◌, ok, inl, inr, arith,
}
use netcage.Text.{Text, codes}
use netcage.Jail.Config.{JailConfig}
use netcage.Jail.Firewall.{firewall_verify_rules, check_rules_present}
use netcage.Jail.Effects.Laws.{
  attempt-occurs, after_assoc, occurs, after-occurs, after-quiet, after-ok, after-history,
  out_of-ok,
}
use netcage.Jail.Effects.{
  Io, RunError, Event, launch, World, History, after, ◌>>-◌, attempt, probe_failed,
}
use netcage.Jail.Run.{show_chain, require, verify_family, verify_firewall}

abbrev pub is_launch : Event → Bool
is_launch (launch args) = true
is_launch _ = false

-- The tool's command was run.
abbrev pub launches : History → Bool
launches = occurs is_launch

require-history : (o : Option Text) (h : History) → (require o h).0 ≡ h
require-history none h = refl
require-history (some rule) h = refl

require-ok : (o : Option Text) (h : History) → (require o h).1 ≡ ok tt → o ≡ none
require-ok none h k = refl
require-ok (some rule) h k = cc

pub verify_family-history :
    (w : World) (c : JailConfig) (table : Text) (want : List Text) (h : History)
    → (verify_family w c table want h).0 ≡ show_chain c table ∷ h
unfolding verify_family ◌>>-◌ attempt
verify_family-history w c table want h =
    after-history (attempt w (show_chain c table) probe_failed h)
      (λ shown. require (check_rules_present want shown))
      (λ shown. require-history (check_rules_present want shown))

verify_family-ok :
    (w : World) (c : JailConfig) (table : Text) (want : List Text) (h : History)
    → (verify_family w c table want h).1 ≡ ok tt
    → check_rules_present want (w.reply h (show_chain c table)).out ≡ none
unfolding verify_family ◌>>-◌ attempt
verify_family-ok w c table want h k =
    let (shown, e, k') =
      after-ok (attempt w (show_chain c table) probe_failed h)
        (λ shown. require (check_rules_present want shown)) k in
    subst (λ t. check_rules_present want t ≡ none)
      (sym (out_of-ok probe_failed (w.reply h (show_chain c table)) e))
      (require-ok (check_rules_present want shown) _ k')

-- The text that the sidecar shows for its chain of IPv4, asked at that history, and the one for IPv6.
pub answer_v4 : World → JailConfig → History → Text
answer_v4 w c h = (w.reply h (show_chain c (codes "iptables"))).out

pub answer_v6 : World → JailConfig → History → Text
answer_v6 w c h =
    (w.reply (show_chain c (codes "iptables") ∷ h) (show_chain c (codes "ip6tables"))).out

pub verify_firewall-ok :
    (w : World) (c : JailConfig) (h : History)
    → (verify_firewall w c h).1 ≡ ok tt
    → (check_rules_present (firewall_verify_rules c c.proxy.port).0 (answer_v4 w c h) ≡ none)
      × (check_rules_present (firewall_verify_rules c c.proxy.port).1 (answer_v6 w c h) ≡ none)
unfolding verify_firewall ◌>>-◌ answer_v4 answer_v6
verify_firewall-ok w c h k =
    let want4 = (firewall_verify_rules c c.proxy.port).0 in
    let want6 = (firewall_verify_rules c c.proxy.port).1 in
    let four = verify_family w c (codes "iptables") want4 h in
    let (u, e, k') = after-ok four (λ _. verify_family w c (codes "ip6tables") want6) k in
    let k6 =
      subst (λ h'. (verify_family w c (codes "ip6tables") want6 h').1 ≡ ok tt)
        (verify_family-history w c (codes "iptables") want4 h) k' in
    (
      verify_family-ok w c (codes "iptables") want4 h e,
      verify_family-ok w c (codes "ip6tables") want6 (show_chain c (codes "iptables") ∷ h) k6,
    )

pub verify_firewall-launches :
    (w : World) (c : JailConfig) (h : History) → launches (verify_firewall w c h).0 ≡ launches h
unfolding verify_firewall ◌>>-◌ occurs
verify_firewall-launches w c h =
    let four = verify_family w c (codes "iptables") (firewall_verify_rules c c.proxy.port).0 h in
    let six = verify_family w c (codes "ip6tables") (firewall_verify_rules c c.proxy.port).1 in
    after-quiet is_launch four (λ _. six) (λ _ h'. ap launches (verify_family-history w c _ _ h'))
    ∙ ap launches
        (verify_family-history w c (codes "iptables") (firewall_verify_rules c c.proxy.port).0 h)

-- A launch that comes behind a started sidecar and the check shows that the check succeeded.
pub launched-verified :
    {A : Type 0} (w : World) (c : JailConfig) (h : History) (e : Event) (x : RunError)
    (rest : Unit {0} → Io RunError A)
    → launches h ≡ false
    → is_launch e ≡ false
    → launches (after (after (attempt w e x h) (λ _. verify_firewall w c)) rest).0 ≡ true
    → (verify_firewall w c (e ∷ h)).1 ≡ ok tt
unfolding occurs
launched-verified w c h e x rest quiet other k =
    let started = attempt w e x h in
    let k' =
      subst (λ p. launches p.0 ≡ true) (after_assoc started (λ _. verify_firewall w c) rest) k in
    let (_, _, k2) = attempt-occurs is_launch h quiet w e x _ other k' in
    elim (after-occurs is_launch (verify_firewall w c (e ∷ h)) rest k2) [
      | inl seen ↦ absurd (ground (arith, verify_firewall-launches w c (e ∷ h), seen))
      | inr (_, verified, _) ↦ verified
    ]
