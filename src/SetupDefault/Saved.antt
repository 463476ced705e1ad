-- ===== src/SetupDefault/Saved.antt =====
-- internal/setupdefault/setupdefault.go with internal/cli: a run behind an onboarding that saved a proxy.
use netcage.Base.{
  ℕ, zero, suc, ◌≡◌, refl, sym, ap, ◌∙◌, Bool, true, false, Option, none, some, List, Result, ok,
  err, length, ok_injective, Result-cases, Option-cases, Bool-cases, inl, inr, arith,
}
use netcage.Text.{Text, codes, is_empty}
use netcage.Cli.Command.{Command, ProxyConfig, config}
use netcage.Cli.Proxy.{parse_proxy}
use netcage.Cli.Config.Write.{Written, write_config}
use netcage.Cli.Config.Write.Loads.{DecodesBack, write_config-load, write_config-nonblank}
use netcage.Cli.Parse.Chosen.{parse_jail_verb-config, IsUnset}
use netcage.Cli.Parse.{parse_jail_verb}
use netcage.Cli.Scan.{Scan, scan}
use netcage.Cli.System.{content}
use netcage.SetupDefault.Prompts.{Action, Session, SetupError, Dialog, and_then}
use netcage.SetupDefault.Entry.{existing_allow_direct, confirmed_ports}
use netcage.SetupDefault.{
  Options, saved, is_credentialed, gather, warn_and_confirm, store, store_if, write_if,
  settle_choice, choose_proxy, round, rounds, set_up,
}

and_then-ok :
    {A B : Type 0} (p : Session × Result SetupError A) (f : A → Dialog B) {b : B}
    → (and_then p f).1 ≡ ok b
    → (a : A) × (p.1 ≡ ok a) × ((f a p.0).1 ≡ ok b)
unfolding and_then
and_then-ok (s, ok a) f h = (a, refl, h)
and_then-ok (s, err e) f h = cc

module _ (o : Options) (url : Text) (written : Written) where
  -- The writer was called with the URL, and wrote the file.
  abbrev IsStored : Type 0
  IsStored =
      (l : List Action) × (write_config o.os o.encode (o.disk l) url
          (existing_allow_direct o.existing)
        ≡ ok written)

  store-saved :
      (u : Text) (s : Session) → (store o u s).1 ≡ ok (some (saved url written)) → IsStored
  unfolding store
  store-saved u s h =
      let wrote = write_config o.os o.encode (o.disk s.log) u (existing_allow_direct o.existing) in
      elim (Result-cases wrote) [
        | inl (w, e) ↦
            let h' : ok (some (saved u w)) ≡ ok (some (saved url written)) = rw (e, store) at h in
            let same_url : u ≡ url = cc in
            let same_file : w ≡ written = cc in (s.log, rw same_url at (e ∙ ap ok same_file))
        | inr (x, e) ↦ elim (Bool-cases (is_credentialed x)) [
          | inl e1 ↦ absurd (ground (arith, rw (e, store, e1) at h))
          | inr e1 ↦ absurd (ground (arith, rw (e, store, e1) at h))
        ]
      ]

  store_if-saved :
      (u : Text) (answer : Bool) (s : Session)
      → (store_if o u answer s).1 ≡ ok (some (saved url written))
      → IsStored
  unfolding store_if
  store_if-saved u true s h = store-saved u s h
  store_if-saved u false s h = absurd (ground (arith, h))

  write_if-saved :
      (u : Text) (go_on : Bool) (s : Session)
      → (write_if o u go_on s).1 ≡ ok (some (saved url written))
      → IsStored
  unfolding write_if
  write_if-saved u false s h = absurd (ground (arith, h))
  write_if-saved u true s h =
      let (answer, _, h1) = and_then-ok (warn_and_confirm o u s) (store_if o u) h in
      store_if-saved u answer (warn_and_confirm o u s).0 h1

  settle_choice-saved :
      (chosen : Option Text) (s : Session)
      → (settle_choice o chosen s).1 ≡ ok (some (saved url written))
      → IsStored
  unfolding settle_choice
  settle_choice-saved none s h = absurd (ground (arith, h))
  settle_choice-saved (some u) s h =
      let (go_on, _, h1) = and_then-ok (gather o u s) (write_if o u) h in
      write_if-saved u go_on (gather o u s).0 h1

  rounds-saved :
      (fuel : ℕ) (ports : List ℕ) (s : Session)
      → (rounds o fuel ports s).1 ≡ ok (saved url written)
      → IsStored
  unfolding rounds round
  rounds-saved zero ports s h = absurd (ground (arith, h))
  rounds-saved (suc fuel) ports s h =
      let (ended, e, h1) = and_then-ok (round o ports s) _ h in
      elim (Option-cases ended) [
        | inl e1 ↦ rounds-saved fuel ports (round o ports s).0 (rw (e1) at h1)
        | inr (outcome, e1) ↦
            let h2 : ok outcome ≡ ok (saved url written) = rw (e1) at h1 in
            let (chosen, e2, h3) =
              and_then-ok (choose_proxy o ports s) (settle_choice o)
                (e ∙ ap ok (e1 ∙ ap some (ok_injective h2))) in
            settle_choice-saved chosen (choose_proxy o ports s).0 h3
      ]

-- After an onboarding that saved a proxy, whatever was typed: if the file is read as it was written and
-- the decoder gives back what the encoder makes of the proxy and of the allowlist that stood there
-- before, then an accepted command line of run, verify or start that has no proxy of its own, and
-- for which the environment has none, has the saved proxy, from the configuration, and that proxy
-- carries neither a user nor a password.
pub set_up-run :
    (o : Options) (s : Session) (url : Text) (written : Written) (name : Text) (rest : List Text)
    (sc : Scan) (cmd : Command)
    → (set_up o s).1 ≡ ok (saved url written)
    → o.os.read_file written.path ≡ content written.blob
    → DecodesBack o.os o.encode url (existing_allow_direct o.existing)
    → scan name rest ≡ ok sc
    → sc.proxy_from_flag ≡ false
    → IsUnset (o.os.lookup_env (codes "NETCAGE_PROXY"))
    → parse_jail_verb o.os name rest ≡ ok cmd
    → (parse_proxy o.os.parse_url url ≡ ok cmd.proxy)
      × (cmd.proxy_source ≡ config)
      × (is_empty cmd.proxy.username ≡ true)
      × (is_empty cmd.proxy.password ≡ true)
unfolding set_up
set_up-run o s url written name rest sc cmd done read decoded scanned no_flag unset accepted =
    let (l, stored) =
      rounds-saved o url written (suc (length s.input)) (confirmed_ports o.candidates) _ done in
    let raws = existing_allow_direct o.existing in
    let (proxy, parsed, no_user, no_password, entries, _, loaded) =
      write_config-load o.os o.encode (o.disk l) url raws written stored read decoded in
    let filled = write_config-nonblank o.os o.encode (o.disk l) url raws written stored in
    let (same, source) =
      parse_jail_verb-config o.os name rest sc
        (record { present = true; proxy_url = url; allow_direct = entries }) scanned loaded no_flag
        unset refl filled accepted in
    let e : proxy ≡ cmd.proxy = ok_injective (sym parsed ∙ same) in
    (
      same,
      source,
      ap (λ (p : ProxyConfig). is_empty p.username) (sym e) ∙ no_user,
      ap (λ (p : ProxyConfig). is_empty p.password) (sym e) ∙ no_password,
    )
