-- ===== src/Cli/Parse/Chosen.antt =====
-- internal/cli/cli.go: where the proxy of an accepted command line comes from.
use netcage.Base.{
  ◌≡◌, refl, sym, ap, ◌∙◌, true, false, Option, none, some, List, [], ◌∷◌, ok, ok_injective,
  >>=-eq-ok, Bool-cases, inl, inr, arith,
}
use netcage.Text.{Text, codes, is_empty, eqb, trim_space}
use netcage.Cli.Command.{Command, ProxyConfig, ProxySource, config}
use netcage.Cli.Proxy.{parse_proxy}
use netcage.Cli.Config.{LoadedConfig, load_config}
use netcage.Cli.Parse.{
  refuse_host_loopback_proxy_port, lift_allow, choose_proxy, choose_allow, from_config,
  resolve_proxy, resolve_jail, parse_jail_verb, resolve_positionals, resolve_run_positionals,
  resolve_repo_mount_defaults, start_positionals, verify_positionals, reject_start_create_flags,
}
use netcage.Cli.Parse.Resolution.{resolve_proxy-ok}
use netcage.Cli.Scan.{Scan, scan}
use netcage.Cli.Scan.Named.{scan-name}
use netcage.Cli.System.{System}

-- The proxy and its source.
abbrev pub proxied : Command → ProxyConfig × ProxySource
proxied c = (c.proxy, c.proxy_source)

-- The verb, the proxy and its source: what the positionals leave as it is.
abbrev kept : Command → Text × (ProxyConfig × ProxySource)
kept c = (c.name, proxied c)

start_positionals-kept :
    (c : Command) (ps : List Text) {cmd : Command}
    → start_positionals c ps ≡ ok cmd
    → kept cmd ≡ kept c
unfolding start_positionals
start_positionals-kept c [] h = cc
start_positionals-kept c (p ∷ []) h =
    let named = record c { start_name = p } in
    let (u, e, h') = >>=-eq-ok (reject_start_create_flags named) (λ _. ok named) h in
    ap kept (sym (ok_injective h'))
start_positionals-kept c (p ∷ q ∷ ps) h = cc

run_positionals-kept :
    (c : Command) (ps : List Text)
    → kept (resolve_repo_mount_defaults (resolve_run_positionals c ps)) ≡ kept c
unfolding resolve_repo_mount_defaults resolve_run_positionals
run_positionals-kept c [] = refl
run_positionals-kept c (p ∷ ps) = refl

verify_positionals-kept :
    (c : Command) (ps : List Text) {cmd : Command}
    → verify_positionals c ps ≡ ok cmd
    → kept cmd ≡ kept c
unfolding verify_positionals
verify_positionals-kept c [] h = ap kept (sym (ok_injective h))
verify_positionals-kept c (p ∷ ps) h = cc

resolve_positionals-kept :
    (name : Text) (c : Command) (ps : List Text) {cmd : Command}
    → resolve_positionals name c ps ≡ ok cmd
    → kept cmd ≡ kept c
unfolding resolve_positionals
resolve_positionals-kept name c ps {cmd} h = elim (Bool-cases (eqb name (codes "run"))) [
  | inl e ↦
      let h' : ok (resolve_repo_mount_defaults (resolve_run_positionals c ps)) ≡ ok cmd =
        rw (e) at h in
      ap kept (sym (ok_injective h')) ∙ run_positionals-kept c ps
  | inr e ↦ elim (Bool-cases (eqb name (codes "start"))) [
    | inl f ↦
        let h' : start_positionals c ps ≡ ok cmd = rw (e, f) at h in start_positionals-kept c ps h'
    | inr f ↦
        let h' : verify_positionals c ps ≡ ok cmd = rw (e, f) at h in
        verify_positionals-kept c ps h'
  ]
]

-- The proxy that `choose_proxy` takes from the environment, the flags and the configuration.
abbrev pub chosen_of : System → Scan → LoadedConfig → Text × ProxySource
chosen_of os s conf = choose_proxy (os.lookup_env (codes "NETCAGE_PROXY")) s conf

resolve_jail-chosen :
    (os : System) (s : Scan) (conf : LoadedConfig) {cmd : Command}
    → resolve_jail os s conf ≡ ok cmd
    → resolve_proxy os (chosen_of os s conf) ≡ ok (proxied cmd)
unfolding resolve_jail
resolve_jail-chosen os s conf h =
    let ((p, source), e, h1) = >>=-eq-ok (resolve_proxy os (chosen_of os s conf)) _ h in
    let allows = choose_allow s conf in
    let (u, e2, h2) =
      >>=-eq-ok (lift_allow (refuse_host_loopback_proxy_port allows p.host p.port)) _ h1 in
    e ∙ ap (λ c. ok (proxied c)) (ok_injective h2)

pub parse_jail_verb-chosen :
    (os : System) (name : Text) (rest : List Text) {cmd : Command}
    → parse_jail_verb os name rest ≡ ok cmd
    → (s : Scan) × (conf : LoadedConfig) × (scan name rest ≡ ok s)
      × (load_config os ≡ ok conf)
      × (resolve_proxy os (chosen_of os s conf) ≡ ok (proxied cmd))
unfolding parse_jail_verb
parse_jail_verb-chosen os name rest {cmd} h =
    let (s, e, h1) = >>=-eq-ok (scan name rest) _ h in
    let (conf, e2, h2) = >>=-eq-ok (load_config os) _ h1 in
    let (c, e3, h3) = >>=-eq-ok (resolve_jail os s conf) _ h2 in
    (
      s,
      conf,
      e,
      e2,
      resolve_jail-chosen os s conf {cmd = c} e3
          ∙ ap (λ k. ok k.1) (sym (resolve_positionals-kept name c s.positionals {cmd = cmd} h3)),
    )

resolve_proxy-of :
    (os : System) (chosen : Text × ProxySource) {p : ProxyConfig} {source : ProxySource}
    → resolve_proxy os chosen ≡ ok (p, source)
    → (parse_proxy os.parse_url chosen.0 ≡ ok p) × (source ≡ chosen.1)
unfolding resolve_proxy
resolve_proxy-of os (raw, from) h = (resolve_proxy-ok os (raw, from) h, ground (arith, h))

resolve_jail-name :
    (os : System) (s : Scan) (conf : LoadedConfig) {cmd : Command}
    → resolve_jail os s conf ≡ ok cmd
    → cmd.name ≡ s.cmd.name
unfolding resolve_jail
resolve_jail-name os s conf h =
    let ((p, source), e, h1) = >>=-eq-ok (resolve_proxy os (chosen_of os s conf)) _ h in
    let allows = choose_allow s conf in
    let (u, e2, h2) =
      >>=-eq-ok (lift_allow (refuse_host_loopback_proxy_port allows p.host p.port)) _ h1 in
    ap (λ (c : Command). c.name) (sym (ok_injective h2))

-- An accepted command has the name of its verb.
pub parse_jail_verb-name :
    (os : System) (name : Text) (rest : List Text) {cmd : Command}
    → parse_jail_verb os name rest ≡ ok cmd
    → cmd.name ≡ name
unfolding parse_jail_verb
parse_jail_verb-name os name rest {cmd} h =
    let (s, e, h1) = >>=-eq-ok (scan name rest) _ h in
    let (conf, e2, h2) = >>=-eq-ok (load_config os) _ h1 in
    let (c, e3, h3) = >>=-eq-ok (resolve_jail os s conf) _ h2 in
    ap (λ k. k.0) (resolve_positionals-kept name c s.positionals {cmd = cmd} h3)
    ∙ resolve_jail-name os s conf {cmd = c} e3
    ∙ scan-name name rest e

-- A variable that is not set, or is blank.
abbrev pub IsUnset : Option Text → Type 0
IsUnset v = (x : Text) → v ≡ some x → is_empty (trim_space x) ≡ true

pub choose_proxy-config :
    (v : Option Text) (s : Scan) (conf : LoadedConfig)
    → IsUnset v
    → s.proxy_from_flag ≡ false
    → conf.present ≡ true
    → is_empty (trim_space conf.proxy_url) ≡ false
    → choose_proxy v s conf ≡ (conf.proxy_url, config)
unfolding choose_proxy from_config
choose_proxy-config none s conf unset no_flag here filled = ground arith
choose_proxy-config (some x) s conf unset no_flag here filled = ground (arith, unset x refl)

-- With no proxy on the command line or in the environment, an accepted command has the configuration's.
pub parse_jail_verb-config :
    (os : System) (name : Text) (rest : List Text) (s : Scan) (conf : LoadedConfig) {cmd : Command}
    → scan name rest ≡ ok s
    → load_config os ≡ ok conf
    → s.proxy_from_flag ≡ false
    → IsUnset (os.lookup_env (codes "NETCAGE_PROXY"))
    → conf.present ≡ true
    → is_empty (trim_space conf.proxy_url) ≡ false
    → parse_jail_verb os name rest ≡ ok cmd
    → (parse_proxy os.parse_url conf.proxy_url ≡ ok cmd.proxy) × (cmd.proxy_source ≡ config)
parse_jail_verb-config os name rest s conf {cmd} scanned loaded no_flag unset here filled accepted =
    let (s', conf', e, e', h) = parse_jail_verb-chosen os name rest {cmd = cmd} accepted in
    let same : s' ≡ s = ok_injective (sym e ∙ scanned) in
    let same' : conf' ≡ conf = ok_injective (sym e' ∙ loaded) in
    let chosen : chosen_of os s' conf' ≡ (conf.proxy_url, config) =
      ap (λ x. chosen_of os x conf') same
      ∙ ap (chosen_of os s) same'
      ∙ choose_proxy-config (os.lookup_env (codes "NETCAGE_PROXY")) s conf unset no_flag here
          filled in
    let h' : resolve_proxy os (conf.proxy_url, config) ≡ ok (proxied cmd) =
      ap (resolve_proxy os) (sym chosen) ∙ h in
    resolve_proxy-of os (conf.proxy_url, config) h'
