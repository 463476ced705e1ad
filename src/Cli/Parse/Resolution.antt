-- ===== src/Cli/Parse/Resolution.antt =====
-- What an accepted command line of run, verify or start has.
use mathlib.Core.Path.{subst}
use netcage.Base.{
  ℕ, true, false, ◌&&◌, ◌==◌, ◌⊎◌, All, pos, Option, none, some, List, [], ◌∷◌, ◌≡◌, refl, ap,
  Option-cases, Bool-cases, ok_injective, Result, ok, err, >>=-eq-ok, Result-cases, arith, inl, inr,
}
use netcage.Text.{Text, codes, eqb, trim_space}
use netcage.Cli.Allow.{
  DirectAllow, AllowError, parse_allow_direct, proxy_host_is_loopback, refuse_port,
  refuse_host_loopback_proxy_port,
}
use netcage.Text.Numbers.{atoi}
use netcage.Cli.Command.{Command, ProxyConfig, ProxySource}
use netcage.Cli.Scan.{Scan, scan}
use netcage.Cli.Scan.Vetted.{IsVetted, scan-IsVetted}
use netcage.Cli.Scan.Allowlist.{AllParsed, parse_allow_direct-IsParsed, scan-AllParsed}
use netcage.Cli.System.{FileConfig, FileRead, not_exist, unreadable, content, System}
use netcage.Cli.Config.{
  load_read, load_decoded, LoadedConfig, no_config, load_config, load_allow, config_path,
}
use netcage.Cli.Proxy.{parse_proxy}
use netcage.Cli.Parse.{
  choose_proxy, choose_allow, resolve_proxy, resolve_jail, parse_jail_verb, resolve_positionals,
  lift_allow, resolve_run_positionals, resolve_repo_mount_defaults, start_positionals,
  verify_positionals, reject_start_create_flags,
}

load_allow-AllParsed :
    (path : Text) (raws : List Text) {as' : List DirectAllow}
    → load_allow path raws ≡ ok as'
    → AllParsed as'
unfolding load_allow
load_allow-AllParsed path [] h = subst AllParsed (ok_injective h) tt
load_allow-AllParsed path (raw ∷ raws) h = elim (Result-cases (parse_allow_direct raw)) [
  | inl (a, e) ↦
      let (rest, e1, e2) =
        >>=-eq-ok (load_allow path raws) (λ entries. ok (a ∷ entries)) (rw (e, load_allow) at h) in
      subst AllParsed (ok_injective e2)
        (parse_allow_direct-IsParsed raw e, load_allow-AllParsed path raws e1)
  | inr (x, e) ↦ absurd (ground arith)
]

load_decoded-AllParsed :
    (os : System) (path : Text) (o : Option FileConfig) {c : LoadedConfig}
    → load_decoded os path o ≡ ok c
    → AllParsed c.allow_direct
unfolding load_decoded
load_decoded-AllParsed os path none h = cc
load_decoded-AllParsed os path (some fc) h =
    let (entries, e, e') =
      >>=-eq-ok (load_allow path fc.allow_direct)
        (λ entries. ok (record { present = true; proxy_url = fc.proxy; allow_direct = entries }))
        h in
    subst (λ c. AllParsed c.allow_direct) (ok_injective e')
      (load_allow-AllParsed path fc.allow_direct e)

load_read-AllParsed :
    (os : System) (path : Text) (r : FileRead) {c : LoadedConfig}
    → load_read os path r ≡ ok c
    → AllParsed c.allow_direct
unfolding load_read
load_read-AllParsed os path not_exist h = subst (λ c. AllParsed c.allow_direct) (ok_injective h) tt
load_read-AllParsed os path unreadable h = cc
load_read-AllParsed os path (content bytes) h = load_decoded-AllParsed os path (os.decode bytes) h

load_config-AllParsed :
    (os : System) {c : LoadedConfig} → load_config os ≡ ok c → AllParsed c.allow_direct
unfolding load_config
load_config-AllParsed os {c} h = elim (Option-cases (config_path os)) [
  | inl e ↦
      let h' : ok no_config ≡ ok c = rw (e, load_config) at h in
      subst (λ c. AllParsed c.allow_direct) (ok_injective h') tt
  | inr (path, e) ↦
      let h' : load_read os path (os.read_file path) ≡ ok c = rw (e, load_config) at h in
      load_read-AllParsed os path (os.read_file path) h'
]

choose_allow-AllParsed :
    (s : Scan) (c : LoadedConfig)
    → AllParsed s.cmd.allow_direct
    → AllParsed c.allow_direct
    → AllParsed (choose_allow s c)
unfolding choose_allow
choose_allow-AllParsed s c h k = ground arith

-- The host's own loopback.
abbrev pub IsHostLoopback : Text → Type 0
IsHostLoopback host =
    (host ≡ codes "127.0.0.1") ⊎ ((host ≡ codes "::1") ⊎ (host ≡ codes "localhost"))

IsHostLoopback-seen : (host : Text) → IsHostLoopback host → proxy_host_is_loopback host ≡ true
unfolding proxy_host_is_loopback eqb codes
IsHostLoopback-seen host (inl e) = rw (e) refl
IsHostLoopback-seen host (inr (inl e)) = rw (e) refl
IsHostLoopback-seen host (inr (inr e)) = rw (e) refl

refuse_port-off :
    (allows : List DirectAllow) (port : ℕ)
    → refuse_port allows (pos port) ≡ ok tt
    → All (λ a. (a.host_loopback && a.port == port) ≡ false) allows
unfolding refuse_port
refuse_port-off [] port h = tt
refuse_port-off (a ∷ as') port h = elim (Bool-cases (a.host_loopback && a.port == port)) [
  | inl e ↦ absurd (ground (arith, rw (e) at h))
  | inr e ↦ (e, refuse_port-off as' port (rw (e) at h))
]

refused_port-off :
    (allows : List DirectAllow) (host text : Text) (port : ℕ)
    → IsHostLoopback host
    → atoi (trim_space text) ≡ some (pos port)
    → refuse_host_loopback_proxy_port allows host text ≡ ok tt
    → All (λ a. (a.host_loopback && a.port == port) ≡ false) allows
unfolding refuse_host_loopback_proxy_port
refused_port-off allows host text port on_host at_port h =
    refuse_port-off allows port (rw (IsHostLoopback-seen host on_host, at_port) at h)

-- What holds of the proxy, the direct destinations and the pass-through flags of an accepted command.
pub record ResolvedParts (os : System) (p : ProxyConfig) (allows : List DirectAllow)
    (flags : List Text) : Type 0 where
  pub raw : Text
  pub proxy_accepted : parse_proxy os.parse_url raw ≡ ok p
  pub allow_parsed : AllParsed allows
  pub off_proxy_port :
      (port : ℕ)
      → IsHostLoopback p.host
      → atoi (trim_space p.port) ≡ some (pos port)
      → All (λ a. (a.host_loopback && a.port == port) ≡ false) allows
  pub vetted : IsVetted flags

abbrev pub Resolved : System → Command → Type 0
Resolved os cmd = ResolvedParts os cmd.proxy cmd.allow_direct cmd.pass_through_flags

pub resolve_proxy-ok :
    (os : System) (chosen : Text × ProxySource) {p : ProxyConfig} {source : ProxySource}
    → resolve_proxy os chosen ≡ ok (p, source)
    → parse_proxy os.parse_url chosen.0 ≡ ok p
unfolding resolve_proxy
resolve_proxy-ok os (raw, source) h = ground arith

lift_allow-ok : {A : Type 0} (r : Result AllowError A) {a : A} → lift_allow r ≡ ok a → r ≡ ok a
lift_allow-ok (ok x) h = ap ok (ok_injective h)
lift_allow-ok (err e) h = cc

resolve_jail-Resolved :
    (os : System) (s : Scan) (conf : LoadedConfig) {cmd : Command}
    → AllParsed s.cmd.allow_direct
    → AllParsed conf.allow_direct
    → IsVetted s.cmd.pass_through_flags
    → resolve_jail os s conf ≡ ok cmd
    → Resolved os cmd
unfolding resolve_jail
resolve_jail-Resolved os s conf hs hc v h =
    let chosen = choose_proxy (os.lookup_env (codes "NETCAGE_PROXY")) s conf in
    let allows = choose_allow s conf in
    let ((p, source), e, h1) = >>=-eq-ok (resolve_proxy os chosen) _ h in
    let (u, e2, h2) =
      >>=-eq-ok (lift_allow (refuse_host_loopback_proxy_port allows p.host p.port)) _ h1 in
    subst (Resolved os) (ok_injective h2) (record {
      raw = chosen.0;
      proxy_accepted = resolve_proxy-ok os chosen e;
      allow_parsed = choose_allow-AllParsed s conf hs hc;
      off_proxy_port = λ port on_host at_port.
          refused_port-off allows p.host p.port port on_host at_port
            (lift_allow-ok (refuse_host_loopback_proxy_port allows p.host p.port) e2);
      vetted = v;
    })

resolve_run_positionals-Resolved :
    (os : System) (c : Command) (ps : List Text)
    → Resolved os c
    → Resolved os (resolve_repo_mount_defaults (resolve_run_positionals c ps))
unfolding resolve_repo_mount_defaults resolve_run_positionals
resolve_run_positionals-Resolved os c [] r = r
resolve_run_positionals-Resolved os c (p ∷ ps) r = r

start_positionals-Resolved :
    (os : System) (c : Command) (ps : List Text) {cmd : Command}
    → Resolved os c
    → start_positionals c ps ≡ ok cmd
    → Resolved os cmd
unfolding start_positionals
start_positionals-Resolved os c [] r h = cc
start_positionals-Resolved os c (p ∷ []) r h =
    let named = record c { start_name = p } in
    let (u, e, h') = >>=-eq-ok (reject_start_create_flags named) (λ _. ok named) h in
    subst (Resolved os) (ok_injective h') r
start_positionals-Resolved os c (p ∷ q ∷ ps) r h = cc

verify_positionals-Resolved :
    (os : System) (c : Command) (ps : List Text) {cmd : Command}
    → Resolved os c
    → verify_positionals c ps ≡ ok cmd
    → Resolved os cmd
unfolding verify_positionals
verify_positionals-Resolved os c [] r h = subst (Resolved os) (ok_injective h) r
verify_positionals-Resolved os c (p ∷ ps) r h = cc

resolve_positionals-Resolved :
    (os : System) (name : Text) (c : Command) (ps : List Text) {cmd : Command}
    → Resolved os c
    → resolve_positionals name c ps ≡ ok cmd
    → Resolved os cmd
unfolding resolve_positionals
resolve_positionals-Resolved os name c ps {cmd} r h = elim (Bool-cases (eqb name (codes "run"))) [
  | inl e ↦
      let h' : ok (resolve_repo_mount_defaults (resolve_run_positionals c ps)) ≡ ok cmd =
        rw (e) at h in
      subst (Resolved os) (ok_injective h') (resolve_run_positionals-Resolved os c ps r)
  | inr e ↦ elim (Bool-cases (eqb name (codes "start"))) [
    | inl f ↦
        let h' : start_positionals c ps ≡ ok cmd = rw (e, f) at h in
        start_positionals-Resolved os c ps {cmd = cmd} r h'
    | inr f ↦
        let h' : verify_positionals c ps ≡ ok cmd = rw (e, f) at h in
        verify_positionals-Resolved os c ps {cmd = cmd} r h'
  ]
]

-- For run, verify and start, whatever the environment, the configuration file and the flags hold: an
-- accepted command line has a proxy that the proxy parser accepts, direct destinations each of which the
-- allow parser accepts, of which none opens, on the host's loopback, the port of a proxy that is there,
-- and pass-through flags that are all of the vetted set.
pub parse_jail_verb-Resolved :
    (os : System) (name : Text) (rest : List Text) {cmd : Command}
    → parse_jail_verb os name rest ≡ ok cmd
    → Resolved os cmd
unfolding parse_jail_verb
parse_jail_verb-Resolved os name rest {cmd} h =
    let (s, e, h1) = >>=-eq-ok (scan name rest) _ h in
    let (conf, e2, h2) = >>=-eq-ok (load_config os) _ h1 in
    let (c, e3, h3) = >>=-eq-ok (resolve_jail os s conf) _ h2 in
    resolve_positionals-Resolved os name c s.positionals {cmd = cmd}
      (resolve_jail-Resolved os s conf {cmd = c} (scan-AllParsed name rest e)
        (load_config-AllParsed os e2) (scan-IsVetted name rest e) e3)
      h3
