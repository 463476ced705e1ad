-- ===== src/Cli/Config/Write/Loads.antt =====
-- internal/cli/config.go: a configuration that was written, as it is read again.
use netcage.Base.{
  Bool-cases, false, if◌then◌else◌, true, Option, none, some, List, [], ◌∷◌, ◌++◌, ◌≡◌, refl, sym,
  map, ap, ◌∙◌, Result, ok, err, ◌>>◌, Result-cases, inl, inr, arith,
}
use netcage.Text.{Text, codes, is_empty}
use netcage.Cli.Allow.{DirectAllow, parse_allow_direct}
use netcage.Cli.Command.{ProxyConfig, ParseError}
use netcage.Cli.Proxy.{parse_proxy}
use netcage.Cli.System.{FileConfig, System, content}
use netcage.Cli.Config.{
  netcage_config_dir, config_path, load_allow, load_decoded, load_read, load_config,
}
use netcage.Cli.Config.Write.{
  empty_default, trim_space, Disk, Written, WriteError, persistable, check_entries, store_config,
  write_config,
}

check_entries-load :
    (path : Text) (raws : List Text)
    → check_entries raws ≡ ok tt
    → (entries : List DirectAllow) × (load_allow path raws ≡ ok entries)
      × (map parse_allow_direct raws ≡ map ok entries)
unfolding check_entries load_allow
check_entries-load path [] h = ([], refl, refl)
check_entries-load path (raw ∷ raws) h = elim (Result-cases (parse_allow_direct raw)) [
  | inl (entry, e) ↦
      let (entries, rest, each) = check_entries-load path raws (rw (e, check_entries) at h) in
      (entry ∷ entries, rw (e, load_allow, rest) refl, rw (e, each) refl)
  | inr (x, e) ↦ absurd (ground (arith, e, h))
]

persistable-ok :
    (r : Result ParseError ProxyConfig)
    → persistable r ≡ ok tt
    → (proxy : ProxyConfig) × (r ≡ ok proxy)
      × (is_empty proxy.username ≡ true)
      × (is_empty proxy.password ≡ true)
persistable-ok (err e) h = cc
persistable-ok (ok proxy) h = (proxy, refl, ground (arith, h), ground (arith, h))

pub then-ok :
    {B : Type 0} (check : Result WriteError (Unit {0})) (next : Result WriteError B) {b : B}
    → (check >> next) ≡ ok b
    → (check ≡ ok tt) × (next ≡ ok b)
then-ok (ok tt) next h = (refl, h)
then-ok (err e) next h = cc

config_path-dir :
    (os : System) (dir : Text)
    → netcage_config_dir os ≡ some dir
    → config_path os ≡ some (os.join_path (dir ∷ codes "config.json" ∷ []))
unfolding config_path
config_path-dir os dir h = rw (config_path, h) refl

store_config-ok :
    (os : System) (encode : FileConfig → Text) (disk : Disk) (dir : Option Text) (fc : FileConfig)
    (written : Written)
    → store_config os encode disk dir fc ≡ ok written
    → (d : Text) × (dir ≡ some d)
      × (written ≡ record {
        path = os.join_path (d ∷ codes "config.json" ∷ []);
        blob = encode fc ++ (b'\n' ∷ []);
      })
unfolding store_config
store_config-ok os encode disk none fc written h = cc
store_config-ok os encode disk (some d) fc written h = (d, refl, ground (arith, h))

load_config-read :
    (os : System) (path blob : Text) (fc : FileConfig) (entries : List DirectAllow)
    → config_path os ≡ some path
    → os.read_file path ≡ content blob
    → os.decode blob ≡ some fc
    → load_allow path fc.allow_direct ≡ ok entries
    → load_config os ≡ ok (record { present = true; proxy_url = fc.proxy; allow_direct = entries })
unfolding load_config load_read load_decoded
load_config-read os path blob fc entries at_path read decoded loaded =
    rw (load_config, at_path, read, load_read, decoded, load_decoded, loaded) refl

pub write_config-nonblank :
    (os : System) (encode : FileConfig → Text) (disk : Disk) (url : Text) (raws : List Text)
    (written : Written)
    → write_config os encode disk url raws ≡ ok written
    → is_empty (trim_space url) ≡ false
unfolding write_config
write_config-nonblank os encode disk url raws written accepted =
    elim (Bool-cases (is_empty (trim_space url))) [
      | inl blank ↦ absurd (ground (arith, rw (blank, write_config) at accepted))
      | inr filled ↦ filled
    ]

-- The decoder gives back what the encoder makes of these values, with a newline behind it.
abbrev pub DecodesBack : System → (FileConfig → Text) → Text → List Text → Type 0
DecodesBack os encode url raws =
    os.decode (encode (record { proxy = url; allow_direct = raws }) ++ (b'\n' ∷ []))
    ≡ some (record { proxy = url; allow_direct = raws })

-- A configuration that `WriteConfig` wrote loads again: if the file is read as it was written and the
-- decoder gives back what the encoder makes of the values that the writer was given, then loading gives
-- that proxy and, for each entry of the allowlist in its order, what the allow parser makes of it, and
-- the proxy is one that the command line accepts and that carries neither a user nor a password.
pub write_config-load :
    (os : System) (encode : FileConfig → Text) (disk : Disk) (url : Text) (raws : List Text)
    (written : Written)
    → write_config os encode disk url raws ≡ ok written
    → os.read_file written.path ≡ content written.blob
    → DecodesBack os encode url raws
    → (proxy : ProxyConfig) × (parse_proxy os.parse_url url ≡ ok proxy)
      × (is_empty proxy.username ≡ true)
      × (is_empty proxy.password ≡ true)
      × (entries : List DirectAllow) × (map parse_allow_direct raws ≡ map ok entries)
      × (load_config os ≡ ok (record { present = true; proxy_url = url; allow_direct = entries }))
unfolding write_config
write_config-load os encode disk url raws written accepted read decoded =
    let fc : FileConfig = record { proxy = url; allow_direct = raws } in
    let store = store_config os encode disk (netcage_config_dir os) fc in
    let set : Result WriteError (Unit {0}) =
      if is_empty (trim_space url) then err empty_default else ok tt in
    let (_, rest1) =
      then-ok set (persistable (parse_proxy os.parse_url url) >> (check_entries raws >> store))
        accepted in
    let (proxied, rest2) =
      then-ok (persistable (parse_proxy os.parse_url url)) (check_entries raws >> store) rest1 in
    let (checked, stored) = then-ok (check_entries raws) store rest2 in
    let (proxy, parsed, no_user, no_password) =
      persistable-ok (parse_proxy os.parse_url url) proxied in
    let (d, at_dir, same) =
      store_config-ok os encode disk (netcage_config_dir os) fc written stored in
    let (entries, loaded, each) = check_entries-load written.path raws checked in
    let at_path : written.path ≡ os.join_path (d ∷ codes "config.json" ∷ []) =
      ap (λ x. x.path) same in
    (
      proxy,
      parsed,
      no_user,
      no_password,
      entries,
      each,
      load_config-read os written.path written.blob fc entries
          (config_path-dir os d at_dir ∙ ap some (sym at_path)) read
          (ap (λ (x : Written). os.decode x.blob) same ∙ decoded) loaded,
    )
