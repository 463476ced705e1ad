-- ===== src/SetupDefault/Entry/Reparse.antt =====
-- internal/setupdefault/setupdefault.go: a normalised entry, as the proxy parser reads it again.
use netcage.Base.{
  ◌||◌, none, ◌≡◌, refl, sym, ap, ◌∙◌, false, Option, some, [], ◌∷◌, ok, Result-cases, Bool-cases,
  Option-cases, inl, inr, arith, ok_injective,
}
use netcage.Text.{
  is_space, Text, codes, is_empty, eqb, trim_space, trim_left, trim_right, keep_unless_blank,
}
use netcage.Cli.Command.{ProxyConfig}
use netcage.Cli.Proxy.{Url, username_of, password_of, proxy_of_url, parse_proxy}
use netcage.Text.Laws.{eqb_iff}
use netcage.SetupDefault.Entry.{
  rebuilt, url_string, rebuilt_user, canonical_url, with_scheme, normalize_proxy_input,
}

-- The user with an empty password, or an empty name without one, left out.
abbrev pub plain_user : Option (Text × Option Text) → Option (Text × Option Text)
plain_user none = none
plain_user (some ([], none)) = none
plain_user (some (c ∷ n, none)) = some (c ∷ n, none)
plain_user (some ([], some [])) = none
plain_user (some (c ∷ n, some [])) = some (c ∷ n, none)
plain_user (some (n, some (c ∷ w))) = some (n, some (c ∷ w))

abbrev pub plain_url : Url → Url
plain_url u = record u { user = plain_user u.user }

-- `url.Parse` reads the text back that `URL.String` writes of a URL that it read.
abbrev pub ReadsBack : (Text → Option Url) → Text → Type 0
ReadsBack parse_url raw =
    (u : Url) → parse_url raw ≡ some u → parse_url (url_string (plain_url u)) ≡ some (plain_url u)

abbrev proxy_url_at : Text → Text → Text → Option (Text × Option Text) → Url
proxy_url_at scheme host port user = record {
  scheme = scheme;
  hostname = host;
  port = port;
  user = user;
}

-- A URL of the one scheme.
abbrev proxy_url : Text → Text → Option (Text × Option Text) → Url
proxy_url = proxy_url_at (codes "socks5h")

accepted_proxy :
    (raw host port : Text) (user : Option (Text × Option Text)) {p : ProxyConfig}
    → proxy_of_url raw (proxy_url host port user) ≡ ok p
    → p ≡ record {
      host = host;
      port = port;
      username = username_of user;
      password = password_of user;
    }
unfolding proxy_of_url eqb codes
accepted_proxy raw host port user h = elim (Bool-cases (is_empty host || is_empty port)) [
  | inl e ↦ absurd (ground (arith, rw (e) at h))
  | inr e ↦ sym (ok_injective (rw (e) at h))
]

rebuilt_user-plain :
    (host port : Text) (user : Option (Text × Option Text))
    → rebuilt_user (record {
      host = host;
      port = port;
      username = username_of user;
      password = password_of user;
    })
      ≡ plain_user user
unfolding codes
rebuilt_user-plain host port none = refl
rebuilt_user-plain host port (some ([], none)) = refl
rebuilt_user-plain host port (some (c ∷ n, none)) = refl
rebuilt_user-plain host port (some ([], some [])) = refl
rebuilt_user-plain host port (some (c ∷ n, some [])) = refl
rebuilt_user-plain host port (some ([], some (d ∷ w))) = refl
rebuilt_user-plain host port (some (c ∷ n, some (d ∷ w))) = refl

proxy_of_url-scheme :
    (raw : Text) (u : Url) {p : ProxyConfig}
    → proxy_of_url raw u ≡ ok p
    → u.scheme ≡ codes "socks5h"
unfolding proxy_of_url
proxy_of_url-scheme raw u h = elim (Bool-cases (eqb u.scheme (codes "socks5h"))) [
  | inl e ↦ (eqb_iff u.scheme (codes "socks5h")).0 e
  | inr e ↦ absurd (ground (arith, h, e))
]

-- The rebuilt URL of an accepted one is that URL with its user in plain form.
rebuilt-plain :
    (raw : Text) (u : Url) {p : ProxyConfig} → proxy_of_url raw u ≡ ok p → rebuilt p ≡ plain_url u
rebuilt-plain raw u {p} h =
    let at_scheme = proxy_of_url-scheme raw u h in
    let whole : u ≡ proxy_url u.hostname u.port u.user =
      ap (λ t. proxy_url_at t u.hostname u.port u.user) at_scheme in
    let same =
      accepted_proxy raw u.hostname u.port u.user (ap (proxy_of_url raw) (sym whole) ∙ h) in
    ap rebuilt same
    ∙ (ap (λ user. proxy_url u.hostname u.port user) (rebuilt_user-plain u.hostname u.port u.user)
        ∙ ap plain_url (sym whole))

keep-nonempty : (s : Text) → is_empty (keep_unless_blank b's' s) ≡ false
unfolding is_space
keep-nonempty [] = refl
keep-nonempty (c ∷ s) = refl

trim-nonempty : (s : Text) → is_empty (trim_space (b's' ∷ s)) ≡ false
unfolding trim_space trim_left trim_right is_space
trim-nonempty s = keep-nonempty (trim_right s)

canonical_url-nonblank : (p : ProxyConfig) → is_empty (trim_space (canonical_url p)) ≡ false
unfolding canonical_url codes
canonical_url-nonblank p = trim-nonempty _

rebuilt-accepted :
    (raw host port name password : Text)
    → is_empty host ≡ false
    → is_empty port ≡ false
    → let p : ProxyConfig = record {
      host = host;
      port = port;
      username = name;
      password = password;
    } in
      proxy_of_url raw (rebuilt p) ≡ ok p
unfolding proxy_of_url eqb codes
rebuilt-accepted raw host port [] [] h k = rw (h, k) refl
rebuilt-accepted raw host port [] (c ∷ w) h k = rw (h, k) refl
rebuilt-accepted raw host port (c ∷ n) [] h k = rw (h, k) refl
rebuilt-accepted raw host port (c ∷ n) (d ∷ w) h k = rw (h, k) refl

proxy_of_url-filled :
    (raw : Text) (u : Url) {p : ProxyConfig}
    → proxy_of_url raw u ≡ ok p
    → (is_empty p.host ≡ false) × (is_empty p.port ≡ false)
unfolding proxy_of_url
proxy_of_url-filled raw u h = ground arith

parse_proxy-url :
    (parse_url : Text → Option Url) (raw : Text) {p : ProxyConfig}
    → parse_proxy parse_url raw ≡ ok p
    → (u : Url) × (parse_url raw ≡ some u) × (proxy_of_url raw u ≡ ok p)
unfolding parse_proxy
parse_proxy-url parse_url raw {p} h = elim (Option-cases (parse_url raw)) [
  | inl e ↦ absurd (ground (arith, h, e))
  | inr (u, e) ↦ elim (Bool-cases (is_empty (trim_space raw))) [
    | inl blank ↦ absurd (ground (arith, h, blank))
    | inr filled ↦
        let h' : proxy_of_url raw u ≡ ok p = rw (e, filled, parse_proxy) at h in (u, e, h')
  ]
]

parse_proxy-of :
    (parse_url : Text → Option Url) (raw : Text) (u : Url)
    → is_empty (trim_space raw) ≡ false
    → parse_url raw ≡ some u
    → parse_proxy parse_url raw ≡ proxy_of_url raw u
unfolding parse_proxy
parse_proxy-of parse_url raw u filled e = rw (parse_proxy, filled, e) refl

-- If `url.Parse` reads back the text of a URL that it read from the entry, then an entry that is
-- accepted is one whose text, behind the default scheme where it has none, is a proxy of the command
-- line, and the normalised text is read as the very same proxy, its user and its password included.
pub normalize_proxy_input-reparse :
    (parse_url : Text → Option Url) (raw : Text) (url : Text)
    → ReadsBack parse_url (with_scheme (trim_space raw))
    → normalize_proxy_input parse_url raw ≡ ok url
    → (p : ProxyConfig) × (parse_proxy parse_url (with_scheme (trim_space raw)) ≡ ok p)
      × (parse_proxy parse_url url ≡ ok p)
unfolding normalize_proxy_input canonical_url
normalize_proxy_input-reparse parse_url raw url reads h =
    let entry = with_scheme (trim_space raw) in
    elim (Bool-cases (is_empty (trim_space raw))) [
      | inl blank ↦ absurd (ground (arith, h, blank))
      | inr filled ↦ elim (Result-cases (parse_proxy parse_url entry)) [
        | inl (p, e) ↦
            let (u, read, accepted) = parse_proxy-url parse_url entry e in
            let plain = rebuilt-plain entry u accepted in
            let (host, port) = proxy_of_url-filled entry u accepted in
            let h' : ok (canonical_url p) ≡ ok url = rw (filled, e, normalize_proxy_input) at h in
            let back : parse_url (canonical_url p) ≡ some (rebuilt p) =
              ap (λ v. parse_url (url_string v)) plain ∙ (reads u read ∙ ap some (sym plain)) in
            let again : parse_proxy parse_url (canonical_url p) ≡ ok p =
              parse_proxy-of parse_url (canonical_url p) (rebuilt p) (canonical_url-nonblank p) back
              ∙ rebuilt-accepted (canonical_url p) p.host p.port p.username p.password host port in
            (p, e, ap (parse_proxy parse_url) (sym (ok_injective h')) ∙ again)
        | inr (x, e) ↦ absurd (ground (arith, h, filled, e))
      ]
    ]
