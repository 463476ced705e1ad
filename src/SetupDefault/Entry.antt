-- ===== src/SetupDefault/Entry.antt =====
-- internal/setupdefault/setupdefault.go: the pure decisions, on entries, candidates and texts.
pub mod Reparse
use netcage.Base.{
  ℕ, Bool, true, false, ◌&&◌, ◌||◌, not, Option, none, some, List, [], ◌∷◌, ◌++◌, leb, ◌==◌,
  if◌then◌else◌, Result, ok, err,
}
use netcage.Text.{Text, codes, is_empty, trim_space, cut_prefix, has_prefix}
use netcage.Text.Numbers.{decimal}
use netcage.Cli.Command.{ProxyConfig, ParseError, join_host_port}
use netcage.Cli.Proxy.{Url, parse_proxy}
use netcage.Cli.Config.{ConfigView}
use netcage.DetectProxy.{Candidate}
use netcage.Jail.ProxyUrl.{escape, kept_in_user, kept_in_host}
use netcage.SetupDefault.Prompts.{EntryError, empty_entry, rejected}

-- `strings.Contains(s, "://")`.
unfoldable pub has_scheme : Text → Bool
has_scheme [] = false
has_scheme (c ∷ s) = has_prefix (codes "://") (c ∷ s) || has_scheme s

-- The user of the rebuilt URL: `url.UserPassword`, `url.User` or nil.
abbrev pub rebuilt_user : ProxyConfig → Option (Text × Option Text)
rebuilt_user p =
    if not (is_empty p.password)
    then some (p.username, some p.password)
    else if not (is_empty p.username)
    then some (p.username, none)
    else none

-- `Userinfo.String` and the sign behind it.
abbrev pub print_user : Option (Text × Option Text) → Text
print_user none = []
print_user (some (name, none)) = escape kept_in_user name ++ (b'@' ∷ [])
print_user (some (name, some pw)) =
    escape kept_in_user name ++ (b':' ∷ (escape kept_in_user pw ++ (b'@' ∷ [])))

-- The URL that `NormalizeProxyInput` rebuilds.
abbrev pub rebuilt : ProxyConfig → Url
rebuilt p = record {
  scheme = codes "socks5h";
  hostname = p.host;
  port = p.port;
  user = rebuilt_user p;
}

-- `URL.String`.
abbrev pub url_string : Url → Text
url_string u =
    u.scheme
    ++ (codes "://"
        ++ (print_user u.user ++ escape kept_in_host (join_host_port u.hostname u.port)))

-- The text of the rebuilt URL.
unfoldable pub canonical_url : ProxyConfig → Text
canonical_url p = url_string (rebuilt p)

-- An entry without a scheme gets that of SOCKS5 with the names resolved by the proxy.
abbrev pub with_scheme : Text → Text
with_scheme s = if has_scheme s then s else codes "socks5h://" ++ s

abbrev pub canonical : Result ParseError ProxyConfig → Result EntryError Text
canonical (err e) = err (rejected e)
canonical (ok p) = ok (canonical_url p)

-- `NormalizeProxyInput`.
unfoldable pub normalize_proxy_input : (Text → Option Url) → Text → Result EntryError Text
normalize_proxy_input parse_url raw =
    if is_empty (trim_space raw)
    then err empty_entry
    else canonical (parse_proxy parse_url (with_scheme (trim_space raw)))

-- `candidateProxyURL`.
unfoldable pub candidate_proxy_url : ℕ → Text
candidate_proxy_url port = codes "socks5h://127.0.0.1:" ++ decimal port

unfoldable pub has_port : ℕ → List ℕ → Bool
has_port n [] = false
has_port n (m ∷ ms) = m == n || has_port n ms

-- `confirmedPorts`, behind the ports seen.
unfoldable pub confirmed_after : List ℕ → List Candidate → List ℕ
confirmed_after seen [] = []
confirmed_after seen (c ∷ cs) = elim (c.socks5 && not (has_port c.port seen)) [
  | true ↦ c.port ∷ confirmed_after (c.port ∷ seen) cs
  | false ↦ confirmed_after seen cs
]

-- `confirmedPorts`.
abbrev pub confirmed_ports : List Candidate → List ℕ
confirmed_ports = confirmed_after []

unfoldable pub insert_int : ℕ → List ℕ → List ℕ
insert_int n [] = n ∷ []
insert_int n (m ∷ ms) = if leb n m then n ∷ m ∷ ms else m ∷ insert_int n ms

-- `sortedInts`.
unfoldable pub sorted_ints : List ℕ → List ℕ
sorted_ints [] = []
sorted_ints (n ∷ ns) = insert_int n (sorted_ints ns)

-- `WarningText`.
unfoldable pub warning_text : Text → Text
warning_text proxy_url =
    codes "WARNING: this installs "
    ++ (proxy_url
        ++ (codes " as netcage's DEFAULT proxy.\n"
            ++ (codes "From now on a bare `netcage run` uses this proxy with NO per-run reminder.\n"
                ++ (codes
                      "Run `netcage verify` any time to confirm which proxy you are on and that\n"
                    ++ codes "your exit IP is not your host's."))))

-- `prefillProxy`.
abbrev pub prefill_proxy : ConfigView → Text
prefill_proxy existing = if existing.present then existing.proxy_url else []

-- `existingAllowDirect`.
abbrev pub existing_allow_direct : ConfigView → List Text
existing_allow_direct existing = if existing.present then existing.allow_direct else []
