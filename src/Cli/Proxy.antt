-- ===== src/Cli/Proxy.antt =====
-- internal/cli/cli.go: the proxy URL. The parser of URLs is Go's `net/url`, a parameter.
pub mod Scheme
use netcage.Base.{
  arith, inl, Option-cases, [], ◌≢◌, ◌≡◌, Bool, true, false, ◌||◌, Option, none, some,
  if◌then◌else◌, Result, ok, err,
}
use netcage.Text.{Text, codes, eqb, is_empty, trim_space}
use netcage.Cli.Command.{
  ProxyConfig, ParseError, empty_proxy, invalid_proxy_url, socks5_leaks, unsupported_scheme,
  host_and_port_missing,
}

-- What the program reads of a `url.URL`: the user with its password, where either is set.
pub record Url : Type 0 where
  pub scheme : Text
  pub hostname : Text
  pub port : Text
  pub user : Option (Text × Option Text)

abbrev pub username_of : Option (Text × Option Text) → Text
username_of none = codes ""
username_of (some (name, _)) = name

abbrev pub password_of : Option (Text × Option Text) → Text
password_of none = codes ""
password_of (some (_, none)) = codes ""
password_of (some (_, some pw)) = pw

-- The part of `ParseProxy` behind `url.Parse`.
unfoldable pub proxy_of_url : Text → Url → Result ParseError ProxyConfig
proxy_of_url raw u =
    if eqb u.scheme (codes "socks5h")
    then (if is_empty u.hostname || is_empty u.port
        then err (host_and_port_missing raw)
        else ok (record {
          host = u.hostname;
          port = u.port;
          username = username_of u.user;
          password = password_of u.user;
        }))
    else if eqb u.scheme (codes "socks5")
    then err socks5_leaks
    else err (unsupported_scheme u.scheme)

module _ (parse_url : Text → Option Url) where
  -- `ParseProxy`.
  unfoldable pub parse_proxy : Text → Result ParseError ProxyConfig
  parse_proxy raw =
      if is_empty (trim_space raw)
      then err empty_proxy
      else elim (parse_url raw) [ none ↦ err (invalid_proxy_url raw) | some u ↦ proxy_of_url raw u ]
