-- ===== src/Cli/Proxy/Scheme.antt =====
-- The URL behind an accepted proxy.
use netcage.Base.{◌≡◌, ◌≢◌, inl, inr, some, Option, Option-cases, ok, arith, []}
use netcage.Text.{Text, codes}
use netcage.Text.Laws.{eqb_iff}
use netcage.Cli.Command.{ProxyConfig}
use netcage.Cli.Proxy.{Url, proxy_of_url, parse_proxy}

-- The conditions under which a parsed URL is accepted as the proxy `p`.
pub record IsProxyUrl (u : Url) (p : ProxyConfig) : Type 0 where
  pub is_socks5h : u.scheme ≡ codes "socks5h"
  pub host_same : p.host ≡ u.hostname
  pub port_same : p.port ≡ u.port
  pub host_ne : p.host ≢ []
  pub port_ne : p.port ≢ []

proxy_of_url-IsProxyUrl :
    (raw : Text) (u : Url) {p : ProxyConfig} → proxy_of_url raw u ≡ ok p → IsProxyUrl u p
unfolding proxy_of_url
proxy_of_url-IsProxyUrl raw u h = ground (arith, eqb_iff u.scheme (codes "socks5h"))

-- An accepted proxy comes from a socks5h URL, has the host and the port of that URL, and neither of
-- the two is empty.
pub parse_proxy-IsProxyUrl :
    (parse_url : Text → Option Url) (raw : Text) {p : ProxyConfig}
    → parse_proxy parse_url raw ≡ ok p
    → (u : Url) × (parse_url raw ≡ some u) × IsProxyUrl u p
unfolding parse_proxy
parse_proxy-IsProxyUrl parse_url raw {p} h = elim (Option-cases (parse_url raw)) [
  | inl e ↦ absurd (ground arith)
  | inr (u, e) ↦ (u, e, proxy_of_url-IsProxyUrl raw u (ground arith))
]
