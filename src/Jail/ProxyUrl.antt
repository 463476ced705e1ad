-- ===== src/Jail/ProxyUrl.antt =====
-- internal/jail/jail.go: `sidecarProxyURL`, with what it uses of `url.URL.String`.
use netcage.Base.{ℕ, ◌+◌, ◌-◌, ◌/◌, ◌%◌, Bool, ◌&&◌, ◌||◌, [], ◌∷◌, ◌++◌, leb, ltb, if◌then◌else◌}
use netcage.Text.{Text, codes, is_empty, contains}
use netcage.Jail.Config.{JailConfig, mapped_host_loopback}

upper_hex : ℕ → ℕ
upper_hex d = if ltb d 10 then b'0' + d else b'A' + (d - 10)

-- The bytes that `url` never escapes.
unreserved : ℕ → Bool
unfolding contains codes
unreserved c =
    (leb b'a' c && leb c b'z')
    || (leb b'A' c && leb c b'Z')
    || (leb b'0' c && leb c b'9')
    || contains c (codes "-_.~")

-- `escape`, all bytes that are neither unreserved nor in the text of the ones kept.
unfoldable pub escape : Text → Text → Text
unfolding upper_hex unreserved
escape kept [] = []
escape kept (c ∷ s) =
    if unreserved c || contains c kept
    then c ∷ escape kept s
    else b'%' ∷ upper_hex (c / 16) ∷ upper_hex (c % 16) ∷ escape kept s

-- What `url` keeps in user names and passwords, and in hosts.
abbrev pub kept_in_user : Text
kept_in_user = codes "$&+,;="

abbrev pub kept_in_host : Text
kept_in_host = codes "!$&'()*+,;=:[]<>\""

-- `Userinfo.String` and the sign behind it, where there is a user.
unfoldable pub user_part : Text → Text → Text
user_part name password =
    if is_empty name
    then []
    else if is_empty password
    then escape kept_in_user name ++ (b'@' ∷ [])
    else escape kept_in_user name ++ (b':' ∷ (escape kept_in_user password ++ (b'@' ∷ [])))

-- `sidecarProxyURL`.
unfoldable pub sidecar_proxy_url : JailConfig → Text
sidecar_proxy_url c =
    let host = if c.proxy_on_host_loopback then mapped_host_loopback else c.proxy.host in
    codes "socks5://"
    ++ (user_part c.proxy.username c.proxy.password
        ++ escape kept_in_host (host ++ (b':' ∷ c.proxy.port)))
