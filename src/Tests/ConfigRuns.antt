-- ===== src/Tests/ConfigRuns.antt =====
-- A configuration written and read, and the ports of detect-proxy.
use netcage.Base.{
  ℕ, zero, suc, length, map, ◌++◌, true, Option, none, some, List, [], ◌∷◌, ◌≡◌, refl, ok, err,
  ◌==◌, if◌then◌else◌,
}
use netcage.Text.{Text, codes, is_empty}
use netcage.Cli.Allow.{DirectAllow, parse_allow_direct}
use netcage.Cli.Command.{ProxyConfig}
use netcage.Cli.Proxy.{parse_proxy}
use netcage.Cli.System.{System, FileConfig, content}
use netcage.Cli.Config.{load_config}
use netcage.Cli.Config.Write.{Disk, Written, write_config, empty_default}
use netcage.Cli.Config.Write.Loads.{DecodesBack, write_config-load}
use netcage.DnsForwarder.{read_full}
use netcage.DetectProxy.{PortSpec, default_ports, probe, dial_probe, any_confirmed, human}
use netcage.Tests.ParseRuns.{tor_url}

abbrev pub url : Text
url = codes "socks5h://127.0.0.1:9050"

abbrev entries : List Text
entries = codes "192.168.1.150:8080" ∷ []

-- A coder: each text behind its length, with the number of the entries.
abbrev coded_texts : List Text → Text
coded_texts [] = []
coded_texts (t ∷ ts) = length t ∷ (t ++ coded_texts ts)

abbrev pub encoded : FileConfig → Text
encoded fc = length fc.proxy ∷ (fc.proxy ++ (length fc.allow_direct ∷ coded_texts fc.allow_direct))

abbrev map_some : {A B : Type 0} → (A → B) → Option A → Option B
map_some f none = none
map_some f (some a) = some (f a)

abbrev one_more : Option (Text × Text) → (Text → Option (List Text)) → Option (List Text)
one_more none f = none
one_more (some (t, s)) f = map_some (λ ts. t ∷ ts) (f s)

unfoldable pub decoded_texts : ℕ → Text → Option (List Text)
unfolding read_full
decoded_texts zero s = some []
decoded_texts (suc n) [] = none
decoded_texts (suc n) (k ∷ s) = one_more (read_full k s) (decoded_texts n)

abbrev decoded_rest : Option (Text × Text) → Option FileConfig
decoded_rest none = none
decoded_rest (some (proxy, [])) = none
decoded_rest (some (proxy, n ∷ s)) =
    map_some (λ ts. record { proxy = proxy; allow_direct = ts }) (decoded_texts n s)

unfoldable pub decoded : Text → Option FileConfig
unfolding read_full decoded_texts
decoded [] = none
decoded (k ∷ s) = decoded_rest (read_full k s)

-- A home in which the written file is found.
abbrev pub home : System
home = record {
  lookup_env = λ _. some (codes "/home/u");
  read_file = λ _. content (encoded (record { proxy = url; allow_direct = entries }) ++ codes "\n");
  decode = decoded;
  join_path = λ _. codes "/home/u/netcage/config.json";
  parse_url = λ _. some tor_url;
}

abbrev pub fair : Disk
fair = record { makes = true; writes = true; modes = true }

-- The file that is written of these entries.
abbrev pub file_of : List Text → Written
file_of raws = record {
  path = codes "/home/u/netcage/config.json";
  blob = encoded (record { proxy = url; allow_direct = raws }) ++ codes "\n";
}

written : write_config home encoded fair url entries ≡ ok (file_of entries)
unfolding write_config netcage.Text.trim_space codes parse_proxy netcage.Cli.Proxy.proxy_of_url
    netcage.Text.eqb netcage.Cli.Config.Write.check_entries netcage.Cli.Allow.parse_allow_direct
    netcage.Cli.Allow.split_allow_direct_port netcage.Cli.Allow.allow_parts
    netcage.Cli.Allow.parse_host_to_network netcage.Cli.Allow.dispatch
    netcage.Cli.Allow.network_within_host_loopback netcage.Cli.Allow.within_some
    netcage.Cli.Allow.host_loopback_range netcage.Cli.Allow.last_addr netcage.Net.contains_ip
    netcage.Cli.Allow.network_within_private_ranges netcage.Cli.Allow.private_ranges
    netcage.Cli.Config.Write.store_config netcage.Cli.Config.netcage_config_dir
written = refl

read : home.read_file (file_of entries).path ≡ content (file_of entries).blob
read = refl

decodes : DecodesBack home encoded url entries
unfolding decoded decoded_texts read_full codes
decodes = refl

write_config-load_example :
    (proxy : ProxyConfig) × (parse_proxy home.parse_url url ≡ ok proxy)
    × (is_empty proxy.username ≡ true)
    × (is_empty proxy.password ≡ true)
    × (direct : List DirectAllow) × (map parse_allow_direct entries ≡ map ok direct)
    × (load_config home ≡ ok (record { present = true; proxy_url = url; allow_direct = direct }))
write_config-load_example =
    write_config-load home encoded fair url entries (file_of entries) written read decodes

refused : write_config home encoded fair (codes " ") [] ≡ err empty_default
unfolding write_config netcage.Text.trim_space codes
refused = refl

-- Only the second port answers, with a refusal of the method.
abbrev dial : ℕ → Option (Option (ℕ × ℕ))
dial port = if port == 9150 then some (some (5, 255)) else if port == 9050 then some none else none

confirmed : any_confirmed (probe (dial_probe dial (λ _. [])) default_ports) ≡ true
unfolding any_confirmed probe dial_probe netcage.DetectProxy.handshake
confirmed = refl
