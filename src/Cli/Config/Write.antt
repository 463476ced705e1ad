-- ===== src/Cli/Config/Write.antt =====
-- internal/cli/config.go: `WriteConfig`, the one writer of the configuration.
pub mod Loads
use netcage.Base.{
  ℕ, Bool, true, false, not, ◌&&◌, ◌||◌, Option, none, some, List, [], ◌∷◌, ◌++◌, if◌then◌else◌,
  Result, ok, err, ◌>>=◌, ◌>>◌,
}
use netcage.Text.{Text, codes, is_empty, trim_space}
use netcage.Cli.Allow.{AllowError, parse_allow_direct}
use netcage.Cli.Command.{ProxyConfig, ParseError}
use netcage.Cli.Proxy.{parse_proxy}
use netcage.Cli.System.{FileConfig, System}
use netcage.Cli.Config.{netcage_config_dir}

pub data WriteError : Type 0 where
  empty_default : WriteError
  bad_proxy : ParseError → WriteError
  credentialed_proxy : WriteError
  bad_entry : Text → AllowError → WriteError
  no_config_dir : WriteError
  mkdir_failed write_failed chmod_failed : Text → WriteError

-- Whether the directory could be made, the file written and its mode set.
pub record Disk : Type 0 where
  pub makes : Bool
  pub writes : Bool
  pub modes : Bool

-- The file that was written.
pub record Written : Type 0 where
  pub path : Text
  pub blob : Text

abbrev pub persistable : Result ParseError ProxyConfig → Result WriteError (Unit {0})
persistable (err e) = err (bad_proxy e)
persistable (ok proxy) =
    if not (is_empty proxy.username) || not (is_empty proxy.password)
    then err credentialed_proxy
    else ok tt

-- The loop over the entries of the allowlist.
unfoldable pub check_entries : List Text → Result WriteError (Unit {0})
check_entries [] = ok tt
check_entries (raw ∷ raws) = elim (parse_allow_direct raw) [
  | err e ↦ err (bad_entry raw e)
  | ok entry ↦ check_entries raws
]

abbrev pub unless_failed : Bool → WriteError → Result WriteError (Unit {0})
unless_failed true e = ok tt
unless_failed false e = err e

module _ (os : System) (encode : FileConfig → Text) (disk : Disk) where
  -- The effects, in their order.
  unfoldable pub store_config : Option Text → FileConfig → Result WriteError Written
  store_config none fc = err no_config_dir
  store_config (some dir) fc =
      let path = os.join_path (dir ∷ codes "config.json" ∷ []) in
      unless_failed disk.makes (mkdir_failed dir)
      >> (unless_failed disk.writes (write_failed path)
          >> (unless_failed disk.modes (chmod_failed path)
              >> ok (record { path = path; blob = encode fc ++ (b'\n' ∷ []) })))

  -- `WriteConfig`; `encode` is the indented form of `encoding/json`, which has no error for this type.
  unfoldable pub write_config : Text → List Text → Result WriteError Written
  write_config proxy_url allow_direct =
      (if is_empty (trim_space proxy_url) then err empty_default else ok tt)
      >> (persistable (parse_proxy os.parse_url proxy_url)
          >> (check_entries allow_direct
              >> store_config (netcage_config_dir os)
                  (record { proxy = proxy_url; allow_direct = allow_direct })))
