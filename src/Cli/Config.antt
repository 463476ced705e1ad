-- ===== src/Cli/Config.antt =====
-- internal/cli/config.go: the persisted configuration, as it is read.
pub mod Write
use netcage.Base.{
  Bool, true, false, Option, none, some, List, [], ◌∷◌, if◌then◌else◌, Result, ok, err, ◌>>=◌,
}
use netcage.Text.{Text, codes, is_empty}
use netcage.Cli.Allow.{DirectAllow, parse_allow_direct}
use netcage.Cli.Command.{ParseError, config_unreadable, config_not_json, config_allow}
use netcage.Cli.System.{FileRead, content, not_exist, unreadable, FileConfig, System}

-- `loadedConfig`.
pub record LoadedConfig : Type 0 where
  pub present : Bool
  pub proxy_url : Text
  pub allow_direct : List DirectAllow

abbrev pub no_config : LoadedConfig
no_config = record { present = false; proxy_url = []; allow_direct = [] }

-- `ConfigView`.
pub record ConfigView : Type 0 where
  pub present : Bool
  pub proxy_url : Text
  pub allow_direct : List Text

-- A variable that is set, and not to the empty text.
abbrev set_value : Option Text → Option Text
set_value none = none
set_value (some x) = if is_empty x then none else some x

-- The loop of `loadConfig` over the entries of the allowlist.
unfoldable pub load_allow : Text → List Text → Result ParseError (List DirectAllow)
load_allow path [] = ok []
load_allow path (raw ∷ raws) = elim (parse_allow_direct raw) [
  | err e ↦ err (config_allow path e)
  | ok entry ↦ load_allow path raws >>= λ entries. ok (entry ∷ entries)
]

module _ (os : System) where
  -- `netcageConfigDir`.
  unfoldable pub netcage_config_dir : Option Text
  netcage_config_dir = elim (set_value (os.lookup_env (codes "XDG_CONFIG_HOME"))) [
    | some x ↦ some (os.join_path (x ∷ codes "netcage" ∷ []))
    | none ↦ elim (set_value (os.lookup_env (codes "HOME"))) [
      | some h ↦ some (os.join_path (h ∷ codes ".config" ∷ codes "netcage" ∷ []))
      | none ↦ none
    ]
  ]

  -- `ConfigPath`.
  unfoldable pub config_path : Option Text
  unfolding netcage_config_dir
  config_path = elim netcage_config_dir [
    | none ↦ none
    | some dir ↦ some (os.join_path (dir ∷ codes "config.json" ∷ []))
  ]

  -- The part of `loadConfig` behind the decoder.
  unfoldable pub load_decoded : Text → Option FileConfig → Result ParseError LoadedConfig
  load_decoded path none = err (config_not_json path)
  load_decoded path (some fc) = load_allow path fc.allow_direct >>= λ entries.
      ok (record { present = true; proxy_url = fc.proxy; allow_direct = entries })

  -- The part of `loadConfig` behind the read.
  unfoldable pub load_read : Text → FileRead → Result ParseError LoadedConfig
  unfolding load_decoded
  load_read path not_exist = ok no_config
  load_read path unreadable = err (config_unreadable path)
  load_read path (content bytes) = load_decoded path (os.decode bytes)

  -- `loadConfig`.
  unfoldable pub load_config : Result ParseError LoadedConfig
  load_config = elim config_path [
    | none ↦ ok no_config
    | some path ↦ load_read path (os.read_file path)
  ]

  abbrev view_of : Text → Option FileConfig → Result ParseError ConfigView
  view_of path none = err (config_not_json path)
  view_of path (some fc) =
      ok (record { present = true; proxy_url = fc.proxy; allow_direct = fc.allow_direct })

  abbrev no_view : ConfigView
  no_view = record { present = false; proxy_url = []; allow_direct = [] }

  -- `ReadConfigView`.
  unfoldable pub read_config_view : Result ParseError ConfigView
  unfolding config_path
  read_config_view = elim config_path [
    | none ↦ ok no_view
    | some path ↦ elim (os.read_file path) [
      | not_exist ↦ ok no_view
      | unreadable ↦ err (config_unreadable path)
      | content bytes ↦ view_of path (os.decode bytes)
    ]
  ]
