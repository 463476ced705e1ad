-- ===== src/Cli/System.antt =====
-- What the command line reads from outside of the repository: the environment, the file system, and
-- the parsers of Go's `net/url`, `encoding/json` and `path/filepath`.
use netcage.Base.{Option, List}
use netcage.Text.{Text}
use netcage.Cli.Proxy.{Url}

-- The outcome of `os.ReadFile`.
pub data FileRead : Type 0 where
  content : Text → FileRead
  not_exist : FileRead
  unreadable : FileRead

-- `fileConfig`: the shape of config.json.
pub record FileConfig : Type 0 where
  pub proxy : Text
  pub allow_direct : List Text

pub record System : Type 0 where
  -- `os.LookupEnv`
  pub lookup_env : Text → Option Text
  -- `os.ReadFile`
  pub read_file : Text → FileRead
  -- The decoder of `fileConfig`, with unknown fields refused.
  pub decode : Text → Option FileConfig
  -- `filepath.Join`
  pub join_path : List Text → Text
  -- `url.Parse`
  pub parse_url : Text → Option Url
