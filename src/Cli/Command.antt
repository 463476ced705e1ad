-- ===== src/Cli/Command.antt =====
-- internal/cli/cli.go: the parsed command, the errors of the parser, and the small helpers.
use netcage.Base.{◌++◌, if◌then◌else◌, ℕ, Bool, false, ◌||◌, none, some, List, [], ◌∷◌, ℤ}
use netcage.Text.{contains, Text, codes, eqb, member, cut}
use netcage.Cli.Allow.{DirectAllow, AllowError, proxy_host_is_loopback}

-- `ProxyConfig`.
pub record ProxyConfig : Type 0 where
  pub host : Text
  pub port : Text
  pub username : Text
  pub password : Text

-- A host and a port as `net.JoinHostPort` writes them.
abbrev pub join_host_port : Text → Text → Text
join_host_port host port =
    if contains b':' host then b'[' ∷ (host ++ codes "]:" ++ port) else host ++ (b':' ∷ port)

-- `ProxyConfig.Address`.
abbrev pub address : ProxyConfig → Text
address p = join_host_port p.host p.port

-- `ProxySource`; `unset` is the empty string.
pub data ProxySource : Type 0 where
  unset flag env config : ProxySource

-- The flags that take a value. `pass_through` carries the name under which the flag is passed on.
pub data ValueFlag : Type 0 where
  proxy volume workdir env_var user entrypoint allow : ValueFlag
  pass_through : Text → ValueFlag

-- Which create-time flag `start` refuses.
pub data CreateFlag : Type 0 where
  mounts workdir env user entrypoint pass_through : CreateFlag

-- The errors of the parser, with the values that their messages name.
pub data ParseError : Type 0 where
  no_subcommand : ParseError
  unknown_subcommand : Text → ParseError
  flag_not_allowed : Text → ParseError
  requires_value : ValueFlag → ParseError
  bad_allow : AllowError → ParseError
  unknown_flag : Text → ParseError
  config_unreadable : Text → ParseError
  config_not_json : Text → ParseError
  config_allow : Text → AllowError → ParseError
  no_proxy : ParseError
  empty_proxy : ParseError
  invalid_proxy_url : Text → ParseError
  socks5_leaks : ParseError
  unsupported_scheme : Text → ParseError
  host_and_port_missing : Text → ParseError
  start_requires_name : ParseError
  start_takes_one : List Text → ParseError
  start_rejects : CreateFlag → ParseError
  verify_takes_none : List Text → ParseError
  takes_no_proxy : Text → ParseError
  bind_requires_value : ParseError
  bind_not_allowed : Text → ParseError
  forward_takes_two : List Text → ParseError
  port_not_a_number : Text → ParseError
  port_out_of_range : ℤ → ParseError
  too_many_colons : Text → ParseError
  ports_takes_one : List Text → ParseError
  takes_no_positional : Text → Text → ParseError

-- `Command`.
pub record Command : Type 0 where
  pub name : Text
  pub proxy : ProxyConfig
  pub proxy_source : ProxySource
  pub image : Text
  pub tool_argv : List Text
  pub mounts : List Text
  pub start_name : Text
  pub manage_argv : List Text
  pub interactive : Bool
  pub tty : Bool
  pub json : Bool
  pub rm : Bool
  pub workdir : Text
  pub env : List Text
  pub user : Text
  pub entrypoint : Text
  pub pass_through_flags : List Text
  pub forward_container : Text
  pub forward_port : ℕ
  pub forward_host_port : ℕ
  pub forward_bind : Text
  pub ports_container : Text
  pub allow_direct : List DirectAllow

abbrev pub no_proxy_config : ProxyConfig
no_proxy_config = record { host = []; port = []; username = []; password = [] }

-- `Command{Name: name}`: the other fields have their zero values.
abbrev pub command : Text → Command
command n = record {
  name = n;
  proxy = no_proxy_config;
  proxy_source = unset;
  image = [];
  tool_argv = [];
  mounts = [];
  start_name = [];
  manage_argv = [];
  interactive = false;
  tty = false;
  json = false;
  rm = false;
  workdir = [];
  env = [];
  user = [];
  entrypoint = [];
  pass_through_flags = [];
  forward_container = [];
  forward_port = 0;
  forward_host_port = 0;
  forward_bind = [];
  ports_container = [];
  allow_direct = [];
}

-- `managementVerbs`.
unfoldable pub management_verbs : List Text
management_verbs =
    codes "ps"
    ∷ codes "logs"
    ∷ codes "inspect"
    ∷ codes "exec"
    ∷ codes "stop"
    ∷ codes "rm"
    ∷ codes "images"
    ∷ codes "commit"
    ∷ codes "build"
    ∷ codes "pull"
    ∷ codes "load"
    ∷ []

-- `IsManagementVerb`.
unfoldable pub is_management_verb : Text → Bool
is_management_verb name = member name management_verbs

-- `Command.IsProxyless`.
unfoldable pub is_proxyless : Command → Bool
is_proxyless c =
    is_management_verb c.name
    || eqb c.name (codes "detect-proxy")
    || eqb c.name (codes "setup-default")
    || eqb c.name (codes "forward")
    || eqb c.name (codes "ports")

-- `Command.ProxyOnHostLoopback`.
unfoldable pub proxy_on_host_loopback : Command → Bool
proxy_on_host_loopback c = proxy_host_is_loopback c.proxy.host

-- The keys of `denyReasons`.
unfoldable pub deny_flags : List Text
deny_flags =
    codes "--network"
    ∷ codes "-p"
    ∷ codes "--publish"
    ∷ codes "--dns"
    ∷ codes "--privileged"
    ∷ codes "--cap-add"
    ∷ codes "--device"
    ∷ codes "--name"
    ∷ codes "--add-host"
    ∷ []

-- The keys of `passThroughValueFlags`.
unfoldable pub pass_through_value_flags : List Text
pass_through_value_flags =
    codes "--memory"
    ∷ codes "--cpus"
    ∷ codes "--memory-swap"
    ∷ codes "--tmpfs"
    ∷ codes "--hostname"
    ∷ codes "--pull"
    ∷ codes "--platform"
    ∷ codes "--env-file"
    ∷ codes "--ulimit"
    ∷ codes "--shm-size"
    ∷ []

-- `denyFlagName`.
unfoldable pub deny_flag_name : Text → Text
unfolding cut
deny_flag_name a = elim (cut b'=' a) [ none ↦ a | some (name, _) ↦ name ]

-- `denyFlag`.
unfoldable pub deny_flag : Text → Bool
deny_flag a = member (deny_flag_name a) deny_flags
