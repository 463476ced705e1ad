-- ===== src/Tests/SetupRuns.antt =====
-- An onboarding whose first entry is refused, and the run behind it.
use netcage.Base.{length, if◌then◌else◌, ◌≡◌, refl, true, false, Option, none, some, [], ◌∷◌, ok}
use netcage.Text.{Text, codes, eqb, is_empty, trim_space}
use netcage.Cli.Command.{Command, command, ProxyConfig, config}
use mathlib.Core.Path.{subst}
use netcage.Cli.Proxy.{Url, parse_proxy}
use netcage.Cli.Scan.{Scan, scan}
use netcage.Cli.System.{System, content}
use netcage.Cli.Config.Write.Loads.{DecodesBack}
use netcage.Cli.Config.Write.{Written}
use netcage.Cli.Parse.{parse_jail_verb}
use netcage.Cli.Parse.Chosen.{IsUnset}
use netcage.SetupDefault.Prompts.{Session, Action}
use netcage.SetupDefault.Entry.{url_string, normalize_proxy_input, with_scheme}
use netcage.SetupDefault.Entry.Reparse.{plain_url, ReadsBack, normalize_proxy_input-reparse}
use netcage.SetupDefault.{Options, Outcome, saved, set_up}
use netcage.SetupDefault.Ends.{Ends, set_up-Ends}
use netcage.SetupDefault.Saved.{set_up-run}
use netcage.Tests.ConfigRuns.{home, fair, encoded, decoded, url, file_of}
use netcage.Tests.ParseRuns.{tor_url, tor_proxy}

-- Only the text of the proxy is a URL, and the environment has no proxy.
abbrev desk : System
desk = record home {
  lookup_env = λ name. if eqb name (codes "HOME") then some (codes "/home/u") else none;
  read_file = λ _. content (file_of []).blob;
  parse_url = λ t. if eqb t url then some tor_url else none;
}

abbrev first_time : Options
first_time = record {
  os = desk;
  encode = encoded;
  disk = λ _. fair;
  exit_ip = λ _ h. (h, none);
  candidates =
      record { port = 9050; is_open = true; socks5 = true; process_hint = [] }
      ∷ record { port = 9150; is_open = false; socks5 = false; process_hint = [] }
      ∷ [];
  config_path = codes "/home/u/netcage/config.json";
  existing = record { present = false; proxy_url = []; allow_direct = [] };
}

-- An entry that is refused, the proxy that was detected, and two answers.
abbrev typed : Session
typed = record { input = codes "nope\n\ny\n yes \n"; log = []; history = [] }

set_up_runs : (set_up first_time typed).1 ≡ ok (saved url (file_of []))
unfolding set_up netcage.SetupDefault.rounds netcage.SetupDefault.Prompts.and_then
    netcage.SetupDefault.round netcage.SetupDefault.choose_proxy netcage.SetupDefault.ask_proxy
    netcage.SetupDefault.Prompts.ask netcage.SetupDefault.Prompts.read_line
    netcage.SetupDefault.Entry.sorted_ints netcage.SetupDefault.Entry.confirmed_after
    netcage.SetupDefault.Entry.has_port netcage.SetupDefault.Entry.insert_int codes
    netcage.SetupDefault.entry_of trim_space netcage.SetupDefault.Prompts.next_line
    netcage.SetupDefault.Entry.normalize_proxy_input parse_proxy
    netcage.SetupDefault.Entry.has_scheme netcage.Text.has_prefix eqb
    netcage.SetupDefault.Entry.candidate_proxy_url netcage.Text.Numbers.decimal
    netcage.Cli.Proxy.proxy_of_url netcage.SetupDefault.settle_choice netcage.SetupDefault.gather
    netcage.SetupDefault.Entry.canonical_url netcage.Jail.ProxyUrl.escape netcage.SetupDefault.weigh
    netcage.SetupDefault.Prompts.confirm netcage.SetupDefault.write_if
    netcage.SetupDefault.Prompts.says_yes netcage.Jail.Setup.to_lower
    netcage.SetupDefault.warn_and_confirm netcage.SetupDefault.store_if netcage.SetupDefault.store
    netcage.Cli.Config.Write.write_config netcage.Cli.Config.Write.check_entries
    netcage.Cli.Config.Write.store_config netcage.Cli.Config.netcage_config_dir
set_up_runs = refl

set_up-Ends_example : Ends (length typed.input) (set_up first_time typed)
set_up-Ends_example = set_up-Ends first_time typed

-- A user with an empty password, which the rebuilt URL leaves out.
abbrev entered : Text
entered = codes " socks5h://u:@10.0.0.9:1080 "

abbrev rewritten : Text
rewritten = codes "socks5h://u@10.0.0.9:1080"

abbrev user_url : Option Text → Url
user_url password = record {
  scheme = codes "socks5h";
  hostname = codes "10.0.0.9";
  port = codes "1080";
  user = some (codes "u", password);
}

abbrev two_urls : Text → Option Url
two_urls t =
    if eqb t (codes "socks5h://u:@10.0.0.9:1080")
    then some (user_url (some []))
    else if eqb t rewritten
    then some (user_url none)
    else none

reads : ReadsBack two_urls (with_scheme (trim_space entered))
unfolding eqb codes trim_space netcage.SetupDefault.Entry.has_scheme netcage.Text.has_prefix
    netcage.Jail.ProxyUrl.escape
reads u h =
    let e : user_url (some []) ≡ u = cc (h) in
    subst (λ v. two_urls (url_string (plain_url v)) ≡ some (plain_url v)) e refl

normalized : normalize_proxy_input two_urls entered ≡ ok rewritten
unfolding normalize_proxy_input trim_space codes parse_proxy netcage.SetupDefault.Entry.has_scheme
    netcage.Text.has_prefix netcage.Cli.Proxy.proxy_of_url eqb
    netcage.SetupDefault.Entry.canonical_url netcage.Jail.ProxyUrl.escape
normalized = refl

normalize_proxy_input-reparse_example :
    (p : ProxyConfig) × (parse_proxy two_urls (with_scheme (trim_space entered)) ≡ ok p)
    × (parse_proxy two_urls rewritten ≡ ok p)
normalize_proxy_input-reparse_example =
    normalize_proxy_input-reparse two_urls entered rewritten reads normalized

-- The command line of a run that names an image only.
abbrev bare : Scan
bare = record {
  cmd = command (codes "run");
  proxy_raw = [];
  proxy_from_flag = false;
  allow_from_flag = false;
  positionals = codes "alpine" ∷ [];
  end_of_flags = true;
}

abbrev bare_run : Command
bare_run = record (command (codes "run")) {
  proxy = tor_proxy;
  proxy_source = config;
  image = codes "alpine";
}

bare_scanned : scan (codes "run") (codes "alpine" ∷ []) ≡ ok bare
unfolding scan netcage.Cli.Scan.feeds netcage.Cli.Scan.feed netcage.Cli.Scan.argument
    netcage.Cli.Scan.act netcage.Cli.Scan.classify netcage.Text.member codes
    netcage.Cli.Command.deny_flag netcage.Cli.Command.deny_flags netcage.Cli.Command.deny_flag_name
    netcage.Text.cut_prefix netcage.Cli.Command.pass_through_value_flags netcage.Text.has_prefix
bare_scanned = refl

bare_parsed : parse_jail_verb desk (codes "run") (codes "alpine" ∷ []) ≡ ok bare_run
unfolding parse_jail_verb scan netcage.Cli.Scan.feeds netcage.Cli.Scan.feed
    netcage.Cli.Scan.argument netcage.Cli.Scan.act netcage.Cli.Scan.classify netcage.Text.member
    codes netcage.Cli.Command.deny_flag netcage.Cli.Command.deny_flags
    netcage.Cli.Command.deny_flag_name netcage.Text.cut_prefix
    netcage.Cli.Command.pass_through_value_flags netcage.Text.has_prefix
    netcage.Cli.Config.load_config netcage.Cli.Config.config_path netcage.Cli.Config.load_read
    netcage.Cli.Config.load_allow netcage.Cli.Parse.resolve_jail netcage.Cli.Parse.resolve_proxy
    trim_space netcage.Cli.Parse.choose_proxy parse_proxy netcage.Cli.Proxy.proxy_of_url
    netcage.Cli.Allow.refuse_host_loopback_proxy_port netcage.Cli.Parse.choose_allow
    netcage.Cli.Parse.resolve_positionals netcage.Cli.Parse.resolve_repo_mount_defaults
    netcage.Cli.Parse.resolve_run_positionals netcage.Cli.Parse.default_mounts decoded
    netcage.Tests.ConfigRuns.decoded_texts netcage.DnsForwarder.read_full
bare_parsed = refl

no_variable : IsUnset (desk.lookup_env (codes "NETCAGE_PROXY"))
unfolding eqb codes
no_variable x h = cc

decodes : DecodesBack desk encoded url []
unfolding decoded codes netcage.Tests.ConfigRuns.decoded_texts netcage.DnsForwarder.read_full
decodes = refl

set_up-run_example :
    (parse_proxy desk.parse_url url ≡ ok tor_proxy)
    × (bare_run.proxy_source ≡ config)
    × (is_empty tor_proxy.username ≡ true)
    × (is_empty tor_proxy.password ≡ true)
set_up-run_example =
    set_up-run first_time typed url (file_of []) (codes "run") (codes "alpine" ∷ []) bare bare_run
      set_up_runs refl decodes bare_scanned refl no_variable bare_parsed
