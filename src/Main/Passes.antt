-- ===== src/Main/Passes.antt =====
-- main.go: what the exit code 0 of a whole verification shows.
use netcage.Base.{◌==◌, Bool}
use netcage.Text.{Text}
use netcage.Cli.Command.{Command}
use netcage.Jail.Effects.{History}
use netcage.Main.Verbs.{Exit, Host}
use netcage.Jail.Config.{JailConfig}
use netcage.Verify.Command.{exit_ip_jail, dns_jail}
use netcage.Main.Dialled.{dialled}

abbrev has_passed : History × Exit → Bool
has_passed p = p.1.code == 0

-- The two runs of a verification.
abbrev pub first_jail : Host → Command → History → JailConfig
first_jail host cmd h = exit_ip_jail cmd.proxy (host.run_id (dialled cmd h) 0)

abbrev pub second_jail : Host → Command → History → JailConfig
second_jail host cmd h = dns_jail cmd.proxy (host.run_id (dialled cmd h) 1)
