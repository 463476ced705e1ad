-- ===== src/Cli/Preflight.antt =====
-- internal/cli/cli.go: `Preflight`, the dial of the proxy before anything else.
use netcage.Base.{if◌then◌else◌}
use netcage.Text.{Text}
use netcage.Cli.Command.{Command, address, is_proxyless}
use netcage.Jail.Effects.{dial, World, Io, ◌>>-◌, attempt, return}

pub data PreflightError : Type 0 where
  unreachable : Text → PreflightError

module _ (w : World) where
  -- `PreflightWith`, with `DialReachability.Check`.
  unfoldable pub preflight_with : Command → Io PreflightError (Unit {0})
  preflight_with cmd =
      attempt w (dial (address cmd.proxy)) (unreachable (address cmd.proxy)) >>- (λ _. return tt)

  -- `Command.Preflight`.
  unfoldable pub preflight : Command → Io PreflightError (Unit {0})
  preflight cmd h = if is_proxyless cmd then return tt h else preflight_with cmd h
