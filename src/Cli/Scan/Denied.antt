-- ===== src/Cli/Scan/Denied.antt =====
-- The flags that breach the jail, in front of the image.
use netcage.Text.{Text}
use netcage.Cli.Scan.{Scan}
