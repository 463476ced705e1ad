-- ===== src/Tests/MainKept.antt =====
-- A whole process that resumes a kept run, and one that verifies.
use netcage.Base.{some, List, [], ◌∷◌}
use netcage.Text.{Text, codes}
use netcage.Cli.Command.{Command}
use netcage.Main.Verbs.{Host}
use netcage.Tests.MainRuns.{workstation}
use netcage.Tests.StartRuns.{kept}
use netcage.Tests.VerifyRuns.{forced_world}

abbrev words : List Text
words = codes "--proxy" ∷ codes "socks5h://10.0.0.9:1080" ∷ codes "c" ∷ []

abbrev resuming : Host
resuming = record workstation { world = kept }

abbrev flags : List Text
flags = codes "--proxy" ∷ codes "socks5h://10.0.0.9:1080" ∷ []

abbrev verifying : Host
verifying = record workstation { world = forced_world; host_body = some (codes "5.6.7.8") }
