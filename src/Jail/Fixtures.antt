-- ===== src/Jail/Fixtures.antt =====
-- internal/jail/run.go: the files that stand for the host's inside the tool's container.
use netcage.Base.{none, some, [], ◌∷◌, ◌++◌, if◌then◌else◌}
use netcage.Text.{Text, codes, is_empty}
use netcage.Net.Print.{mask_hex}
use netcage.Jail.Effects.{
  stat_file, write_file, remove_file, Status, done, exited, broken, World, History, RunError,
  fixture_failed, Io, return, fail, ◌>>-◌, attempt, perform,
}

abbrev pub resolv_conf_name : Text → Text
resolv_conf_name run_id = codes "netcage-resolv-" ++ (run_id ++ codes ".conf")

abbrev pub hosts_name : Text → Text
hosts_name run_id = codes "netcage-hosts-" ++ run_id

abbrev pub passwd_name : Text → Text
passwd_name run_id = codes "netcage-passwd-" ++ run_id

abbrev pub group_name : Text → Text
group_name run_id = codes "netcage-group-" ++ run_id

abbrev pub machine_id_name : Text → Text
machine_id_name run_id = codes "netcage-machine-id-" ++ run_id

-- `sanitizedHosts`, `sanitizedPasswd` and `sanitizedGroup`.
abbrev pub sanitized_hosts : Text
sanitized_hosts = codes "127.0.0.1\tlocalhost\n::1\tlocalhost\n"

abbrev pub sanitized_passwd : Text
sanitized_passwd =
    codes "root:x:0:0:root:/root:/bin/sh\n"
    ++ (codes "machine:x:1000:1000::/home/machine:/bin/sh\n"
        ++ codes "nobody:x:65534:65534:nobody:/nonexistent:/usr/sbin/nologin\n")

abbrev pub sanitized_group : Text
sanitized_group = codes "root:x:0:\nmachine:x:1000:\nnogroup:x:65534:\n"

module _ (w : World) where
  -- `os.WriteFile` of the content at the name's path, which is the result.
  unfoldable pub write_fixture : Text → Text → Io RunError Text
  write_fixture name content =
      attempt w (write_file (w.temp_path name) content) (fixture_failed name)
      >>- (λ _. return (w.temp_path name))

  -- `writeResolvConfAt`.
  unfoldable pub write_resolv_conf : Text → Io RunError Text
  write_resolv_conf run_id =
      write_fixture (resolv_conf_name run_id) (codes "nameserver 127.0.0.1\noptions use-vc\n")

  -- `writeHostsAt`.
  unfoldable pub write_hosts : Text → Io RunError Text
  write_hosts run_id = write_fixture (hosts_name run_id) sanitized_hosts

  -- `writePasswdAt`.
  unfoldable pub write_passwd : Text → Io RunError Text
  write_passwd run_id = write_fixture (passwd_name run_id) sanitized_passwd

  -- `writeGroupAt`.
  unfoldable pub write_group : Text → Io RunError Text
  write_group run_id = write_fixture (group_name run_id) sanitized_group

  -- `writeMachineIDAt`, with `randomMachineID`.
  unfoldable pub write_machine_id : Text → Io RunError Text
  write_machine_id run_id h = elim (w.random_bytes h) [
    | none ↦ fail (fixture_failed (machine_id_name run_id)) h
    | some bytes ↦ write_fixture (machine_id_name run_id) (mask_hex bytes ++ (b'\n' ∷ [])) h
  ]

  -- `writeMachineIDPreservingAt`, behind the answer about the file; an exit code of 1 is a file that is
  -- not there.
  unfoldable pub preserve_machine_id : Text → Status → Io RunError Text
  preserve_machine_id run_id done = return (w.temp_path (machine_id_name run_id))
  preserve_machine_id run_id (exited n) = write_machine_id run_id
  preserve_machine_id run_id broken = fail (fixture_failed (machine_id_name run_id))

  unfoldable pub write_machine_id_preserving : Text → Io RunError Text
  write_machine_id_preserving run_id =
      perform w (stat_file (w.temp_path (machine_id_name run_id)))
      >>- (λ answer. preserve_machine_id run_id answer.status)

  -- `RemoveResolvConf` and the four behind it, newest first: no file without a run's id, and a removal
  -- that fails is only reported.
  unfoldable pub remove_fixtures : Text → History → History
  remove_fixtures run_id h =
      if is_empty run_id
      then h
      else remove_file (w.temp_path (machine_id_name run_id))
        ∷ remove_file (w.temp_path (group_name run_id))
        ∷ remove_file (w.temp_path (passwd_name run_id))
        ∷ remove_file (w.temp_path (hosts_name run_id))
        ∷ remove_file (w.temp_path (resolv_conf_name run_id))
        ∷ h
