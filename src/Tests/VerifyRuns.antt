-- ===== src/Tests/VerifyRuns.antt =====
-- A green report over a jail whose tool prints another address than the host's.
use netcage.Base.{true, false, none, some, [], map, ◌∷◌, ◌≡◌, ◌≢◌, ◌↔◌, refl, All, ok}
use netcage.Text.{Text, codes, is_empty}
use netcage.Jail.Effects.{Event, launch, World, ToolResult, done}
use netcage.Jail.Run.{run_checked, run}
use netcage.Verify.{
  not_run, Assertion, exit_code, first_ip, passing, failing, leak, no_clear_lan_dns_assertion,
  ipv6_egress_fails_closed_assertion, non_tcp_udp_dropped_assertion, icmp_dropped_assertion,
  jail_loopback_confined_assertion,
}
use netcage.Verify.Verdicts.{exit_code_iff}
use netcage.Verify.Probes.{
  Check, JailRunner, run_checks, split_tunnel_checks, ipv6_egress_fails_closed_probe,
  non_tcp_udp_dropped_probe, icmp_dropped_probe, jail_loopback_confined_probe,
}
use netcage.Verify.Green.{
  on_one, on_two, Showed, is_ok, verdicts, AllPass, probes_green_iff, split_tunnel-green,
}
use netcage.Cli.Command.{config}
use netcage.Verify.Printed.{
  Line, report_string, assertions, header_text, line_text, line_texts, NoFailLine,
  report_string-exit_code,
}
use netcage.Verify.Command.{exit_ip_jail, dns_jail, host_exit_ip, run_command_verify}
use netcage.Tests.LaunchRuns.{plain_jail, chains}

unfoldable pub printed_by : Event → Text
printed_by (launch _) = codes "9.9.9.9 STREAM\n"
printed_by _ = chains

abbrev pub forced_world : World
forced_world = record {
  reply = λ _ e. record { out = printed_by e; stderr = []; status = done };
  temp_path = λ name. name;
  random_bytes = λ _. some (1 ∷ 255 ∷ []);
  decode_texts = λ _. none;
}

dotted : first_ip (codes "ip: 300.1.1.1\n5.6.7.8\n") ≡ codes "5.6.7.8"
unfolding codes first_ip netcage.Verify.tokens_onto netcage.Verify.is_ipv4 netcage.Text.split
    netcage.Text.trim_space netcage.Verify.is_octet
dotted = refl

green :
    exit_code
      (run_command_verify forced_world plain_jail.proxy
        (some (codes "5.6.7.8"))
        (codes "a")
        (codes "b")
        []).1
    ≡ 0
unfolding exit_code run_command_verify netcage.Verify.Command.exit_ip_check host_exit_ip first_ip
    netcage.Verify.tokens_onto codes netcage.Verify.is_ipv4 netcage.Text.split
    netcage.Text.trim_space netcage.Verify.is_octet run netcage.Jail.Effects.attempt
    netcage.Jail.Effects.out_of netcage.Jail.Run.run_body netcage.Jail.Effects.◌>>-◌
    netcage.Jail.Run.verify_firewall netcage.Jail.Run.run_checked netcage.Jail.Run.verify_family
    netcage.Jail.Effects.after netcage.Jail.Fixtures.write_resolv_conf
    netcage.Jail.Fixtures.write_hosts netcage.Jail.Fixtures.write_passwd
    netcage.Jail.Fixtures.write_group netcage.Jail.Fixtures.write_machine_id
    netcage.Jail.Fixtures.write_fixture netcage.Jail.Run.check_reachback
    netcage.Jail.Run.warn_unreachable_directs netcage.Jail.Run.launch_tool netcage.Jail.Run.teardown
    netcage.Jail.Effects.return netcage.Jail.Firewall.firewall_verify_rules
    netcage.Jail.Firewall.check_rules_present netcage.Jail.Firewall.missing_rule netcage.Text.member
    netcage.Jail.Config.map_exists netcage.Jail.Config.has_lan_allow
    netcage.Jail.Config.has_host_loopback_allow netcage.Jail.Fixtures.remove_fixtures printed_by
    netcage.Jail.Run.tool_result netcage.Verify.Command.exit_ip_verdict
    netcage.Verify.Command.dns_check netcage.Verify.dns_over_tcp_assertion
green = refl

exit_code_iff_example :
    (exit_code (passing ∷ failing leak ∷ []) ≡ 0)
    ↔ (((passing ∷ failing leak ∷ []) ≢ []) × All (λ a. a.ok ≡ true) (passing ∷ failing leak ∷ []))
exit_code_iff_example = exit_code_iff (passing ∷ failing leak ∷ [])

-- A runner whose tool prints that the forwarder answered, and nothing else.
abbrev speaking : JailRunner
speaking c h = (h, ok (record { stdout = codes "forwarder ok"; stderr = []; exit = 0 }))

probes_green_iff_example :
    (((on_two ipv6_egress_fails_closed_assertion
          (ipv6_egress_fails_closed_probe speaking plain_jail (codes "other") (codes "ok") [])).ok
        ≡ true)
      ↔ Showed (speaking plain_jail []).1 (codes "other") false (codes "ok") false)
    × (((on_two non_tcp_udp_dropped_assertion
            (non_tcp_udp_dropped_probe speaking plain_jail (codes "other") (codes "ok") [])).ok
          ≡ true)
        ↔ Showed (speaking plain_jail []).1 (codes "other") false (codes "ok") false)
    × (((on_one icmp_dropped_assertion
            (icmp_dropped_probe speaking plain_jail (codes "other") [])).ok
          ≡ true)
        ↔ Showed (speaking plain_jail []).1 (codes "other") false (codes "other") false)
    × (((on_two jail_loopback_confined_assertion
            (jail_loopback_confined_probe speaking plain_jail (codes "other") (codes "ok") [])).ok
          ≡ true)
        ↔ Showed (speaking plain_jail []).1 (codes "other") false (codes "ok") true)
probes_green_iff_example = probes_green_iff speaking plain_jail [] (codes "other") (codes "ok")

abbrev sound : Check
sound = record { name = codes "core"; perform = λ h. (h, passing) }

abbrev unreachable_direct : Check
unreachable_direct = record { name = codes "direct"; perform = λ h. (h, failing not_run) }

at_least_one : (sound ∷ []) ≢ []
at_least_one e = cc

split_tunnel-green_example :
    (map is_ok (run_checks (split_tunnel_checks (sound ∷ []) (unreachable_direct ∷ [])) []).1
      ≡ verdicts (sound ∷ unreachable_direct ∷ []) [])
    × ((exit_code (run_checks (split_tunnel_checks (sound ∷ []) (unreachable_direct ∷ [])) []).1
          ≡ 0)
        ↔ AllPass (sound ∷ unreachable_direct ∷ []) [])
split_tunnel-green_example =
    split_tunnel-green (sound ∷ []) (unreachable_direct ∷ []) [] at_least_one

-- A check that passed, with a newline in a text.
abbrev sound_line : Line
sound_line = record {
  assertion = record passing { name = codes "exit" };
  detail = codes "other address";
  error = some (codes "first\nsecond");
}

some_line : (sound_line ∷ []) ≢ []
some_line e = cc

no_fail_line : NoFailLine (report_string plain_jail.proxy config (sound_line ∷ []))
unfolding report_string line_texts line_text header_text netcage.Text.split netcage.Text.has_prefix
    codes netcage.Text.contains
no_fail_line = (refl, (refl, (refl, (refl, tt))))

report_string-exit_code_example : exit_code (assertions (sound_line ∷ [])) ≡ 0
report_string-exit_code_example =
    report_string-exit_code plain_jail.proxy config (sound_line ∷ []) some_line no_fail_line
