-- ===== src/Lib.antt =====
-- netcage runs a tool in a container whose only way out is a SOCKS proxy. The command line resolves a
-- run; the jail package composes from it two podman containers, a sidecar with a tunnel device and a
-- firewall, and the tool, which shares the sidecar's network. Whatever the tool does, its traffic goes
-- through the proxy, save the destinations that the caller opened with `--allow`.
--
-- The parts and their files:
--   Base            tests, lists, integers and results that the others share.
--   Text, Net       what the program uses of Go's `strings`, `strconv` and `net`. A text is a list of
--                   bytes; the program's texts are ASCII.
--   Images          internal/redirector and internal/devimage: the pinned references.
--   Cli/Allow       internal/cli/allowdirect.go: `parseAllowDirect` and its helpers, whole.
--   Cli/Command     internal/cli/cli.go: `Command`, the errors, the tables of flags and verbs.
--   Cli/Proxy       internal/cli/cli.go: `ParseProxy`.
--   Cli/Scan        internal/cli/cli.go: the loop of `ParseWithEnv`, one step for each argument. Where
--                   the code takes the next argument as a value, the model keeps the flag that waits.
--   Cli/Config      internal/cli/config.go: `loadConfig`, `ReadConfigView`, `ConfigPath`; Write is
--                   `WriteConfig`.
--   Cli/System      the environment, the file system and the parsers of packages outside of the
--                   repository, as a record that the definitions take.
--   Cli/Verbs       internal/cli/cli.go: forward, ports, detect-proxy, setup-default.
--   Cli/Parse       internal/cli/cli.go: `ParseWithEnv`, with the precedence of the proxy's sources and
--                   the positionals.
--   Cli/Preflight   internal/cli/cli.go: `Preflight`, whose dial is an event.
--   Jail/Config     internal/jail/jail.go: `Config`, the names and labels, `mapExists`, `allowDest`.
--   Jail/Firewall   internal/jail/jail.go: `firewallScript`, `firewallVerifyRules`,
--                   `checkRulesPresent`. Its child Rules has the rules as data, their text, and the
--                   packets that a chain of them lets pass: the first rule about a packet decides, and
--                   without one the packet passes.
--   Jail/ProxyUrl   internal/jail/jail.go: `sidecarProxyURL`.
--   Jail/Containers internal/jail/jail.go: `SidecarRunArgs`, `ToolRunArgs`, `excludedRoutes`.
--   Jail/Effects    the commands of podman and the files on the host as events. The outside answers an
--                   event by the events before it, in any way.
--   Jail/Run        internal/jail/run.go: `Run`, `verifyFirewall`, `Teardown`.
--   Jail/Fixtures   internal/jail/run.go: the files that stand for the host's, their contents and their
--                   removal.
--   Jail/Setup      internal/jail/run.go: `classifyPodmanSetupFailure`.
--   Jail/Resolve    internal/jail/resolve.go, and `resolveManagedTool` of internal/jail/start.go.
--   Jail/Running    the inspection of a container's state, which ports, forward and manage share.
--   Jail/Start      internal/jail/start.go: `Start`, with the comparison of a kept configuration.
--   Jail/GraphRoot  internal/jail/graphroot.go.
--   Ports           internal/ports: Listeners is procnet.go, Sort and Show the printed order and form,
--                   Run the verb. Listeners/Kernel has the rows as a little-endian host prints them.
--   Manage          internal/manage/manage.go: Argv the arguments of podman, Exec and Commit the flags
--                   of these verbs, Run the verbs. A flag that waits for its value is a state of the
--                   loop, as in Cli/Scan.
--   Forward         internal/forward/forward.go.
--   Verify          internal/verify/verify.go: the verdicts and the exit code; its child Probes has the
--                   probes through a runner of jails and the list of checks, Printed the printed
--                   report, Command has `RunCommandVerify`, whose two checks are runs of Jail/Run, and
--                   `ExitIPForProxy`.
--   DetectProxy     internal/detectproxy/detectproxy.go, over what the dials of the ports got.
--   DnsForwarder    internal/dnsforwarder/dnsforwarder.go: `handleTCPConn` and `resolveViaSOCKS` over the
--                   bytes of their connections; its child Server has `serveUDP` as a relation of steps, in
--                   which the loop reads a datagram or some goroutine ends.
--   SetupDefault    internal/setupdefault/setupdefault.go: `Run`, with the prompter of main.go over the
--                   bytes of the standard input; its child Entry has the pure functions.
--   Main            main.go: `run`; its child Verbs has the functions of the verbs with their exit codes,
--                   Version is version.go.
--   Fixture         internal/socks5hfixture/fixture.go: `handle`, over the bytes of a connection.
--   Tests           runs at concrete inputs.
--
-- An error is a value of a data type with what the message names; the wording is left out. Loops over
-- arguments and entries are recursions on lists. The printer of decimals and the parser of IPv6
-- literals run on fuel from the number's value and the text's length, which bound their steps;
-- the loop over a connection's messages runs on fuel from the number of its bytes, and the loops of the
-- onboarding run on fuel from the number of bytes of the input.
--
-- Not modelled: `net/url`'s and `encoding/json`'s parsers, which are fields of the record System; the
-- processes that podman runs; the raw mode of a terminal, the signals and the time limits; the text of
-- errors and of the details of verify's checks; the sockets, deadlines and accepting loops of
-- dnsforwarder and of the fixture.
-- `sort.SliceStable` and `sort.Ints` are the stable sort by insertion.
pub mod Base
pub mod Text
pub mod Net
pub mod Images
pub mod Cli
pub mod Jail
pub mod Ports
pub mod Manage
pub mod Forward
pub mod Verify
pub mod DetectProxy
pub mod DnsForwarder
pub mod SetupDefault
pub mod Main
pub mod Fixture
mod Tests
