-- ===== src/Lib.antt =====
-- The core of AndroidLibBoxLite: the Go code that this repository adds to sing-box for Android.
--
-- The program builds sing-box as one native library for JNI and for a command line. Its own Go code is
-- a few packages: `environment` brings the environment of the standalone process back before sing-box
-- starts; `native/pluginpool` runs protocol plugins as supervised child processes that an envelope
-- (plugin.json) describes, and protects their sockets; `native/systemdns` is a DNS helper process; and
-- `patches` holds files added to sing-box, such as the URL test with options.
--
-- Files and the code they model:
--   Environment: environment/environment.go and environment/runtime.go. `init` restores the C
--     environment and `apply_runtime_limits` sets the limits of the Go runtime; a Go panic is a value
--     of `Result`. Environment/Limits is about the memory limit, Environment/Restored about
--     the variables that the start leaves.
--   PluginPool/Options: native/pluginpool/options.go. `validate` and `expand` keep their Go names.
--     Options/Names and Options/Validation say which envelopes are valid, Options/Expansion what a text
--     with references stands for.
--   PluginPool/Envelope: `Parse` of that file and `ReadEnvelope` of native/pluginpool/pool.go. What
--     json.Unmarshal makes of a text is a parameter.
--   PluginPool/Paths: what that package uses of path/filepath.
--   PluginPool/World: what the host does to the system, as a state, and what the system answers (`Os`).
--     A plugin that outlives the limit of waitStopped is reported and given up, and may still run; it
--     moves from `running` to `overdue`. A file that os.Remove fails on moves from `files` to `left`.
--   PluginPool/Guards: one plugin of native/pluginpool/host.go. `start` with `write_files`, `expand_all`,
--     `expand_environment` and `launch` is start with prepare and the first cmd.Start; `stop_guards` is
--     stopGuards with waitStopped; `command` is the exec.Cmd of command.
--   PluginPool/Host: Host of native/pluginpool/host.go and `listenProtect` of protect.go. `apply`,
--     `close`, `update_server`, `start_missing` and `stop_all` are Apply, Close, updateServer,
--     startMissing and stopAll. Each call holds the lock of the host, so it is one function from host to
--     host. Host/Consistency, Host/Start, Host/Steps, Host/Listening and Host/Calls carry the invariant,
--     Host/Extension and Host/Reload what a successful call promises, Host/Numbers and Host/Spared which
--     processes survive it, Host/Stop what stopping changes, Host/Reported its order and its reports.
--     Host/Pool is the abstract pool, whose plugins are a quotient of lists by having the same keys, and
--     Host/Refinement relates the host to it. Host/Written, Host/Expanded, Host/Parts and
--     Host/Prepared are about what `command` asks exec to run.
--   PluginPool/Supervision: `guard.run`, the loop that starts a plugin again; one round is one value.
--   PluginPool/StopRace: `requestStop`, `attach`, `detach` and `killGroup` as a step relation, since
--     they run on several threads; each locked section and each system call is a step. StopRace/Safety
--     and StopRace/Ending are about all interleavings.
--   PluginPool/Children: the map `children` that the guards of a host share, with `isChild`;
--     Children/Peers puts StopRace and Protect together.
--   PluginPool/Stopping: the times of `requestStop`, `waitStopped` and `stopGuards`.
--   PluginPool/LineWriter: `lineWriter`, with the logger as the list of its entries.
--   PluginPool/Protect: `serve` and `handle` of native/pluginpool/protect.go and what they call.
--   PluginPool/Service: native/pluginpool/service_android.go, the plugins of the command line.
--     PluginPool/Toy is a system and an envelope that the examples share.
--   CommandServer: patches/experimental_libbox/command_server_plugins.go, the plugins of the app's
--     service, on top of PluginPool/Host, whose life is in Host/Lifetime. `start_or_reload` is
--     StartOrReloadServiceWithPlugins; `Step` and `Reach` are the calls of the app and the failures of
--     hosts in any order. The lock covers the map alone, so closePlugins of another goroutine may come
--     between the steps of a start (`Overlap`). CommandServer/Soundness, Outcomes and Failures carry the proofs;
--     CommandServer/View is what the app sees, and CommandServer/Refinement relates the two.
--   SystemDns: `decodeSnapshot` of native/systemdns/protocol.go, over parameters for encoding/json and
--     netip.ParseAddrPort.
--     SystemDns/Helper: native/systemdns/helper.go, on the files of the home directory. `ensure_helper`,
--     `helper_matches` and `remove_stale` are ensureHelper, helperMatches and removeStaleTemporaries.
--     SystemDns/Source: patches/dns_systemconfig/source_managed.go and environment/system_dns.go.
--     SystemDns/Client: native/systemdns/client_android.go. `start`, `stop`, `update` and `handle` (a
--     round of the loop that reads) are functions on a `Client`, with `helper_ended` for a helper that
--     ends by itself; `Reach` is their order.
--     Client/Following is about the rounds, Client/Starting about the start and all that follows.
--     SystemDns/Startup: `StartService` of that file, from the helper file to the published servers, with
--     the command line of the helper. SystemDns/Toy is what the examples share.
--   Fingerprints: patches/tls/reality_fingerprints.go. `init` and `client_hello_id` are init and
--     androidLibBoxClientHelloID; the maps are in Fingerprints/Tables. Fingerprints/Lookup and
--     Fingerprints/Known say which names are known.
--   UrlTest/Wire: AppendURLTestOptions and urlTestOptionsFromRequest of
--     patches/daemon/url_test_options.go; Wire/Reading is about the loop of the daemon. Package
--     protowire is a parameter with laws; the toy format of UrlTest/Toy has them.
--   UrlTest/Groups: urlTestUpdateGroups and urlTestGroupContains, over a manager of outbounds with laws.
--     Groups/Visited and Groups/Search are about the search, Groups/Reselection about its result.
--   UrlTest/Network: the contexts, transports and actions of a measurement, with
--     urlTestContextWithKeepSession and patches/daemon/url_test_http3.go and its stub.
--   UrlTest/Measurement: urlTestRunWithTimeout, urlTestMeasure and urlTestMeasureOnce, with the actions
--     that they take. What the network and the clock answer in a context is an `Attempt`.
--     Measurement/Latency is about the latency, Measurement/Outcome about the errors too,
--     Measurement/Deadline about the timeout, and Measurement/Release about what is closed.
--   UrlTest/Daemon: URLTestWithOptions, urlTestOptionsTarget and handleURLTestOptions, and the client's
--     request of patches/experimental_libbox/url_test_options.go.
--   Common: strings as lists of bytes, strconv.ParseInt, strings.Cut and the like, and lemmas.
--   The modules called Examples run the code on concrete inputs.
--
-- Conventions: a Go string is a list of bytes; a Go map is a list of pairs, so that the order in which
-- Go walks a map is one of the orders of that list; an int64 product is taken modulo 2 ^ 64. The key of
-- a plugin, which json.Marshal makes, is a parameter of the host.
--
-- Fuel: `expand_loop` has one round for each byte of the text and one more, and a round takes a
-- reference off it; `write_loop` has one for each byte, and a round takes a newline off;
-- `read_fields` has one for each byte, and a round takes a tag off; `decimal_loop` has one more than
-- the number, whose quotient falls. `descends_within` has the 32 rounds of the code;
-- `group_contains` has as many calls inside each other as there are outbounds, and each call visits
-- another one.
--
-- Not modelled: the JSON decoder, the TLS configuration of the URL test and the inside of its transports,
-- the profiles of the TLS fingerprints, the loggers, two calls of StartOrReloadServiceWithPlugins
-- that overlap each other, the stub of the plugin host for other systems, and
-- what is not Go: the launcher, the Java helper, scripts and workflows.
pub mod Common
pub mod Environment
pub mod PluginPool
pub mod CommandServer
pub mod Fingerprints
pub mod SystemDns
pub mod UrlTest
