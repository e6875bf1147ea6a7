-- ===== src/Lib.antt =====
-- Verification library of LibSagerNetCore, the Go core of an Android VPN client: a tun device whose
-- packets are handed to a v2ray core, with what the client needs beside it.
--
-- The parts and the files that model them:
--   * Nat (nat/tcp.go, nat/peer.go, nat/udp.go, nat/nat.go): the system stack, which rewrites TCP
--     packets towards a local listener. Nat/Forward.antt has `processIPv4` and `processIPv6`
--     (`process_ipv4`, `process_ipv6`), Nat/Accept.antt `dispatch` and `dispatchLoop`. The two share the
--     session table, Nat/Sessions.antt.
--     Nat/Device.antt has `deliverPacket` and the loop of nat/nat.go, Nat/Udp.antt the replies of
--     nat/udp.go. Nat/Lifetime.antt runs packets, connections and removals on one table, of which
--     Nat/Lifetime/Flows.antt has the abstract view; Nat/Opening.antt makes and closes the stack.
--   * Tun (tun.go): the handler that the stack calls. Tun/Inbound.antt has the owner of a connection and
--     its session, Tun/Relay.antt the bodies of `NewPacket` and `NewConnection` and Tun/Ping.antt that of
--     `NewPingPacket` as lists of effects, Tun/Owner.antt the uid of a connection (uid.go),
--     Tun/Lock.antt the interleavings of the calls for one source. Tun/Setup.antt has `NewTun2ray` and
--     `Close`, over Nat/Opening.antt, Gvisor/Stack.antt and an instance.
--   * Icmp (nat/icmp.go, gvisor/icmp.go): echo requests, Icmp/Echo.antt, and the replies to pings, which
--     both stacks make in the same way.
--   * Gvisor (gvisor/dispatchers.go, gvisor/endpoint.go, gvisor/udp.go, gvisor/tcp.go,
--     gvisor/gvisor.go): the link endpoint below the gVisor stack, Gvisor/Reading.antt and
--     Gvisor/Endpoint.antt, its handlers, Gvisor/Udp.antt and Gvisor/Tcp.antt, and the stack,
--     Gvisor/Stack.antt.
--   * Procfs (procfs.go): the search of a socket's uid, which Tun/Inbound.antt takes as its input.
--   * Stats (stats.go, and the counters in tun.go): the traffic of the apps.
--   * Dispatcher (v2ray.go, `dispatcherConn`): the packet connections that the tun's handler reads;
--     Dispatcher/Closers.antt has the single steps of `Close`, which several goroutines run at once.
--   * Instance (v2ray.go, observatory.go): the loading of a configuration, the life of an instance, and
--     the connections that it makes, Instance/Dialling.antt.
--   * Protect (protect.go): the dialer that keeps the core's own sockets out of the VPN.
--   * Stun (stun/stun.go, core.go): the discovery of the NAT's mapping and filter.
--   * Assets (assets.go, io.go): which versions lead to the extraction of an asset, and its steps;
--     Assets/Seeker.antt opens an asset, Assets/Roots.antt has the root certificates (certs.go),
--     Assets/Startup.antt the goroutine of `InitializeV2Ray` and, in Readers.antt, those who wait for it.
--   * Dns (dns.go): the queries and responses of the platform's resolver, and, in Dns/System.antt, the
--     resolver of the process, whose queries go through an instance.
--   * Url (url.go): `parse`, Url/Parsing.antt, and the setters of host and port, Url/Hosts.antt.
--   * Http (http.go): requests, their responses, and the dialer with a local proxy; Http/Client.antt
--     has the settings.
--   * Log (log.go): the lines of the platform's log.
--   * Plugins (ssr.go, obfs.go): the two plugins for Shadowsocks.
--   * Api (api.go, urltest.go): the service that tells the ports, its restarts, and the URL test.
--   * Common: the shared names, lists and Boolean tests over the native numbers, Go's integers.
-- Tests.antt of each part has runs on concrete inputs; Nat/Samples.antt and Icmp/Samples.antt
-- have what several of them use.
--
-- State is passed explicitly: an operation takes the state and gives the new one with its result. Calls
-- of the outside are lists of effects in their order, or an abstract world (Stun/Server.antt). What the
-- outside answers (system calls, tables that other calls change, the cases of a `select`) is an
-- argument, so that a theorem for all answers is one for every behaviour. The accessors of packet
-- headers, the LRU cache, the STUN messages with their socket, `strconv.Atoi`, the resolver and the
-- v2ray core are parameters; the laws of the first two are in Nat/Packet.antt and Nat/Sessions.antt.
-- Expiry in the LRU cache is a removal at any moment, Nat/Lifetime.antt; the laws speak of calls with
-- none between them.
--
-- Machine integers are words, natural numbers modulo a power of 2, where they can wrap around (the
-- counters of stats.go, the conversions of uids); ports and lengths are natural numbers. Loops are
-- structural recursion on what the outside gives (accepted connections, datagrams, rows, readings), so
-- that there is no fuel. Panics are values.
--
-- A network header is a value with accessors; the header caches of nat/udp.go and nat/icmp.go, of which
-- each reply copies the first part, are the value that a reply function gets. net/url, net/http and
-- crypto/x509 are parameters too, or answers.
--
-- Not modelled: the signal that stops the gVisor endpoint and the endpoint's constant answers, contexts
-- and timers, the registration of plugins and log handlers, paths and file names of assets.go, and the
-- one-line helpers of core.go, crypto.go, bind.go, route.go and debug.go: calls of the system or of other
-- packages with no state of their own.
pub mod Common
pub mod Nat
pub mod Protect
pub mod Procfs
pub mod Stats
pub mod Stun
pub mod Tun
pub mod Dispatcher
pub mod Instance
pub mod Assets
pub mod Dns
pub mod Url
pub mod Icmp
pub mod Gvisor
pub mod Http
pub mod Log
pub mod Plugins
pub mod Api
