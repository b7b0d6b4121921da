-- ===== src/Lib.antt =====
-- Models of the core logic of frp, a reverse proxy of two programs: the server frps accepts
-- clients and opens their services to users, the client frpc connects to it, keeps the proxies
-- of its configuration running and carries the traffic. The development models the decisions of
-- both, not the traffic.
--
-- How the parts interact. A client that logs in is entered in the registry of clients
-- (server/registry). Its session (server/control.go) registers proxies, within a limit of ports,
-- in the server's map of proxies (server/proxy/proxy.go). The server reads the configuration of
-- a proxy from the message that announces it and checks that it can serve it (pkg/config). A
-- proxy that it registers takes a port from the port manager of the server (server/ports), or
-- routes in the table of virtual hosts (pkg/util/vhost), by which a muxer finds the listener of
-- a request; HTTP proxies of a group share one route, and the group chooses among them
-- (server/group). A proxy that only visitors reach has a listener, which lets a visitor in by a
-- key and a list of users (server/visitor). The statistics (pkg/metrics/mem) count connections
-- and traffic by proxy and by day. For a direct connection between two clients the server
-- classifies what both learn of their address translation and recommends how to try
-- (pkg/nathole). The client loads its proxies and visitors from a configuration file and a store
-- (pkg/config/source), and its proxy manager (client/proxy) starts, watches (client/health) and
-- stops one wrapper for each, under the name that the server knows (pkg/naming).
--
-- Which file models what. Common and its children: the helpers that all share, Common/Dict for a
-- Go map, Common/Bytes for strings that the program compares or splits, Common/Integer for
-- signed scores. Ports: Manager of server/ports/ports.go; acquire, release and clean are the
-- operations of those names, and the part of acquire that tries random ports is random_port.
-- Vhost/Router: Routers of pkg/util/vhost/router.go; Vhost/Muxer: the lookup of a listener in
-- pkg/util/vhost/vhost.go, with the wildcard domains; its child Laws says which domains fit a
-- host, and Wildcards, Complete and Specific which of them is taken. Control: RegisterProxy,
-- CloseProxy and the end of the worker of server/control.go with the Manager of
-- server/proxy/proxy.go, in Control/Sessions the ControlManager, and in Control/Pool the work
-- connections of a session. Group: groupRegistry and HTTPGroup of server/group, where Calls has
-- the loop of Register and Routes tells which group owns a route of Vhost/Router. Config: the
-- configuration of proxies and of the server (pkg/config/v1), with their defaults in complete
-- and complete_server; Message: the announcement of a proxy (pkg/msg/msg.go), which
-- Config/Proxy/Announce writes and reads; Config/Validate: pkg/config/v1/validation, where
-- Allowed writes out what the checks stand for, as Config/Server/Completed does for the
-- defaults; Config/Load: NewProxyConfigurerFromMsg of pkg/config/load.go; Config/Bandwidth:
-- BandwidthQuantity of pkg/config/types; Config/ValueSource: value_source.go, and the unsafe
-- features of pkg/policy/security. Metrics: the counters of pkg/util/metric; Metrics/Statistics:
-- pkg/metrics/mem. Visitor: the Manager of server/visitor/visitor.go with InternalListener of
-- pkg/util/net/listener.go. Registry: ClientRegistry of server/registry/registry.go.
-- NatHole/Classify: pkg/nathole/classify.go; NatHole/Analysis: pkg/nathole/analysis.go, with its
-- tables in Behaviors and the scores of one pair in Records. Source: baseSource and ConfigSource
-- of pkg/config/source, Source/Store: StoreSource with its file, Source/Aggregator: Aggregator.
-- Client/Naming: pkg/naming/names.go; Client/Health: Monitor of client/health/health.go;
-- Client/Wrapper and Client/Manager: Wrapper and Manager of client/proxy. FeatureGate:
-- featureGate of pkg/policy/featuregate, by which either program asks whether a feature is on.
-- Functions keep their names in snake case; the child modules of a component prove what their
-- names say, and Tests holds runs on concrete inputs.
--
-- State and time. An operation that the source runs under a mutex is one function from a state
-- to its answer and the next state; a history is a list of calls, and run folds the step over
-- it. Time, randomness, the operating system's answer about a port, the failing calls of the
-- file system, the answers of the server and of health checks, and the decoders of JSON are
-- arguments of the functions, so that a theorem holds for all of them. Map iteration is the
-- order of an association list, and the theorems hold for every such list.
--
-- Bounds and fuel. The search for a random port makes at most five tries, as in the source. Only
-- the decimal digits of a number have fuel, the number and one more, as every digit divides it
-- by ten. All other loops run over lists or over bounded ranges, and the loop of a group's
-- Register over the list of what others do in its rounds, with one more round in which nobody
-- comes between. The counters of the statistics wrap at 2^32 and 2^64 and are kept as
-- remainders, and the counter of a group's choices wraps at 2^64. The counter of failed health
-- checks wraps at 2^64 and is read as a signed 64-bit number.
--
-- What is not modelled. Connections, encryption, compression, HTTP and the other protocols, the
-- dashboards and their APIs, authentication against external services, plugins, the parsing of
-- configuration files and the command line are I/O or calls of libraries. Goroutines and
-- channels are left out: the operations that a lock makes atomic are interleaved as lists of
-- calls. The groups of listeners, the visitors of the client and the configuration of the client
-- are not modelled either. Methods that only copy a value have no counterpart, since values of
-- the model are not shared.
pub mod Common
pub mod Ports
pub mod Vhost
pub mod Registry
pub mod NatHole
pub mod Source
pub mod Client
pub mod Message
pub mod Config
pub mod Control
pub mod Group
pub mod Metrics
pub mod Visitor
pub mod FeatureGate
