-- ===== src/Lib.antt =====
-- log-shipper: a broker that takes log messages from sources over TCP, counts and limits them, and
-- ships them to targets over TCP.
--
-- The parts of the program and their models:
--
--   protocol/protocol.go        Protocol, with Protocol.Input for the bufio.Reader it reads through,
--                               Protocol.Frame for the size in front of a frame, and Protocol.Channel
--                               for ReadToChannel, Protocol.Outgoing for WriteFromChannel. A frame is
--                               four bytes of size and a protobuf body.
--   message/message.go          Message: the messages of sources, broker and targets.
--   limiter/limiter.go          Limiter: the counters and the store of a rate limiter. Limiter.Store
--                               has the purge; `tick` is one round of the goroutine of Init, and
--                               Limiter.Races such rounds between the counts of other goroutines.
--   monitoring/                 Monitoring: states, logs and the monitor; Monitoring.Counters: Stats.
--   broker/connector.go         Broker.Manager: the connector manager and its count of messages in
--                               flight; Broker.Target: one round of TargetConnector.Handle for a
--                               received message, `receive`, with handleRateLimiting, `check_rules`;
--                               Broker.Source: the loop of SourceConnector.Handle, `handle`.
--                               Broker.Target.Goroutine and Broker.Source.Goroutine: the two
--                               Handle from the dial to the end, with the deferred calls.
--   broker/worker.go            Broker.Worker: one round of the loop of Worker.Start, `turn`;
--                               Broker.Worker.Loop: all rounds; Broker.Worker.Group: the manager of
--                               the workers. Broker.Pipeline: a source, a worker and a target, one
--                               after the other.
--   broker/broker.go            Broker.System: the goroutines of a started broker, those of sources,
--                               workers and targets and that of Broker.Start, interleaved step by step.
--                               Broker.System.Refinement and .Sources: the detailed rounds of the
--                               connectors are steps of it.
--   cmd/run.go                  Cmd: configureSources, configureTargets and createRateLimitRules, over
--                               the connections that connection/connection.go starts. Cmd.Run: the
--                               command, to the start of the broker of broker/broker.go.
--                               Cmd.Loading: its configuration, with config/config.go.
--   main.go                     Cmd.Dispatch: the command that the arguments name.
--   utils/strings.go            Utils: the membership tests.
--   source/nomad/pool.go        Nomad.Pool: the pool of allocations and what Sync announces.
--   source/nomad/config.go      Nomad.Config: the settings in the metadata of jobs, groups and tasks.
--                               `none` is a panic: an index out of range or a nil name.
--   source/nomad/client.go      Nomad.Failover: getAllocations, `get_allocations`, and the locks of
--                               the nodes. Other clients act while the loop for the leader lock
--                               sleeps, and not within the rest of the call. The loop runs on fuel;
--                               more than the time for which others keep the lock is enough.
--                               Nomad.Workers: the map of workers that ReceiveLogs keeps, NewClient;
--                               Nomad.Workers.Ticks: ReceiveLogs over the ticks of syncAllocations.
--   source/nomad/worker.go      Nomad.Events: a tick of watchAllocationEvents; Nomad.Events.Life: a
--                               worker from its start to the end of that loop. Nomad.Events.Reported:
--                               its life beside a list of the keys that it put.
--   source/nomad/server.go      Sources: the server of a source behind its accepted connection, also
--                               for source/dummy/dummy.go.
--   web/api/                    Web: the views of sources, targets and workers; Web.Nodes: cluster.go.
--   target/                     Targets: the server of a target behind its accepted connection, for
--                               the targets blackhole and stdout; Targets.Logzio for logzio, and
--                               Targets.Servers for the three of them.
--
-- How they interact: a source connector adds the number of targets of a message to the wait group
-- of the manager, a worker hands the message to the connector of each target, and that connector
-- completes it, or hands it on to another target if a rate limit says so. `World` is what a
-- target's goroutine sees: its own connection, rules and streams, the shared manager, and the
-- messages that it put on the channels of other targets.
--
-- Where the code goes through branches, the model has a function for each piece of the path, named
-- for what has happened: `parsed`, `converted`, `limited`, `delivered`, `answered`. An `Outcome`
-- says whether the loop goes on, the goroutine returns, or the program panics.
--
-- Parameters: the protobuf library is a `Codec` at each type of message, with the hypothesis
-- `RoundTrips` where a theorem needs that it reads what it writes; doubles are a `Float64`; texts
-- of errors come from `Library.describe`; Consul and Nomad are a `Cluster`, and for the events a
-- `Ledger`; the sessions of Consul and the reading of its TTL are `Clocks`; the library of logz.io
-- and the format of times are a `Logz`; the texts of sizes and durations are read by `Readers`;
-- the files and the YAML library are `Files`, and the start of connections is a `Setting`;
-- requests of the API to other nodes are an `HttpClient`. What the network does is data: the
-- arrivals of a `Reader`, each a piece of bytes, an error of one read, or an error that stays, and
-- the outcomes of the writes of a `Writer`.
--
-- Numbers: a uint64 is a natural number with its wrap-around written out (Base.Word). Times and
-- durations are nanoseconds and not negative. Every reading of the clock is an argument. The
-- reading loop runs on fuel; the bytes and arrivals that are left, and one more, are enough,
-- unless an error of the connection stays. The doubles that Prometheus is given are the whole
-- numbers that they are.
--
-- Assumed: a check of a limiter does not run within a round of its goroutine, nor Stop; one round
-- of a target's loop does not interleave with others, where Broker.System interleaves the steps of
-- such rounds that the shared counts see; a connection gives no bytes beside an error; what
-- ReadToChannel sends is taken by its receiver; the Wait of ReceiveLogs for a worker that was
-- stopped, which holds the lock of the map, comes back. The rate limiters that a monitored
-- connection shows are those of its target's rules, and are not stored twice; a monitor lists a
-- connection as it is when it is added.
--
-- Not modelled: config.Validate, which nothing calls; the creation of the clients of Consul and
-- Nomad and the renewal of the session, which are calls of their libraries; the flags of the
-- command line (cmd); the web server and its UI, which are glue around libraries; the libraries
-- below vendor.
mod Base
pub mod Limiter
pub mod Protocol
pub mod Monitoring
pub mod Message
pub mod Broker
pub mod Nomad
pub mod Cmd
pub mod Targets
pub mod Sources
pub mod Web
pub mod Utils
