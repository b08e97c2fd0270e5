-- ===== src/Lib.antt =====
-- gffg: an RPC framework over TCP, in Go. A client keeps a pool of connections to every server it
-- calls; a call marshals a request, frames it with a header of eight bytes and waits for the response
-- with its sid; a server reads frames from each connection, queues them, calls the registered
-- function and sends the response, framed in the same way.
--
-- The modules and the code that they follow:
--   * Prelude: shared names, Boolean tests, lists, integers and texts. A text is a list of bytes, a
--     Go map with string keys an association list, an integer of w bits a number with its
--     wrap-around written out.
--   * Transport.Varint, Transport.Header: transport/header.go. encoder, decoder and check are
--     Header.Encoder, Decoder and Check, with PutVarint and Varint of encoding/binary.
--   * Transport.Response: transport/response.go. write is Response.Write on a list of results of the
--     kernel's writes; its loop goes down that list.
--   * Transport.Socket: transport/socket.go. on_recv is Socket.onRecv over the list of the segments
--     that the kernel's reads return. Its fuel is one more than the bytes of the stream, which is
--     enough, since each round reads a header.
--   * Transport.Listener: transport/listener.go and transport/options.go. block_listen is
--     Listener.blockListen over a list of what happens to the listener.
--   * Transport.Dial: SocketByAddr, SocketByConn and Close of transport/socket.go.
--   * Transport.Link: both ends of a connection together.
--   * Proto: the messages of proto/packet.pb.go, and their codec as an interface with two laws.
--     Proto.Wire has its varints, Proto.Fields the fields and the loop that Unmarshal has for every
--     message, Proto.Packet a request, Proto.Reply a response and Proto.Batch the metrics; the loops of Unmarshal and skipPacket
--     run on the number of bytes, since every round reads one at least. Proto.WireCodec makes of them an
--     instance of the interface; records that are no value of the Go types have no bytes there.
--   * Common: common/common.go, the signature of a method, the address of the host, trace ids, and the
--     test of a closed channel.
--   * Config: config/config.go, config/xml.go and config/reader.go, on a document of tinydom.
--   * Registry: registry/registry.go and registry/options.go, on Polaris.
--   * Server.Handler, Server.Handle, Server.Queue: server/handler.go and server/server.go. handle is
--     Server.handle with both deferred functions, on_recv and go_recv the two sides of the channel.
--     Server.Handle.Decision says in one place what becomes of a registered request, and
--     Server.Queue.Drain lets workers take the requests of a channel.
--     Server.Race has onRecv in two steps, its test and its send, and Server.Workers the workers with the
--     end of their context.
--   * Server.Connection: a connection of the server, the receive loop with the server's callbacks.
--   * Server.Start: NewServer, listen, Run and Release of server/server.go, on an interface of the
--     registry that Registry implements; Server.Start.Boot is NewServer from the configuration on.
--     Server.Ticker: the ticker that Run starts, on its events.
--   * Client.Connect: NewClient, newPool and connect, on Polaris and the network.
--   * Client.Pool: client/pools.go, response and removeByClient, whose two halves are remove_read and
--     remove_write. Dials are numbered.
--   * Client.Request: client/options.go, the request of Client.call in client/client.go, and what the
--     handler of a connection in client/pools.go makes of a packet.
--   * Client.Calls: the table of the waiting calls, in client/client.go and client/pools.go, as a
--     step relation: the goroutines of calls and of connections, the lock and the channels. A handler
--     holds the read lock only, so that each of its statements is a step.
--   * Client.Call: Client.Call of client/client.go, with the pool on both sides of the wait.
--   * Client.Report: Client.call of client/client.go from its request to its return, and the code that it
--     reports. Client.Returned: a call with its response, to its return.
--   * Client.Replies: the receiving side of a client's connection, the callbacks of connect.
--   * Client.Exchange, Client.OnWire, Client.WholeCall: a call from the client's request to the packet
--     that comes back, for any codec, in the bytes of the wire, and over a connection. Client.Pipeline:
--     several requests on one connection.
--   * Client.Destroy: destroy of client/pools.go, on the table of the waiting calls and its two read locks.
--   * Example: example/protocol/usernode.micro.go, the stubs of a service on both sides.
--     Example.Caller: Client.Call on a connection to a server that answers it.
--     Example.Programs: the controller of example/server/controller and the calls of example/client/main.go.
--   * Metrics: metrics/metrics.go, the batches and the bounded channel; Metrics.Obj is the singleton
--     with its Kafka producer, Metrics.Wire the messages that it gets.
--   * Zzlog: zzlog/logger.go and zzlog/options.go, the logger and the functions that write to it.
--   * Kafka: kafka/consumer.go, kafka/product.go and kafka/options.go. Consume is a function on its
--     events: its own loop, the goroutines of the partitions, the channel of signals.
--
-- Prelude.Decimal has strconv's ParseInt and its prints, whose fuel is one more than the number;
-- Prelude.Split has strings.Split, HasSuffix and Contains.
--
-- Parameters stand for code that is not the repository's: Polaris, tinydom, sarama, the registered
-- functions, dials, the clock, the random choice, the results of the kernel's reads and writes, and the
-- responses that arrive from the network. Server.Handle, Client.Call and the example use the codec of the
-- messages as an interface: they hold for every codec whose messages read back as they were
-- marshalled, and whose Unmarshal fills the message, returns an error or panics. They take the
-- metrics for granted: a report there adds to a list; what a report does without a producer is in
-- Metrics.Obj and Server.Ticker.
--
-- Not modelled: the profiler (tools) and the main functions of the example, which forward to libraries
-- or to the system; what the other parts log, as nothing reads it, but for Fatal, which ends the
-- process; unknown fields of a message, which are skipped and not kept. The handler of a client's
-- connection can wait in its send to a call: Client.Calls has this wait, Client.Replies what the
-- handler makes of packets while no send waits for ever.
-- Time is not modelled: a timer may fire at any point of a wait, and stamps are arguments.
pub mod Prelude
pub mod Transport
pub mod Proto
pub mod Common
pub mod Server
pub mod Client
pub mod Config
pub mod Registry
pub mod Example
pub mod Metrics
pub mod Kafka
pub mod Zzlog
