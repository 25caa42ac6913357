-- ===== src/Lib.antt =====
-- A library over iscp-go, the Go client of the iSCP protocol. Each module follows one part of the program.
--
-- Segment models internal/segment: a message goes out as datagrams (sender.go: Sender.antt) and the receiver
-- collects them in read buffers (read_buffer.go: ReadBuffer.antt). Format has the eight bytes before each
-- payload. Sending, Collect, Reassembly, Expiry and Faults hold the proofs. The receiver of datagrams, the
-- interface Sender, is an argument: a state and what SendDatagram does to it. Calls hold a mutex, so a run is
-- a sequence of calls; the clock is an argument of each.
--
-- Ids models wire/req_id_generator.go, wire/stream_id_generator.go and the sequence numbers of
-- iscp/upstream.go, with the wrap of uint32 written out. The loop of AliasGenerator.Next runs on fuel; two
-- rounds are always enough.
--
-- Multi models transport/multi. Transports has SelectAvailableTransport (transport_selector.go) and
-- updateOverallStatus (transport.go); Info has TransportInfo (transport_info.go) and the updates that keep
-- the minimum round-trip time; Stats, RoundRobin, MinRtt, ByteBalanced and Ecf are the selectors
-- (round_robin_selector.go, minrtt_selector.go, byte_balanced_selector.go, ecf_selector.go). A selector asks
-- the multi-transport for the states of its transports, so these are an argument of its Get. A Go map is an
-- association list in the order of the iteration, which is left open. Durations are
-- natural numbers, counters are uint64 with their wrap. In the loop of ECFSelector.Get the list of what
-- happens in each sleep stands for the time that passes.
--
-- Retry models the loop of internal/retry/retry.go on fuel; with a largest number of attempts n, n + 2 is
-- enough. Storage models iscp/storage.go, over any identifiers and states. Status models the swaps of
-- iscp/state.go and iscp/stream_state.go; its Races.antt has callers one after the other.
--
-- Upstream models the data path of iscp/upstream.go and iscp/data.go: Data.antt has the data points, their
-- groups and toUpstreamDataPointGroups; Upstream.antt has the state of an upstream and the calls that change
-- it under its mutex (the write case of flushLoop, flush, validateState, toUpstreamChunk, clearBuffer,
-- storeSent, removeSent, clearSent, processDataIDAliases, processResult). Run.antt has sequences of these
-- calls, in place of the loops that make them, and Messages what they hand to the connection; Flush,
-- Delivery, Counters, Numbers, Aliases and Sent hold the proofs. Chunks take their sequence numbers from Ids; the wire connection sends them to the writer that
-- Wire.Upstreams keeps for the alias.
--
-- Reconnect models transport/reconnect: Control has the ping and pong messages of pingpong.go, with their parser;
-- Machine has the status machine of transport.go (Dial, initialConnect, reconnect, CloseWithStatus), in the
-- steps that goroutines can come between, and Pongs the pings that wait for a pong. The loop of attempts
-- runs on fuel: with a largest number n, n + 1 is enough, and without one the number of the attempt that
-- succeeds. Its Attempts, Races and Safety hold the proofs.
--
-- Wire models wire/client_conn.go: Handshake has Connect with the versions that it accepts, Requests has
-- sendRequest and readRequestLoop, over the identifiers of Ids; Upstreams and Downstreams have the tables of
-- clientUpstreams and clientDownstreams with the calls that change them; Queues has the channels into which
-- the reading loops put messages and from which receivers take them. A table holds what stands in its channels. The comparison of versions (the
-- library semver) is a parameter of Handshake.
--
-- Downstream models iscp/downstream.go: the aliases of data IDs and upstreams, the buffers of what is to be
-- acknowledged and flushAck in Downstream.antt, ReadDataPoints with wireToDownstreamChunk in Reading.antt,
-- and resume in Resume.antt, which works on the tables of Wire.Downstreams. Run.antt has sequences of reads
-- and flushes. Aliases, Delivery and Server, and Acks and Reported, hold the proofs on data IDs and on
-- acknowledgements. Aliases come from Ids, with the two rounds that are enough.
--
-- Conn models iscp/conn.go: Lifecycle has reconnect, close and send as the stretches between which other
-- goroutines run, over the sessions that are open; Streams has the registers of upstreams and downstreams,
-- with the repository of Storage, also while streams end during a close; Calls has the calls between nodes of iscp/e2e.go, with the two loops that
-- serve them. Message has the text of the filters and data IDs of message/.
-- Negotiation models transport/negotiation.go, Validate and CompressConfig.
--
-- Convert models encoding/convert: Messages has the structs of message/, Autogen the fields that the literals of
-- the generated package set (both without nil where the conversion follows a pointer without a test: the
-- panics there are not modelled), Outside that package, time and uuid as parameters with what they document;
-- ToProto is wire_to_proto.go and ToWire proto_to_wire.go, one function per message. RoundTrip, Errors,
-- Reading and Crossing hold the proofs.
--
-- Prelude has the shared tests, lists, maps and the interface of equality.
--
-- Not modelled: goroutines and channels other than as sequences of calls, and log output; the transport
-- adapters (websocket, quic, webtransport) and the encodings, which are calls of third-party libraries; the
-- settings and callbacks of iscp (its files of options and event handlers), which hold no state of a stream;
-- the schedulers of transport/multi, the opening of streams in iscp/conn.go, and the loops that only move
-- messages between channels, for their size.
pub mod Prelude
pub mod Segment
pub mod Ids
pub mod Multi
pub mod Upstream
pub mod Retry
pub mod Storage
pub mod Status
pub mod Reconnect
pub mod Wire
pub mod Downstream
pub mod Conn
pub mod Message
pub mod Negotiation
pub mod Convert
