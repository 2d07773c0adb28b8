-- ===== src/Lib.antt =====
-- flip-flop-protocol: an event bus for one client and many servers that talk in turns. The
-- repository has two crates and examples of each. The crate in data/ is a data link: encrypted
-- frames, the discovery of servers, and software updates. The crate in app/ has the commands and
-- events that go over it or over UDP.
--
-- Data link (data/src/lib.rs). A datagram is a packed header, a length and an encrypted payload.
-- Data.Header has the record of the header, `to_packed` and `parse`, every mask and shift as in
-- the source; `none` is HeaderParseError. Data.Header.Fields says what each byte and field holds.
-- Data.Frame has DataFrame, `new_nonce` and the errors, Data.Frame.Decode `from_datagram`, and
-- Data.Frame.Encode `to_datagram`, whose result is the new content of the caller's buffer.
--
-- Discovery (data/src/discovery.rs). The client broadcasts the addresses that it knows as 256
-- bits, and a server draws one of the others. Data.Discovery has `is_address_set`, `set_address`,
-- the iterator's `next` and `with_random_address`, whose loop runs on fuel: 257 rounds, one for
-- each of the 256 items and one for the end, and enough whenever the field has 32 bytes.
-- data/examples/discovery/main.rs: Data.Discovery.Packets has what either side reads,
-- Data.Discovery.Server the server's task and that of all servers on a packet,
-- Data.Discovery.Known the loop of one server over the packets that come,
-- Data.Discovery.Round the client's round, from the replies of its time window to the addresses
-- that it notes, and Data.Discovery.Client its task and the loop of main. That loop runs on any
-- fuel: how many rounds it takes is up to the generators, and nothing bounds it. The channel is a
-- parameter, and Data.Discovery.NoLoss has the one without loss and the states that rounds over
-- it reach.
--
-- data/examples/discovery_analysis/main.rs: Data.Discovery.Simulation has the simulation, with
-- `f64` as a record of operations and its loop on any fuel, since no amount is enough for every
-- input. Data.Discovery.Simulation.OneSlot is about the case of a single slot, with one round of
-- fuel more than there are stations.
--
-- Software update (data/src/update.rs). Data.Update has the messages, Data.Update.Order the order
-- of versions, and Data.Update.Text `to_string` and `from_str` over lists of bytes.
-- Data.Update.Text.Grammar has the texts that are read.
--
-- data/examples/update/main.rs: Data.Update.Client has the loop that cuts an update into packets
-- and makes a datagram of each, on fuel of one round more than the update has bytes, since each
-- round takes a byte at least; Data.Update.Prepare has the preparation of the servers and the
-- client's task, Data.Update.Server the functions of the server and its loop over the packets
-- that come, and Data.Update.Whole the server's task. The source flashes nothing, so that
-- Data.Update.Watch has, beside the server's state, the bytes that it takes for an update and the
-- images that it finishes. The offsets are taken below 2 ^ 28, since
-- postcard writes a larger one in five bytes and UPDATE_BYTES_OVERHEAD allows for four.
--
-- Application layer (app/src/lib.rs). App has the messages, `event_reply` and the codecs of the
-- last field, App.Messages the derived codecs of the two messages.
--
-- app/examples/server/main.rs: App.Server has the server's state, the choice of an event, the
-- reply, and the arrival of an event; the states it reaches are Reachable of
-- App.Server.Invariant, and the table of offset-rules.md is App.Server.OffsetRules.
-- app/examples/client/main.rs: App.Client has the client's state, its request and what a reply
-- changes. App.Exchange puts both together: a poll is a request, its reply and the step on it.
-- App.Wire has the datagrams that carry the messages, with buffers of 32 bytes on both sides.
-- App.Exchange.Schedule has schedules of arriving events and of polls, some of which are lost.
--
-- Common has the shared names, Outcome (a Rust computation that returns or panics), Result with
-- `?`, words with their wrap-around written out, `i32` with checked arithmetic, bitwise
-- operations as arithmetic, lists measured by native numbers, and the parts of Rust's `str` that
-- are used.
--
-- Other crates are parameters with the laws that their documentation gives: aead, postcard and
-- heapless in Data.Crates and Data.Update.Client, `f64` as Float of Data.Discovery.Simulation,
-- rand as Rng of Data.Discovery, serde's codecs of a type as Serde of App, and circular_queue in
-- App.Server. Each set of laws is met by a concrete stand-in in the modules of examples.
--
-- The unit tests of the crates are computations that return or panic, in the modules called
-- UnitTests.
--
-- Not modelled: sockets, channels, timers and printing, which are I/O, with the probability that
-- the simulation prints and the reading of its arguments; the Debug and defmt output; the pauses
-- of the update's preparation and its last one. Words of usize are not bounded, nor is the count
-- of the replies to an address, an `i32` that overflows at 2 ^ 31 replies in one time window. The
-- channel without loss gives each server the client's packets but not the other servers' replies,
-- which would change nothing but its frame counter.
pub mod App
pub mod Common
pub mod Data
