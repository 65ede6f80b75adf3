-- ===== src/Lib.antt =====
-- A model of wingfoil, a stream processing engine: a graph of nodes that is cycled in historical or
-- real time. Paths are from the repository's root.
--
-- - Base: tests and lists over the native numbers.
-- - Queue (wingfoil/src/queue/time_queue.rs): TimeQueue with all its operations. The binary heap is a
--   list of entries, and `pop` takes an entry of least key (time, seq); a heap gives no other promise.
--   Queue.Events has the abstract view, a list of timed values in order.
-- - Graph (wingfoil/src/graph.rs): the engine. Graph.State is GraphState and its methods, Graph.Wiring
--   `initialise` and `initialise_node`, Graph.Cycle `cycle` and `cycle_node`, Graph.Callbacks the
--   `process_..._callbacks` functions, Graph.Dynamic the pending additions and removals with
--   `fix_layers`, Graph.Run `new`, `run`, `run_nodes` and `apply_nodes`. A method that mutates the graph
--   is an action on a world: it returns a result beside the new world, also when it fails. A result is
--   a value, an error, a panic (an index out of range, an `expect`) or a divergence (a loop that
--   outlives its fuel).
-- - Time (wingfoil/src/time.rs): NanoTime as a 64-bit number.
-- - Nodes (wingfoil/src/nodes): the state and the cycle of nodes. Limit, Distinct, Throttle, Buffer,
--   Window and Tick have the files of these names; Delay has delay.rs and delay_with_reset.rs, Feedback
--   feedback.rs and callback.rs, Sources iterator_stream.rs, Demux the DemuxMap of demux.rs with the
--   parents and children of it in Demux.Parent, Group DynamicGroup of dynamic_group.rs, and Values the
--   nodes that only compute a value (map, map_filter, fold, filter, sample, with_time, difference,
--   merge, constant). A cycle takes the values that the upstreams show, and GraphState where it calls it.
-- - Adapters.Fix (wingfoil/src/adapters/fix/mod.rs): Codec has the tag-value codec and the framing,
--   Session FixSession with the handlers of the two roles, Drain the loop `drain_parse_buf` over the
--   parse buffer and `split_events`, Spin the cycles of FixSpinSource and FixAcceptorSpin, Thread
--   `run_fix_session`, Sender FixSenderNode and Subscribe FixSubNode. The loop of reads of a cycle has
--   fuel; one more than the pieces read is enough. A text is its UTF-8 bytes. Sockets, writing and the
--   clock are the parameter Net; `from_utf8`, `to_string` and `parse` of the standard library are
--   written out.
-- - Adapters.Slices (wingfoil/src/adapters/common.rs): TimeWindow, WindowFilter and the time slices of a
--   run. An i64 is its bit pattern; the loop of a day has a round for each nanosecond of it.
-- - Adapters.Kdb (wingfoil/src/adapters/kdb/read.rs): rows and columns of a table, and in Read
--   `chunk_stream` and `kdb_read`, which yield a list; ReadCached has `kdb_read_cached` of
--   wingfoil/src/adapters/kdb/read_cached.rs. The values of q are the parameter KApi, and the
--   connection, the query and the deserialiser the parameter Source.
-- - Adapters.Cache (wingfoil/src/adapters/cache): FileCache with its eviction, and the `clear` of
--   CacheConfig; the file system and bincode are the parameter Files.
-- - Channel (wingfoil/src/channel): messages and ChannelSender, with SenderNode of nodes/channel.rs.
--   Receive has ChannelReceiverStream of that file and Threads ReceiverStream of nodes/receiver.rs. What
--   a kanal channel does is the parameter Channel, and what a thread does Thread. The loop of reads of
--   a cycle has fuel; one more than the messages that are left, and the end, is enough.
-- - Adapters.Statistics (wingfoil/src/adapters/statistics.rs): the rolling extreme over its monotonic
--   deque, the rolling sum and the cumulative statistics; a f64 is the parameter Floats.
-- - Latency (wingfoil/src/latency.rs): stamps, StageStats and `observe`. The rank of a quantile, which
--   the source computes with a f64, is a parameter of `quantile_ns`.
--
-- The node objects are not the engine's code: Env, in Graph.Env, is a parameter that gives for each
-- node, known by its address, its upstreams and its setup, start, cycle, stop and teardown, as actions
-- on a world that holds the contents of all nodes. Graph.Cycle.Calls states what the cycle theorems
-- rely on: a node's cycle returns or fails, and changes the engine's state through the engine's public
-- methods alone. The clock and the messages of other threads are functions of Env too.
--
-- Numbers are natural numbers, with `% 2 ^ 64` where the source adds to a NanoTime or a counter; an
-- addition that would overflow panics in a debug build of the source and wraps around in a release
-- build, and the model follows the release build. A layer is a usize in the source and a natural number
-- here; where `initialise` takes it as an i32 and counts the rows in one, the model panics or wraps with it.
-- The texts of errors are not kept, but the phase and
-- node index that their contexts name are.
--
-- Loops that the state bounds are structural recursion. The fuel of `mark_scheduled` and of `drain` is
-- the length of the queue and one, since each round but the last takes an entry, and that of a window's
-- loop counts the nanoseconds that its end is behind; `wire`, `fix_layers`, `recycle_walk` and `run_loop`
-- take theirs from Env, because cyclic node objects or a run without end exhaust any number; for `wire` it
-- is proved to suffice on a finite set of nodes. The loops over bytes take as many rounds as there are
-- bytes, since each round that goes on uses one up. The loops of the session thread have fuel
-- because a session lasts as long as its peer keeps it.
--
-- A DemuxMap takes some free slot; which one is a parameter, as a hash set's order is.
--
-- Not modelled: logging, printing and export of a graph, the tokio runtime, asynchronous nodes, the
-- other adapters, the statistics that compute with floating point throughout, the bindings and the
-- derive macros.
pub mod Base
pub mod Queue
pub mod Graph
pub mod Time
pub mod Nodes
pub mod Adapters
pub mod Channel
pub mod Latency
