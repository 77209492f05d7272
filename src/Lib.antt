-- ===== src/Lib.antt =====
-- Jackstay: producers share frames with consumers through an arena of resources, and controllers
-- send input to a target. The files below model the logic of crates/jackstay/src.
--
-- Base: numbers, lists, dictionaries (`BTreeMap`), results and doubles as the code uses them. A
--   64-bit or 32-bit sum, `add64` and so on, wraps at its width.
-- Admission (acquisition.rs) and Admission/Allocation (acquisition/allocation.rs): the admission
--   book, which reserves frames and bytes for consumer incarnations and accounts for the arena's
--   allocations while one replaces another. Admission/Invariant and Admission/Replacement keep its
--   invariant, Admission/Calls is about histories of calls, Admission/Lifecycle about one
--   incarnation, Admission/Cycle about one replacement.
-- Protocol (acquisition/arena.rs, `publish_prepared` and `acquire`): producer and consumer threads
--   on the shared words of an arena, one access a step, in every interleaving. Protocol/Invariant,
--   Publishing and Acquiring carry the invariant, Safety is about leases, Retention about history.
--   The accesses are sequentially consistent, as in the source; cursors stay below 2^63.
-- Input (input/model.rs, input/session.rs): the vocabulary (Model), the checks of events
--   (Validate), the session (State), the executor's side (Target) and the controller's side
--   (Controller). `Target` and its lock are the state passed along, a `Controller` is a ticket with
--   its id, and time is an argument. Frame, Executing, Landing, Completing, Queueing and Submitting
--   carry the invariant of Input/Invariant; Calls is about histories of calls, of which Onward,
--   Lasting and Sequence follow a controller's submissions, and Order, Answering and Sending its
--   queue; Moving is about changes of geometry, Ending and Leftover about the end of a
--   session.
-- Lease (native/lease.rs): the lease book of native frames. Calls is about histories of calls,
--   Holding about what a lease protects, Spending about what a release ends.
-- Session (state.rs): sources, tracks and their events. Replay reads the events back, References is
--   about the sources of tracks.
-- Codec (crates/jackstay-graph/src/lib.rs): the codec decision of an export.
-- Framing (framing.rs): length-prefixed frames over a stream. The stream's answers to the successive
--   writes or reads of one call are a list, on which the loops recurse; a call that is still waiting
--   when the list ends has the result `none`. A write takes as many of the bytes offered as the
--   stream has room for. Sending is about `flush`, Queueing about `send`, Receiving about `receive`,
--   Roundtrip about all three. Serialisation is a parameter, as are the descriptors of Session.
--
-- Arena (acquisition/arena.rs and acquisition/arena/): the same arena one call at a time, with the
--   words of its maps as functions. The producer, its book, its incarnations and their observers are
--   one record; what the operating system and the backends answer during a call is an `Environment`.
--   Layout (mapping.rs) has sizes and offsets, Claims (arena.rs, wait.rs) the claim words, Cleanup
--   (cleanup.rs) the observer of an incarnation, Collecting (`poll_cleanup`, `collect_quiescent`,
--   `collect_retired_allocations`) what is reclaimed, Selecting and Publishing (`publish_prepared`,
--   writer.rs) the producer's frames, Attaching (`create`, `attach_with_recipient`, `close`) its
--   consumers, Acquiring the consumer, Configuring its storage, Replacing (reconfiguration.rs) the
--   replacement of the allocation up to `reconfigure_cpu`. The payload storage of an allocation is
--   a function from offsets to bytes. Matching relates the book and the incarnations; Lifetime is
--   about histories of calls, each child module about the component it stands under. The loop of
--   `collect_retired_allocations` runs on as many rounds as there are retired allocations: each round
--   passes one or removes one.
--
-- How they interact: the admission book decides which consumers hold claim words and how much
-- storage the arena keeps back for the producer; Arena keeps book and incarnations together, and
-- Protocol is its claim protocol interleaved; the input session is on its own. Loops are structural
-- recursion over a queue, a range of indices or a list of answers: a status that overflows the
-- mailbox empties the queue, which the models of the loops write out.
--
-- Not modelled: sockets, shared memory, descriptor passing and GPU interfaces (operating system
-- calls), the foreign function interface, threads other than the interleavings above, and panics of
-- checked arithmetic in debug builds. Text is its UTF-8 bytes, a duration a number of nanoseconds.
-- Of the arena, the doorbell beside a wake and the retirement thread of a consumer, with its deferred
-- releases, are left out. The rest of crates/jackstay/src, such as handshakes and the control
-- page, has no model here.
pub mod Base
pub mod Admission
pub mod Protocol
pub mod Input
pub mod Arena
pub mod Codec
pub mod Framing
pub mod Lease
pub mod Session
