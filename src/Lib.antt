-- ===== src/Lib.antt =====
-- Verification of fluxsync, a clipboard that several devices share over encrypted links.
--
-- The program. The core (crates/fluxsync-core) is free of input and output: the daemon hands it
-- events and carries out the actions that it answers with. `App::handle` (app.rs) runs each event
-- through an arm of its own, through the transition table of four phases (fsm.rs), through the
-- clipboard firewall (policy.rs) and through a few passes over the actions, and publishes the state
-- that clients read (state.rs). Two rings keep content and mesh items from going round (dedup.rs).
-- The crypto crate (crates/fluxsync-crypto) seals the frames of a link and refuses replayed ones.
-- The daemon (crates/fluxsyncd) paces its redials, numbers what it sends over all its restarts, and
-- keeps recent items to offer them again.
--
-- The files.
--   Base        shared names, tests on numbers, lists, sorted maps (`BTreeMap`), texts.
--   Proto       crates/fluxsync-proto/src: Types (the kinds of items) and Msg (the frames) of
--               types.rs, Codec (codec.rs with the bounds of lib.rs and error.rs), Caps (lib.rs), File
--               (`sanitize` of file.rs).
--   Core        crates/fluxsync-core/src: Id (id.rs), Clock (clock.rs), Dedup and Seen (dedup.rs),
--               Policy (policy.rs), Error (error.rs), Events (events.rs), State (state.rs), Fsm
--               (fsm.rs) and App (app.rs).
--   Core.App    the fields of `App` and its setters; History (`push_history`, retention, delivery
--               marks), Restore (`restore_history`), Canon (`canon_text` and the content digest),
--               Pending (`apply_firewall` and the parking lot), Arms (the first match of `handle`),
--               Handle (the rest of `handle`), Mesh (links and event ids). What is proved of the
--               handler stands in the children of Handle, of runs in Reach, of rows in Rows.
--   Crypto      crates/fluxsync-crypto/src/session.rs: Replay (`ReplayWindow`), Session.
--   Daemon      crates/fluxsyncd/src: Backoff (backoff.rs), RateLimit (rate_limit.rs), SeqStore
--               (seq_store.rs), Outbox (outbox.rs), Transport (transport.rs: the sessions of the
--               peers; its Wire is what goes over the socket), and Driver (the folder driver):
--               Frames (frames.rs), Reassembly and Inflight (the arms of inbound.rs for chunks,
--               `Ack` and `Nak`, its timers, and the maps of shared.rs), Pulls (tombstones, pulls
--               and recent writes of shared.rs, resync.rs), Shared (`Shared`, with what frames.rs
--               and liveness.rs do to it), Inbound (`dispatch_inbound_frame`: Items, Links,
--               Pairing, Resync and Greeting are its arms), Actions (the arms of `dispatch` in
--               actions.rs that send, and what a wipe clears), and Liveness (the ticks of
--               liveness.rs).
--   Tests       the theorems at concrete inputs, and short runs.
--
-- Conventions. A method of `&mut self` takes the record and returns it, with its result beside it.
-- A 32-byte id or digest is the number of its big-endian bytes, so the order of ids is that of
-- numbers and the zero id is 0; payloads are lists of bytes; a `String` is the native string, and
-- its length counts bytes. A `BTreeMap` is an association list in the order of its keys, a
-- `VecDeque` a list with the oldest entry first. `u64` counters wrap or saturate as the source has
-- it, with the range written out; instants and durations are milliseconds. The bitmap of the replay
-- window is the list of its 64 bits. blake3, the cipher of snow, the CBOR of ciborium, the wall clock
-- and random draws are parameters. Loops are structural recursions but for three that run on fuel:
-- the digits of a number (`decimal`: twenty hold every 64-bit number), the reading of UTF-8 and the
-- cut of a file name (the length in bytes, of which every round takes one at least).
--
-- What a frame makes the daemon do is a function of all that its tasks share: it returns it with the
-- effects noted in their order (a send, an event to the core, a delivery to tell clients of, peers
-- written to disk). Locks are taken for the whole of an arm, and the channel of events has room.
-- The label of an item in the history (`preview_label`) is a parameter.
--
-- Not modelled: serialization, logging by tracing, sockets, files, keychains and the user
-- interfaces; the regular expressions of the classifier, which decide kind and sensitivity before
-- an item reaches the core; of the daemon all but these parts. A `HashMap` of the daemon is an
-- association list as well.
pub mod Base
pub mod Proto
pub mod Core
pub mod Crypto
pub mod Daemon
pub mod Tests
