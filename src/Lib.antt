-- ===== src/Lib.antt =====
-- couchlink: sharing a game over the network. A host streams video to players and takes their pads'
-- input; a signaling server brings the peers together; a companion on Windows holds the virtual
-- pads.
--
-- The parts and their files:
-- * Proto is crates/proto. Proto/PadFrame is src/pad_frame.rs: `encode` and `decode` of the pad's
--   frame. Proto/VideoFrame is src/video_frame.rs: the wire format of a fragment
--   (`VideoFragment::encode`, `decode`), Send (`encode_fragments`, `encode_fragments_with_fec`) and
--   Assembler (`FragmentAssembler::push`, `recover_fragment`); the other files below it are its
--   proofs: Wire, Cutting, Parity, Complete, Delivery, Loss, Sent, EndToEnd. AnnexB is
--   `annex_b_is_keyframe`. Proto/Stun is src/stun.rs. The buffers of the bytes crate are a parameter,
--   Proto/Buffer, with the documented meaning of its reads and writes.
-- * Signaling is crates/signaling. Signaling/Players is src/players.rs: the slots of a session.
--   Signaling/Session is src/session.rs with src/audit.rs and the counters of src/metrics.rs: Store
--   has the sessions and their registration, Peers the messages, closing sockets and expiry; Map is
--   the map of sessions, and Lockout, Sockets, Sweep, Invariant and Reachable are proofs. The channels
--   of tokio are a parameter, Signaling/Channels. A player's socket registers, the store seats it in
--   its table, and what the store sends to other sockets is a list of receiver and message.
--   Signaling/Ws is src/ws.rs: what a socket's handler does with each message of Proto/Signal
--   (crates/proto/src/signal.rs), from the socket's opening to its closing (`handle_socket`); Stamps,
--   Seats, Steps, Outcomes and Leaks are proofs, and Server lets any number of handlers take turns.
-- * Host/LinkGov is crates/host/src/link_gov.rs: the governor that commands the encoder's target
--   from what the link sheds; Ladder, Bounds, Recovery and Stuck are proofs. Host/Motion is
--   crates/host/src/motion.rs: the detector of a static screen, with its proofs in Static and Moving.
--   Host/Scale is crates/host/src/scale.rs: the scaler of captured frames, with its proof in Safety.
-- * Host/Peer is the sending side of crates/host/src/webrtc_peer.rs: `push_h264`, which writes a
--   frame to the track and beside it to the data channel, `set_present_path`, keyframe requests and
--   trickle mode; Delivery and Keyframes are proofs. Watermark is `note_input_wm`, by callers that
--   interleave. What the webrtc crate answers during a push is a record, `Link`. Host/FanOut is
--   `push_to_all` of crates/host/src/main.rs, one push for each player, and what the link governor is
--   told of it. Host/Joins is `take_queued_joins` of the same file, with its proofs in Newest;
--   Host/Slots is what the main loop does to the players' connections: `handle_slot_join`,
--   `route_slot_msg`, leaves, and a join with the queue behind it, with its proofs in Burst.
-- * Host/Bridge is crates/host/src/capture/bridge.rs: `capture` takes the frames of the capture
--   process off its socket, reconnects and relaunches; Demux, Order, Newest and Flapping are proofs. A
--   socket is the bytes that have come and whether it is closed; a client that waits at the listener
--   is an argument, and the commands that are written are kept in the state.
-- * Pad/VhidProto is crates/pad/src/vhid_proto.rs, with `poll_output` of src/vhid_client.rs: the
--   framing between host and companion. Pad/Parse, ParseDs4, ParseXbox, ParseSwitch and ParseSteam are
--   the parsers of controllers' reports, in crates/pad/src/parse.rs and the files named after the
--   pads; Pad/Buttons has the button bits and the tests that set them, Pad/MapFrame is
--   src/map_frame.rs, the report of a virtual pad, and Pad/Recognize is
--   src/recognize.rs. Pad/Sim is src/sim.rs, the simulated reports, and Sim/Presses what the parsers read
--   from them.
-- * Capture/EncodeTarget is crates/capture-bridge/src/encode_target.rs: what the encoder does with a
--   new target. Capture/Wire is src/lib.rs and src/audio.rs: the frames on the capture socket, written
--   and read, with proofs in RoundTrip, and in Buffered for the two readers of audio. Capture/Avcc is
--   `avcc_to_annex_b` of src/mf_encoder.rs and Capture/Fit the size that src/bin/win_capture.rs
--   encodes a window at.
-- * Companion is crates/ds-vhid/src/session.rs: Registry is the table of the slots' controllers with
--   connections that interleave (each step is one hold of the lock or one answer of the driver),
--   Session what `serve_tcp` makes of what `VhidClient` of crates/pad/src/vhid_client.rs writes;
--   Identity and Applied are proofs.
-- * Base has the names that all share: tests, lists and bits over the native numbers, Slots, a map
--   keyed by numbers, and Order, bounds of quotients.
-- The files named Examples hold concrete runs.
--
-- State is a record and an operation a function from state to state, with its answer and the
-- messages that it sends. A word of w bits is a number, with its wrap-around written out; a signed
-- word of the pad frame is its bit pattern. Instants are milliseconds, read once in each call. A
-- panic of the code is a value: `panic` of a decoder, `none` of the governor and of the scaler, whose
-- machine words are checked for overflow or wrap, as the build has it.
--
-- Bounds and fuel: `chunks` runs on the length of its slice, which is enough since each piece takes
-- at least one byte; the loop over STUN attributes runs on the number of attribute bytes, of which
-- each round takes four or more, and it is proved to end; the drain loop of `poll_output`
-- runs one round more than there are bytes, and each that goes on takes seven or more. The loops of the
-- capture bridge, of `avcc_to_annex_b` and of a companion's session run on the number of bytes, of
-- which each round takes at least one; the demultiplexer has the source's bound of sixteen audio
-- frames. The payload limit of a fragment is a parameter of the proofs; the program's is 14000.
--
-- Not modelled: the JSON of the signaling messages, which serde writes and reads (the parser is a
-- parameter of the handlers); handlers that interleave within one message; the labels of
-- controllers; `resync` and `listen` of the capture bridge; the output reports of the companion;
-- device, media and network access; the clients, the tools and the vendored crates.
pub mod Base
pub mod Proto
pub mod Signaling
pub mod Host
pub mod Pad
pub mod Capture
pub mod Companion
