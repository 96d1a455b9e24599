-- ===== src/Lib.antt =====
-- Shelly: terminal sessions that a daemon on the desktop keeps, and that a phone or another
-- terminal attaches to. A daemon (crates/daemon) runs programs in pseudo terminals, keeps a
-- window over the output of each, and speaks a framed protocol (crates/protocol) with its
-- clients; a relay (crates/relay) stores pairing tickets and forwards push messages.
--
-- Files and sources:
-- - Ring: crates/daemon/src/ring.rs, the window over a session's output (PtyRingBuffer).
--   Ring/Window is about what is replayed, Ring/Overflow about the end of the sequence numbers.
-- - Framing: crates/protocol/src/framing.rs. Framing/Codec has encode_frame and decode_frame,
--   Framing/Stream has read_framed and write_framed; RoundTrip, Reading and Writing have the
--   proofs.
-- - Code: crates/protocol/src/code.rs, and generate_code of crates/daemon/src/pairing.rs.
-- - Pairing: crates/daemon/src/pairing.rs, the PairingManager. Pairing/Attempts is about the
--   life of a code, Pairing/Approval about the requests that use it.
-- - Prelude: Boolean tests, lists, results and dictionaries that the parts share.
-- - Signing: crates/protocol/src/signing.rs, what is signed of a request to the relay and the
--   header with the signature.
-- - Relay: crates/relay/src/lib.rs. Relay/State has RelayState, Relay/Steps the calls of the
--   store and the rate limits, Relay/Checks, Relay/Signatures and Relay/Verifying the checks of
--   requests (verify_signed_request, verify_registration_proof), Relay/Pruning, Relay/Daemons,
--   Relay/Tokens and Relay/Codes the handlers (register_daemon, register_token,
--   unregister_token, push, publish_pairing_code, resolve_pairing_code). Pruned, Replay,
--   Signers, Bound, Keys, Held, Cap, Single and Resolved have the proofs; Fixtures, Tests,
--   CodeTests and TokenTests the witnesses.
-- - Session: crates/daemon/src/session.rs. Session.antt has the state that is shown (set_state,
--   apply_agent_state_event, mark_exited, the idle loop) and min_client_size; Session/Infer and
--   Session/Phrases are crates/daemon/src/state_infer (infer_from_line, infer_from_json_line,
--   classify); Session/Output has record_output and attach_bytes, Session/Clients the input
--   queue (try_send, write_input), the sizes of the clients (attach_client, update_client_size,
--   detach_client, the resize loop), kill and reap_exit_code. Session/Edges is about the end of
--   a session, Session/Sizes and Session/Smallest about the sizes, Session/Sending,
--   Session/Resume and Session/Subscribed about what a client that attaches again is given and
--   sent.
-- - Ticket: the pairing tickets of crates/protocol/src/types.rs (PairingTicket::encode and
--   decode, rendezvous, into_ticket). Ticket/Decoding is about what is read of an encoded
--   ticket.
-- - Protocol: the records of crates/protocol/src/types.rs that the daemon's parts share.
-- - Persistence: crates/daemon/src/persistence.rs. Persistence.antt has the payloads and the
--   tables (save_session, load_sessions, save_device, remove_device, load_devices),
--   Persistence/Pruning prune_sessions_with_limit. Payload is about reading what was written,
--   Retention, Dropped and Newest about what the pruning keeps, Rows about the rows of a device
--   and Loading about what a start reads of them; Fixtures and Tests have the witnesses.
-- - Devices: the paired devices of AppState in crates/daemon/src/ipc.rs (save_device,
--   remove_device, unpair_self, update_device_push, clear_device_push, mark_device_seen and the
--   watchers). Devices/Durable and Devices/Restart are about the store beside the memory,
--   Devices/Removal about the removal of a device and of its token.
-- - Registry: the sessions of AppState in crates/daemon/src/ipc.rs. Registry.antt has
--   insert_restored_session, evict_naturally_exited_session and kill_session_for, Registry/Names
--   and Registry/AutoNames reserve_new_session_name and create_session_for. Named, Ended and
--   Created are about the names through these operations, Fresh about the search for a name.
-- - Push: crates/daemon/src/push.rs, the worker that speaks to the relay (PushWorker::run and
--   its commands); Push/Retry has retry_relay_operation. Registered is about what is signed,
--   Dispatched about the pushes of an event, Budget about the end of the retries.
-- - Dispatch: the connections of the daemon's clients, over the state of the whole daemon
--   (AppState). Dispatch.antt has that state, what a message finds of its surroundings, and
--   crates/daemon/src/authz.rs; Dispatch/Messages crates/protocol/src/messages.rs and
--   version.rs, Dispatch/Sas crates/protocol/src/pairing_security.rs. Dispatch/Requests and
--   Dispatch/Attaching are the requests on sessions, which both transports serve alike
--   (create_session_for, kill_session_response, AttachSession, Input, Resize). Dispatch/Local is
--   handle_client_io of crates/daemon/src/ipc.rs; Dispatch/Peer, Hello, Answers and Remote are
--   handle_connection of crates/daemon/src/transport_iroh.rs. Kept, Others and Effects are about
--   what a message leaves as it is; Isolation, Approved, Guarded, Removed and Answered (with
--   Expected, the answers that belong to a message) are about what a client can reach and what
--   it is told, Stuck about an attachment that fails, Forwarding (crates/daemon/src/forward.rs
--   and forward_attached_events) about what a client that is attached is sent.
-- Each other part has its witnesses and tests in a child module Tests.
--
-- How state is modelled: a method that changes its object takes it as an argument and gives the
-- object afterwards. A hash map is an association list (Prelude/Dict). The clock, random bytes,
-- fresh ids and what a channel or a stream does are arguments. A lock is not modelled: each
-- method runs as one step, and a poisoned lock is left out. The operations on the devices and on
-- the sessions of the daemon run one after the other; so do the messages of its clients, each in
-- one step, save for the pairing of a device, whose wait for the desktop lies between two steps
-- of its connection, and what the daemon writes to a client arrives. A handler of the relay runs
-- without another in between, save for register_daemon, whose parts are steps of their own. The
-- parsed body of a request is an argument, since serde_json and the validation of the declared
-- field lengths are libraries; the base64, Ed25519 and SHA-256 functions, the cache of the rate
-- limits, the push providers and the durable store are parameters (Relay.State.Env and
-- RelayStore). The start, the kill and the answers of a process, what the relay answers to the
-- daemon, whether a transaction of the daemon's store is committed, the terminal emulation, and
-- the functions of bincode, of postcard and base32, of the cipher and of the hash are arguments
-- or parameters (Session.Output.Terminal, Ticket.Libraries, Push.Network, Push.Retry.World,
-- Persistence.Libraries). A text is the list of its characters' code points.
--
-- Bounds: numbers are natural numbers; where the source saturates or checks, the bound of the
-- machine type is written out. read_framed runs its loop on as much fuel as the declared length,
-- and a round reads a byte at least; write_framed runs on the length of the frame, and a round
-- writes a byte at least. wait_pairing_ticket looks at the endpoint a hundred times and once
-- more, as the source does. retry_relay_operation runs on as many rounds as the minimum delay
-- fits into the budget, and two more; the search for a session's name tries as many suffixes as
-- there are names, and one more, and stops where the i32 of the source overflows; the cap of the
-- restored sessions runs as many rounds as there are restored sessions, each of which removes
-- one. The theorems on the frames, on the retries and on the names show that the fuel is enough.
--
-- Not modelled: of a session, the start of its process and the loop of its thread; of the
-- daemon, the load at its start, the sockets and the endpoint with the limit of unauthenticated
-- connections, the task that sends the list of sessions and the debounce of the published list;
-- of the store, files, permissions and the keychain; of the push worker, the HTTP client and the
-- signing key; the network transports, the terminal emulation, logging, paths and configuration,
-- which are input and output or belong to libraries; the clients (crates/cli,
-- crates/mobile-core); the serializers are parameters.
pub mod Prelude
pub mod Code
pub mod Devices
pub mod Dispatch
pub mod Framing
pub mod Pairing
pub mod Persistence
pub mod Protocol
pub mod Push
pub mod Registry
pub mod Relay
pub mod Ring
pub mod Session
pub mod Signing
pub mod Ticket
