-- ===== src/Lib.antt =====
-- A verification library for localsend-rs, an implementation of the LocalSend protocol. It models
-- the receiving half: who may open a session, what an upload goes through until its file is
-- recorded and stands on the disk, and how cancellation, time and the PIN gate interact with it; the
-- share of files with browsers; the discovery of devices over HTTP, and over which
-- interfaces multicast goes; and the client, what it makes of the receiver's answers and which
-- certificates it trusts.
--
-- The parts, with the files of the repository that they follow:
-- - Base: lists, maps, sets and Boolean tests over the native numbers.
-- - Protocol (src/protocol/types.rs) and Error (src/error.rs): the records, enums and errors.
-- - Session (src/core/session.rs): a session's receive slots, the lease that an upload holds while
--   it receives, the permit that it holds while it publishes, and their destructors. The lifecycle
--   that leases share by a pointer is a value, and the functions that change it return the new one.
--   Session/Phases says what each does to one slot, Session/Holders runs a session under sequences
--   of operations, Session/Received is about tokens and completion.
-- - Pin (src/server/pin.rs): the PIN gate. Times are nanoseconds.
-- - PathSafety (src/path_safety.rs): `safe_join`, with the components of a Unix path written out.
-- - Sink (src/core/sink.rs): Sink/Names holds the names of the collision series, Sink/Disk the file
--   system, of which any call may fail, and Sink/Receive the sink that writes beside a file's name
--   and publishes by a rename.
-- - Discovery (src/discovery/http.rs): Discovery/Probe asks one host, Discovery/Scan takes what the
--   probes of many find, Discovery/Subnet names the hosts of a network, and Discovery/Local is the
--   object that is started and stopped. The network is an argument, a function from the request to
--   its reply, and a probe returns the requests that it made.
-- - Discovery/Multicast (src/discovery/multicast): the addresses that multicast is sent from, what a
--   round of announcements comes to, and the discovery object.
-- - Client (src/client/client.rs): Client/Requests is what the sender makes of each answer, with the
--   composition with the receiver in Client/Requests/Answers, and Client/Verifier the check of a
--   peer's certificate.
-- - Tui (src/tui/app.rs, src/tui/screens): Tui/Send is the flow of a send on its screen, the updates of
--   the task that sends, and the PIN prompt, and Tui/Send/Keys the keys of the two screens.
-- - Server (src/server): Server/State holds the state and, as a `World`, what lies behind its shared
--   pointers; Server/Events the events and their bounded channel; Server/Prepare, Server/Upload,
--   Server/Body, Server/Cancel and Server/Protected the parts of src/server/handlers.rs and of
--   src/server/crosscopy_authorized.rs; Server/Requests their composition; Server/Lifetime the sweep
--   and the stop of src/server/server.rs; Server/WebShare the share of src/server/web_share.rs, with
--   the server's methods that start, stop and answer it, and Server/WebShare/Consent its steps.
-- - TrustPolicy (src/client/trust_policy.rs): which peer certificates the client trusts.
-- - Tests: instances at concrete inputs.
--
-- A handler runs under the state's lock in stretches, and other requests run between them. Each
-- stretch is a function on `World`, and what other requests do at a wait is an argument `meanwhile`,
-- so that a theorem over all of its values covers every interleaving at the waits. The locks with
-- which an answered offer is settled follow each other without a wait and are one stretch.
--
-- Identifiers (session, file, token, address) are numbers that are compared and never taken apart;
-- random ones are arguments. A text is the list of its bytes. A map is an association list with the
-- source's answer on a missing key. Numbers of a machine's width wrap or saturate as the source
-- does. Fuel: `decimal_digits` has one more than the number, and a number has fewer digits;
-- `reserve_from` has the 1025 attempts of the source's loop, whose end is an error. All else is
-- structural recursion.
--
-- The web share's handlers run in stretches too; there the steps of a world, in any order, are a
-- relation. A call of the sink's `create` meets one state of the disk: another process that changes
-- the directory between two of its calls is not in the model. A path holds what the disk says of it,
-- and no link in it is followed; that the names above a new file are directories is a theorem.
--
-- SHA-256, what the handlers see of the sink, the host's gate for protected uploads, the HTTP body and the
-- clock are not code of these parts: the hash is a parameter, the others are results in the record
-- of a call. A test of the log's output has no model.
--
-- Not modelled: the sockets of multicast discovery, the listing of the machine's network interfaces,
-- the client's URLs and TLS configuration, the other screens and the dialogs of the terminal interface,
-- the command line and TLS, which are I/O around other crates or builders; the web share's static pages; the delays of the receive rate limit, which change no
-- result.
pub mod Base
pub mod Protocol
pub mod Session
pub mod Pin
pub mod Client
pub mod Discovery
pub mod Error
pub mod PathSafety
pub mod Sink
pub mod TrustPolicy
pub mod Tui
pub mod Server
pub mod Tests
