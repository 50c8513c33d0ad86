-- ===== src/Lib.antt =====
-- Transferly: two Peers on a local network open a temporary session that both users verify by a
-- code, and offer each other files and folders over it. This library models the parts of the
-- program that decide what is accepted, in what order, and what reaches the disk.
--
-- The parts, and how they meet:
--   Prelude, Text: numbers, lists, results, maps and byte strings; UTF-8, white space and case,
--     splitting, and the lexical part of path/filepath, as far as the program uses them.
--   Safety (internal/terminal/safety.go): the check of a path that a Peer sends
--     (validateManifestPath) and the check that a place is below the destination.
--   Commands (internal/terminal/commands.go, parsePathArguments of manifest.go): a typed line as an
--     action.
--   Protocol (internal/terminal/app.go, Message of internal/session/session.go): the records of a
--     session. Pointers are compared by `address`; what a handler sends or starts is a list of
--     effects in order. Protocol/Exec are handlers that change the state and may fail.
--   Queue (offer_control.go, send.go, idle.go of internal/terminal): whose turn it is.
--   Intake (offer_intake.go): the header and the manifest of an offer, up to its validation.
--   Receive (receive.go, staging.go, publication_nonwindows.go, cleanup.go): the chunks, the completion and
--     the failure of files, and in Receive/Cleanup what is removed of an offer. `Answers` is what the
--     operating system answers. A staged file is in its stream; the disk is all outside the staging area.
--   Cancel (offer_control.go): cancellation.
--   Idle (idle.go): the monitor of idle sessions, one round of its loop at a time.
--   Session (internal/session/session.go): frames, chunk streams, negotiation, confirmation and the
--     verification code.
--   Names (resolveIncomingPaths of offer_intake.go, cleanup.go): the final paths of an offer.
--   Prepare (staging.go): the folders of an offer that is accepted, and their removal when that fails.
--   Building (buildManifest and walkManifestRoot of manifest.go): the manifest of what is offered, over
--     the tree that the file system answers.
--   Transfer (sendManifestFile of send.go): the frames of one file. `Weather` is what happens around
--     each of them: a cancellation, or a send that fails.
--   Serve (serveSession of connection.go): each message goes to its handler.
--   Lifecycle (connection.go, lifecycle.go): attempts at a session. Each function is what is done in
--     one go under the lock, and `Step` is one of them, of any goroutine.
--   Discovery (internal/discovery/discovery.go): the Peers that are shown, and the advertisement.
-- Intake hands an offer to Queue, whose turn starts its review; Receive runs on the accepted offer of
-- the same state, with the paths that Safety accepted; Cancel and Queue end it. Serve joins the
-- handlers; Transfer/Roundtrip runs it on the frames that Transfer sends, and Building/Validation runs the
-- validation of Intake on what Building builds. Session carries the messages.
--
-- Parameters, which are not code of the repository: `key` is manifestPathKey (case folding of
-- golang.org/x/text), `sha` is SHA-256 (in hexadecimal in Receive), `marshal` and `unmarshal` are
-- encoding/json. TLS is what its handshake established. Writers answer for each call how much
-- they took.
--
-- Loops are structural recursion, but for five that run on fuel: write_all has one round more than
-- there are bytes, copy_loop as many rounds as bytes are to be copied, send_chunks one more than the
-- size of the file, and decimal one more than the number, since each round takes a byte, copies a
-- byte, sends at least one, or divides by ten. find_name has one round more than there are
-- reserved names, of which each round but the last meets another one. The int64 counts of a header
-- keep their wrap-around (add_int64).
--
-- Not modelled: the review of an offer by the user, the workers of runOutgoing and
-- their results, the printing of messages, progress and the clock; multicast DNS, file metadata, the
-- folder of the staging area (its files are in the streams), and the faults of test builds.

pub mod Building
pub mod Cancel
pub mod Commands
pub mod Discovery
pub mod Idle
pub mod Intake
pub mod Lifecycle
pub mod Names
pub mod Prelude
pub mod Prepare
pub mod Protocol
pub mod Queue
pub mod Receive
pub mod Safety
pub mod Serve
pub mod Session
pub mod Text
pub mod Transfer
