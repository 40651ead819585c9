-- ===== src/Lib.antt =====
-- nvim-remote-mirror: a model of the protocol between the sidecar and the agent, of the signed
-- manifests by which an agent is installed, of the sidecar's remote queues, its installation
-- transaction and its rewriting of paths in LSP messages, and of the files that the agent writes.
--
-- The program has a Neovim plugin (lua/), a sidecar next to the editor (crates/nrm-sidecar), an
-- agent on the remote host (crates/nrm-agent, with crates/nrm-pty for its processes), the protocol
-- that both speak (crates/nrm-protocol), and a registry from which the sidecar takes the agent's
-- releases (crates/nrm-registry). The sidecar and the agent talk in length-prefixed frames. Besides
-- its requests a connection can carry a runtime stream: after a handshake on a capability, the
-- stream runs one process on pipes or on a PTY, or one watch on the workspace, and both ends run
-- the same state machine over the messages that they send and receive.
--
-- Prelude: what the modules share. Prelude.Results is Rust's Result with a panic as a third outcome,
--   so that unreachable!() is a value; Prelude.Strings has str as a list of characters with the
--   length of its UTF-8 form; Prelude.Sets is about inserting into a set; Prelude.Words has the
--   arithmetic of the machine words, which are plain numbers with their range stated where it
--   matters.
-- Protocol: crates/nrm-protocol/src/runtime.rs, and of crates/nrm-protocol/src/lib.rs the frames
--   and CapabilitySet. Types, Message, Errors, Limits and Capability are the data of the source
--   under its names.
--   Validate is RuntimeMessage::validate and the validate_ and reject_ functions; Expect, Process
--   and Watch are the expect_ and apply_ functions on running processes and watches; Phase is
--   RuntimePhase with its states; Transition is apply_message, one function for each phase; Machine
--   is RuntimeStateMachine. observe works on a clone of the phase and stores it only on success, so
--   an error carries no phase here. The 64-bit fields of a message are in range by IsWire, which is
--   what their types say.
--   Frame is write_frame, read_frame, write_runtime_frame and read_runtime_frame. A writer is the
--   bytes written and a reader the bytes to come, as for Vec<u8> and Cursor. postcard is the
--   parameter Codec, of which only the round trip is asked.
-- Registry: crates/nrm-registry/src/core.rs. Target is AgentTarget, Manifest is parse_manifest, its
--   loop over the artifacts a recursive function with the set of targets; Signature is
--   parse_signature_document and the functions on key IDs and base64; Trust is
--   TrustedKeySet::from_base64; Verify is verify_manifest. A BTreeMap or BTreeSet is a list of what
--   was inserted. semver, serde_json, base64, ed25519-dalek and sha2 are the parameter Crates, of
--   which only is asked that equality of versions is equality.
-- Sidecar.LspPath and Sidecar.PercentCode: of crates/nrm-sidecar/src/lsp_rewrite.rs, rewrite_lsp_path
--   and what it calls, and percent_encode_uri_path and strict_percent_decode. Texts are the bytes of
--   their UTF-8 form there.
-- Sidecar.Remote: of crates/nrm-sidecar/src/main.rs, the lanes by which requests reach the remote
--   agent. Request is ClientRequest with its PendingHazard, RequestInterest, RemotePriority and
--   RemoteLane, over serde_json::Value as the parameter Json; Queue is RemoteQueue, each method that
--   takes its lock one function on the state, and Queue.Events their histories; Pending is
--   PendingRemote and RemoteLane::for_request. A hash map of counts is a list of pairs.
-- Sidecar.Install: of crates/nrm-sidecar/src/main.rs, run_agent_install_transaction over the trait
--   AgentInstallOps, a record of operations on a state, whatever they do; Install.Calls is the order in
--   which they are called, and what the calls show of the target.
-- Sidecar.Backoff: of crates/nrm-sidecar/src/main.rs, RemoteBackoffState, with the time an argument.
-- Sidecar.StderrTail: of crates/nrm-sidecar/src/main.rs, append_agent_stderr_tail and its loop
--   over what each read gives, bytes or an error.
-- Agent: of crates/nrm-agent/src/main.rs on Unix. Host has the functions that open, lock, hash, rename
--   or remove files, as operations on a world that may change by itself; Uploads is AgentState with
--   begin_write_file_cas, write_file_chunk, finish_write_file_cas, abort_write_file_cas and
--   write_file_cas_state; BatchRead is read_files. The time is an argument.
--
-- Every loop of these parts runs over a list and needs no fuel, but that of strict_percent_decode,
-- whose fuel is the length of its input: a turn takes one byte or three. A history is a list of
-- events, and the state it leads to is computed by a fold. What a worker gets from a queue is computed
-- for a number of turns, and one more turn than there are works is enough.
--
-- Not modelled: the runtime host of the agent, its greps, walks and git requests, the processes of
-- crates/nrm-pty, the fetching and caching of crates/nrm-registry/src/fetch.rs, the release tool, the
-- URL policy, and of the sidecar the mirror with its database, the daemon with its threads and
-- sockets, the proxy of runtime streams, the scripts by which the agent is installed, and the
-- rewriting of URIs and JSON values in LSP messages. These are mostly input and output over files,
-- sockets, system calls and remote shells. The texts of errors are not modelled either, only their
-- constructors and fields.
mod Prelude
pub mod Protocol
pub mod Registry
pub mod Sidecar
pub mod Agent
