-- ===== src/Lib.antt =====
-- The client and the engine of pbsgui, a backup program for Proxmox Backup Server and SQL Server.
--
-- The program's parts and the files that model them:
--
-- * crates/pbs-client, in Pbs. A chunk of data becomes a DataBlob (blob.rs, Pbs/Blob), encrypted if there is a key
--   (crypt.rs, Pbs/Crypt). Chunks are named by their digests in a fixed or a dynamic index (index.rs, Pbs/Index/Fixed and
--   Pbs/Index/Dynamic). A session (session.rs) encodes and verifies single chunks (Pbs/Session/Chunk), sends a backup of an
--   image (BackupWriter and backup_fixed_image, Pbs/Session/Writer) or of a stream (backup_dynamic_reader with its
--   concurrent uploads, Pbs/Session/Dynamic), and restores one (ReaderClient, Pbs/Session/Reader; the download pipeline of
--   spawn_chunk_pipeline, Pbs/Session/Pipeline). The manifest is manifest.rs (Pbs/Manifest), the text of a repository
--   repository.rs (Pbs/Repository), the errors are error.rs (Pbs/Error).
-- * crates/pbsgui-core/src/signed.rs, in Core/Signed: list stores signed under a key of the account.
-- * crates/pbsgui-engine, in Engine. jobstore.rs and connstore.rs keep such lists (Engine/Store). scheduler.rs and
--   sqlsched.rs say when a job is due (Engine/Schedule, its timers in
--   Engine/Schedule/Timers, the warnings of stalled chains in Engine/Schedule/Stalls, the accepted schedules in
--   Engine/Schedule/Validate). sql/plan.rs says what a run does with a database (Engine/Plan, its test of an
--   error Engine/Plan/Errors), sql/backupmeta.rs which backups restore it to a moment (Engine/Chain). The types of a job
--   are in Engine/Protocol, from crates/pbsgui-ipc/src/protocol.rs. sql/ssrp.rs expands the targets of a discovery
--   (Engine/Ssrp) and reads the Browser's answers (Engine/Discover/Response), which sql/discover.rs merges (Engine/Discover).
--   metrics.rs counts the runs of each job (Engine/Metrics).
-- * crates/pbsgui-engine/src/backup.rs, in Engine/Backup: the snapshot groups of a job and their collisions (Groups), the
--   maps of the runs in progress with their claims and cancels (Runs), one run from its claim over change detection to
--   the timers it leaves (Run), and the loop over the databases of a SQL job (Sql).
-- * The streams between a producer thread and the uploader, in Stream: ChannelWriter of
--   crates/pbsgui-engine/src/archive.rs (Stream/Writer), ChannelReader of crates/pbsgui-engine/src/sql/vdi.rs
--   (Stream/Reader), and the writer of crates/pbsgui-ad-engine/src/stream.rs (Stream/Chunks), whose reader is the same.
-- * crates/pbsgui-engine/src/relay, in Relay: the frames between the proxy and its agents (proto.rs, Relay/Proto), the
--   registry of the proxy with its tasks as steps, the pumps and the reader of a session (server.rs, Relay/Server), the
--   control loop and the device sessions of an agent (agent.rs, Relay/Agent), and what one end makes of the bytes of the
--   other, wherever the connection breaks (Relay/Whole).
-- * crates/pbsgui-ad-engine/src/matchspec.rs, in AdEngine/Matchspec: variables and wildcards in file patterns.
--
-- Base holds what they share: Boolean tests, lists over the native numbers, slices of buffers, results, texts and bytes.
--
-- How the code is modelled. Functions keep the names of the source. A byte, a digest's byte or a character's code is a
-- natural number, a buffer is a list, a u64 in a file is its little-endian bytes, and an i64 there is its bit pattern; times
-- are seconds since the epoch, from 0 on. `Result` and `?` are Base/Outcome and its bind. An error's message is an
-- enumeration of reasons. A store is the list in memory, the load error and what its file holds; an operation takes the
-- outcome of `write_atomic`, and each write of the timers its own outcome, since the code ignores it. A writer session is a log of requests, and the server answers from the log so far; the loop of a
-- dynamic backup and its upload tasks are a step relation, in which any task may end next.
--
-- Code of other packages is a parameter, with its documented laws as a record: crc32fast and zstd (Codec), AES-256-GCM
-- and PBKDF2 (Cipher), SHA-256 (Sha256), serde_json, hmac and base64 (Crates), chrono with the local time zone (Calendar),
-- the server behind its HTTP/2 connection (Peer and Connection), serde_json on the relay's messages (Json). The decoding of UTF-8 that
-- replaces what is not UTF-8 is an argument too. Random bytes
-- are arguments. What a run meets, the file system, SQL Server, PBS and the clock, is a record of answers (Databases and
-- Meets). A channel between threads is the list of what arrives on it and the verdict behind it.
--
-- The proxy of the relay is a registry under its locks: each step of a task is a function of it, channels and connections
-- are numbers, and which step comes next is free. A connection carries so many bytes and then breaks, and its reader gets
-- as many of them as arrive.
--
-- Bounds: the search for an occurrence tries 63 days, as the source does; the loop over an image's chunks has the image's
-- length as its bound, since each chunk takes a byte or more. The wildcard loop has (length of the text + 1) times (length of
-- the pattern + 1) rounds, the expansion of variables one more round than the path has characters, the sending of chunks
-- as many as the buffer has bytes, the download pipeline one for each chunk, the loop over the frames of a
-- data connection one more than it has bytes; each is proved to be enough. All other loops go down a list.
--
-- Not modelled: TLS and the HTTP/2 set-up, the relay's accept and reconnect loops, SQL Server access, the walk over files
-- and the tar writer, progress rates and log lines, the text of the metrics, notifications, the request handler, Windows
-- services and shadow copies, and the desktop application: they are I/O, or calls of the parts above.
pub mod Base
pub mod Pbs
pub mod Core
pub mod Engine
pub mod Stream
pub mod Relay
pub mod AdEngine
