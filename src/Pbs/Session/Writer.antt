-- ===== src/Pbs/Session/Writer.antt =====
-- crates/pbs-client/src/session.rs: `BackupWriter`, and `backup_fixed_image`, as the requests that they send.
pub mod Monad
pub mod Backup
use pbsgui.Base.{
  List, Option, Text, [], drop, err, if◌then◌else◌, leb, length, none, ok, ok_or, some, suc, take,
  zero, ℕ, ◌++◌, ◌+◌, ◌==◌, ◌∷◌,
}
use pbsgui.Base.Bytes.{Bytes}
use pbsgui.Pbs.Error.{PbsResult, protocol, server_status, no_wid, invalid_response}
use pbsgui.Pbs.Blob.{Codec, encode_auto, encode_uncompressed}
use pbsgui.Pbs.Index.{Sha256, chunk_digest, default_chunk_size}
use pbsgui.Pbs.Index.Fixed.{FixedIndexBuilder, new, push_digest, chunk_count, index_csum}
use pbsgui.Pbs.Manifest.{BackupManifest, fixed_image}
use pbsgui.Pbs.Session.Writer.Monad.{
  Request, create_fixed, fixed_chunk, append_fixed, close_fixed, blob, create_dynamic,
  dynamic_chunk, append_dynamic, close_dynamic, previous, finish_session, Answer, Peer, Writer,
  send, lift, after, ◌>>=◌,
}

unfoldable pub ensure_ok : Answer → PbsResult (Unit {0})
ensure_ok a = if a.is_success then ok tt else err (protocol server_status)

-- `unwrap_data(&body)?.as_u64().ok_or_else(…)`
unfoldable pub read_wid : Answer → PbsResult ℕ
read_wid a =
    if a.is_json then ok_or a.data_number (protocol no_wid) else err (protocol invalid_response)

module _ (peer : Peer) where
  -- A request of which only the status counts.
  unfoldable pub commit : Request → Writer (Unit {0})
  commit r = do a ← send peer r; lift (ensure_ok a)

  unfoldable pub open_index : Request → Writer ℕ
  open_index r = do a ← send peer r; checked ← lift (ensure_ok a); lift (read_wid a)

  unfoldable pub create_fixed_index : Text → ℕ → Writer ℕ
  create_fixed_index archive_name size = open_index (create_fixed archive_name size)

  unfoldable pub upload_chunk : ℕ → Bytes → ℕ → Bytes → Writer (Unit {0})
  upload_chunk wid digest plaintext_len encoded =
      commit (fixed_chunk wid digest plaintext_len encoded)

  unfoldable pub append_fixed_index : ℕ → List Bytes → List ℕ → Writer (Unit {0})
  append_fixed_index wid ds offsets = commit (append_fixed wid ds offsets)

  unfoldable pub close_fixed_index : ℕ → ℕ → ℕ → Bytes → Writer (Unit {0})
  close_fixed_index wid count size csum = commit (close_fixed wid count size csum)

  unfoldable pub upload_blob : Text → Bytes → Writer (Unit {0})
  upload_blob file_name data_bytes = commit (blob file_name data_bytes)

  unfoldable pub create_dynamic_index : Text → Writer ℕ
  create_dynamic_index archive_name = open_index (create_dynamic archive_name)

  unfoldable pub upload_dynamic_chunk : ℕ → Bytes → ℕ → Bytes → Writer (Unit {0})
  upload_dynamic_chunk wid digest plaintext_len encoded =
      commit (dynamic_chunk wid digest plaintext_len encoded)

  unfoldable pub append_dynamic_index : ℕ → List Bytes → List ℕ → Writer (Unit {0})
  append_dynamic_index wid ds offsets = commit (append_dynamic wid ds offsets)

  unfoldable pub close_dynamic_index : ℕ → ℕ → ℕ → Bytes → Writer (Unit {0})
  close_dynamic_index wid count size csum = commit (close_dynamic wid count size csum)

  unfoldable pub download_previous : Text → Writer (Option Bytes)
  download_previous archive_name = do
    a ← send peer (previous archive_name)
    lift (ok (if a.is_success then some a.body else none))

  unfoldable pub finish : Writer (Unit {0})
  finish = commit finish_session

-- `image.chunks(chunk_size)`, whose last chunk may be shorter; a chunk has a byte or more, so the length bounds the loop.
unfoldable pub chunks_within : ℕ → ℕ → Bytes → List Bytes
chunks_within zero n xs = []
chunks_within (suc fuel) n [] = []
chunks_within (suc fuel) n (x ∷ xs) = take n (x ∷ xs) ∷ chunks_within fuel n (drop n (x ∷ xs))

unfoldable pub chunks : ℕ → Bytes → List Bytes
unfolding chunks_within
chunks n xs = chunks_within (length xs) n xs

abbrev pub append_batch : ℕ
append_batch = 64

-- The variables of the loop.
pub record Progress : Type 0 where
  pub builder : FixedIndexBuilder
  pub batch_digests : List Bytes
  pub batch_offsets : List ℕ
  pub offset : ℕ

-- The identity of the snapshot, of `SessionParams`.
pub record SnapshotId : Type 0 where
  pub backup_type : Text
  pub backup_id : Text
  pub backup_time : ℕ

-- "index.json.blob"
abbrev pub manifest_blob_name : Text
manifest_blob_name =
    105 ∷ 110 ∷ 100 ∷ 101 ∷ 120 ∷ 46 ∷ 106 ∷ 115 ∷ 111 ∷ 110 ∷ 46 ∷ 98 ∷ 108 ∷ 111 ∷ 98 ∷ []

module _ (peer : Peer) (c : Codec) (h : Sha256) where
  -- One chunk is pushed, in the builder and the batch.
  unfoldable pub pushed : Progress → Bytes → Progress
  pushed s chunk = record {
    builder = push_digest s.builder (chunk_digest h chunk);
    batch_digests = s.batch_digests ++ (chunk_digest h chunk ∷ []);
    batch_offsets = s.batch_offsets ++ (s.offset ∷ []);
    offset = s.offset + length chunk;
  }

  -- The batch is sent and cleared.
  unfoldable pub flush : ℕ → Progress → Writer Progress
  flush wid s = do
    appended ← append_fixed_index peer wid s.batch_digests s.batch_offsets
    lift (ok (record s { batch_digests = []; batch_offsets = [] }))

  unfoldable pub upload_step : ℕ → Progress → Bytes → Writer Progress
  upload_step wid s chunk = do
    uploaded ← upload_chunk peer wid (chunk_digest h chunk) (length chunk) (encode_auto c chunk)
    if leb append_batch (length (pushed s chunk).batch_digests)
        then flush wid (pushed s chunk)
        else lift (ok (pushed s chunk))

  unfoldable pub upload_all : ℕ → List Bytes → Progress → Writer Progress
  upload_all wid [] s = lift (ok s)
  upload_all wid (chunk ∷ rest) s = upload_step wid s chunk >>= upload_all wid rest

  -- `if !batch_digests.is_empty()`
  unfoldable pub flush_rest : ℕ → Progress → Writer Progress
  flush_rest wid s = if length s.batch_digests == 0 then lift (ok s) else flush wid s

  -- The manifest of the snapshot is stored, and the session finished.
  unfoldable pub store_manifest : PbsResult Bytes → Writer (Unit {0})
  store_manifest printed = do
    manifest_json ← lift printed
    stored ← upload_blob peer manifest_blob_name (encode_uncompressed c manifest_json)
    finish peer

  -- The index is closed, then the manifest stored. `to_json` is the manifest's `to_json_bytes`.
  unfoldable pub close_snapshot :
      (BackupManifest → PbsResult Bytes) → SnapshotId → Text → ℕ → ℕ → Progress → Writer Bytes
  close_snapshot to_json params archive_name size wid s = do
    closed ← close_fixed_index peer wid (chunk_count s.builder) size (index_csum h s.builder)
    finished ← store_manifest (
        to_json (record {
          backup_type = params.backup_type;
          backup_id = params.backup_id;
          backup_time = params.backup_time;
          files = fixed_image archive_name size (index_csum h s.builder) ∷ [];
        }))
    lift (ok (index_csum h s.builder))

  -- The start of the loop; `uuid` is random.
  abbrev pub started : SnapshotId → Bytes → ℕ → Progress
  started params uuid size = record {
    builder = new size default_chunk_size params.backup_time uuid;
    batch_digests = [];
    batch_offsets = [];
    offset = 0;
  }

  -- After `connect`.
  unfoldable pub backup_fixed_image :
      (BackupManifest → PbsResult Bytes) → SnapshotId → Bytes → Text → Bytes → Writer Bytes
  backup_fixed_image to_json params uuid archive_name image = do
    wid ← create_fixed_index peer archive_name (length image)
    uploaded ← upload_all wid (chunks default_chunk_size image) (started params uuid (length image))
    s ← flush_rest wid uploaded
    close_snapshot to_json params archive_name (length image) wid s
