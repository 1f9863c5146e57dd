-- ===== src/Pbs/Session/Dynamic.antt =====
-- crates/pbs-client/src/session.rs: `backup_dynamic_reader`, whose uploads run beside the loop over the chunks.
pub mod Places
pub mod Covered
pub mod Sealed
use pbsgui.Base.{
  Bool, List, Option, Text, [], drop, err, false, if◌then◌else◌, length, list_eq, ltb, none, ok,
  some, suc, take, true, zero, ℕ, ◌%◌, ◌++◌, ◌+◌, ◌^◌, ◌||◌, ◌∷◌, ◌≡◌,
}
use pbsgui.Base.Bytes.{Bytes}
use pbsgui.Pbs.Error.{PbsResult}
use pbsgui.Pbs.Blob.{Codec}
use pbsgui.Pbs.Crypt.{Cipher, CryptConfig}
use pbsgui.Pbs.Index.{Sha256}
use pbsgui.Pbs.Index.Dynamic.{
  DynamicIndexBuilder, DynamicIndex, new, push, entry_count, total_size, index_csum, parse, digests,
}
use pbsgui.Pbs.Manifest.{BackupManifest, with_crypt}
use pbsgui.Pbs.Session.Chunk.{digest_of, encode_chunk}
use pbsgui.Pbs.Session.Writer.Monad.{Request, Peer, Writer, lift, after, ◌>>=◌}
use pbsgui.Pbs.Session.Writer.{
  download_previous, create_dynamic_index, SnapshotId, append_batch, upload_dynamic_chunk,
  append_dynamic_index, close_dynamic_index, create_dynamic_index, download_previous, upload_blob,
  store_manifest,
}

-- `+=` on `u64`
abbrev pub plus_u64 : ℕ → ℕ → ℕ
plus_u64 a b = (a + b) % 2 ^ 64

-- `HashSet::contains`
unfoldable pub has : Bytes → List Bytes → Bool
has d [] = false
has d (x ∷ xs) = list_eq x d || has d xs

-- The requests so far, the upload tasks that have not ended, and the variables of the loop.
pub record Pipeline : Type 0 where
  pub log : List Request
  pub inflight : List (Bytes × Bytes)
  pub builder : DynamicIndexBuilder
  pub all_digests : List Bytes
  pub all_offsets : List ℕ
  pub end_offset : ℕ
  pub chunks : ℕ
  pub reused : ℕ
  pub uploaded : ℕ
  pub uploaded_bytes : ℕ
  pub reused_bytes : ℕ
  pub stored_bytes : ℕ

-- The start of the loop; `uuid` is random.
unfoldable pub pipeline : ℕ → Bytes → List Request → Pipeline
unfolding new
pipeline backup_time uuid log = record {
  log = log;
  inflight = [];
  builder = new backup_time uuid;
  all_digests = [];
  all_offsets = [];
  end_offset = 0;
  chunks = 0;
  reused = 0;
  uploaded = 0;
  uploaded_bytes = 0;
  reused_bytes = 0;
  stored_bytes = 0;
}

-- One round of the loop: a known chunk is counted, any other is given to a task.
unfoldable pub take_chunk : List Bytes → Bytes → Bytes → Pipeline → Pipeline
unfolding has push
take_chunk known digest data_bytes p =
    let len = length data_bytes in
    let end_offset = plus_u64 p.end_offset len in
    let seen = has digest known in
    record {
      log = p.log;
      inflight = if seen then p.inflight else p.inflight ++ ((digest, data_bytes) ∷ []);
      builder = push p.builder end_offset digest;
      all_digests = p.all_digests ++ (digest ∷ []);
      all_offsets = p.all_offsets ++ (p.end_offset ∷ []);
      end_offset = end_offset;
      chunks = plus_u64 p.chunks 1;
      reused = if seen then plus_u64 p.reused 1 else p.reused;
      uploaded = if seen then p.uploaded else plus_u64 p.uploaded 1;
      uploaded_bytes = if seen then p.uploaded_bytes else plus_u64 p.uploaded_bytes len;
      reused_bytes = if seen then plus_u64 p.reused_bytes len else p.reused_bytes;
      stored_bytes = p.stored_bytes;
    }

-- The known chunks: those of the previous snapshot's index, where it is asked for, given and parsed.
unfoldable pub known_of : Option Bytes → List Bytes
unfolding parse digests
known_of none = []
known_of (some prev) = elim (parse prev) [ err e ↦ [] | ok index ↦ digests index ]

-- After `connect`: the known chunks, and the index that is created.
unfoldable pub open_dynamic : Peer → Bool → Text → Writer (List Bytes × ℕ)
unfolding known_of download_previous create_dynamic_index
open_dynamic peer dedup_with_previous archive_name = do
  prev ← if dedup_with_previous then download_previous peer archive_name else lift (ok none)
  wid ← create_dynamic_index peer archive_name
  lift (ok (known_of prev, wid))

module _ (peer : Peer) (c : Codec) (a : Cipher) (h : Sha256) (crypt : Option CryptConfig)
    (compress : Bool) where
  -- The body of an upload task: the size of the encoded chunk. `random` is the outcome of `getrandom`.
  unfoldable pub run_task : ℕ → Option Bytes → Bytes × Bytes → Writer ℕ
  unfolding encode_chunk upload_dynamic_chunk
  run_task wid random (digest, data_bytes) = do
    encoded ← lift (encode_chunk c a crypt compress random data_bytes)
    uploaded ← upload_dynamic_chunk peer wid digest (length data_bytes) encoded
    lift (ok (length encoded))

  -- What happens next, while `queue` is still to come from the chunker: a chunk is taken, which needs a free permit if it
  -- is not known, or any one of the tasks ends.
  pub data Step (known : List Bytes) (wid width : ℕ)
      : Pipeline → List Bytes → Pipeline → List Bytes → Type 0 where
    taken :
        (p : Pipeline) (data_bytes : Bytes) (queue : List Bytes)
        → (has (digest_of h crypt data_bytes) known || ltb (length p.inflight) width) ≡ true
        → Step known wid width p
            (data_bytes ∷ queue)
            (take_chunk known (digest_of h crypt data_bytes) data_bytes p)
            queue
    ended :
        (p : Pipeline) (queue : List Bytes) (before after : List (Bytes × Bytes))
        (task : Bytes × Bytes) (random : Option Bytes) (stored : ℕ) (log : List Request)
        → p.inflight ≡ before ++ task ∷ after
        → run_task wid random task p.log ≡ (ok stored, log)
        → Step known wid width p queue
            (record p {
              log = log;
              inflight = before ++ after;
              stored_bytes = plus_u64 p.stored_bytes stored;
            })
            queue

  pub data Reached (known : List Bytes) (wid width : ℕ) (start : Pipeline) (stream : List Bytes)
      : Pipeline → List Bytes → Type 0 where
    begin : Reached known wid width start stream start stream
    go_on :
        {p q : Pipeline} {queue rest : List Bytes}
        → Reached known wid width start stream p queue
        → Step known wid width p queue q rest
        → Reached known wid width start stream q rest

  -- `all_digests.chunks(APPEND_BATCH).zip(all_offsets.chunks(APPEND_BATCH))`; each batch has a digest or more, so their
  -- number bounds the loop.
  unfoldable pub append_batches : ℕ → ℕ → List Bytes → List ℕ → Writer (Unit {0})
  append_batches zero wid ds offsets = lift (ok tt)
  append_batches (suc fuel) wid [] offsets = lift (ok tt)
  append_batches (suc fuel) wid (d ∷ ds) offsets = do
    appended ←
        append_dynamic_index peer wid (take append_batch (d ∷ ds)) (take append_batch offsets)
    append_batches fuel wid (drop append_batch (d ∷ ds)) (drop append_batch offsets)

  -- The catalog that came through the channel, if one did, encoded as the chunks are.
  unfoldable pub upload_catalog : Option (Text × Bytes) → Option Bytes → Writer (Unit {0})
  unfolding encode_chunk upload_blob
  upload_catalog none random = lift (ok tt)
  upload_catalog (some (name, content)) random = do
    catalog_blob ← lift (encode_chunk c a crypt compress random content)
    upload_blob peer name catalog_blob

  abbrev encrypted : Option CryptConfig → Bool
  encrypted none = false
  encrypted (some config) = true

  -- Behind the loop, when no task is left. `chunker` is how the chunker's task ended.
  unfoldable pub seal :
      (BackupManifest → PbsResult Bytes)
      → SnapshotId
      → Text
      → ℕ
      → PbsResult (Unit {0})
      → Option (Text × Bytes)
      → Option Bytes
      → Pipeline
      → Writer Bytes
  unfolding append_batches upload_catalog
  seal to_json params archive_name wid chunker catalog random p = do
    appended ← append_batches (length p.all_digests) wid p.all_digests p.all_offsets
    chunked ← lift chunker
    closed ←
        close_dynamic_index peer wid (entry_count p.builder) (total_size p.builder)
          (index_csum h p.builder)
    listed ← upload_catalog catalog random
    finished ← store_manifest peer c h (
        to_json (record {
          backup_type = params.backup_type;
          backup_id = params.backup_id;
          backup_time = params.backup_time;
          files =
              with_crypt archive_name (total_size p.builder) (index_csum h p.builder)
                (encrypted crypt)
              ∷ [];
        }))
    lift (ok (index_csum h p.builder))
