-- ===== src/Pbs/SessionTests.antt =====
-- Concrete inputs for the theorems on writer and reader sessions.
use pbsgui.Base.{List, [], arith, concat, map, none, ok, refl, replicate, some, true, ◌∷◌, ◌≡◌}
use pbsgui.Base.Bytes.{Bytes}
use pbsgui.Pbs.Error.{PbsResult}
use pbsgui.Pbs.Index.{Sha256, Sha256Laws, header_len, digest_len}
use pbsgui.Pbs.Index.Fixed.{
  FixedIndexBuilder, fixed_magic, parse as parse_fixed, serialize as serialize_fixed,
  verify_csum as verify_fixed,
}
use pbsgui.Pbs.Index.Fixed.Layout.{IsSized as IsSizedFixed}
use pbsgui.Pbs.Index.Dynamic.{
  DynamicIndexBuilder, serialize as serialize_dynamic, verify_csum as verify_dynamic,
}
use pbsgui.Pbs.Index.Dynamic.{digests as digests_dynamic, DynamicIndex}
use pbsgui.Pbs.Index.Dynamic.Layout.{IsSized as IsSizedDynamic}
use pbsgui.Pbs.Index.Dynamic.RoundTrip.{parse-serialize_dynamic}
use pbsgui.Pbs.Session.Chunk.{digest_of}
use pbsgui.Pbs.Session.Reader.{
  Connection, ensure_ok as response_ok, body_of, download, download_chunk, fetch_chunks,
  archive_index, restore_fixed_image, restore_dynamic_archive,
}
use pbsgui.Pbs.Session.Reader.Restore.{
  IsServed, restore_dynamic_archive-verified, restore_fixed_image_complete,
}
use pbsgui.Pbs.Session.Pipeline.{restore_through}
use pbsgui.Pbs.Session.Pipeline.InOrder.{Agrees, restore_through-Agrees}
use pbsgui.Pbs.Session.Writer.Monad.{Peer, Request}
use pbsgui.Pbs.Session.Writer.{
  SnapshotId, backup_fixed_image, ensure_ok as answer_ok, read_wid, commit, open_index,
  create_fixed_index, upload_chunk, append_fixed_index, close_fixed_index, upload_blob, finish,
  chunks, chunks_within, pushed, flush, upload_step, upload_all, flush_rest, store_manifest,
  close_snapshot,
}
use pbsgui.Pbs.Session.Writer.Backup.{IsBackedUp, backup_fixed_image-IsBackedUp}
use pbsgui.Pbs.Tests.{codec, hash, hash_laws, tag_bytes, cipher, payload, hello_blob, restore_hello}

-- A server with one chunk, and an index that names it twice.
abbrev image_index : FixedIndexBuilder
image_index = record {
  size = 6;
  chunk_size = 3;
  ctime = 0;
  uuid = tag_bytes;
  digests = map (digest_of hash none) (payload ∷ payload ∷ []);
}

abbrev image_index-IsSized : IsSizedFixed image_index
unfolding digest_of pbsgui.Pbs.Index.chunk_digest replicate
image_index-IsSized = record {
  size_fits = omega arith;
  chunk_size_fits = omega arith;
  ctime_fits = omega arith;
  uuid_size = refl;
  digest_sizes = (refl, (refl, tt));
}

abbrev image_server : Connection
image_server = record {
  get_file = λ name. ok (record { is_success = true; body = serialize_fixed hash image_index });
  get_chunk = λ d. ok (record { is_success = true; body = hello_blob });
}

hello-IsServed : IsServed image_server codec cipher hash none payload
unfolding download_chunk body_of response_ok digest_of pbsgui.Pbs.Index.chunk_digest
hello-IsServed = (hello_blob, refl, restore_hello)

image_found : download image_server [] ≡ ok (serialize_fixed hash image_index)
unfolding download body_of response_ok
image_found = refl

restore_fixed_image_complete_example :
    restore_fixed_image image_server codec cipher hash none [] ≡ ok (1 ∷ 2 ∷ 3 ∷ 1 ∷ 2 ∷ 3 ∷ [])
restore_fixed_image_complete_example =
    restore_fixed_image_complete image_server codec cipher hash none hash_laws [] image_index
      (payload ∷ payload ∷ []) image_index-IsSized image_found refl refl
      (hello-IsServed, (hello-IsServed, tt))

-- A server that has succeeded in everything, with writer 4.
abbrev agreeable : Peer
agreeable log r = ok (record { is_success = true; body = []; is_json = true; data_number = some 4 })

abbrev snapshot : SnapshotId
snapshot = record { backup_type = []; backup_id = []; backup_time = 0 }

abbrev backed_up : PbsResult Bytes × List Request
backed_up = backup_fixed_image agreeable codec hash (λ m. ok []) snapshot tag_bytes [] payload []

backup_succeeds : backed_up ≡ (ok (replicate 32 1), backed_up.1)
unfolding backup_fixed_image answer_ok read_wid commit open_index create_fixed_index upload_chunk
    append_fixed_index close_fixed_index upload_blob finish chunks chunks_within pushed flush
    upload_step upload_all flush_rest store_manifest close_snapshot
    pbsgui.Pbs.Index.Fixed.index_csum
backup_succeeds = refl

backup_fixed_image-IsBackedUp_example : IsBackedUp hash [] payload (replicate 32 1) backed_up.1
backup_fixed_image-IsBackedUp_example =
    backup_fixed_image-IsBackedUp agreeable codec hash (λ m. ok []) snapshot tag_bytes [] payload
      (replicate 32 1) backed_up.1 backup_succeeds

-- So too for a dynamic archive.
abbrev stream_index : DynamicIndexBuilder
stream_index = record {
  ctime = 0;
  uuid = tag_bytes;
  entries = (3, replicate 32 1) ∷ (6, replicate 32 1) ∷ [];
}

abbrev stream_index-IsSized : IsSizedDynamic stream_index
unfolding replicate
stream_index-IsSized = record {
  ctime_fits = omega arith;
  uuid_size = refl;
  entries_sized = ((omega arith, refl), ((omega arith, refl), tt));
}

abbrev stream_server : Connection
stream_server = record {
  get_file = λ name. ok (record { is_success = true; body = serialize_dynamic hash stream_index });
  get_chunk = λ d. ok (record { is_success = true; body = hello_blob });
}

stream_restored :
    restore_dynamic_archive stream_server codec cipher hash none []
    ≡ ok (1 ∷ 2 ∷ 3 ∷ 1 ∷ 2 ∷ 3 ∷ [])
unfolding restore_dynamic_archive archive_index download download_chunk body_of response_ok
    fetch_chunks digests_dynamic
stream_restored =
    let (parsed, checked) =
      parse-serialize_dynamic hash hash_laws stream_index stream_index-IsSized in
    rw (parsed, checked, restore_hello)

restore_dynamic_archive-verified_example :
    (index : DynamicIndex) × (chunk_list : List Bytes) × (archive_index stream_server codec cipher
        hash none []
      ≡ ok index)
    × (verify_dynamic hash index ≡ true)
    × (map (digest_of hash none) chunk_list ≡ digests_dynamic index)
    × ((1 ∷ 2 ∷ 3 ∷ 1 ∷ 2 ∷ 3 ∷ []) ≡ concat chunk_list)
restore_dynamic_archive-verified_example =
    restore_dynamic_archive-verified stream_server codec cipher hash none []
      (1 ∷ 2 ∷ 3 ∷ 1 ∷ 2 ∷ 3 ∷ []) stream_restored

restore_through-Agrees_example :
    Agrees stream_server codec cipher hash none
      (restore_dynamic_archive stream_server codec cipher hash none [])
      (restore_through stream_server codec cipher hash none 2 [])
restore_through-Agrees_example =
    restore_through-Agrees stream_server codec cipher hash none 2 [] (omega arith)
