-- ===== src/Pbs/DynamicTests.antt =====
-- A dynamic backup of two chunks, whose second upload ends first.
use pbsgui.Base.{List, [], false, none, ok, refl, replicate, some, true, ℕ, ◌∷◌, ◌≡◌}
use pbsgui.Base.Bytes.{Bytes}
use pbsgui.Pbs.Error.{PbsResult}
use pbsgui.Pbs.Session.Chunk.{digest_of, encode_chunk}
use pbsgui.Pbs.Session.Writer.Monad.{Request, Peer}
use pbsgui.Pbs.Session.Writer.{
  SnapshotId, ensure_ok, read_wid, commit, open_index, create_dynamic_index, download_previous,
  upload_dynamic_chunk, append_dynamic_index, close_dynamic_index, upload_blob, finish,
  store_manifest,
}
use pbsgui.Pbs.Session.Dynamic.{
  has, Pipeline, pipeline, take_chunk, plus_u64, known_of, open_dynamic, run_task, Reached, begin,
  go_on, taken, ended, append_batches, upload_catalog, seal,
}
use pbsgui.Pbs.Session.Dynamic.Places.{appends}
use pbsgui.Pbs.Session.Dynamic.Covered.{IsInOrder, Reached-IsInOrder}
use pbsgui.Pbs.Session.Dynamic.Sealed.{IsSealed, seal-IsSealed}
use pbsgui.Pbs.Index.Dynamic.{entry_count, total_size, index_csum, parse}
use pbsgui.Pbs.Tests.{codec, hash, cipher, payload, tag_bytes}

-- A server that has succeeded in everything, with writer 4.
abbrev agreeable : Peer
agreeable log r = ok (record { is_success = true; body = []; is_json = true; data_number = some 4 })

abbrev snapshot : SnapshotId
snapshot = record { backup_type = []; backup_id = []; backup_time = 0 }

abbrev start : List Request
start = (open_dynamic agreeable true [] []).1

open_succeeds : open_dynamic agreeable true [] [] ≡ (ok ([], 4), start)
unfolding open_dynamic known_of parse create_dynamic_index download_previous open_index ensure_ok
    read_wid
open_succeeds = refl

abbrev two_chunks : List Bytes
two_chunks = payload ∷ payload ∷ []

abbrev taken_one : Pipeline
taken_one = take_chunk [] (digest_of hash none payload) payload (pipeline 0 tag_bytes start)

abbrev taken_two : Pipeline
taken_two = take_chunk [] (digest_of hash none payload) payload taken_one

abbrev task : Bytes × Bytes
task = (digest_of hash none payload, payload)

abbrev after_task : List Request → PbsResult ℕ × List Request
after_task log = run_task agreeable codec cipher hash none false 4 none task log

abbrev stored_bytes : ℕ
stored_bytes = 15

abbrev one_ended : Pipeline
one_ended = record taken_two {
  log = (after_task taken_two.log).1;
  inflight = task ∷ [];
  stored_bytes = plus_u64 taken_two.stored_bytes stored_bytes;
}

abbrev all_ended : Pipeline
all_ended = record one_ended {
  log = (after_task one_ended.log).1;
  inflight = [];
  stored_bytes = plus_u64 one_ended.stored_bytes stored_bytes;
}

all_ended-Reached :
    Reached agreeable codec cipher hash none false [] 4 2
      (pipeline 0 tag_bytes start)
      two_chunks
      all_ended
      []
unfolding has pipeline take_chunk run_task encode_chunk upload_dynamic_chunk commit ensure_ok
    pbsgui.Pbs.Blob.encode_uncompressed pbsgui.Base.Bytes.to_le
all_ended-Reached =
    go_on
      (go_on
        (go_on (go_on begin (taken (pipeline 0 tag_bytes start) payload (payload ∷ []) refl))
          (taken taken_one payload [] refl))
        (ended taken_two [] (task ∷ []) [] task none stored_bytes (after_task taken_two.log).1 refl
          refl))
      (ended one_ended [] [] [] task none stored_bytes (after_task one_ended.log).1 refl refl)

abbrev sealed : PbsResult Bytes × List Request
sealed =
    seal agreeable codec cipher hash none false (λ m. ok []) snapshot [] 4 (ok tt) none none
      all_ended all_ended.log

seals : sealed ≡ (ok (replicate 32 1), sealed.1)
unfolding seal append_batches upload_catalog append_dynamic_index close_dynamic_index upload_blob
    finish store_manifest commit ensure_ok index_csum entry_count total_size pipeline take_chunk
seals = refl

seal-IsSealed_example :
    IsSealed agreeable codec cipher hash none false [] two_chunks 4 (replicate 32 1) sealed.1
seal-IsSealed_example =
    seal-IsSealed agreeable codec cipher hash none false (λ m. ok []) snapshot [] tag_bytes 4 2
      (ok tt) none none [] two_chunks true start sealed.1 all_ended (replicate 32 1) open_succeeds
      all_ended-Reached refl seals

nothing_appended : appends start ≡ []
unfolding open_dynamic open_index ensure_ok read_wid
nothing_appended = refl

Reached-IsInOrder_example : IsInOrder (digest_of hash none) [] 2 two_chunks all_ended []
Reached-IsInOrder_example =
    Reached-IsInOrder agreeable codec cipher hash none false [] 4 2 0 tag_bytes start two_chunks []
      all_ended nothing_appended all_ended-Reached
