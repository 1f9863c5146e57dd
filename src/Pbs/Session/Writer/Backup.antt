-- ===== src/Pbs/Session/Writer/Backup.antt =====
-- crates/pbs-client/src/session.rs: what `backup_fixed_image` has sent when it succeeds.
use pbsgui.Base.{
  ==_iff, Bool, List, Text, [], ap, append-nil, append_assoc, ap₂, arith, concat, err, false,
  if◌then◌else◌, length, length-map, map, ok, ok-injective, refl, sym, true, ℕ, ◌++◌, ◌==◌, ◌∙◌,
  ◌∷◌, ◌≡◌,
}
use pbsgui.Base.Bytes.{Bytes}
use pbsgui.Pbs.Error.{PbsResult}
use pbsgui.Pbs.Blob.{Codec}
use pbsgui.Pbs.Index.{Sha256, chunk_digest, default_chunk_size}
use pbsgui.Pbs.Index.Fixed.{FixedIndexBuilder, new, push_digest, chunk_count, index_csum}
use pbsgui.Pbs.Session.Writer.Monad.{Request, append_fixed, Peer, Writer, send, lift, after}
use pbsgui.Pbs.Session.Writer.{
  ensure_ok, read_wid, commit, open_index, create_fixed_index, upload_chunk, append_fixed_index,
  close_fixed_index, upload_blob, finish, chunks, Progress, SnapshotId, manifest_blob_name, pushed,
  flush, upload_step, upload_all, flush_rest, store_manifest, close_snapshot, started,
  backup_fixed_image, finish_session, BackupManifest, blob, close_fixed,
}

-- The digests of the append requests of a log, in the order in which they were sent.
abbrev pub appended : List Request → List Bytes
appended [] = []
appended (append_fixed wid ds offsets ∷ log) = appended log ++ ds
appended (r ∷ log) = appended log

-- The digests that are appended, and those of the batch.
abbrev held : List Request → Progress → List Bytes
held log s = appended log ++ s.batch_digests

pub after-eq-ok :
    {A B : Type 0} (f : A → Writer B) (r : PbsResult A × List Request) (b : B) (end : List Request)
    → after f r ≡ (ok b, end)
    → (a : A) × (log : List Request) × (r ≡ (ok a, log)) × (f a log ≡ (ok b, end))
after-eq-ok f (ok a, log) b end e = (a, log, refl, e)
after-eq-ok f (err x, log) b end e = cc

module _ (peer : Peer) where
  pub commit_log :
      (r : Request) (log end : List Request) (u : Unit {0})
      → commit peer r log ≡ (ok u, end)
      → end ≡ r ∷ log
  unfolding commit
  commit_log r log end u e =
      let (a, log1, sent, checked) =
        after-eq-ok (λ a. lift (ensure_ok a)) (send peer r log) u end e in
      sym (ap (λ p. p.1) checked) ∙ sym (ap (λ p. p.1) sent)

  pub open_log :
      (r : Request) (log end : List Request) (wid : ℕ)
      → open_index peer r log ≡ (ok wid, end)
      → end ≡ r ∷ log
  unfolding open_index
  open_log r log end wid e =
      let (a, log1, sent, rest) = after-eq-ok _ (send peer r log) wid end e in
      let (u, log2, checked, read) =
        after-eq-ok (λ u. lift (read_wid a)) (lift (ensure_ok a) log1) wid end rest in
      sym (ap (λ p. p.1) read) ∙ sym (ap (λ p. p.1) checked) ∙ sym (ap (λ p. p.1) sent)

  flush_log :
      (c : Codec) (h : Sha256) (wid : ℕ) (s t : Progress) (log end : List Request)
      → flush peer c h wid s log ≡ (ok t, end)
      → (appended end ≡ held log s) × (t ≡ record s { batch_digests = []; batch_offsets = [] })
  unfolding flush append_fixed_index
  flush_log c h wid s t log end e =
      let (u, log1, sent, done) =
        after-eq-ok _ (commit peer (append_fixed wid s.batch_digests s.batch_offsets) log) t end
          e in
      let shape = commit_log _ log log1 u sent in
      (ap appended (sym (ap (λ p. p.1) done) ∙ shape), ok-injective (sym (ap (λ p. p.0) done)))

module _ (peer : Peer) (c : Codec) (h : Sha256) (wid : ℕ) where
  -- Whether or not the batch is sent, no digest is lost.
  flush_holds :
      (full : Bool) (s t : Progress) (log end : List Request)
      → (if full then flush peer c h wid s else lift (ok s)) log ≡ (ok t, end)
      → (held end t ≡ held log s) × (t.builder ≡ s.builder)
  flush_holds true s t log end e =
      let (sent, cleared) = flush_log peer c h wid s t log end e in
      (
        ap₂ (λ l b. l ++ b) sent (ap (λ (r : Progress). r.batch_digests) cleared)
            ∙ append-nil (held log s),
        ap (λ (r : Progress). r.builder) cleared,
      )
  flush_holds false s t log end e =
      let same : s ≡ t = ok-injective (ap (λ p. p.0) e) in
      (
        ap₂ (λ l (r : Progress). appended l ++ r.batch_digests) (sym (ap (λ p. p.1) e)) (sym same),
        ap (λ (r : Progress). r.builder) (sym same),
      )

  -- A step holds one digest more, in the log or in the batch, and so does the builder.
  upload_step_holds :
      (s t : Progress) (chunk : Bytes) (log end : List Request)
      → upload_step peer c h wid s chunk log ≡ (ok t, end)
      → (held end t ≡ held log s ++ (chunk_digest h chunk ∷ []))
        × (t.builder ≡ push_digest s.builder (chunk_digest h chunk))
  unfolding upload_step pushed upload_chunk
  upload_step_holds s t chunk log end e =
      let d = chunk_digest h chunk in
      let (u, log1, sent, rest) =
        after-eq-ok _ (upload_chunk peer wid d (length chunk) _ log) t end e in
      let shape : appended log1 ≡ appended log = ap appended (commit_log peer _ log log1 u sent) in
      let (kept, built) = flush_holds _ (pushed peer c h s chunk) t log1 end rest in
      (
        kept
            ∙ ap (λ l. l ++ (s.batch_digests ++ (d ∷ []))) shape
            ∙ sym (append_assoc (appended log) s.batch_digests (d ∷ [])),
        built,
      )

  upload_all_holds :
      (cs : List Bytes) (s t : Progress) (log end : List Request)
      → upload_all peer c h wid cs s log ≡ (ok t, end)
      → (held end t ≡ held log s ++ map (chunk_digest h) cs)
        × (t.builder.digests ≡ s.builder.digests ++ map (chunk_digest h) cs)
  unfolding upload_all push_digest
  upload_all_holds [] s t log end e =
      let (kept, built) = flush_holds false s t log end e in
      (
        kept ∙ sym (append-nil (held log s)),
        ap (λ (b : FixedIndexBuilder). b.digests) built ∙ sym (append-nil s.builder.digests),
      )
  upload_all_holds (chunk ∷ cs) s t log end e =
      let d = chunk_digest h chunk in
      let (s1, log1, step, rest) =
        after-eq-ok (upload_all peer c h wid cs) (upload_step peer c h wid s chunk log) t end e in
      let (one, one_built) = upload_step_holds s s1 chunk log log1 step in
      let (more, more_built) = upload_all_holds cs s1 t log1 end rest in
      let all = map (chunk_digest h) cs in
      (
        more ∙ ap (λ l. l ++ all) one ∙ append_assoc (held log s) (d ∷ []) all,
        more_built
            ∙ ap (λ (b : FixedIndexBuilder). b.digests ++ all) one_built
            ∙ append_assoc s.builder.digests (d ∷ []) all,
      )

  flush_rest_holds_by :
      (empty : Bool) (s t : Progress) (log end : List Request)
      → (empty ≡ true → s.batch_digests ≡ [])
      → (if empty then lift (ok s) else flush peer c h wid s) log ≡ (ok t, end)
      → (appended end ≡ held log s) × (t.builder ≡ s.builder)
  flush_rest_holds_by true s t log end nothing e =
      let same : s ≡ t = ok-injective (ap (λ p. p.0) e) in
      (
        ap appended (sym (ap (λ p. p.1) e))
            ∙ sym (append-nil (appended log))
            ∙ ap (λ l. appended log ++ l) (sym (nothing refl)),
        ap (λ (r : Progress). r.builder) (sym same),
      )
  flush_rest_holds_by false s t log end nothing e =
      let (sent, cleared) = flush_log peer c h wid s t log end e in
      (sent, ap (λ (r : Progress). r.builder) cleared)

  no_digests : (ds : List Bytes) → (length ds == 0) ≡ true → ds ≡ []
  no_digests [] e = refl
  no_digests (d ∷ ds) e = absurd (let z = (==_iff (length (d ∷ ds)) 0).0 e in omega arith)

  flush_rest_holds :
      (s t : Progress) (log end : List Request)
      → flush_rest peer c h wid s log ≡ (ok t, end)
      → (appended end ≡ held log s) × (t.builder ≡ s.builder)
  unfolding flush_rest
  flush_rest_holds s t log end e =
      flush_rest_holds_by (length s.batch_digests == 0) s t log end (no_digests s.batch_digests) e

module _ (peer : Peer) (c : Codec) (h : Sha256) where
  pub store_manifest_log :
      (printed : PbsResult Bytes) (log end : List Request) (u : Unit {0})
      → store_manifest peer c h printed log ≡ (ok u, end)
      → (manifest : Bytes) × (end ≡ finish_session ∷ blob manifest_blob_name manifest ∷ log)
  unfolding store_manifest upload_blob finish
  store_manifest_log (err x) log end u e = cc
  store_manifest_log (ok json) log end u e =
      let (u1, log1, stored, e1) =
        after-eq-ok (λ v. finish peer) (upload_blob peer manifest_blob_name _ log) u end e in
      let finishing = commit_log peer finish_session log1 end u e1 in
      (_, finishing ∙ ap (λ l. finish_session ∷ l) (commit_log peer _ log log1 u1 stored))

  close_snapshot_log :
      (to_json : BackupManifest → PbsResult Bytes) (params : SnapshotId) (archive_name : Text)
      (size wid : ℕ) (s : Progress) (log end : List Request) (csum : Bytes)
      → close_snapshot peer c h to_json params archive_name size wid s log ≡ (ok csum, end)
      → (manifest : Bytes) × (end
          ≡ finish_session
            ∷ blob manifest_blob_name manifest
            ∷ close_fixed wid (length s.builder.digests) size (h.digest (concat s.builder.digests))
            ∷ log)
        × (h.digest (concat s.builder.digests) ≡ csum)
  unfolding close_snapshot close_fixed_index chunk_count index_csum
  close_snapshot_log to_json params archive_name size wid s log end csum e =
      let closing =
        close_fixed_index peer wid (chunk_count s.builder) size (index_csum h s.builder) in
      let (u1, log1, closed, e1) = after-eq-ok _ (closing log) csum end e in
      let (u2, log2, stored, e2) = after-eq-ok _ (store_manifest peer c h _ log1) csum end e1 in
      let (manifest, shape) = store_manifest_log _ log1 log2 u2 stored in
      let start = commit_log peer _ log log1 u1 closed in
      (
        manifest,
        sym (ap (λ p. p.1) e2)
            ∙ shape
            ∙ ap (λ l. finish_session ∷ blob manifest_blob_name manifest ∷ l) start,
        ok-injective (ap (λ p. p.0) e2),
      )

-- What a backup of an image has sent, the last request first.
pub record IsBackedUp (h : Sha256) (archive_name : Text) (image csum : Bytes) (log : List Request)
    : Type 0 where
  pub wid : ℕ
  pub manifest : Bytes
  pub uploads : List Request
  pub ends :
      log
      ≡ finish_session
        ∷ blob manifest_blob_name manifest
        ∷ close_fixed wid (length (chunks default_chunk_size image)) (length image) csum
        ∷ uploads
  pub appends : appended uploads ≡ map (chunk_digest h) (chunks default_chunk_size image)
  pub csum_of_appends : csum ≡ h.digest (concat (appended uploads))

backed_up :
    (peer : Peer) (c : Codec) (h : Sha256) (to_json : BackupManifest → PbsResult Bytes)
    (params : SnapshotId) (archive_name : Text) (image csum : Bytes) (wid : ℕ)
    (start s1 s : Progress) (log1 log2 log3 log : List Request)
    → start.builder.digests ≡ []
    → start.batch_digests ≡ []
    → appended log1 ≡ []
    → upload_all peer c h wid (chunks default_chunk_size image) start log1 ≡ (ok s1, log2)
    → flush_rest peer c h wid s1 log2 ≡ (ok s, log3)
    → close_snapshot peer c h to_json params archive_name (length image) wid s log3 ≡ (ok csum, log)
    → IsBackedUp h archive_name image csum log
backed_up peer c h to_json params archive_name image csum wid start s1 s log1 log2 log3 log no_built
      no_batch begun looped flushed e =
    let cs = chunks default_chunk_size image in
    let ds = map (chunk_digest h) cs in
    let (holds, in_builder) = upload_all_holds peer c h wid cs start s1 log1 log2 looped in
    let (sent, same_builder) = flush_rest_holds peer c h wid s1 s log2 log3 flushed in
    let (manifest, shape, csum_eq) =
      close_snapshot_log peer c h to_json params archive_name (length image) wid s log3 log csum
        e in
    let all_sent : appended log3 ≡ ds = sent ∙ holds ∙ ap₂ (λ l b. (l ++ b) ++ ds) begun no_batch in
    let all_built : s.builder.digests ≡ ds =
      ap (λ (b : FixedIndexBuilder). b.digests) same_builder
      ∙ in_builder
      ∙ ap (λ l. l ++ ds) no_built in
    let count : length s.builder.digests ≡ length cs =
      ap length all_built ∙ length-map (chunk_digest h) cs in
    record {
      wid = wid;
      manifest = manifest;
      uploads = log3;
      ends =
          shape
          ∙ ap₂
              (λ k d.
                finish_session
                ∷ blob manifest_blob_name manifest
                ∷ close_fixed wid k (length image) d
                ∷ log3)
              count csum_eq;
      appends = all_sent;
      csum_of_appends = sym csum_eq ∙ ap (λ l. h.digest (concat l)) (all_built ∙ sym all_sent);
    }

-- A backup that succeeds has appended exactly the digests of the image's chunks, in order, and then closed the index with
-- their number, the size of the image and the csum of what it appended, stored the manifest and finished the session, in
-- this order and with nothing after.
pub backup_fixed_image-IsBackedUp :
    (peer : Peer) (c : Codec) (h : Sha256) (to_json : BackupManifest → PbsResult Bytes)
    (params : SnapshotId) (uuid : Bytes) (archive_name : Text) (image csum : Bytes)
    (log : List Request)
    → backup_fixed_image peer c h to_json params uuid archive_name image [] ≡ (ok csum, log)
    → IsBackedUp h archive_name image csum log
unfolding backup_fixed_image create_fixed_index new
backup_fixed_image-IsBackedUp peer c h to_json params uuid archive_name image csum log e =
    let cs = chunks default_chunk_size image in
    let start = started peer c h params uuid (length image) in
    let (wid, log1, opened, e1) =
      after-eq-ok _ (create_fixed_index peer archive_name (length image) []) csum log e in
    let (s1, log2, looped, e2) =
      after-eq-ok _ (upload_all peer c h wid cs start log1) csum log e1 in
    let (s, log3, flushed, e3) = after-eq-ok _ (flush_rest peer c h wid s1 log2) csum log e2 in
    backed_up peer c h to_json params archive_name image csum wid start s1 s log1 log2 log3 log refl
      refl (ap appended (open_log peer _ [] log1 wid opened)) looped flushed e3
