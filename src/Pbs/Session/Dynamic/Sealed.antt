-- ===== src/Pbs/Session/Dynamic/Sealed.antt =====
-- crates/pbs-client/src/session.rs: what `backup_dynamic_reader` has sent when it succeeds.
use pbsgui.Base.{
  All, Bool, List, Option, Text, [], ap, append-nil, append_assoc, ap₂, arith, drop, false,
  if◌then◌else◌, length, length-drop, length-map, map, none, ok, ok-injective, refl, some, suc, sym,
  take, take-append-drop, true, zero, ℕ, ◌++◌, ◌||◌, ◌∙◌, ◌∷◌, ◌≡◌, ◌≤◌,
}
use mathlib.Core.Path.{subst}
use pbsgui.Base.Bytes.{Bytes}
use pbsgui.Pbs.Error.{PbsResult}
use pbsgui.Pbs.Blob.{Codec}
use pbsgui.Pbs.Crypt.{Cipher, CryptConfig}
use pbsgui.Pbs.Index.{Sha256}
use pbsgui.Pbs.Index.Dynamic.{index_csum, entry_count, total_size}
use pbsgui.Pbs.Manifest.{BackupManifest}
use pbsgui.Pbs.Session.Chunk.{digest_of, encode_chunk}
use pbsgui.Pbs.Session.Writer.Monad.{
  previous, create_dynamic, send, lift, Request, close_dynamic, blob, finish_session, Peer, lift,
}
use pbsgui.Pbs.Session.Writer.{
  download_previous, create_dynamic_index, SnapshotId, append_batch, manifest_blob_name,
  append_dynamic_index, close_dynamic_index, upload_blob, store_manifest,
}
use pbsgui.Pbs.Session.Writer.Backup.{open_log, after-eq-ok, commit_log, store_manifest_log}
use pbsgui.Pbs.Session.Dynamic.{
  open_dynamic, has, Pipeline, pipeline, Reached, append_batches, upload_catalog, seal,
}
use pbsgui.Pbs.Session.Dynamic.Places.{uploads, appends, IsCovered}
use pbsgui.Pbs.Session.Dynamic.Covered.{Reached-IsInOrder}

drop_false : (k u : Bool) → (k || (u || false)) ≡ true → (k || u) ≡ true
drop_false true u h = refl
drop_false false true h = refl
drop_false false false h = h

previous_log :
    (peer : Peer) (dedup : Bool) (archive_name : Text) (prev : Option Bytes) (log : List Request)
    → (if dedup then download_previous peer archive_name else lift (ok none)) [] ≡ (ok prev, log)
    → appends log ≡ []
unfolding download_previous
previous_log peer false archive_name prev log e = ap (λ p. appends p.1) (sym e)
previous_log peer true archive_name prev log e =
    let (a, log1, sent, e1) = after-eq-ok _ (send peer (previous archive_name) []) prev log e in
    ap appends (sym (ap (λ p. p.1) e1) ∙ sym (ap (λ p. p.1) sent))

open_dynamic_log :
    (peer : Peer) (dedup : Bool) (archive_name : Text) (known : List Bytes) (wid : ℕ)
    (start : List Request)
    → open_dynamic peer dedup archive_name [] ≡ (ok (known, wid), start)
    → appends start ≡ []
unfolding open_dynamic create_dynamic_index
open_dynamic_log peer dedup archive_name known wid start e =
    let (prev, log1, asked, e1) = after-eq-ok _ _ (known, wid) start e in
    let (n, log2, created, e2) =
      after-eq-ok _ (create_dynamic_index peer archive_name log1) (known, wid) start e1 in
    ap appends
      (sym (ap (λ p. p.1) e2) ∙ open_log peer (create_dynamic archive_name) log1 log2 n created)
    ∙ previous_log peer dedup archive_name prev log1 asked

module _ (peer : Peer) (c : Codec) (a : Cipher) (h : Sha256) (crypt : Option CryptConfig)
    (compress : Bool) where
  -- The batches are sent whole, in order, and nothing else.
  append_batches_log :
      (fuel wid : ℕ) (ds : List Bytes) (offsets : List ℕ) (log end : List Request) (u : Unit {0})
      → length ds ≤ fuel
      → append_batches peer c a h crypt compress fuel wid ds offsets log ≡ (ok u, end)
      → (appends end ≡ appends log ++ ds) × (uploads end ≡ uploads log)
  unfolding append_batches append_dynamic_index
  append_batches_log zero wid [] offsets log end u enough e = (
    ap appends (sym (ap (λ p. p.1) e)) ∙ sym (append-nil (appends log)),
    ap uploads (sym (ap (λ p. p.1) e)),
  )
  append_batches_log zero wid (d ∷ ds) offsets log end u enough e = absurd (omega arith)
  append_batches_log (suc fuel) wid [] offsets log end u enough e = (
    ap appends (sym (ap (λ p. p.1) e)) ∙ sym (append-nil (appends log)),
    ap uploads (sym (ap (λ p. p.1) e)),
  )
  append_batches_log (suc fuel) wid (d ∷ ds) offsets log end u enough e =
      let batch = take append_batch (d ∷ ds) in
      let rest = drop append_batch (d ∷ ds) in
      let (v, log1, sent, e1) =
        after-eq-ok _ (append_dynamic_index peer wid batch (take append_batch offsets) log) u end
          e in
      let shape = commit_log peer _ log log1 v sent in
      let (more, same) =
        append_batches_log fuel wid rest (drop append_batch offsets) log1 end u
          (omega (arith, length-drop append_batch (d ∷ ds), enough)) e1 in
      (
        more
            ∙ ap (λ l. l ++ rest) (ap appends shape)
            ∙ append_assoc (appends log) batch rest
            ∙ ap (λ l. appends log ++ l) (take-append-drop append_batch (d ∷ ds)),
        same ∙ ap uploads shape,
      )

  -- At most the catalog is sent.
  upload_catalog_log :
      (catalog : Option (Text × Bytes)) (random : Option Bytes) (log end : List Request)
      (u : Unit {0})
      → upload_catalog peer c a h crypt compress catalog random log ≡ (ok u, end)
      → (listed : List Request) × (end ≡ listed ++ log)
  unfolding upload_catalog upload_blob
  upload_catalog_log none random log end u e = ([], sym (ap (λ p. p.1) e))
  upload_catalog_log (some (name, content)) random log end u e =
      let (body, log1, made, e1) =
        after-eq-ok _ (lift (encode_chunk c a crypt compress random content) log) u end e in
      (
        blob name body ∷ [],
        commit_log peer (blob name body) log1 end u e1
            ∙ ap (λ l. blob name body ∷ l) (sym (ap (λ p. p.1) made)),
      )

  -- What a dynamic backup of a stream has sent, the last request first.
  pub record IsSealed (known stream : List Bytes) (wid : ℕ) (csum : Bytes) (end : List Request)
      : Type 0 where
    pub manifest : Bytes
    pub size : ℕ
    pub listed : List Request
    pub before : List Request
    pub ends :
        end
        ≡ finish_session
          ∷ blob manifest_blob_name manifest
          ∷ (listed ++ close_dynamic wid (length stream) size csum ∷ before)
    pub appended : appends before ≡ map (digest_of h crypt) stream
    pub available : All (λ d. (has d known || has d (uploads before)) ≡ true) (appends before)

  available_lem :
      (known : List Bytes) (log : List Request) (ds : List Bytes)
      → All (IsCovered known log []) ds
      → All (λ d. (has d known || has d (uploads log)) ≡ true) ds
  unfolding has
  available_lem known log [] h = tt
  available_lem known log (d ∷ ds) h =
      (drop_false (has d known) (has d (uploads log)) h.0, available_lem known log ds h.1)

  -- A dynamic backup that was opened, with the chunks of the previous snapshot as the known ones if that was asked for; whose loop has taken the whole stream, whose tasks have all ended, in whatever order, and which then
  -- succeeds: it has appended exactly the digests of the stream's chunks, in order, each of which is known from the
  -- previous snapshot or was uploaded before; and it has then closed the index with their number and the csum it answers,
  -- sent at most the catalog, stored the manifest and finished the session, with nothing after.
  pub seal-IsSealed :
      (to_json : BackupManifest → PbsResult Bytes) (params : SnapshotId) (archive_name : Text)
      (uuid : Bytes) (wid width : ℕ) (chunker : PbsResult (Unit {0}))
      (catalog : Option (Text × Bytes)) (random : Option Bytes) (known stream : List Bytes)
      (dedup : Bool) (start end : List Request) (p : Pipeline) (csum : Bytes)
      → open_dynamic peer dedup archive_name [] ≡ (ok (known, wid), start)
      → Reached peer c a h crypt compress known wid width
          (pipeline params.backup_time uuid start)
          stream
          p
          []
      → p.inflight ≡ []
      → seal peer c a h crypt compress to_json params archive_name wid chunker catalog random p
          p.log
        ≡ (ok csum, end)
      → IsSealed known stream wid csum end
  unfolding seal close_dynamic_index entry_count total_size
  seal-IsSealed to_json params archive_name uuid wid width chunker catalog random known stream dedup
        start end p csum opened reached idle e =
      let fresh = open_dynamic_log peer dedup archive_name known wid start opened in
      let order =
        Reached-IsInOrder peer c a h crypt compress known wid width params.backup_time uuid start
          stream [] p fresh reached in
      let size = total_size p.builder in
      let sum = index_csum h p.builder in
      let (u1, log1, batches, e1) =
        after-eq-ok _
          (append_batches peer c a h crypt compress (length p.all_digests) wid p.all_digests
            p.all_offsets p.log)
          csum end e in
      let (u2, log2, chunked, e2) = after-eq-ok _ (lift chunker log1) csum end e1 in
      let (u3, log3, closed, e3) =
        after-eq-ok _ (close_dynamic_index peer wid (entry_count p.builder) size sum log2) csum end
          e2 in
      let (u4, log4, cataloged, e4) =
        after-eq-ok _ (upload_catalog peer c a h crypt compress catalog random log3) csum end e3 in
      let (u5, log5, stored, e5) = after-eq-ok _ (store_manifest peer c h _ log4) csum end e4 in
      let (sent, kept) =
        append_batches_log (length p.all_digests) wid p.all_digests p.all_offsets p.log log1 u1
          (omega arith) batches in
      let closing =
        commit_log peer (close_dynamic wid (entry_count p.builder) size sum) log2 log3 u3 closed in
      let (listed, list_shape) = upload_catalog_log catalog random log3 log4 u4 cataloged in
      let (manifest, shape) = store_manifest_log peer c h _ log4 log5 u5 stored in
      let whole : p.all_digests ≡ map (digest_of h crypt) stream =
        sym (append-nil p.all_digests) ∙ order.in_order in
      let all_sent : appends log1 ≡ p.all_digests =
        sent ∙ ap (λ l. l ++ p.all_digests) order.not_appended in
      let count : length p.builder.entries ≡ length stream =
        sym (length-map (λ e. e.1) p.builder.entries)
        ∙ ap length (order.indexed ∙ whole)
        ∙ length-map (digest_of h crypt) stream in
      let same_sum : sum ≡ csum = ok-injective (ap (λ r. r.0) e5) in
      record {
        manifest = manifest;
        size = size;
        listed = listed;
        before = log1;
        ends =
            sym (ap (λ r. r.1) e5)
            ∙ shape
            ∙ ap (λ l. finish_session ∷ blob manifest_blob_name manifest ∷ l)
                (list_shape
                  ∙ ap (λ l. listed ++ l)
                      (closing
                        ∙ ap (λ l. close_dynamic wid (entry_count p.builder) size sum ∷ l)
                            (sym (ap (λ r. r.1) chunked))
                        ∙ ap₂ (λ n s. close_dynamic wid n size s ∷ log1) count same_sum));
        appended = all_sent ∙ whole;
        available =
            subst (λ l. All (λ d. (has d known || has d l) ≡ true) (appends log1)) (sym kept)
              (subst (All (λ d. (has d known || has d (uploads p.log)) ≡ true)) (sym all_sent) (
                available_lem known p.log p.all_digests
                  (subst (λ t. All (IsCovered known p.log t) p.all_digests) idle order.covered)));
      }
