-- ===== src/Pbs/Session/Reader/Restore.antt =====
-- crates/pbs-client/src/session.rs: what a restore that succeeds has checked, and when it succeeds.
use pbsgui.Base.{
  All, Bool-cases, List, Option, [], ap, append-nil, append_assoc, ap₂, arith, bind-eq-ok, concat,
  inl, inr, length, map, ok, ok-injective, refl, sym, take_all, true, ◌++◌, ◌∙◌, ◌∷◌, ◌≡◌,
}
use pbsgui.Base.Bytes.{Bytes}
use pbsgui.Pbs.Blob.{Codec}
use pbsgui.Pbs.Index.{Sha256, Sha256Laws}
use pbsgui.Pbs.Index.Fixed.{FixedIndexBuilder, serialize as serialize_fixed}
use pbsgui.Pbs.Index.Fixed.Layout.{IsSized}
use pbsgui.Pbs.Index.Fixed.RoundTrip.{parse-serialize}
use pbsgui.Pbs.Index.Dynamic.{
  DynamicIndex, digests, parse as parse_dynamic, verify_csum as verify_dynamic,
}
use pbsgui.Pbs.Crypt.{Cipher, CryptConfig}
use pbsgui.Pbs.Session.Chunk.{digest_of, decode_and_verify_chunk}
use pbsgui.Pbs.Session.Chunk.RoundTrip.{verified-digest}
use pbsgui.Pbs.Session.Reader.{
  Connection, download, download_chunk, fetch_chunks, fixed_index, restore_fixed_image,
  restore_dynamic_archive, archive_index,
}

-- The server gives a blob for the chunk's digest that decodes to the chunk.
abbrev pub IsServed : Connection → Codec → Cipher → Sha256 → Option CryptConfig → Bytes → Type 0
IsServed n c a h crypt chunk =
    (raw : Bytes) × (download_chunk n (digest_of h crypt chunk) ≡ ok raw)
    × (decode_and_verify_chunk c a h raw crypt (digest_of h crypt chunk) ≡ ok chunk)

module _ (n : Connection) (c : Codec) (a : Cipher) (h : Sha256) (crypt : Option CryptConfig) where
  fetch_chunks-verified :
      (image out : Bytes) (ds : List Bytes)
      → fetch_chunks n c a h crypt image ds ≡ ok out
      → (chunks : List Bytes) × (map (digest_of h crypt) chunks ≡ ds)
        × (out ≡ image ++ concat chunks)
  unfolding fetch_chunks
  fetch_chunks-verified image out [] e = ([], refl, sym (ok-injective e) ∙ sym (append-nil image))
  fetch_chunks-verified image out (d ∷ ds) e =
      let (blob, got, rest) = bind-eq-ok (download_chunk n d) _ e in
      let (chunk, decoded, more) = bind-eq-ok (decode_and_verify_chunk c a h blob crypt d) _ rest in
      let (chunks, all_digests, whole) = fetch_chunks-verified (image ++ chunk) out ds more in
      let (digest, plain) = verified-digest c a h blob d chunk crypt decoded in
      (
        chunk ∷ chunks,
        ap₂ (λ x xs. x ∷ xs) digest all_digests,
        whole ∙ append_assoc image chunk (concat chunks),
      )

  fetch_chunks-served :
      (image : Bytes) (chunks : List Bytes)
      → All (IsServed n c a h crypt) chunks
      → fetch_chunks n c a h crypt image (map (digest_of h crypt) chunks)
        ≡ ok (image ++ concat chunks)
  unfolding fetch_chunks
  fetch_chunks-served image [] served = ap ok (sym (append-nil image))
  fetch_chunks-served image (chunk ∷ chunks) ((raw, got, decoded), served) =
      rw (got, decoded)
        (fetch_chunks-served (image ++ chunk) chunks served
          ∙ ap ok (append_assoc image chunk (concat chunks)))

  archive_index-checked :
      (archive_name : Bytes) (index : DynamicIndex)
      → archive_index n c a h crypt archive_name ≡ ok index
      → verify_dynamic h index ≡ true
  unfolding archive_index
  archive_index-checked archive_name index e =
      let (bytes, got, parsing) = bind-eq-ok (download n archive_name) _ e in
      let (parsed, is_index, checking) = bind-eq-ok (parse_dynamic bytes) _ parsing in
      elim (Bool-cases (verify_dynamic h parsed)) [
        | inl good ↦
            (let same : parsed ≡ index = ok-injective (rw good at checking) in rw (← same, good))
        | inr bad ↦ cc (rw bad at checking)
      ]

  -- A dynamic archive that is restored is the concatenation of chunks whose digests are those of an index, in its order,
  -- which the server gave for that name and whose csum was checked.
  pub restore_dynamic_archive-verified :
      (archive_name out : Bytes)
      → restore_dynamic_archive n c a h crypt archive_name ≡ ok out
      → (index : DynamicIndex) × (chunks : List Bytes) × (archive_index n c a h crypt archive_name
          ≡ ok index)
        × (verify_dynamic h index ≡ true)
        × (map (digest_of h crypt) chunks ≡ digests index)
        × (out ≡ concat chunks)
  unfolding restore_dynamic_archive
  restore_dynamic_archive-verified archive_name out e =
      let (index, found, fetched) = bind-eq-ok (archive_index n c a h crypt archive_name) _ e in
      let (chunks, all_digests, whole) = fetch_chunks-verified [] out (digests index) fetched in
      (index, chunks, found, archive_index-checked archive_name index found, all_digests, whole)

  -- A fixed image whose serialized index the server gives, with the digests of some chunks and their total size, and whose
  -- chunks it serves, is restored to the concatenation of the chunks.
  pub restore_fixed_image_complete :
      (laws : Sha256Laws h) (archive_name : Bytes) (b : FixedIndexBuilder) (chunks : List Bytes)
      → IsSized b
      → download n archive_name ≡ ok (serialize_fixed h b)
      → b.digests ≡ map (digest_of h crypt) chunks
      → b.size ≡ length (concat chunks)
      → All (IsServed n c a h crypt) chunks
      → restore_fixed_image n c a h crypt archive_name ≡ ok (concat chunks)
  unfolding restore_fixed_image fixed_index
  restore_fixed_image_complete laws archive_name b chunks sized got named size served =
      let (parsed, checked) = parse-serialize h laws b sized in
      let fetched = fetch_chunks-served [] chunks served in
      rw (
        got,
        parsed,
        checked,
        named,
        fetched,
        size,
        take_all (length (concat chunks)) (concat chunks) (omega arith),
      )
