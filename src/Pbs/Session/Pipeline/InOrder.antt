-- ===== src/Pbs/Session/Pipeline/InOrder.antt =====
-- crates/pbs-client/src/session.rs: a restore through the pipeline is the restore chunk by chunk.
use pbsgui.Base.{
  List, Option, Result-cases, Text, [], ap, append_assoc, arith, concat, concat_last, drop, err,
  inl, inr, length, length-append, length-map, map, map-append, ok, refl, suc, sym, take,
  take-append-drop, zero, ℕ, ◌%◌, ◌++◌, ◌+◌, ◌<◌, ◌>>=◌, ◌^◌, ◌∙◌, ◌∷◌, ◌≡◌, ◌≤◌, ◌⊎◌,
}
use mathlib.Core.Path.{subst}
use pbsgui.Base.Bytes.{Bytes}
use pbsgui.Pbs.Error.{PbsResult}
use pbsgui.Pbs.Blob.{Codec}
use pbsgui.Pbs.Index.{Sha256}
use pbsgui.Pbs.Index.Dynamic.{DynamicIndex, digests}
use pbsgui.Pbs.Crypt.{Cipher, CryptConfig}
use pbsgui.Pbs.Session.Chunk.{decode_and_verify_chunk}
use pbsgui.Pbs.Session.Reader.{
  Connection, download_chunk, archive_index, archive_digests, fetch_chunks, restore_dynamic_archive,
}
use pbsgui.Pbs.Session.Pipeline.{Task, pump, spawn_one, spawn_chunk_pipeline, restore_through}

-- The tasks awaited one after the other.
in_turn : List Task → List Bytes → PbsResult (Unit {0}) × List Bytes
in_turn [] sent = (ok tt, sent)
in_turn (err e ∷ tasks) sent = (err e, sent)
in_turn (ok chunk ∷ tasks) sent = in_turn tasks (sent ++ (chunk ∷ []))

-- Where there are digests left, a task is in flight.
abbrev IsBusy : List Task → List Bytes → Type 0
IsBusy inflight iter = (0 < length inflight) ⊎ (iter ≡ [])

pump-in_turn :
    (fuel : ℕ) (spawn : Bytes → Task) (inflight : List Task) (iter sent : List Bytes)
    → length inflight + length iter ≤ fuel
    → IsBusy inflight iter
    → pump fuel spawn inflight iter sent ≡ in_turn (inflight ++ map spawn iter) sent
unfolding pump in_turn
pump-in_turn zero spawn [] [] sent enough busy = refl
pump-in_turn zero spawn [] (d ∷ iter) sent enough busy = absurd (omega arith)
pump-in_turn zero spawn (t ∷ inflight) iter sent enough busy = absurd (omega arith)
pump-in_turn (suc fuel) spawn [] [] sent enough busy = refl
pump-in_turn (suc fuel) spawn [] (d ∷ iter) sent enough (inl some_task) = absurd (omega arith)
pump-in_turn (suc fuel) spawn [] (d ∷ iter) sent enough (inr none_left) =
    absurd (let e = ap length none_left in omega arith)
pump-in_turn (suc fuel) spawn (err e ∷ inflight) iter sent enough busy = refl
pump-in_turn (suc fuel) spawn (ok chunk ∷ inflight) [] sent enough busy =
    pump-in_turn fuel spawn inflight [] (sent ++ (chunk ∷ [])) (omega arith) (inr refl)
pump-in_turn (suc fuel) spawn (ok chunk ∷ inflight) (d ∷ iter) sent enough busy =
    pump-in_turn fuel spawn (inflight ++ (spawn d ∷ [])) iter (sent ++ (chunk ∷ []))
      (omega (arith, length-append inflight (spawn d ∷ [])))
      (inl (omega (arith, length-append inflight (spawn d ∷ []))))
    ∙ ap (λ l. in_turn l (sent ++ (chunk ∷ [])))
        (append_assoc inflight (spawn d ∷ []) (map spawn iter))

window-IsBusy :
    (spawn : Bytes → Task) (width : ℕ) (ds : List Bytes)
    → 0 < width
    → IsBusy (map spawn (take width ds)) (drop width ds)
window-IsBusy spawn zero ds some_width = absurd (omega arith)
window-IsBusy spawn (suc width) [] some_width = inr refl
window-IsBusy spawn (suc width) (d ∷ ds) some_width = inl (omega arith)

module _ (n : Connection) (c : Codec) (a : Cipher) (h : Sha256) (crypt : Option CryptConfig) where
  spawn_chunk_pipeline-in_turn :
      (width : ℕ) (ds : List Bytes)
      → 0 < width
      → spawn_chunk_pipeline n c a h crypt width ds ≡ in_turn (map (spawn_one n c a h crypt) ds) []
  unfolding spawn_chunk_pipeline
  spawn_chunk_pipeline-in_turn width ds some_width =
      let spawn = spawn_one n c a h crypt in
      pump-in_turn (length ds) spawn (map spawn (take width ds)) (drop width ds) []
        (omega (
          arith,
          length-map spawn (take width ds),
          ap length (take-append-drop width ds),
          length-append (take width ds) (drop width ds),
        ))
        (window-IsBusy spawn width ds some_width)
      ∙ ap (λ l. in_turn l [])
          (sym (map-append spawn (take width ds) (drop width ds))
            ∙ ap (map spawn) (take-append-drop width ds))

  -- What the tasks in turn and the loop of the plain restore have in common.
  IsSame : PbsResult Bytes → PbsResult (Unit {0}) × List Bytes → Type 0
  IsSame (ok image) (outcome, sent) = (outcome ≡ ok tt) × (concat sent ≡ image)
  IsSame (err e) (outcome, sent) = outcome ≡ err e

  in_turn-IsSame :
      (ds sent : List Bytes)
      → IsSame
          (fetch_chunks n c a h crypt (concat sent) ds)
          (in_turn (map (spawn_one n c a h crypt) ds) sent)
  unfolding IsSame fetch_chunks in_turn spawn_one
  in_turn-IsSame [] sent = (refl, refl)
  in_turn-IsSame (d ∷ ds) sent = elim (Result-cases (download_chunk n d)) [
    | inr (e, failed) ↦ rw (failed, spawn_one) refl
    | inl (raw, got) ↦ elim (Result-cases (decode_and_verify_chunk c a h raw crypt d)) [
      | inr (e, bad) ↦ rw (got, bad) refl
      | inl (chunk, decoded) ↦
          rw (got, decoded)
            (subst
              (λ l.
                IsSame (fetch_chunks n c a h crypt l ds)
                  (in_turn (map (spawn_one n c a h crypt) ds) (sent ++ (chunk ∷ []))))
              (concat_last sent chunk) (in_turn-IsSame ds (sent ++ (chunk ∷ []))))
    ]
  ]

  -- What a restore through the pipeline answers where the plain restore answers this.
  abbrev pub Agrees : PbsResult Bytes → PbsResult ℕ × Bytes → Type 0
  Agrees (ok image) (outcome, out) = (outcome ≡ ok (length image % 2 ^ 64)) × (out ≡ image)
  Agrees (err e) (outcome, out) = outcome ≡ err e

  Agrees-IsSame :
      (plain : PbsResult Bytes) (outcome : PbsResult (Unit {0})) (sent : List Bytes)
      → IsSame plain (outcome, sent)
      → Agrees plain (outcome >>= (λ _. ok (length (concat sent) % 2 ^ 64)), concat sent)
  unfolding IsSame
  Agrees-IsSame (ok image) outcome sent (good, whole) = (
    ap (λ r. r >>= (λ _. ok (length (concat sent) % 2 ^ 64))) good
        ∙ ap (λ l. ok (length l % 2 ^ 64)) whole,
    whole,
  )
  Agrees-IsSame (err e) outcome sent bad =
      ap (λ r. r >>= (λ _. ok (length (concat sent) % 2 ^ 64))) bad

  through_found :
      (width : ℕ) (archive_name : Text) (index : DynamicIndex)
      → 0 < width
      → archive_index n c a h crypt archive_name ≡ ok index
      → let turn = in_turn (map (spawn_one n c a h crypt) (digests index)) [] in
        restore_through n c a h crypt width archive_name
        ≡ (turn.0 >>= (λ _. ok (length (concat turn.1) % 2 ^ 64)), concat turn.1)
  unfolding restore_through archive_digests
  through_found width archive_name index some_width found =
      rw (found, restore_through)
        (ap (λ r. (r.0 >>= (λ _. ok (length (concat r.1) % 2 ^ 64)), concat r.1))
          (spawn_chunk_pipeline-in_turn width (digests index) some_width))

  -- With a window of at least one, and a writer or callback that takes all it is given, a restore through the pipeline
  -- does what the restore chunk by chunk does: where that gives an archive, it hands over just this archive and answers
  -- its length; where that fails, it fails with the same error.
  pub restore_through-Agrees :
      (width : ℕ) (archive_name : Text)
      → 0 < width
      → Agrees
          (restore_dynamic_archive n c a h crypt archive_name)
          (restore_through n c a h crypt width archive_name)
  unfolding restore_dynamic_archive restore_through archive_digests
  restore_through-Agrees width archive_name some_width =
      elim (Result-cases (archive_index n c a h crypt archive_name)) [
        | inr (e, bad) ↦ rw (bad, restore_through) refl
        | inl (index, found) ↦
            let ds = digests index in
            let turn = in_turn (map (spawn_one n c a h crypt) ds) [] in
            rw (through_found width archive_name index some_width found, found)
              (Agrees-IsSame (fetch_chunks n c a h crypt [] ds) turn.0 turn.1
                (in_turn-IsSame ds []))
      ]
