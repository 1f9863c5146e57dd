-- ===== src/Pbs/Session/Pipeline.antt =====
-- crates/pbs-client/src/session.rs: `spawn_chunk_pipeline`, which downloads ahead, and the restores that go through it.
pub mod InOrder
use pbsgui.Base.{
  List, Option, Text, [], concat, drop, err, length, map, ok, suc, take, zero, ℕ, ◌%◌, ◌++◌, ◌>>=◌,
  ◌^◌, ◌∷◌,
}
use pbsgui.Base.Bytes.{Bytes}
use pbsgui.Pbs.Error.{PbsResult}
use pbsgui.Pbs.Blob.{Codec}
use pbsgui.Pbs.Index.{Sha256}
use pbsgui.Pbs.Crypt.{Cipher, CryptConfig}
use pbsgui.Pbs.Session.Chunk.{decode_and_verify_chunk}
use pbsgui.Pbs.Session.Reader.{Connection, download_chunk, archive_digests}

-- A task is its result: the server answers a digest in one way, whenever the task runs.
abbrev pub Task : Type 0
Task = PbsResult Bytes

-- `if let Some(d) = digest_iter.next() { inflight.push_back(spawn_one(d)); }`
abbrev pub refill : (Bytes → Task) → List Task → List Bytes → List Task × List Bytes
refill spawn inflight [] = (inflight, [])
refill spawn inflight (d ∷ iter) = (inflight ++ (spawn d ∷ []), iter)

-- The loop that awaits the tasks in order, with a bound on its rounds; the chunks that are sent are put behind those sent.
unfoldable pub pump :
    ℕ → (Bytes → Task) → List Task → List Bytes → List Bytes → PbsResult (Unit {0}) × List Bytes
pump zero spawn inflight iter sent = (ok tt, sent)
pump (suc fuel) spawn [] iter sent = (ok tt, sent)
pump (suc fuel) spawn (err e ∷ inflight) iter sent = (err e, sent)
pump (suc fuel) spawn (ok chunk ∷ inflight) iter sent =
    pump fuel spawn (refill spawn inflight iter).0 (refill spawn inflight iter).1
      (sent ++ (chunk ∷ []))

module _ (n : Connection) (c : Codec) (a : Cipher) (h : Sha256) (crypt : Option CryptConfig) where
  unfoldable pub spawn_one : Bytes → Task
  spawn_one digest = do
    blob ← download_chunk n digest
    decode_and_verify_chunk c a h blob crypt digest

  -- The window is filled first; each round sends a chunk, so their number bounds the rounds.
  unfoldable pub spawn_chunk_pipeline : ℕ → List Bytes → PbsResult (Unit {0}) × List Bytes
  unfolding pump spawn_one
  spawn_chunk_pipeline width ds =
      pump (length ds) spawn_one (map spawn_one (take width ds)) (drop width ds) []

  -- What a restore answers, and what its writer or its callback was given, where these take all they are given.
  unfoldable pub restore_through : ℕ → Text → PbsResult ℕ × Bytes
  unfolding spawn_chunk_pipeline archive_digests
  restore_through width archive_name = elim (archive_digests n c a h crypt archive_name) [
    | err e ↦ (err e, [])
    | ok ds ↦
        let (outcome, sent) = spawn_chunk_pipeline width ds in
        (outcome >>= (λ _. ok (length (concat sent) % 2 ^ 64)), concat sent)
  ]
