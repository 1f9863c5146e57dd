-- ===== src/Pbs/Session/Dynamic/Covered.antt =====
-- crates/pbs-client/src/session.rs: every chunk that a dynamic backup refers to is known, uploaded, or in a task.
use pbsgui.Base.{
  All, All-append, All-map, Bool, List, Option, [], ap, append_assoc, arith, false, if◌then◌else◌,
  length, length-append, ltb, ltb→lt, map, map-append, ok, refl, sym, true, ℕ, ◌%◌, ◌++◌, ◌+◌, ◌^◌,
  ◌||◌, ◌∙◌, ◌∷◌, ◌≡◌, ◌≤◌,
}
use mathlib.Core.Path.{subst}
use pbsgui.Base.Bytes.{Bytes}
use pbsgui.Pbs.Session.Writer.Monad.{Request, Peer, lift, dynamic_chunk}
use pbsgui.Pbs.Index.Dynamic.{push}
use pbsgui.Pbs.Blob.{Codec}
use pbsgui.Pbs.Crypt.{Cipher, CryptConfig}
use pbsgui.Pbs.Index.{Sha256}
use pbsgui.Pbs.Session.Chunk.{digest_of, encode_chunk}
use pbsgui.Pbs.Session.Writer.{upload_dynamic_chunk}
use pbsgui.Pbs.Session.Writer.Backup.{after-eq-ok, commit_log}
use pbsgui.Pbs.Session.Dynamic.Places.{
  uploads, appends, IsCovered, IsCovered-grown, IsCovered-new, IsCovered-known, IsCovered-ended,
}
use pbsgui.Pbs.Session.Dynamic.{
  take_chunk, plus_u64, pipeline, taken, ended, Reached, begin, go_on, run_task, take_chunk,
  plus_u64, has, Pipeline,
}

-- What holds between the steps, for the chunks of the whole stream and of the queue.
pub record IsInOrder (digest : Bytes → Bytes) (known : List Bytes) (width : ℕ) (stream : List Bytes)
    (p : Pipeline) (queue : List Bytes) : Type 0 where
  pub covered : All (IsCovered known p.log p.inflight) p.all_digests
  pub in_order : p.all_digests ++ map digest queue ≡ map digest stream
  pub indexed : map (λ e. e.1) p.builder.entries ≡ p.all_digests
  pub counted : p.chunks ≡ (p.reused + p.uploaded) % 2 ^ 64
  pub bounded : length p.inflight ≤ width
  pub not_appended : appends p.log ≡ []

module _ (digest : Bytes → Bytes) (known : List Bytes) (width : ℕ) (stream : List Bytes) where
  taken_by :
      (seen : Bool) (p : Pipeline) (data_bytes : Bytes)
      → has (digest data_bytes) known ≡ seen
      → All (IsCovered known p.log p.inflight) p.all_digests
      → let d = digest data_bytes in
        let tasks = if seen then p.inflight else p.inflight ++ ((d, data_bytes) ∷ []) in
        All (IsCovered known p.log tasks) (p.all_digests ++ (d ∷ []))
  taken_by true p data_bytes seen covered =
      All-append _ p.all_digests _ covered
        (IsCovered-known known p.log p.inflight (digest data_bytes) seen, tt)
  taken_by false p data_bytes seen covered =
      let d = digest data_bytes in
      All-append _ p.all_digests _
        (All-map p.all_digests (IsCovered-grown known p.log p.inflight (d, data_bytes)) covered)
        (IsCovered-new known p.log p.inflight d data_bytes, tt)

  counted_by :
      (seen : Bool) (chunks reused uploaded : ℕ)
      → chunks ≡ (reused + uploaded) % 2 ^ 64
      → plus_u64 chunks 1
        ≡ ((if seen then plus_u64 reused 1 else reused)
            + (if seen then uploaded else plus_u64 uploaded 1))
          % 2 ^ 64
  counted_by true chunks reused uploaded same = omega arith
  counted_by false chunks reused uploaded same = omega arith

  bounded_by :
      (seen : Bool) (tasks : List (Bytes × Bytes)) (task : Bytes × Bytes)
      → length tasks ≤ width
      → (seen || ltb (length tasks) width) ≡ true
      → length (if seen then tasks else tasks ++ (task ∷ [])) ≤ width
  bounded_by true tasks task fits room = fits
  bounded_by false tasks task fits room =
      omega (arith, ltb→lt (length tasks) width room, length-append tasks (task ∷ []))

  taken-IsInOrder :
      (p : Pipeline) (data_bytes : Bytes) (queue : List Bytes)
      → (has (digest data_bytes) known || ltb (length p.inflight) width) ≡ true
      → IsInOrder digest known width stream p (data_bytes ∷ queue)
      → IsInOrder digest known width stream
          (take_chunk known (digest data_bytes) data_bytes p)
          queue
  unfolding take_chunk push
  taken-IsInOrder p data_bytes queue room h =
      let d = digest data_bytes in
      let seen = has d known in
      record {
        covered = taken_by seen p data_bytes refl h.covered;
        in_order = append_assoc p.all_digests (d ∷ []) (map digest queue) ∙ h.in_order;
        indexed =
            map-append (λ (e : ℕ × Bytes). e.1) p.builder.entries _
            ∙ ap (λ l. l ++ (d ∷ [])) h.indexed;
        counted = counted_by seen p.chunks p.reused p.uploaded h.counted;
        bounded = bounded_by seen p.inflight (d, data_bytes) h.bounded room;
        not_appended = h.not_appended;
      }

  ended-IsInOrder :
      (p : Pipeline) (queue : List Bytes) (before after : List (Bytes × Bytes))
      (task : Bytes × Bytes) (stored : ℕ) (log : List Request)
      → p.inflight ≡ before ++ task ∷ after
      → uploads log ≡ task.0 ∷ uploads p.log
      → appends log ≡ appends p.log
      → IsInOrder digest known width stream p queue
      → IsInOrder digest known width stream
          (record p { log = log; inflight = before ++ after; stored_bytes = stored })
          queue
  ended-IsInOrder p queue before after task stored log tasks sent same h = record {
    covered =
        All-map p.all_digests
          (λ d covered.
            IsCovered-ended known p.log log before after task d sent
              (subst (λ t. IsCovered known p.log t d) tasks covered))
          h.covered;
    in_order = h.in_order;
    indexed = h.indexed;
    counted = h.counted;
    bounded = omega (
      arith,
      h.bounded,
      ap length tasks,
      length-append before (task ∷ after),
      length-append before after,
    );
    not_appended = same ∙ h.not_appended;
  }

module _ (peer : Peer) (c : Codec) (a : Cipher) (h : Sha256) (crypt : Option CryptConfig)
    (compress : Bool) where
  run_task_log :
      (wid : ℕ) (random : Option Bytes) (task : Bytes × Bytes) (log log' : List Request)
      (stored : ℕ)
      → run_task peer c a h crypt compress wid random task log ≡ (ok stored, log')
      → (encoded : Bytes) × (log' ≡ dynamic_chunk wid task.0 (length task.1) encoded ∷ log)
  unfolding run_task upload_dynamic_chunk
  run_task_log wid random (digest, data_bytes) log log' stored e =
      let (encoded, log1, made, e1) =
        after-eq-ok _ (lift (encode_chunk c a crypt compress random data_bytes) log) stored log'
          e in
      let (u, log2, sent, e2) =
        after-eq-ok _ (upload_dynamic_chunk peer wid digest (length data_bytes) encoded log1) stored
          log' e1 in
      let shape =
        commit_log peer (dynamic_chunk wid digest (length data_bytes) encoded) log1 log2 u sent in
      (
        encoded,
        sym (ap (λ p. p.1) e2)
            ∙ shape
            ∙ ap (λ l. dynamic_chunk wid digest (length data_bytes) encoded ∷ l)
                (sym (ap (λ p. p.1) made)),
      )

  -- In every state that the loop and its tasks reach, in whatever order the tasks end: each chunk that the index refers to
  -- is known from the previous snapshot, uploaded, or in a task; the digests so far and those of the queue are those of
  -- the stream, in order, and the index has them; the chunks are those reused and those uploaded; there are no more
  -- tasks than permits; and nothing has been appended.
  pub Reached-IsInOrder :
      (known : List Bytes) (wid width backup_time : ℕ) (uuid : Bytes) (log : List Request)
      (stream queue : List Bytes) (p : Pipeline)
      → appends log ≡ []
      → Reached peer c a h crypt compress known wid width
          (pipeline backup_time uuid log)
          stream
          p
          queue
      → IsInOrder (digest_of h crypt) known width stream p queue
  unfolding pipeline
  Reached-IsInOrder known wid width backup_time uuid log stream queue p fresh begin = record {
    covered = tt;
    in_order = refl;
    indexed = refl;
    counted = refl;
    bounded = omega arith;
    not_appended = fresh;
  }
  Reached-IsInOrder known wid width backup_time uuid log stream queue p fresh
        (go_on reached (taken before data_bytes rest room)) =
      taken-IsInOrder (digest_of h crypt) known width stream before data_bytes queue room
        (Reached-IsInOrder known wid width backup_time uuid log stream _ before fresh reached)
  Reached-IsInOrder known wid width backup_time uuid log stream queue p fresh
        (go_on reached (ended q rest before after task random stored log' tasks done)) =
      let (encoded, shape) = run_task_log wid random task q.log log' stored done in
      ended-IsInOrder (digest_of h crypt) known width stream q queue before after task _ log' tasks
        (ap uploads shape) (ap appends shape)
        (Reached-IsInOrder known wid width backup_time uuid log stream _ q fresh reached)
