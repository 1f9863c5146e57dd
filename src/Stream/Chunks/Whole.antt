-- ===== src/Stream/Chunks/Whole.antt =====
-- crates/pbsgui-ad-engine/src/stream.rs: the loop of `write` ends, and loses nothing.
use pbsgui.Base.{
  All, Bool-cases, HasLength, List, [], ap, append-nil, append_assoc, arith, concat, concat_last,
  drop, false, inl, inr, leb, leb→le, leb→lt, length, length-drop, length-take, refl, suc, sym,
  take, take-append-drop, zero, ℕ, ◌++◌, ◌<◌, ◌∙◌, ◌∷◌, ◌≡◌, ◌≤◌,
}
use pbsgui.Base.Bytes.{Bytes}
use pbsgui.Stream.Writer.{ChannelWriter}
use pbsgui.Stream.Chunks.{chunk_size, send_chunks, write_chunks}
use pbsgui.Stream.Pipe.{Holds, held}

-- Every buffer behind the first ones is a whole chunk.
abbrev pub ChunksAfter : List Bytes → List Bytes → Type 0
ChunksAfter before after =
    (more : List Bytes) × (after ≡ before ++ more) × All (HasLength chunk_size) more

send_chunks_whole :
    (fuel : ℕ) (w : ChannelWriter)
    → w.closed ≡ false
    → length w.buf ≤ fuel
    → Holds (held w) (send_chunks fuel w)
      × (length (send_chunks fuel w).1.buf < chunk_size)
      × ChunksAfter w.sent (send_chunks fuel w).1.sent
unfolding send_chunks
send_chunks_whole zero w open_ enough =
    ((refl, refl, open_), omega arith, ([], sym (append-nil w.sent), tt))
send_chunks_whole (suc fuel) w open_ enough = elim (Bool-cases (leb chunk_size (length w.buf))) [
  | inr room ↦ rw room (
    (refl, refl, open_),
    leb→lt chunk_size (length w.buf) room,
    ([], sym (append-nil w.sent), tt),
  )
  | inl full ↦
      let big = leb→le chunk_size (length w.buf) full in
      let chunk = take chunk_size w.buf in
      let rest = drop chunk_size w.buf in
      let next : ChannelWriter = record w {
        buf = rest;
        sent = w.sent ++ (chunk ∷ []);
        closed = false;
      } in
      let ((good, kept, still), small, (more, after, whole)) =
        send_chunks_whole fuel next refl (omega (arith, length-drop chunk_size w.buf)) in
      let same : held next ≡ held w =
        ap (λ l. l ++ rest) (concat_last w.sent chunk)
        ∙ append_assoc (concat w.sent) chunk rest
        ∙ ap (λ l. concat w.sent ++ l) (take-append-drop chunk_size w.buf) in
      rw (full, open_)
        (
          (good, kept ∙ same, still),
          small,
          (
            chunk ∷ more,
            after ∙ append_assoc w.sent (chunk ∷ []) more,
            (omega (arith, length-take chunk_size w.buf), whole),
          ),
        )
]

-- A write to an open channel ends with less than a chunk in the buffer, has sent whole chunks only, and holds all bytes
-- that the writer held before and all that were written.
pub write_chunks-whole :
    (d : Bytes) (w : ChannelWriter)
    → w.closed ≡ false
    → Holds (held w ++ d) (write_chunks d w)
      × (length (write_chunks d w).1.buf < chunk_size)
      × ChunksAfter w.sent (write_chunks d w).1.sent
unfolding write_chunks
write_chunks-whole d w open_ =
    let grown : ChannelWriter = record w { buf = w.buf ++ d } in
    let ((good, kept, still), small, after) =
      send_chunks_whole (length grown.buf) grown open_ (omega arith) in
    ((good, kept ∙ sym (append_assoc (concat w.sent) w.buf d), still), small, after)
