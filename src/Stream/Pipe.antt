-- ===== src/Stream/Pipe.antt =====
-- crates/pbsgui-engine/src/archive.rs and sql/vdi.rs: an archive written at one end of the channel and read at the other.
use pbsgui.Base.{
  ==_iff, Bool, Bool-cases, List, Option, [], ap, append-nil, append_assoc, arith, concat,
  concat_last, err, false, inl, inr, leb, leb→lt, length, length-append, none, ok, refl, some, suc,
  sym, true, zero, ℕ, ◌++◌, ◌<◌, ◌==◌, ◌∙◌, ◌∷◌, ◌≡◌,
}
use pbsgui.Base.Bytes.{Bytes}
use pbsgui.Stream.{IoResult, other, unexpected_eof}
use pbsgui.Stream.Reader.{ChannelReader, new, read, verdict_of}
use pbsgui.Stream.Reader.Refines.{Reads, delivered, ended, truncated, left, read-Reads}
use pbsgui.Stream.Writer.{ChannelWriter, opened, piece_size, send, write, flush}

-- The bytes of one read in front of those of the reads behind it; an empty read is the end.
unfoldable pub collect : IoResult Bytes → IoResult Bytes → IoResult Bytes
collect (err e) rest = err e
collect (ok []) rest = ok []
collect (ok (b ∷ bs)) (err e) = err e
collect (ok (b ∷ bs)) (ok more) = ok (b ∷ bs ++ more)

-- A consumer that reads to the end, into a buffer of that size, with a bound on the number of its reads.
unfoldable pub read_to_end : ℕ → ℕ → ChannelReader → IoResult Bytes
unfolding collect
read_to_end zero size r = err other
read_to_end (suc fuel) size r = collect (read size r).0 (read_to_end fuel size (read size r).1)

-- A producer that writes some buffers and flushes.
unfoldable pub write_all : List Bytes → ChannelWriter → IoResult (Unit {0}) × ChannelWriter
write_all [] w = flush w
write_all (d ∷ ds) w = elim (write d w).0 [
  | err e ↦ (err e, (write d w).1)
  | ok _ ↦ write_all ds (write d w).1
]

abbrev pub ending : Bool → Bytes → IoResult Bytes
ending true bytes = ok bytes
ending false bytes = err unexpected_eof

collect-Reads :
    (size : ℕ) (v : Bool) (before after : Bytes) (res rest : IoResult Bytes)
    → Reads size v before after res
    → (length after < length before → rest ≡ ending v after)
    → collect res rest ≡ ending v before
unfolding collect
collect-Reads size v before after _ rest (delivered [] split some_byte fits) h =
    absurd (omega arith)
collect-Reads size true before after _ rest (delivered (b ∷ bs) split some_byte fits) h =
    let shorter : length after < length before =
      omega (arith, ap length split, length-append (b ∷ bs) after) in
    rw (h shorter, split)
collect-Reads size false before after _ rest (delivered (b ∷ bs) split some_byte fits) h =
    let shorter : length after < length before =
      omega (arith, ap length split, length-append (b ∷ bs) after) in
    rw (h shorter)
collect-Reads size v before after _ rest (ended eb ea good) h = rw (good, eb)
collect-Reads size v before after _ rest (truncated eb ea bad) h = rw bad

-- More reads than there are bytes are enough: the consumer gets exactly the bytes that are left if the producer
-- confirmed, and else an error.
pub read_to_end_lem :
    (fuel size : ℕ) (r : ChannelReader)
    → 0 < size
    → length (left r) < fuel
    → read_to_end fuel size r ≡ ending (verdict_of r) (left r)
unfolding read_to_end
read_to_end_lem zero size r room enough = absurd (omega arith)
read_to_end_lem (suc fuel) size r room enough =
    let (reads, same) = read-Reads size r room in
    collect-Reads size (verdict_of r) (left r) (left (read size r).1) (read size r).0 _ reads
      (λ shorter.
        read_to_end_lem fuel size (read size r).1 room (omega arith)
        ∙ ap (λ v. ending v (left (read size r).1)) same)

-- What a writer was given and has not lost: what it sent, and its buffer.
abbrev pub held : ChannelWriter → Bytes
held w = concat w.sent ++ w.buf

-- A step of a writer whose channel is open: it succeeds, holds these bytes, and leaves the channel open.
abbrev pub Holds : Bytes → IoResult (Unit {0}) × ChannelWriter → Type 0
Holds bytes (res, w) = (res ≡ ok tt) × (held w ≡ bytes) × (w.closed ≡ false)

send-Holds :
    (w : ChannelWriter) → w.closed ≡ false → Holds (held w) (send w) × (length (send w).1.buf ≡ 0)
unfolding send
send-Holds w open_ = elim (Bool-cases (length w.buf == 0)) [
  | inl empty ↦ rw empty ((refl, refl, open_), (==_iff (length w.buf) 0).0 empty)
  | inr full ↦ rw (full, open_) ((refl, append-nil _ ∙ concat_last w.sent w.buf, refl), refl)
]

-- Between writes less than a piece is buffered.
write-Holds :
    (d : Bytes) (w : ChannelWriter)
    → w.closed ≡ false
    → Holds (held w ++ d) (write d w) × (length (write d w).1.buf < piece_size)
unfolding write
write-Holds d w open_ =
    let grown : ChannelWriter = record w { buf = w.buf ++ d } in
    let more : held grown ≡ held w ++ d = sym (append_assoc (concat w.sent) w.buf d) in
    elim (Bool-cases (leb piece_size (length (w.buf ++ d)))) [
      | inl full ↦
          let ((good, kept, still), empty) = send-Holds grown open_ in
          rw full ((good, kept ∙ more, still), omega arith)
      | inr room ↦ rw room ((refl, more, open_), leb→lt piece_size (length (w.buf ++ d)) room)
    ]

no_bytes : (bs : Bytes) → length bs ≡ 0 → bs ≡ []
no_bytes [] e = refl
no_bytes (b ∷ bs) e = absurd (omega arith)

write_all_holds :
    (ds : List Bytes) (w : ChannelWriter)
    → w.closed ≡ false
    → ((write_all ds w).0 ≡ ok tt) × (concat (write_all ds w).1.sent ≡ held w ++ concat ds)
unfolding write_all flush
write_all_holds [] w open_ =
    let ((good, kept, still), empty) = send-Holds w open_ in
    let nothing : (send w).1.buf ≡ [] = no_bytes (send w).1.buf empty in
    (
      good,
      sym (append-nil (concat (send w).1.sent))
          ∙ ap (λ l. concat (send w).1.sent ++ l) (sym nothing)
          ∙ kept
          ∙ sym (append-nil (held w)),
    )
write_all_holds (d ∷ ds) w open_ =
    let ((good, kept, still), small) = write-Holds d w open_ in
    let (all_good, all_sent) = write_all_holds ds (write d w).1 still in
    rw (good, write_all)
      (all_good, all_sent ∙ ap (λ l. l ++ concat ds) kept ∙ append_assoc (held w) d (concat ds))

-- An archive that is written in any pieces to an open channel, and flushed, is read back whole by a consumer that makes
-- more reads than it has bytes, if its producer then gives the verdict `true`; on any other end the consumer gets an error.
pub read_to_end-write_all :
    (ds : List Bytes) (done : Option Bool) (fuel size : ℕ)
    → 0 < size
    → length (concat ds) < fuel
    → ((write_all ds opened).0 ≡ ok tt)
      × (read_to_end fuel size (new (write_all ds opened).1.sent done)
          ≡ ending (elim done [ some v ↦ v | none ↦ false ]) (concat ds))
unfolding new verdict_of
read_to_end-write_all ds done fuel size room enough =
    let (good, sent) = write_all_holds ds opened refl in
    let r : ChannelReader = new (write_all ds opened).1.sent done in
    (
      good,
      read_to_end_lem fuel size r room (omega (arith, ap length sent))
          ∙ ap (λ l. ending (verdict_of r) l) sent,
    )
