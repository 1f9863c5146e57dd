-- ===== src/Stream/Reader/Refines.antt =====
-- crates/pbsgui-engine/src/sql/vdi.rs: `ChannelReader` as a stream of bytes that ends in a verdict.
use pbsgui.Base.{
  Bool, Bool-cases, List, [], ap, append_assoc, ap₂, arith, concat, drop, drop-drop, err, false,
  if◌then◌else◌, inl, inr, length, length-slice, ltb, ltb→le, ltb→lt, min, ok, refl, slice, some,
  suc, sym, take-append-drop, true, zero, ℕ, ◌++◌, ◌+◌, ◌-◌, ◌<◌, ◌∙◌, ◌∷◌, ◌≡◌, ◌≤◌,
}
use mathlib.Core.Bool.{false≢true}
use mathlib.Core.Path.{subst}
use pbsgui.Base.Bytes.{Bytes}
use pbsgui.Stream.{IoResult, unexpected_eof}
use pbsgui.Stream.Reader.{ChannelReader, receive, verdict_of, read}

-- A read of a stream whose producer confirms it or not, with the bytes that are left before and after.
pub data Reads (size : ℕ) (confirmed : Bool) (before after : Bytes) : IoResult Bytes → Type 0 where
  -- some of the bytes that are left, one at least
  delivered :
      (bytes : Bytes)
      → before ≡ bytes ++ after
      → 0 < length bytes
      → length bytes ≤ size
      → Reads size confirmed before after (ok bytes)
  -- the end, where the producer confirmed
  ended : before ≡ [] → after ≡ [] → confirmed ≡ true → Reads size confirmed before after (ok [])
  -- the end, where it did not
  truncated :
      before ≡ []
      → after ≡ []
      → confirmed ≡ false
      → Reads size confirmed before after (err unexpected_eof)

-- The bytes that a reader has still to give.
abbrev pub left : ChannelReader → Bytes
left r = drop r.pos r.buf ++ concat r.rx

abbrev left_of : List Bytes × Bytes × ℕ → Bytes
left_of (rx, buf, pos) = drop pos buf ++ concat rx

drop_all : (n : ℕ) (xs : Bytes) → length xs ≤ n → drop n xs ≡ []
drop_all zero [] h = refl
drop_all zero (x ∷ xs) h = absurd (omega arith)
drop_all (suc n) [] h = refl
drop_all (suc n) (x ∷ xs) h = drop_all n xs (omega arith)

receive_left :
    (rx : List Bytes) (buf : Bytes) (pos : ℕ)
    → left_of (receive rx buf pos) ≡ drop pos buf ++ concat rx
unfolding receive
receive_left [] buf pos = refl
receive_left (next ∷ rest) buf pos = elim (Bool-cases (ltb pos (length buf))) [
  | inl unread ↦ rw unread
  | inr spent ↦
      rw (spent, drop_all pos buf (ltb→le pos (length buf) spent)) (receive_left rest next 0)
]

-- After the loop there is a byte to read, or nothing is left to receive.
receive_end :
    (rx : List Bytes) (buf : Bytes) (pos : ℕ)
    → ltb (receive rx buf pos).2 (length (receive rx buf pos).1) ≡ false
    → (receive rx buf pos).0 ≡ []
unfolding receive
receive_end [] buf pos h = refl
receive_end (next ∷ rest) buf pos h = elim (Bool-cases (ltb pos (length buf))) [
  | inl unread ↦ absurd (false≢true (sym (sym unread ∙ rw unread at h)))
  | inr spent ↦ rw spent (receive_end rest next 0 (rw spent at h))
]

slice_front :
    (pos n : ℕ) (buf : Bytes) → drop pos buf ≡ slice pos (pos + n) buf ++ drop (pos + n) buf
slice_front pos n buf =
    let e : pos + n - pos ≡ n = omega arith in
    rw (e, ← drop-drop n pos buf) (sym (take-append-drop n (drop pos buf)))

read_delivers :
    (size : ℕ) (r : ChannelReader) (rx : List Bytes) (buf : Bytes) (pos : ℕ)
    → receive r.rx r.buf r.pos ≡ (rx, buf, pos)
    → ltb pos (length buf) ≡ true
    → read size r ≡ (
      ok (slice pos (pos + min (length buf - pos) size) buf),
      record r { rx = rx; buf = buf; pos = pos + min (length buf - pos) size },
    )
unfolding read
read_delivers size r rx buf pos e unread = rw (e, unread, read)

read_ends :
    (size : ℕ) (r : ChannelReader) (rx : List Bytes) (buf : Bytes) (pos : ℕ)
    → receive r.rx r.buf r.pos ≡ (rx, buf, pos)
    → ltb pos (length buf) ≡ false
    → read size r ≡ (
      if verdict_of r then ok [] else err unexpected_eof,
      record r { rx = rx; buf = buf; pos = pos; verdict = some (verdict_of r) },
    )
unfolding read
read_ends size r rx buf pos e spent = rw (e, spent, read)

ended_Reads :
    (size : ℕ) (confirmed : Bool) (before after : Bytes)
    → before ≡ []
    → after ≡ []
    → Reads size confirmed before after (if confirmed then ok [] else err unexpected_eof)
ended_Reads size true before after eb ea = ended eb ea refl
ended_Reads size false before after eb ea = truncated eb ea refl

-- Each read of the channel, into a buffer that is not empty, is a read of its stream, and keeps the verdict.
pub read-Reads :
    (size : ℕ) (r : ChannelReader)
    → 0 < size
    → Reads size (verdict_of r) (left r) (left (read size r).1) (read size r).0
      × (verdict_of (read size r).1 ≡ verdict_of r)
unfolding verdict_of
read-Reads size r some_room =
    let rx = (receive r.rx r.buf r.pos).0 in
    let buf = (receive r.rx r.buf r.pos).1 in
    let pos = (receive r.rx r.buf r.pos).2 in
    let whole : drop pos buf ++ concat rx ≡ left r = receive_left r.rx r.buf r.pos in
    elim (Bool-cases (ltb pos (length buf))) [
      | inl unread ↦
          let n = min (length buf - pos) size in
          let inside = ltb→lt pos (length buf) unread in
          let room : length (slice pos (pos + n) buf) ≡ n =
            length-slice pos (pos + n) buf (omega arith) (omega arith) ∙ omega arith in
          subst
            (λ p.
              Reads size (verdict_of r) (left r) (left p.1) p.0 × (verdict_of p.1 ≡ verdict_of r))
            (sym (read_delivers size r rx buf pos refl unread))
            (
              delivered (slice pos (pos + n) buf)
                  (sym whole
                    ∙ ap (λ l. l ++ concat rx) (slice_front pos n buf)
                    ∙ append_assoc (slice pos (pos + n) buf) (drop (pos + n) buf) (concat rx))
                  (omega arith) (omega arith),
              refl,
            )
      | inr spent ↦
          let nothing : drop pos buf ++ concat rx ≡ [] =
            ap₂ (λ a b. a ++ concat b) (drop_all pos buf (ltb→le pos (length buf) spent))
              (receive_end r.rx r.buf r.pos spent) in
          subst
            (λ p.
              Reads size (verdict_of r) (left r) (left p.1) p.0 × (verdict_of p.1 ≡ verdict_of r))
            (sym (read_ends size r rx buf pos refl spent))
            (ended_Reads size (verdict_of r) (left r) _ (sym whole ∙ nothing) nothing, refl)
    ]
