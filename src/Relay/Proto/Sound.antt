-- ===== src/Relay/Proto/Sound.antt =====
-- crates/pbsgui-engine/src/relay/proto.rs: what the reader accepts.
use pbsgui.Base.{
  All, All-take, Bool-cases, [], ap, append_assoc, ap₂, arith, bind-eq-ok, drop, err, err≢ok,
  if◌then◌else◌, inl, inr, leb, leb→le, length, length-take, le→leb, ltb, ltb→le, none, ok,
  ok-injective, refl, some, sym, take, take-append, take-append-drop, ℕ, ◌++◌, ◌∙◌, ◌∷◌, ◌≡◌, ◌≤◌,
}
use mathlib.Core.Path.{subst}
use mathlib.Core.Option.{none-ne-some}
use pbsgui.Base.Bytes.{Bytes, IsByte, to_le, from_le, to_le-from_le}
use pbsgui.Stream.{IoResult, invalid_data}
use pbsgui.Relay.Proto.{
  Frame, Json, max_frame, read_exact, write_raw, frame_of, read_payload, read_frame,
}
use pbsgui.Relay.Proto.Frames.{framed}

pub read_exact-whole :
    (n : ℕ) (r a b : Bytes) → read_exact n r ≡ ok (a, b) → (r ≡ a ++ b) × (length a ≡ n)
unfolding read_exact
read_exact-whole n r a b h = elim (Bool-cases (leb n (length r))) [
  | inl long ↦
      let parts = ok-injective (rw long at h) in
      let front : take n r ≡ a = ap (λ p. p.0) parts in
      let back : drop n r ≡ b = ap (λ p. p.1) parts in
      (
        sym (take-append-drop n r) ∙ ap₂ (λ x y. x ++ y) front back,
        omega (arith, ap length front, length-take n r, leb→le n (length r) long),
      )
  | inr short ↦ absurd (err≢ok (rw short at h))
]

le-limit :
    (len : ℕ) {A : Type 0} (e : IoResult A) (a : A)
    → (if ltb max_frame len then err invalid_data else e) ≡ ok a
    → (len ≤ max_frame) × (e ≡ ok a)
le-limit len e a h = elim (Bool-cases (ltb max_frame len)) [
  | inl large ↦ absurd (err≢ok (rw large at h))
  | inr fits ↦ (ltb→le max_frame len fits, rw fits at h)
]

module _ (j : Json) where
  pub read_payload-whole :
      (kind len : ℕ) (r rest : Bytes) (f : Frame)
      → read_payload j kind len r ≡ ok (some f, rest)
      → (payload : Bytes) × (r ≡ payload ++ rest)
        × (length payload ≡ len)
        × (len ≤ max_frame)
        × (frame_of j kind payload ≡ ok f)
  unfolding read_payload
  read_payload-whole kind len r rest f h =
      let (fits, body) = le-limit len _ _ h in
      let ((payload, behind), exact, parsed) = bind-eq-ok (read_exact len r) _ body in
      let (g, known, same) = bind-eq-ok (frame_of j kind payload) _ parsed in
      let parts = ok-injective same in
      let front : some g ≡ some f = ap (λ p. p.0) parts in
      let (split, sized) = read_exact-whole len r payload behind exact in
      (payload, split ∙ ap (λ p. payload ++ p.1) parts, sized, fits, known ∙ cc)

  -- A frame that the reader accepts was at the front of the stream just as `write_raw` writes that kind and payload, which
  -- is of at most `max_frame` bytes, and what is left is what stood behind it.
  pub read_frame-write_raw :
      (r rest : Bytes) (f : Frame)
      → All IsByte r
      → read_frame j r ≡ ok (some f, rest)
      → (kind : ℕ) × (payload : Bytes) × (w : Bytes) × (write_raw kind payload ≡ ok w)
        × (frame_of j kind payload ≡ ok f)
        × (r ≡ w ++ rest)
  unfolding read_frame write_raw
  read_frame-write_raw [] rest f bytes h =
      let parts : none ≡ some f = ap (λ p. p.0) (ok-injective h) in absurd (none-ne-some f parts)
  read_frame-write_raw (kind ∷ r) rest f bytes h =
      let ((size, body), exact, framed_body) = bind-eq-ok (read_exact 4 r) _ h in
      let (split, four) = read_exact-whole 4 r size body exact in
      let (payload, whole, sized, fits, parsed) =
        read_payload-whole kind (from_le size) body rest f framed_body in
      let front : take 4 r ≡ size = ap (take 4) split ∙ take-append size body 4 four in
      let size_bytes : All IsByte size = subst (All IsByte) front (All-take IsByte 4 r bytes.1) in
      let same : to_le 4 (length payload) ≡ size =
        ap₂ to_le (sym four) sized ∙ to_le-from_le size size_bytes in
      (
        kind,
        payload,
        framed kind payload,
        rw (le→leb (length payload) max_frame (omega arith), write_raw) refl,
        parsed,
        ap (λ l. kind ∷ l)
            (split
              ∙ ap (λ l. size ++ l) whole
              ∙ ap (λ s. s ++ (payload ++ rest)) (sym same)
              ∙ sym (append_assoc (to_le 4 (length payload)) payload rest)),
      )
