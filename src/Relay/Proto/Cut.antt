-- ===== src/Relay/Proto/Cut.antt =====
-- crates/pbsgui-engine/src/relay/proto.rs: a connection that is closed within a frame.
use pbsgui.Base.{
  Bool-cases, List, [], ap, arith, err, inl, inr, leb, leb→le, leb→lt, length, length-append,
  length-take, le→ltb, ok, suc, take, zero, ℕ, ◌++◌, ◌+◌, ◌-◌, ◌<◌, ◌>>=◌, ◌∙◌, ◌∷◌, ◌≡◌, ◌≤◌,
}
use pbsgui.Base.Bytes.{Bytes, to_le, from_le, length-to_le, from_le-to_le}
use pbsgui.Stream.{unexpected_eof}
use pbsgui.Relay.Proto.{
  Frame, Json, JsonLaws, max_frame, read_exact, write_frame, read_payload, read_frame,
}
use pbsgui.Relay.Proto.Frames.{framed, read_exact-split, write_frame-IsWire}

pub take-append_more {ℓ} :
    {A : Type ℓ} (a b : List A) (n : ℕ)
    → length a ≤ n
    → take n (a ++ b) ≡ a ++ take (n - length a) b
take-append_more [] b n long = ap (λ k. take k b) (let e : n ≡ n - 0 = omega arith in e)
take-append_more (x ∷ a) b zero long = absurd (omega arith)
take-append_more (x ∷ a) b (suc n) long =
    ap (λ l. x ∷ l) (take-append_more a b n (omega arith))
    ∙ ap (λ k. x ∷ (a ++ take k b))
        (let e : n - length a ≡ suc n - suc (length a) = omega arith in e)

read_exact-short :
    (n m : ℕ) (bytes : Bytes) → m < n → read_exact n (take m bytes) ≡ err unexpected_eof
unfolding read_exact
read_exact-short n m bytes short = elim (Bool-cases (leb n (length (take m bytes)))) [
  | inl long ↦ absurd (omega (arith, leb→le n (length (take m bytes)) long, length-take m bytes))
  | inr cut ↦ rw cut
]

module _ (j : Json) where
  read_payload-short :
      (kind len m : ℕ) (payload : Bytes)
      → len ≤ max_frame
      → m < len
      → read_payload j kind len (take m payload) ≡ err unexpected_eof
  unfolding read_payload
  read_payload-short kind len m payload fits short =
      rw (le→ltb max_frame len fits, read_exact-short len m payload short)

  read_frame-short :
      (kind m : ℕ) (payload : Bytes)
      → length payload ≤ max_frame
      → m < 4 + length payload
      → read_frame j (take (suc m) (framed kind payload)) ≡ err unexpected_eof
  unfolding read_frame
  read_frame-short kind m payload fits short = elim (Bool-cases (leb 4 m)) [
    | inr head ↦ rw (read_exact-short 4 m (to_le 4 (length payload) ++ payload) (leb→lt 4 m head))
    | inl tail ↦
        let size = to_le 4 (length payload) in
        let sized : from_le size ≡ length payload =
          from_le-to_le 4 (length payload) (omega arith) in
        let four : length size ≡ 4 = length-to_le 4 (length payload) in
        let behind = m - length size in
        let less : behind < length payload = omega (arith, leb→le 4 m tail) in
        ap (λ l. read_exact 4 l >>= (λ x. read_payload j kind (from_le x.0) x.1))
          (take-append_more size payload m (omega (arith, leb→le 4 m tail)))
        ∙ ap (λ e. e >>= (λ x. read_payload j kind (from_le x.0) x.1))
            (read_exact-split 4 size (take behind payload) four)
        ∙ ap (λ n. read_payload j kind n (take behind payload)) sized
        ∙ read_payload-short kind (length payload) behind payload fits less
  ]

  -- A frame that is written and cut short behind its first byte or any later one, but before its end, is never read as a
  -- clean end or as a frame: the reader answers that the stream ended too early.
  pub read_frame-cut :
      JsonLaws j
      → (f : Frame) (w : Bytes) (n : ℕ) → write_frame j f ≡ ok w
      → 0 < n
      → n < length w
      → read_frame j (take n w) ≡ err unexpected_eof
  read_frame-cut laws f w zero h some_byte short = absurd (omega arith)
  read_frame-cut laws f w (suc m) h some_byte short =
      let (kind, payload, split, fits, parsed) = write_frame-IsWire j laws f w h in
      let size = to_le 4 (length payload) in
      ap (λ l. read_frame j (take (suc m) l)) split
      ∙ read_frame-short kind m payload fits (
          omega
            (arith, ap length split, length-append size payload, length-to_le 4 (length payload)))
