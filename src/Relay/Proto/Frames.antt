-- ===== src/Relay/Proto/Frames.antt =====
-- crates/pbsgui-engine/src/relay/proto.rs: what one end writes is what the other reads.
use pbsgui.Base.{
  Bool-cases, List, Option-cases, [], ap, append_assoc, arith, bind-eq-ok, drop-append, err, err≢ok,
  inl, inr, leb, leb→le, length, length-append, le→leb, le→ltb, none, ok, ok-injective, refl, some,
  suc, sym, take-append, zero, ℕ, ◌++◌, ◌<◌, ◌>>=◌, ◌∙◌, ◌∷◌, ◌≡◌, ◌≤◌,
}
use pbsgui.Base.Bytes.{Bytes, to_le, from_le, length-to_le, from_le-to_le}
use pbsgui.Stream.{IoResult, other}
use pbsgui.Relay.Proto.{
  Frame, control, data_frame, ControlMsg, Json, JsonLaws, max_frame, kind_control, kind_data,
  read_exact, write_raw, write_frame, frame_of, read_payload, read_frame,
}

-- The bytes of a frame.
abbrev pub framed : ℕ → Bytes → Bytes
framed kind payload = kind ∷ (to_le 4 (length payload) ++ payload)

pub write_raw-framed :
    (kind : ℕ) (payload w : Bytes)
    → write_raw kind payload ≡ ok w
    → (w ≡ framed kind payload) × (length payload ≤ max_frame)
unfolding write_raw
write_raw-framed kind payload w h = elim (Bool-cases (leb (length payload) max_frame)) [
  | inl fits ↦ (sym (ok-injective (rw fits at h)), leb→le (length payload) max_frame fits)
  | inr large ↦ absurd (err≢ok (rw large at h))
]

pub read_exact-split : (n : ℕ) (a b : Bytes) → length a ≡ n → read_exact n (a ++ b) ≡ ok (a, b)
unfolding read_exact
read_exact-split n a b same = rw (
  le→leb n (length (a ++ b)) (omega (arith, length-append a b)),
  take-append a b n same,
  drop-append a b n same,
)

module _ (j : Json) where
  pub read_payload-framed :
      (kind : ℕ) (payload rest : Bytes)
      → length payload ≤ max_frame
      → read_payload j kind (length payload) (payload ++ rest)
        ≡ (frame_of j kind payload >>= (λ f. ok (some f, rest)))
  unfolding read_payload
  read_payload-framed kind payload rest fits =
      rw (
        le→ltb max_frame (length payload) fits,
        read_exact-split (length payload) payload rest refl,
      )

  pub read_frame-framed :
      (kind : ℕ) (payload rest : Bytes)
      → length payload ≤ max_frame
      → read_frame j (framed kind payload ++ rest)
        ≡ (frame_of j kind payload >>= (λ f. ok (some f, rest)))
  unfolding read_frame
  read_frame-framed kind payload rest fits =
      let sized : from_le (to_le 4 (length payload)) ≡ length payload =
        from_le-to_le 4 (length payload) (omega arith) in
      ap (λ l. read_exact 4 l >>= (λ x. read_payload j kind (from_le x.0) x.1))
        (append_assoc (to_le 4 (length payload)) payload rest)
      ∙ ap (λ e. e >>= (λ x. read_payload j kind (from_le x.0) x.1))
          (read_exact-split 4 (to_le 4 (length payload)) (payload ++ rest)
            (length-to_le 4 (length payload)))
      ∙ ap (λ n. read_payload j kind n (payload ++ rest)) sized
      ∙ read_payload-framed kind payload rest fits

  -- What the payload of a frame is parsed as.
  frame_of-data : (bytes : Bytes) → frame_of j kind_data bytes ≡ ok (data_frame bytes)
  unfolding frame_of
  frame_of-data bytes = refl

  frame_of-control :
      (msg : ControlMsg) (bytes : Bytes)
      → j.from_slice bytes ≡ some msg
      → frame_of j kind_control bytes ≡ ok (control msg)
  unfolding frame_of
  frame_of-control msg bytes parsed = rw parsed refl

  -- A frame that is written is its kind, the length and a payload of at most `max_frame` bytes that is parsed as the frame.
  abbrev pub IsWire : Frame → Bytes → Type 0
  IsWire f w =
      (kind : ℕ) × (payload : Bytes) × (w ≡ framed kind payload)
      × (length payload ≤ max_frame)
      × (frame_of j kind payload ≡ ok f)

  pub write_frame-IsWire :
      JsonLaws j → (f : Frame) (w : Bytes) → write_frame j f ≡ ok w → IsWire f w
  unfolding write_frame
  write_frame-IsWire laws (data_frame bytes) w h =
      let (split, fits) = write_raw-framed kind_data bytes w h in
      (kind_data, bytes, split, fits, frame_of-data bytes)
  write_frame-IsWire laws (control msg) w h = elim (Option-cases (j.to_vec msg)) [
    | inl none_ ↦ absurd (err≢ok (rw (none_, write_frame) at h))
    | inr (bytes, written) ↦
        let (split, fits) =
          write_raw-framed kind_control bytes w (rw (written, write_frame) at h) in
        (
          kind_control,
          bytes,
          split,
          fits,
          frame_of-control msg bytes (laws.from_slice-to_vec msg bytes written),
        )
  ]

  pub read_frame-write_frame :
      JsonLaws j
      → (f : Frame) (w rest : Bytes) → write_frame j f ≡ ok w
      → read_frame j (w ++ rest) ≡ ok (some f, rest)
  read_frame-write_frame laws f w rest h =
      let (kind, payload, split, fits, parsed) = write_frame-IsWire laws f w h in
      ap (λ l. read_frame j (l ++ rest)) split
      ∙ read_frame-framed kind payload rest fits
      ∙ ap (λ e. e >>= (λ g. ok (some g, rest))) parsed

  -- The frames of a writer one after the other.
  unfoldable pub write_frames : List Frame → IoResult Bytes
  write_frames [] = ok []
  write_frames (f ∷ fs) = do w ← write_frame j f; ws ← write_frames fs; ok (w ++ ws)

  -- A reader that goes on to the clean end of the stream, with a bound on its rounds.
  unfoldable pub read_frames : ℕ → Bytes → IoResult (List Frame)
  read_frames zero r = err other
  read_frames (suc fuel) r = do
    (found, rest) ← read_frame j r
    elim found [ none ↦ ok [] | some f ↦ do fs ← read_frames fuel rest; ok (f ∷ fs) ]

  -- Where every frame of a list is written, a reader of as many rounds as there are frames and one more gets exactly
  -- these frames, in their order, and then the clean end.
  pub read_frames-write_frames :
      JsonLaws j
      → (fs : List Frame) (wire : Bytes) (fuel : ℕ) → write_frames fs ≡ ok wire
      → length fs < fuel
      → read_frames fuel wire ≡ ok fs
  unfolding write_frames read_frames read_frame
  read_frames-write_frames laws fs wire zero h enough = absurd (omega arith)
  read_frames-write_frames laws [] wire (suc fuel) h enough = rw (sym (ok-injective h)) refl
  read_frames-write_frames laws (f ∷ fs) wire (suc fuel) h enough =
      let (w, written, more) = bind-eq-ok (write_frame j f) _ h in
      let (ws, behind, whole) = bind-eq-ok (write_frames fs) _ more in
      ap (λ r. read_frames (suc fuel) r) (sym (ok-injective whole))
      ∙ ap
          (λ e. e >>= (λ x. elim x.0 [
            | none ↦ ok []
            | some g ↦ read_frames fuel x.1 >>= (λ gs. ok (g ∷ gs))
          ]))
          (read_frame-write_frame laws f w ws written)
      ∙ ap (λ e. e >>= (λ gs. ok (f ∷ gs)))
          (read_frames-write_frames laws fs ws fuel behind (omega arith))
