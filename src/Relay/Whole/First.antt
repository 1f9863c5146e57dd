-- ===== src/Relay/Whole/First.antt =====
-- crates/pbsgui-engine/src/relay: the first frame of a connection, wherever the connection is cut.
use pbsgui.Base.{
  Bool-cases, Option, [], ap, arith, err≢ok, inl, inr, leb, leb→le, leb→lt, length, length-take,
  ltb, ltb→le, ltb→lt, ok, ok-injective, some, suc, sym, take, take_all, zero, ℕ, ◌++◌, ◌-◌, ◌<◌,
  ◌∙◌, ◌≡◌,
}
use mathlib.Core.Option.{none-ne-some}
use pbsgui.Base.Bytes.{Bytes}
use pbsgui.Relay.Proto.{Json, JsonLaws, Frame, read_frame, write_frame}
use pbsgui.Relay.Proto.Frames.{read_frame-write_frame}
use pbsgui.Relay.Proto.Cut.{read_frame-cut, take-append_more}
use pbsgui.Relay.Whole.{take-append_less, take-take_less}

module _ (j : Json) (laws : JsonLaws j) where
  cut_none :
      (f g : Frame) (w rest : Bytes) (n : ℕ)
      → write_frame j f ≡ ok w
      → n < length w
      → ¬ (read_frame j (take n w) ≡ ok (some g, rest))
  unfolding read_frame
  cut_none f g w rest zero written short h = none-ne-some g (ap (λ p. p.0) (ok-injective h))
  cut_none f g w rest (suc n) written short h =
      err≢ok (sym (read_frame-cut j laws f w (suc n) written (omega arith) short) ∙ h)

  -- Of the frames that are written first: nothing else is read first, and what is behind it is what is written behind it.
  pub first_frame :
      (f g : Frame) (w body rest : Bytes) (n : ℕ)
      → write_frame j f ≡ ok w
      → read_frame j (take n (w ++ body)) ≡ ok (some g, rest)
      → (k : ℕ) × (rest ≡ take k body) × (g ≡ f)
  first_frame f g w body rest n written h = elim (Bool-cases (ltb n (length w))) [
    | inl short ↦
        let less = ltb→lt n (length w) short in
        absurd (
          cut_none f g w rest n written less
            (ap (read_frame j) (sym (take-append_less w body n (omega (arith, less)))) ∙ h))
    | inr long ↦
        let whole =
          sym (
            ap (read_frame j) (take-append_more w body n (ltb→le n (length w) long))
            ∙ read_frame-write_frame j laws f w (take (n - length w) body) written)
          ∙ h in
        let parts = ok-injective whole in
        (n - length w, sym (ap (λ p. p.1) parts), same_frame (ap (λ p. p.0) parts))
  ]
    where
      same_frame : {a b : Frame} → ◌≡◌ {A = Option Frame} (some a) (some b) → b ≡ a
      same_frame e = cc

  -- Nothing is read from what is empty, or from a first frame that is cut short.
  pub nothing_read :
      (f : Frame) (rest : Bytes) (n : ℕ) → ¬ (read_frame j (take n []) ≡ ok (some f, rest))
  unfolding read_frame
  nothing_read f rest zero h = none-ne-some f (ap (λ p. p.0) (ok-injective h))
  nothing_read f rest (suc n) h = none-ne-some f (ap (λ p. p.0) (ok-injective h))

  pub cut_twice :
      (f g : Frame) (w rest : Bytes) (n k : ℕ)
      → write_frame j f ≡ ok w
      → k < length w
      → ¬ (read_frame j (take n (take k w)) ≡ ok (some g, rest))
  cut_twice f g w rest n k written short h = elim (Bool-cases (leb n k)) [
    | inl less ↦
        cut_none f g w rest n written (omega (arith, leb→le n k less))
          (ap (read_frame j) (sym (take-take_less n k w (leb→le n k less))) ∙ h)
    | inr more ↦ cut_none f g w rest k written short (
        ap (read_frame j)
          (sym (take_all n (take k w) (omega (arith, leb→lt n k more, length-take k w))))
        ∙ h)
  ]
