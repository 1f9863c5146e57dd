-- ===== src/Relay/Whole.antt =====
-- crates/pbsgui-engine/src/relay: what a reader makes of the bytes of a data connection, wherever it breaks.
pub mod Sends
pub mod First
pub mod Backup
pub mod Restore
pub mod Delivered
use pbsgui.Base.{
  Bool, Bool-cases, List, Option, Text, [], ap, append-nil, arith, false, inl, inr, leb, leb→le,
  leb→lt, length, length-take, ltb, ltb→le, ltb→lt, none, ok, refl, some, suc, sym, take, take_all,
  true, zero, ℕ, ◌++◌, ◌-◌, ◌<◌, ◌∙◌, ◌∷◌, ◌≡◌, ◌≤◌,
}
use mathlib.Core.Path.{subst}
use mathlib.Core.Bool.{false≢true}
use mathlib.Core.Option.{none-ne-some}
use pbsgui.Base.Bytes.{Bytes}
use pbsgui.Base.Maps.{same_some}
use pbsgui.Relay.Proto.{Frame, control, data_frame, end_msg, write_data, write_control}
use pbsgui.Relay.Proto.Frames.{read_frame-write_frame}
use pbsgui.Relay.Proto.Cut.{take-append_more}
use pbsgui.Stream.{IoError, IoResult}
use pbsgui.Relay.Proto.{
  Json, JsonLaws, Frame, control, data_frame, end_msg, write_data, write_control, write_frame,
  write_raw, read_frame,
}
use pbsgui.Relay.Proto.Frames.{read_frame-write_frame, write_frame-IsWire, framed}
use pbsgui.Relay.Proto.Cut.{take-append_more, read_frame-cut}
use pbsgui.Relay.Socket.{Socket, put, send_data}
use pbsgui.Relay.Server.Pump.{pump_data, pump_step}

pub take-append_less {ℓ} :
    {A : Type ℓ} (a b : List A) (n : ℕ) → n ≤ length a → take n (a ++ b) ≡ take n a
take-append_less a b zero less = refl
take-append_less [] b (suc n) less = absurd (omega arith)
take-append_less (x ∷ a) b (suc n) less = ap (λ l. x ∷ l) (take-append_less a b n (omega arith))

pub take-take_less {ℓ} : {A : Type ℓ} (n k : ℕ) (a : List A) → n ≤ k → take n (take k a) ≡ take n a
take-take_less zero k a less = refl
take-take_less (suc n) zero a less = absurd (omega arith)
take-take_less (suc n) (suc k) [] less = refl
take-take_less (suc n) (suc k) (x ∷ a) less = ap (λ l. x ∷ l) (take-take_less n k a (omega arith))

module _ (j : Json) where
  -- However short the stream is cut, and however many buffers are taken: where the reader gets the verdict `true`, it is
  -- the sender's, and the buffers are these.
  abbrev pub Says : List Bytes → Bool → Bytes → Type 0
  Says bufs v w =
      (n fuel takes : ℕ)
      → (pump_data j fuel takes (take n w)).1 ≡ some true
      → (v ≡ true) × ((pump_data j fuel takes (take n w)).0 ≡ bufs)

  pub Says-nothing : (bufs : List Bytes) (v : Bool) → Says bufs v []
  unfolding pump_data pump_step read_frame
  Says-nothing bufs v n zero takes h = absurd (none-ne-some true h)
  Says-nothing bufs v zero (suc fuel) takes h = absurd (none-ne-some true h)
  Says-nothing bufs v (suc n) (suc fuel) takes h = absurd (none-ne-some true h)

  pub Says-false : (bufs others : List Bytes) (w : Bytes) → Says bufs false w → Says others false w
  Says-false bufs others w says n fuel takes h = absurd (false≢true (says n fuel takes h).0)

  pub Says-take :
      (bufs : List Bytes) (v : Bool) (k : ℕ) (w : Bytes) → Says bufs v w → Says bufs v (take k w)
  Says-take bufs v k w says n fuel takes = elim (Bool-cases (leb n k)) [
    | inl less ↦
        subst
          (λ l.
            (pump_data j fuel takes l).1 ≡ some true
            → (v ≡ true) × ((pump_data j fuel takes l).0 ≡ bufs))
          (sym (take-take_less n k w (leb→le n k less))) (says n fuel takes)
    | inr more ↦
        let short : length (take k w) ≤ n = omega (arith, leb→lt n k more, length-take k w) in
        subst
          (λ l.
            (pump_data j fuel takes l).1 ≡ some true
            → (v ≡ true) × ((pump_data j fuel takes l).0 ≡ bufs))
          (sym (take_all n (take k w) short)) (says k fuel takes)
  ]

  module _ (laws : JsonLaws j) where
    -- A frame that is cut short gives no verdict.
    pump-cut :
        (f : Frame) (w : Bytes) (n fuel takes : ℕ)
        → write_frame j f ≡ ok w
        → n < length w
        → (pump_data j fuel takes (take n w)).1 ≡ none
    unfolding pump_data pump_step read_frame
    pump-cut f w n zero takes written short = refl
    pump-cut f w zero (suc fuel) takes written short = refl
    pump-cut f w (suc n) (suc fuel) takes written short =
        rw (read_frame-cut j laws f w (suc n) written (omega arith) short, pump_data)

    pub Says-partial :
        (f : Frame) (w : Bytes) (k : ℕ) (bufs : List Bytes) (v : Bool)
        → write_frame j f ≡ ok w
        → k < length w
        → Says bufs v (take k w)
    Says-partial f w k bufs v written short n fuel takes h =
        let nothing : (pump_data j fuel takes (take n (take k w))).1 ≡ none =
          elim (Bool-cases (leb n k)) [
            | inl less ↦
                ap (λ l. (pump_data j fuel takes l).1) (take-take_less n k w (leb→le n k less))
                ∙ pump-cut f w n fuel takes written (omega (arith, leb→le n k less))
            | inr more ↦
                ap (λ l. (pump_data j fuel takes l).1)
                  (take_all n (take k w) (omega (arith, leb→lt n k more, length-take k w)))
                ∙ pump-cut f w k fuel takes written short
          ] in
        absurd (none-ne-some true (sym nothing ∙ h))

    -- What the loop does on the first of the frames, where all of it is there.
    pump-whole :
        (f : Frame) (w rest : Bytes) (n fuel takes : ℕ)
        → write_frame j f ≡ ok w
        → length w ≤ n
        → pump_data j (suc fuel) takes (take n (w ++ rest))
          ≡ pump_step (ok (some f, take (n - length w) rest)) (λ bytes more. elim takes [
            | zero ↦ ([], none)
            | suc t ↦ ((bytes ∷ (pump_data j fuel t more).0), (pump_data j fuel t more).1)
          ])
    unfolding pump_data
    pump-whole f w rest n fuel takes written long =
        ap (λ l. pump_data j (suc fuel) takes l) (take-append_more w rest n long)
        ∙ ap
            (λ e. pump_step e (λ bytes more. elim takes [
              | zero ↦ ([], none)
              | suc t ↦ ((bytes ∷ (pump_data j fuel t more).0), (pump_data j fuel t more).1)
            ]))
            (read_frame-write_frame j laws f w (take (n - length w) rest) written)

    Says-taken :
        (b : Bytes) (bufs : List Bytes) (v : Bool) (rest : Bytes) (n fuel takes : ℕ)
        → Says bufs v rest
        → (got : List Bytes × Option Bool)
        → got ≡ elim takes [
          | zero ↦ ([], none)
          | suc t ↦
              ((b ∷ (pump_data j fuel t (take n rest)).0), (pump_data j fuel t (take n rest)).1)
        ]
        → got.1 ≡ some true
        → (v ≡ true) × (got.0 ≡ b ∷ bufs)
    Says-taken b bufs v rest n fuel zero says got same h =
        absurd (none-ne-some true (sym (ap (λ p. p.1) same) ∙ h))
    Says-taken b bufs v rest n fuel (suc t) says got same h =
        let (agreed, those) = says n fuel t (sym (ap (λ p. p.1) same) ∙ h) in
        (agreed, ap (λ p. p.0) same ∙ ap (λ l. b ∷ l) those)

    pub Says-data :
        (b : Bytes) (bufs : List Bytes) (v : Bool) (w rest : Bytes)
        → write_data b ≡ ok w
        → Says bufs v rest
        → Says (b ∷ bufs) v (w ++ rest)
    unfolding pump_data pump_step write_data write_frame
    Says-data b bufs v w rest written says n zero takes h = absurd (none-ne-some true h)
    Says-data b bufs v w rest written says n (suc fuel) takes h =
        elim (Bool-cases (ltb n (length w))) [
          | inl short ↦
              let less = ltb→lt n (length w) short in
              let nothing : (pump_data j (suc fuel) takes (take n (w ++ rest))).1 ≡ none =
                ap (λ l. (pump_data j (suc fuel) takes l).1)
                  (take-append_less w rest n (omega (arith, less)))
                ∙ pump-cut (data_frame b) w n (suc fuel) takes written less in
              absurd (none-ne-some true (sym nothing ∙ h))
          | inr long ↦
              let whole =
                pump-whole (data_frame b) w rest n fuel takes written (ltb→le n (length w) long) in
              Says-taken b bufs v rest (n - length w) fuel takes says _ whole h
        ]

    pub Says-end :
        (v : Bool) (error : Option Text) (w : Bytes)
        → write_control j (end_msg v error) ≡ ok w
        → Says [] v w
    unfolding pump_data pump_step write_control write_frame
    Says-end v error w written n zero takes h = absurd (none-ne-some true h)
    Says-end v error w written n (suc fuel) takes h = elim (Bool-cases (ltb n (length w))) [
      | inl short ↦ absurd (
          none-ne-some true (
            sym (
              pump-cut (control (end_msg v error)) w n (suc fuel) takes written
                (ltb→lt n (length w) short))
            ∙ h))
      | inr long ↦
          let whole : pump_data j (suc fuel) takes (take n w) ≡ ([], some v) =
            ap (λ l. pump_data j (suc fuel) takes (take n l)) (sym (append-nil w))
            ∙ pump-whole (control (end_msg v error)) w [] n fuel takes written
                (ltb→le n (length w) long) in
          (same_some (sym (ap (λ p. p.1) whole) ∙ h), ap (λ p. p.0) whole)
    ]
