-- ===== src/Relay/Whole/Sends.antt =====
-- crates/pbsgui-engine/src/relay: what the loops that send data frames, and what is written behind them, put on the wire.
use pbsgui.Base.{
  Bool, Bool-cases, List, Option, Result-cases, Text, [], ap, append-nil, append_assoc, arith, err,
  false, inl, inr, leb, leb→le, leb→lt, length, none, ok, refl, some, sym, take, ℕ, ◌++◌, ◌-◌, ◌<◌,
  ◌∙◌, ◌∷◌, ◌≡◌, ◌⊎◌,
}
use mathlib.Core.Path.{subst}
use mathlib.Core.Bool.{false≢true}
use mathlib.Core.Option.{none-ne-some}
use pbsgui.Base.Bytes.{Bytes}
use pbsgui.Relay.Proto.{
  Json, JsonLaws, Frame, control, data_frame, end_msg, write_data, write_control, write_frame,
}
use pbsgui.Relay.Proto.Frames.{write_frame-IsWire}
use pbsgui.Stream.{IoError, broken_pipe}
use pbsgui.Relay.Socket.{Socket, put, send_data}
use pbsgui.Relay.Whole.{Says, Says-nothing, Says-take, Says-partial, Says-data, Says-end, IoError}

pub send_data-sent :
    (b : Bytes) (bufs : List Bytes) (s t : Socket)
    → put (write_data b) s ≡ (ok tt, t)
    → send_data (b ∷ bufs) s ≡ send_data bufs t
unfolding send_data
send_data-sent b bufs s t e =
    ap (λ p. elim p.0 [ err x ↦ (some x, p.1) | ok _ ↦ send_data bufs p.1 ]) e

send_data-stopped :
    (b : Bytes) (bufs : List Bytes) (s t : Socket) (e : IoError)
    → put (write_data b) s ≡ (err e, t)
    → send_data (b ∷ bufs) s ≡ (some e, t)
unfolding send_data
send_data-stopped b bufs s t e stops =
    ap (λ p. elim p.0 [ err x ↦ (some x, p.1) | ok _ ↦ send_data bufs p.1 ]) stops

module _ (j : Json) (laws : JsonLaws j) where
  -- The wire between two states of a socket says these buffers and this verdict.
  abbrev pub Adds : Socket → List Bytes → Bool → Socket → Type 0
  Adds s bufs v t = (body : Bytes) × (t.sent ≡ s.sent ++ body) × Says j bufs v body

  -- What is done behind the last buffer: it adds a verdict, or nothing to a connection that is broken.
  abbrev pub IsEnding : Bool → (Socket → Socket) → Type 0
  IsEnding v ending =
      ((s : Socket) → Adds s [] v (ending s))
      × ((s : Socket) → s.capacity ≡ 0 → (ending s).sent ≡ s.sent)

  pub nothing-IsEnding : IsEnding false (λ s. s)
  nothing-IsEnding = ((λ s. ([], sym (append-nil s.sent), Says-nothing j [] false)), (λ s e. refl))

  written_some : (f : Frame) (w : Bytes) → write_frame j f ≡ ok w → 0 < length w
  written_some f w written =
      let (kind, payload, split, fits, parsed) = write_frame-IsWire j laws f w written in
      omega (arith, ap length split)

  pub end-IsEnding :
      (v : Bool) (error : Option Text)
      → IsEnding v (λ s. (put (write_control j (end_msg v error)) s).1)
  unfolding put write_control write_frame
  end-IsEnding v error = elim (Result-cases (write_control j (end_msg v error))) [
    | inr (e, refused) ↦ (
      λ s. rw (refused, put) ([], sym (append-nil s.sent), Says-nothing j [] v),
      λ s e. rw (refused, put),
    )
    | inl (w, written) ↦ (
      λ s. elim (Bool-cases (leb (length w) s.capacity)) [
        | inl fits ↦ rw (written, fits, put) (w, refl, Says-end j laws v error w written)
        | inr breaks ↦
            rw (written, breaks, put)
              (
                take s.capacity w,
                refl,
                Says-take j [] v s.capacity w (Says-end j laws v error w written),
              )
      ],
      λ s broken.
          let some_byte = written_some (control (end_msg v error)) w written in
          rw (written, le_broken w s.capacity some_byte broken, broken, put) (append-nil s.sent),
    )
  ]
    where
      le_broken : (w : Bytes) (n : ℕ) → 0 < length w → n ≡ 0 → leb (length w) n ≡ false
      le_broken w n some_byte broken = elim (Bool-cases (leb (length w) n)) [
        | inl fits ↦ absurd (omega (arith, leb→le (length w) n fits))
        | inr other ↦ other
      ]

  weaken :
      (v : Bool) (b : Bytes) (bufs : List Bytes) (body : Bytes)
      → v ≡ false
      → Says j [] v body
      → Says j (b ∷ bufs) v body
  weaken v b bufs body bad says n fuel takes h =
      absurd (false≢true (sym bad ∙ (says n fuel takes h).0))

  -- The buffers that are sent, and an ending: with the sender's verdict where all of them were sent, and `false` else.
  pub send_data-Adds :
      (v : Bool) (ending : Socket → Socket) (bufs : List Bytes) (s : Socket)
      → IsEnding v ending
      → ((send_data bufs s).0 ≡ none) ⊎ (v ≡ false)
      → Adds s bufs v (ending (send_data bufs s).1)
  unfolding send_data put write_data write_frame
  send_data-Adds v ending [] s ends sure = ends.0 s
  send_data-Adds v ending (b ∷ bufs) s ends sure = elim (Result-cases (write_data b)) [
    | inr (e, refused) ↦
        let stops : send_data (b ∷ bufs) s ≡ (some e, s) =
          send_data-stopped b bufs s s e (rw (refused, put)) in
        elim sure [
          | inl every ↦ absurd (none-ne-some e (sym (sym (ap (λ p. p.0) stops) ∙ every)))
          | inr bad ↦
              let (body, split, says) = ends.0 s in
              (body, ap (λ p. (ending p.1).sent) stops ∙ split, weaken v b bufs body bad says)
        ]
    | inl (w, written) ↦ elim (Bool-cases (leb (length w) s.capacity)) [
      | inl fits ↦
          let t : Socket = record { sent = s.sent ++ w; capacity = s.capacity - length w } in
          let goes : send_data (b ∷ bufs) s ≡ send_data bufs t =
            send_data-sent b bufs s t (rw (written, fits, put)) in
          let (body, split, says) =
            send_data-Adds v ending bufs t ends
              (subst (λ p. (p.0 ≡ none) ⊎ (v ≡ false)) goes sure) in
          (
            w ++ body,
            ap (λ p. (ending p.1).sent) goes ∙ split ∙ append_assoc s.sent w body,
            Says-data j laws b bufs v w body written says,
          )
      | inr breaks ↦
          let t : Socket = record { sent = s.sent ++ take s.capacity w; capacity = 0 } in
          let stops : send_data (b ∷ bufs) s ≡ (some broken_pipe, t) =
            send_data-stopped b bufs s t broken_pipe (rw (written, breaks, put)) in
          (
            take s.capacity w,
            ap (λ p. (ending p.1).sent) stops ∙ ends.1 t refl,
            Says-partial j laws (data_frame b) w s.capacity (b ∷ bufs) v written
                (leb→lt (length w) s.capacity breaks),
          )
    ]
  ]
