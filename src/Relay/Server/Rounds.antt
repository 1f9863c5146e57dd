-- ===== src/Relay/Server/Rounds.antt =====
-- crates/pbsgui-engine/src/relay: the rounds of the loop over the frames of a data connection.
use pbsgui.Base.{
  Option, [], ap, arith, bind-eq-ok, err, length, length-append, none, ok, ok-injective, refl, some,
  suc, zero, ℕ, ◌<◌, ◌∷◌, ◌≡◌,
}
use mathlib.Core.Option.{none-ne-some}
use pbsgui.Base.Bytes.{Bytes, from_le}
use pbsgui.Stream.{IoResult}
use pbsgui.Relay.Proto.{
  Json, Frame, control, data_frame, register, session_done, pong, registered, start_backup,
  start_restore, cancel, ping, hello, end_msg, read_exact, read_frame,
}
use pbsgui.Relay.Proto.Sound.{read_exact-whole, read_payload-whole}
use pbsgui.Relay.Server.Pump.{Pumped, pump_step, pump_data}

-- The loop goes on behind a data frame only.
pump_step-same :
    (e : IoResult (Option Frame × Bytes)) (k l : Bytes → Bytes → Pumped)
    → ((bytes rest : Bytes) → e ≡ ok (some (data_frame bytes), rest) → k bytes rest ≡ l bytes rest)
    → pump_step e k ≡ pump_step e l
unfolding pump_step
pump_step-same (err e) k l same = refl
pump_step-same (ok (none, rest)) k l same = refl
pump_step-same (ok (some (data_frame bytes), rest)) k l same = same bytes rest refl
pump_step-same (ok (some (control (end_msg verdict error)), rest)) k l same = refl
pump_step-same (ok (some (control (register a b c d n)), rest)) k l same = refl
pump_step-same (ok (some (control (session_done a b c n)), rest)) k l same = refl
pump_step-same (ok (some (control pong), rest)) k l same = refl
pump_step-same (ok (some (control (registered a b)), rest)) k l same = refl
pump_step-same (ok (some (control (start_backup a b c)), rest)) k l same = refl
pump_step-same (ok (some (control (start_restore a b c)), rest)) k l same = refl
pump_step-same (ok (some (control (cancel a)), rest)) k l same = refl
pump_step-same (ok (some (control ping), rest)) k l same = refl
pump_step-same (ok (some (control (hello a b)), rest)) k l same = refl

module _ (j : Json) where
  -- A frame that is read takes some bytes.
  read_frame-shorter :
      (r rest : Bytes) (f : Frame) → read_frame j r ≡ ok (some f, rest) → length rest < length r
  unfolding read_frame
  read_frame-shorter [] rest f h =
      let parts : none ≡ some f = ap (λ p. p.0) (ok-injective h) in absurd (none-ne-some f parts)
  read_frame-shorter (kind ∷ r) rest f h =
      let ((size, body), exact, framed) = bind-eq-ok (read_exact 4 r) _ h in
      let (split, four) = read_exact-whole 4 r size body exact in
      let (payload, whole, sized, fits, parsed) =
        read_payload-whole j kind (from_le size) body rest f framed in
      omega (
        arith,
        ap length split,
        length-append size body,
        ap length whole,
        length-append payload rest,
      )

  -- More rounds than the stream has bytes are enough: the loop passes on the same buffers and the same verdict with any two
  -- such bounds.
  pub pump_data-enough :
      (a b takes : ℕ) (r : Bytes)
      → length r < a
      → length r < b
      → pump_data j a takes r ≡ pump_data j b takes r
  unfolding pump_data
  pump_data-enough zero b takes r less more = absurd (omega arith)
  pump_data-enough (suc a) zero takes r less more = absurd (omega arith)
  pump_data-enough (suc a) (suc b) zero r less more =
      pump_step-same (read_frame j r) _ _ (λ bytes rest e. refl)
  pump_data-enough (suc a) (suc b) (suc takes) r less more =
      pump_step-same (read_frame j r) _ _ (λ bytes rest e.
        let shorter = read_frame-shorter r rest (data_frame bytes) e in
        ap (λ p. (bytes ∷ p.0, p.1)) (pump_data-enough a b takes rest (omega arith) (omega arith)))
