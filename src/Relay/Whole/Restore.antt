-- ===== src/Relay/Whole/Restore.antt =====
-- crates/pbsgui-engine/src/relay: a restore, from the proxy to the agent's device.
use pbsgui.Base.{
  Bool, List, Option, Option-cases, Result, Result-cases, Text, [], ap, err, err≢ok, false, inl,
  inr, none, ok, ok-injective, refl, some, take, true, ℕ, ◌∙◌, ◌≡◌,
}
use mathlib.Core.Path.{subst}
use mathlib.Core.Bool.{false≢true}
use pbsgui.Base.Bytes.{Bytes}
use pbsgui.Relay.Proto.{Json, JsonLaws, write_control, hello, end_msg}
use pbsgui.Relay.Socket.{Socket, send_data, put}
use pbsgui.Relay.Server.Pump.{pump_data, push_data}
use pbsgui.Relay.Agent.{
  Device, device_result, prepared, receive_image, restore_result, run_restore_session,
}
use pbsgui.Relay.Whole.Sends.{Adds, nothing-IsEnding, end-IsEnding, send_data-Adds}

restored_lem :
    (joined : Option (Result Text ℕ)) (stream_ok : Bool) (total : ℕ)
    → restore_result joined stream_ok ≡ ok total
    → (joined ≡ some (ok total)) × (stream_ok ≡ true)
unfolding restore_result device_result
restored_lem none stream_ok total h = absurd (err≢ok h)
restored_lem (some (err e)) stream_ok total h = absurd (err≢ok h)
restored_lem (some (ok bytes)) true total h = (ap (λ b. some (ok b)) (ok-injective h), refl)
restored_lem (some (ok bytes)) false total h = absurd (err≢ok h)

module _ (j : Json) (laws : JsonLaws j) where
  push_data-Adds :
      (chunks : List Bytes) (s : Socket)
      → (v : Bool) × Adds j laws s chunks v (push_data j chunks s)
  unfolding push_data
  push_data-Adds chunks s = elim (Option-cases (send_data chunks s).0) [
    | inr (e, stopped) ↦ (
      false,
      rw (stopped, push_data)
          (send_data-Adds j laws false (λ t. t) chunks s (nothing-IsEnding j laws) (inr refl)),
    )
    | inl whole ↦ (
      true,
      rw (whole, push_data)
          (send_data-Adds j laws true (λ t. (put (write_control j (end_msg true none)) t).1) chunks
            s (end-IsEnding j laws true none) (inl whole)),
    )
  ]

  received_lem :
      (fuel takes : ℕ) (r : Bytes)
      → (receive_image j fuel takes r).1 ≡ true
      → (pump_data j fuel takes r).1 ≡ some true
  unfolding receive_image
  received_lem fuel takes r h = elim (Option-cases (pump_data j fuel takes r).1) [
    | inl gone ↦ absurd (false≢true (rw (gone, receive_image) at h))
    | inr (v, given) ↦ given ∙ ap (λ b. some b) (rw (given, receive_image) at h)
  ]

  -- A restore session, whatever its device does, wherever either of its connections breaks, and however many of the proxy's
  -- bytes arrive: if it succeeds, then the device returned this count cleanly, and it was sent just the chunks that the
  -- proxy pushed, in order. The bound on the rounds may be any.
  pub run_restore_session-whole :
      (session_id token : Text) (d : Device) (dialed : Bool) (chunks : List Bytes)
      (capacity n fuel total : ℕ) (s : Socket)
      → let wire = (push_data j chunks (record { sent = []; capacity = capacity })).sent in
        let run = run_restore_session j session_id token d dialed fuel (take n wire) s in
        run.1 ≡ ok total
        → let wire = (push_data j chunks (record { sent = []; capacity = capacity })).sent in
          let run = run_restore_session j session_id token d dialed fuel (take n wire) s in
          (run.0 ≡ chunks) × (d.joined ≡ some (ok total))
  unfolding run_restore_session receive_image
  run_restore_session-whole session_id token d dialed chunks capacity n fuel total s h =
      let fresh : Socket = record { sent = []; capacity = capacity } in
      let wire = (push_data j chunks fresh).sent in
      let (v, (body, split, says)) = push_data-Adds chunks fresh in
      elim (Result-cases (prepared d dialed)) [
        | inr (e, unprepared) ↦ absurd (err≢ok (rw (unprepared, run_restore_session) at h))
        | inl (u, ready) ↦
            elim (Result-cases (put (write_control j (hello session_id token)) s).0) [
              | inr (e, stopped) ↦ absurd (err≢ok (rw (ready, stopped, run_restore_session) at h))
              | inl (x, goes) ↦
                  let (joined, whole) =
                    restored_lem d.joined (receive_image j fuel d.takes (take n wire)).1 total
                      (rw (ready, goes, run_restore_session) at h) in
                  let verdict = received_lem fuel d.takes (take n wire) whole in
                  let (agreed, fed) = says n fuel d.takes (
                    subst (λ l. (pump_data j fuel d.takes (take n l)).1 ≡ some true) split
                      verdict) in
                  rw (ready, goes, run_restore_session)
                    (ap (λ l. (pump_data j fuel d.takes (take n l)).0) split ∙ fed, joined)
            ]
      ]
