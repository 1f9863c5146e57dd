-- ===== src/Relay/Whole/Backup.antt =====
-- crates/pbsgui-engine/src/relay: a backup, from the agent's device to the reader that the proxy gives the uploader.
use pbsgui.Base.{
  Bool, Bool-cases, Option, Option-cases, Result, Result-cases, Text, [], ap, concat, err, false,
  inl, inr, leb, leb→lt, length, none, ok, refl, some, sym, take, true, ℕ, ◌-◌, ◌<◌, ◌∙◌, ◌≡◌, ◌⊎◌,
}
use mathlib.Core.Bool.{false≢true}
use mathlib.Core.Path.{subst}
use pbsgui.Base.Bytes.{Bytes}
use pbsgui.Stream.{IoError, broken_pipe}
use pbsgui.Relay.Proto.{
  Json, JsonLaws, Frame, read_frame, write_control, hello, control, end_msg, write_frame,
}
use pbsgui.Stream.Reader
use pbsgui.Stream.Reader.{verdict_of}
use pbsgui.Stream.Pipe.{read_to_end}
use pbsgui.Stream.Ended.{read_to_end-ok}
use pbsgui.Relay.Server.Pump.{backup_reader, pump_data}
use pbsgui.Relay.Socket.{Socket, send_data, put}
use pbsgui.Relay.Agent.{
  writing, Device, AgentError, end_verdict, backup_result, device_result, backup_body,
  run_backup_session, prepared,
}
use pbsgui.Relay.Whole.{Says}
use pbsgui.Relay.Whole.First.{first_frame, nothing_read, cut_twice}
use pbsgui.Relay.Whole.Sends.{Adds, nothing-IsEnding, end-IsEnding, send_data-Adds}

-- The agent's result, where the device closed cleanly and all was sent.
abbrev pub Closed : Device → Result AgentError ℕ → Type 0
Closed d result = (total : ℕ) × (result ≡ ok total) × (d.joined ≡ some (ok total))

module _ (j : Json) (laws : JsonLaws j) where
  module _ (text_of : IoError → Text) where
    result_lem :
        (result : Result Text ℕ) (send_error : Option IoError)
        → (end_verdict text_of result send_error).0 ≡ true
        → (total : ℕ) × (backup_result result send_error ≡ ok total)
          × (◌≡◌ {A = Option (Result Text ℕ)} (some result) (some (ok total)))
    unfolding end_verdict backup_result device_result
    result_lem (ok total) none h = (total, refl, refl)
    result_lem (ok total) (some e) h = absurd (false≢true h)
    result_lem (err e) send_error h = absurd (false≢true h)

    verdict_sure :
        (result : Result Text ℕ) (send_error : Option IoError)
        → (send_error ≡ none) ⊎ ((end_verdict text_of result send_error).0 ≡ false)
    unfolding end_verdict
    verdict_sure (ok total) none = inl refl
    verdict_sure (ok total) (some e) = inr refl
    verdict_sure (err e) send_error = inr refl

    backup_body-Adds :
        (d : Device) (s : Socket)
        → (v : Bool) × Adds j laws s d.bufs v (backup_body j text_of d s).1
          × (v ≡ true → Closed d (backup_body j text_of d s).0)
    unfolding backup_body
    backup_body-Adds d s = elim (Option-cases d.joined) [
      | inl panicked ↦ rw (panicked, backup_body) (false, sent_lem, λ h. absurd (false≢true h))
      | inr (result, joined) ↦
          let error = (send_data d.bufs s).0 in
          let v = (end_verdict text_of result error).0 in
          rw (joined, backup_body)
            (
              v,
              send_data-Adds j laws v
                  (λ t.
                    (put (write_control j (end_msg v (end_verdict text_of result error).1)) t).1)
                  d.bufs s (end-IsEnding j laws v _) (verdict_sure result error),
              result_lem result error,
            )
    ]
      where
        sent_lem : Adds j laws s d.bufs false (send_data d.bufs s).1
        sent_lem =
            send_data-Adds j laws false (λ t. t) d.bufs s (nothing-IsEnding j laws) (inr refl)

    -- What stands behind the first frame that is read from a session's connection, wherever that is cut.
    abbrev Behind : Device → Bytes → Result AgentError ℕ → Type 0
    Behind d rest result =
        (v : Bool) × (body : Bytes) × (k : ℕ) × (rest ≡ take k body)
        × Says j d.bufs v body
        × (v ≡ true → Closed d result)

    -- The session, by how its `Hello` goes.
    run-stopped :
        (session_id token : Text) (d : Device) (dialed : Bool) (s t : Socket) (u : Unit {0})
        (e : IoError)
        → prepared d dialed ≡ ok u
        → put (write_control j (hello session_id token)) s ≡ (err e, t)
        → run_backup_session j text_of session_id token d dialed s ≡ (err (writing e), t)
    unfolding run_backup_session
    run-stopped session_id token d dialed s t u e ready stops =
        rw (ready, run_backup_session)
          (ap
            (λ p. elim p.0 [ err x ↦ (err (writing x), p.1) | ok _ ↦ backup_body j text_of d p.1 ])
            stops)

    pub run-greeted :
        (session_id token : Text) (d : Device) (dialed : Bool) (s t : Socket) (u : Unit {0})
        → prepared d dialed ≡ ok u
        → put (write_control j (hello session_id token)) s ≡ (ok tt, t)
        → run_backup_session j text_of session_id token d dialed s ≡ backup_body j text_of d t
    unfolding run_backup_session
    run-greeted session_id token d dialed s t u ready goes =
        rw (ready, run_backup_session)
          (ap
            (λ p. elim p.0 [ err x ↦ (err (writing x), p.1) | ok _ ↦ backup_body j text_of d p.1 ])
            goes)

    greeted_rest :
        (session_id token : Text) (d : Device) (w : Bytes) (c n : ℕ) (f : Frame) (rest : Bytes)
        → write_control j (hello session_id token) ≡ ok w
        → let run = backup_body j text_of d (record { sent = w; capacity = c }) in
          read_frame j (take n run.1.sent) ≡ ok (some f, rest) → Behind d rest run.0
    unfolding write_control write_frame
    greeted_rest session_id token d w c n f rest written h =
        let (v, (body, split, says), sure) =
          backup_body-Adds d (record { sent = w; capacity = c }) in
        let (k, those, same) =
          first_frame j laws (control (hello session_id token)) f w body rest n written
            (subst (λ l. read_frame j (take n l) ≡ ok (some f, rest)) split h) in
        (v, body, k, those, says, sure)

    session_rest :
        (session_id token : Text) (d : Device) (dialed : Bool) (capacity n : ℕ) (f : Frame)
        (rest : Bytes)
        → let run =
            run_backup_session j text_of session_id token d dialed
              (record { sent = []; capacity = capacity }) in
          read_frame j (take n run.1.sent) ≡ ok (some f, rest) → Behind d rest run.0
    unfolding run_backup_session put write_control write_frame
    session_rest session_id token d dialed capacity n f rest h =
        let fresh : Socket = record { sent = []; capacity = capacity } in
        let Reads : Result AgentError ℕ × Socket → Type 0 =
          λ p. read_frame j (take n p.1.sent) ≡ ok (some f, rest) in
        elim (Result-cases (prepared d dialed)) [
          | inr (e, unprepared) ↦
              absurd (nothing_read j laws f rest n (rw (unprepared, run_backup_session) at h))
          | inl (u, ready) ↦ elim (Result-cases (write_control j (hello session_id token))) [
            | inr (e, refused) ↦
                let stops =
                  run-stopped session_id token d dialed fresh fresh u e ready (rw (refused, put)) in
                absurd (nothing_read j laws f rest n (subst Reads stops h))
            | inl (w, written) ↦ elim (Bool-cases (leb (length w) capacity)) [
              | inr breaks ↦
                  let t : Socket = record { sent = take capacity w; capacity = 0 } in
                  let stops =
                    run-stopped session_id token d dialed fresh t u broken_pipe ready
                      (rw (written, breaks, put)) in
                  absurd (
                    cut_twice j laws (control (hello session_id token)) f w rest n capacity written
                      (leb→lt (length w) capacity breaks) (subst Reads stops h))
              | inl fits ↦
                  let t : Socket = record { sent = w; capacity = capacity - length w } in
                  let goes =
                    run-greeted session_id token d dialed fresh t u ready
                      (rw (written, fits, put)) in
                  subst (λ p. Behind d rest p.0) (sym goes)
                    (greeted_rest session_id token d w t.capacity n f rest written
                      (subst Reads goes h))
            ]
          ]
        ]

    -- A backup session, whatever its device does, wherever its connection breaks and however many of its bytes arrive: if
    -- the reader that the proxy makes of what is behind the first frame comes to the end of the stream, then the device
    -- closed cleanly, the session succeeded with the device's count, and the bytes read are all that the device sent, in
    -- order. The bounds on the rounds and reads may be any.
    pub run_backup_session-whole :
        (session_id token : Text) (d : Device) (dialed : Bool)
        (capacity n fuel takes reads size : ℕ) (f : Frame) (rest bytes : Bytes)
        → let run =
            run_backup_session j text_of session_id token d dialed
              (record { sent = []; capacity = capacity }) in
          read_frame j (take n run.1.sent) ≡ ok (some f, rest)
          → 0 < size
          → read_to_end reads size (backup_reader (pump_data j fuel takes rest)) ≡ ok bytes
          → Closed d run.0 × (bytes ≡ concat d.bufs)
    unfolding backup_reader Reader.new verdict_of
    run_backup_session-whole session_id token d dialed capacity n fuel takes reads size f rest bytes
          first room h =
        let (v, body, k, those, says, sure) =
          session_rest session_id token d dialed capacity n f rest first in
        let (good, all_bytes) =
          read_to_end-ok reads size (backup_reader (pump_data j fuel takes rest)) bytes room h in
        let verdict : (pump_data j fuel takes (take k body)).1 ≡ some true =
          sure_verdict (pump_data j fuel takes (take k body)).1 (
            subst (λ l. verdict_of (backup_reader (pump_data j fuel takes l)) ≡ true) those good) in
        let (agreed, bufs) = says k fuel takes verdict in
        (
          sure agreed,
          all_bytes ∙ ap (λ l. concat (pump_data j fuel takes l).0) those ∙ ap concat bufs,
        )
      where
        sure_verdict :
            (o : Option Bool) → elim o [ some v ↦ v | none ↦ false ] ≡ true → o ≡ some true
        sure_verdict none h = absurd (false≢true h)
        sure_verdict (some v) h = ap (λ b. some b) h
