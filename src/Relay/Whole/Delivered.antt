-- ===== src/Relay/Whole/Delivered.antt =====
-- crates/pbsgui-engine/src/relay: a backup session whose connection holds.
use pbsgui.Base.{
  Bool, List, Option, Text, [], ap, append-nil, append_assoc, ap₂, arith, bind-eq-ok, concat,
  length, length-append, le→leb, none, ok, ok-injective, some, suc, sym, true, zero, ℕ, ◌++◌, ◌+◌,
  ◌-◌, ◌<◌, ◌>>=◌, ◌∙◌, ◌∷◌, ◌≡◌, ◌≤◌,
}
use pbsgui.Base.Bytes.{Bytes}
use pbsgui.Stream.{IoError, IoResult}
use pbsgui.Stream.Reader
use pbsgui.Relay.Proto.{
  hello, read_frame, Json, JsonLaws, Frame, write_control, write_frame, write_data, end_msg,
  control, data_frame,
}
use pbsgui.Relay.Proto.Frames.{read_frame-write_frame}
use pbsgui.Relay.Socket.{Socket, send_data, put}
use pbsgui.Stream.Pipe.{read_to_end, read_to_end_lem}
use pbsgui.Stream.Reader.{verdict_of}
use pbsgui.Relay.Server.Pump.{pump_data, pump_step, backup_reader}
use pbsgui.Relay.Agent.{
  Device, device_result, prepared, end_verdict, backup_result, backup_body, run_backup_session,
}
use pbsgui.Relay.Whole.Backup.{run-greeted}
use pbsgui.Relay.Whole.Sends.{send_data-sent}

-- The data frames of some buffers, one after the other.
unfoldable pub data_frames : List Bytes → IoResult Bytes
unfolding write_data
data_frames [] = ok []
data_frames (b ∷ bufs) = do w ← write_data b; ws ← data_frames bufs; ok (w ++ ws)

put-fits :
    (w : Bytes) (s : Socket)
    → length w ≤ s.capacity
    → put (ok w) s ≡ (ok tt, record { sent = s.sent ++ w; capacity = s.capacity - length w })
unfolding put
put-fits w s fits = rw (le→leb (length w) s.capacity fits)

send_data-all :
    (bufs : List Bytes) (body : Bytes) (s : Socket)
    → data_frames bufs ≡ ok body
    → length body ≤ s.capacity
    → send_data bufs s
      ≡ (none, record { sent = s.sent ++ body; capacity = s.capacity - length body })
unfolding data_frames send_data
send_data-all [] body s framed fits =
    let nothing : [] ≡ body = ok-injective framed in
    let after : Bytes → Option IoError × Socket =
      λ l. (none, record { sent = s.sent ++ l; capacity = s.capacity - length l }) in
    ap₂ (λ a c. (none, record { sent = a; capacity = c })) (sym (append-nil s.sent))
      (let e : s.capacity ≡ s.capacity - 0 = omega arith in e)
    ∙ ap after nothing
send_data-all (b ∷ bufs) body s framed fits =
    let (w, written, more) = bind-eq-ok (write_data b) _ framed in
    let (ws, behind, whole) = bind-eq-ok (data_frames bufs) _ more in
    let split : w ++ ws ≡ body = ok-injective whole in
    let long : length body ≡ length w + length ws = ap length (sym split) ∙ length-append w ws in
    let t : Socket = record { sent = s.sent ++ w; capacity = s.capacity - length w } in
    send_data-sent b bufs s t (ap (λ r. put r s) written ∙ put-fits w s (omega (arith, long)))
    ∙ send_data-all bufs ws t behind (omega (arith, long))
    ∙ ap₂ (λ a c. (none, record { sent = a; capacity = c }))
        (append_assoc s.sent w ws ∙ ap (λ l. s.sent ++ l) split)
        (let e : s.capacity - length w - length ws ≡ s.capacity - length body =
            omega (arith, long) in
          e)

module _ (j : Json) (laws : JsonLaws j) where
  first_pumped :
      (f : Frame) (w rest : Bytes) (fuel takes : ℕ)
      → write_frame j f ≡ ok w
      → pump_data j (suc fuel) takes (w ++ rest)
        ≡ pump_step (ok (some f, rest)) (λ bytes more. elim takes [
          | zero ↦ ([], none)
          | suc t ↦ ((bytes ∷ (pump_data j fuel t more).0), (pump_data j fuel t more).1)
        ])
  unfolding pump_data
  first_pumped f w rest fuel takes written =
      ap
        (λ e. pump_step e (λ bytes more. elim takes [
          | zero ↦ ([], none)
          | suc t ↦ ((bytes ∷ (pump_data j fuel t more).0), (pump_data j fuel t more).1)
        ]))
        (read_frame-write_frame j laws f w rest written)

  -- A reader with enough rounds and room gets all the buffers and the verdict behind them.
  pump_data-all :
      (bufs : List Bytes) (body w : Bytes) (v : Bool) (error : Option Text) (fuel takes : ℕ)
      → data_frames bufs ≡ ok body
      → write_control j (end_msg v error) ≡ ok w
      → length bufs < fuel
      → length bufs ≤ takes
      → pump_data j fuel takes (body ++ w) ≡ (bufs, some v)
  unfolding data_frames pump_data pump_step write_data write_control write_frame
  pump_data-all bufs body w v error zero takes framed ending_ enough room = absurd (omega arith)
  pump_data-all [] body w v error (suc fuel) takes framed ending_ enough room =
      ap (λ l. pump_data j (suc fuel) takes (l ++ w)) (sym (ok-injective framed))
      ∙ ap (λ l. pump_data j (suc fuel) takes l) (sym (append-nil w))
      ∙ first_pumped (control (end_msg v error)) w [] fuel takes ending_
  pump_data-all (b ∷ bufs) body w v error (suc fuel) zero framed ending_ enough room =
      absurd (omega arith)
  pump_data-all (b ∷ bufs) body w v error (suc fuel) (suc takes) framed ending_ enough room =
      let (wb, written, more) = bind-eq-ok (write_data b) _ framed in
      let (ws, behind, whole) = bind-eq-ok (data_frames bufs) _ more in
      ap (λ l. pump_data j (suc fuel) (suc takes) (l ++ w)) (sym (ok-injective whole))
      ∙ ap (λ l. pump_data j (suc fuel) (suc takes) l) (append_assoc wb ws w)
      ∙ first_pumped (data_frame b) wb (ws ++ w) fuel (suc takes) written
      ∙ ap (λ p. (b ∷ p.0, p.1))
          (pump_data-all bufs ws w v error fuel takes behind ending_ (omega arith) (omega arith))

  module _ (text_of : IoError → Text) where
    backup_body-all :
        (d : Device) (total : ℕ) (body w : Bytes) (s t : Socket)
        → d.joined ≡ some (ok total)
        → send_data d.bufs s ≡ (none, t)
        → write_control j (end_msg true none) ≡ ok w
        → length w ≤ t.capacity
        → backup_body j text_of d s
          ≡ (ok total, record { sent = t.sent ++ w; capacity = t.capacity - length w })
    unfolding backup_body end_verdict backup_result device_result
    backup_body-all d total body w s t joined sent_all written fits =
        rw (joined, backup_body)
          (ap
              (λ p. (
                backup_result (ok total) p.0,
                (put
                    (write_control j (
                      end_msg (end_verdict text_of (ok total) p.0).0
                        (end_verdict text_of (ok total) p.0).1))
                    p.1).1,
              ))
              sent_all
            ∙ ap (λ r. (ok total, (put r t).1)) written
            ∙ ap (λ r. (ok total, r.1)) (put-fits w t fits))

    -- A backup session on a connection that carries all its frames, of a device that signals and closes cleanly: it succeeds
    -- with the device's count; the proxy first reads its `Hello`; and behind that the reader with enough rounds, room and
    -- reads comes to the end of the stream with all the bytes that the device sent.
    pub run_backup_session-delivered :
        (session_id token : Text) (d : Device) (total capacity fuel takes reads size : ℕ)
        (first body last : Bytes)
        → d.ready ≡ some (ok tt)
        → d.joined ≡ some (ok total)
        → write_control j (hello session_id token) ≡ ok first
        → data_frames d.bufs ≡ ok body
        → write_control j (end_msg true none) ≡ ok last
        → length first + length body + length last ≤ capacity
        → length d.bufs < fuel
        → length d.bufs ≤ takes
        → length (concat d.bufs) < reads
        → 0 < size
        → let run =
            run_backup_session j text_of session_id token d true
              (record { sent = []; capacity = capacity }) in
          (run.0 ≡ ok total)
          × (read_frame j run.1.sent ≡ ok (some (control (hello session_id token)), body ++ last))
          × (read_to_end reads size (backup_reader (pump_data j fuel takes (body ++ last)))
              ≡ ok (concat d.bufs))
    unfolding prepared write_control write_frame backup_reader Reader.new verdict_of
    run_backup_session-delivered session_id token d total capacity fuel takes reads size first body
          last ready joined greets framed ends fits enough room many some_room =
        let fresh : Socket = record { sent = []; capacity = capacity } in
        let s : Socket = record { sent = first; capacity = capacity - length first } in
        let t : Socket = record { sent = first ++ body; capacity = s.capacity - length body } in
        let is_ready : prepared d true ≡ ok tt = rw (ready, prepared) in
        let goes =
          run-greeted j laws text_of session_id token d true fresh s tt is_ready
            (ap (λ r. put r fresh) greets ∙ put-fits first fresh (omega arith)) in
        let sends : send_data d.bufs s ≡ (none, t) =
          send_data-all d.bufs body s framed (omega arith) in
        let run = goes ∙ backup_body-all d total body last s t joined sends ends (omega arith) in
        let pumped = pump_data-all d.bufs body last true none fuel takes framed ends enough room in
        (
          ap (λ p. p.0) run,
          ap (λ p. read_frame j p.1.sent) run
              ∙ ap (read_frame j) (append_assoc first body last)
              ∙ read_frame-write_frame j laws (control (hello session_id token)) first
                  (body ++ last) greets,
          ap (λ p. read_to_end reads size (backup_reader p)) pumped
              ∙ read_to_end_lem reads size (Reader.new d.bufs (some true)) some_room many,
        )
