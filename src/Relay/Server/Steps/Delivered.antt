-- ===== src/Relay/Server/Steps/Delivered.antt =====
-- crates/pbsgui-engine/src/relay/server.rs: which data connection a session is given.
use pbsgui.Base.{
  Bool, Bool-cases, List, Option, Option-cases, Text, false, inl, inr, list_eq, list_eq_iff, map,
  refl, some, true, ℕ, ◌++◌, ◌+◌, ◌==◌, ◌∙◌, ◌∷◌, ◌≡◌,
}
use pbsgui.Base.Elements.{Has, here}
use pbsgui.Base.Maps.{lookup, All-lookup}
use pbsgui.Relay.Proto.{
  ControlMsg, Frame, control, data_frame, register, session_done, pong, registered, start_backup,
  start_restore, cancel, ping, hello, end_msg,
}
use pbsgui.Relay.Server.{
  new, AgentAuth, Wait, unsent, dropped, elapsed, arrived, connection, failed, begin_session,
  end_session, accept_data, control_frame, fail_session, deregister, admit, new, Refusal,
  refusal_of,
}
use pbsgui.Relay.Server.Steps.{
  Opening, System, begin, end, greet, report, connect, Step, started, Reached,
}
use pbsgui.Relay.Server.Steps.{
  began, finished, greeted, reported, connected, closed, Reached, start, go_on, Step, connect,
}
use pbsgui.Relay.Server.Steps.Channels.{Distinct, All-has}
use pbsgui.Relay.Server.Steps.Sound.{
  IsOpened, serving-IsSound, IsSound, IsWaiting, drop-IsSound, deliver-IsSound, heard-IsSound,
  next-IsSound, commanded-IsSound, serving-IsSound, IsDelivered,
}

module _ (agents : List AgentAuth) where
  begin-IsSound :
      (s : System) (agent : Text) (make_start : Text → ControlMsg) (session : Text)
      → IsSound agents s
      → IsSound agents (begin agent make_start session s)
  unfolding begin begin_session
  begin-IsSound s agent make_start session sound =
      elim (Option-cases (lookup agent s.shared.agents)) [
        | inl absent ↦ rw (absent, begin, begin_session) (next-IsSound agents s sound)
        | inr (conn, present) ↦ elim (Option-cases (lookup agent s.shared.tokens)) [
          | inl unknown ↦ rw (present, unknown, begin, begin_session) (next-IsSound agents s sound)
          | inr (token, known) ↦
              let o : Opening = record {
                channel = s.next;
                session = session;
                agent = agent;
                token = token;
              } in
              rw (present, known, begin, begin_session)
                (commanded-IsSound agents s sound o refl known)
        ]
      ]

  end-IsSound :
      (s : System) (session : Text) (wait : Wait)
      → IsSound agents s
      → IsSound agents (end session wait s)
  unfolding end end_session
  end-IsSound s session unsent sound = drop-IsSound agents s sound session
  end-IsSound s session dropped sound = drop-IsSound agents s sound session
  end-IsSound s session elapsed sound = drop-IsSound agents s sound session
  end-IsSound s session (arrived (connection stream)) sound = sound
  end-IsSound s session (arrived (failed error)) sound = drop-IsSound agents s sound session

  greet-IsSound :
      (s : System) (session token : Text)
      → IsSound agents s
      → IsSound agents (greet session token s)
  unfolding greet accept_data
  greet-IsSound s session token sound =
      let heard = heard-IsSound agents s sound (s.next, session, token) in
      let t : System = record s {
        next = s.next + 1;
        hellos = (s.next, session, token) ∷ s.hellos;
      } in
      elim (Option-cases (lookup session s.shared.sessions)) [
        | inl absent ↦ rw (absent, greet, accept_data) (drop-IsSound agents t heard session)
        | inr (slot, waits) ↦ elim (Bool-cases (list_eq slot.expected_token token)) [
          | inr wrong ↦ rw (waits, wrong, greet, accept_data) (drop-IsSound agents t heard session)
          | inl right ↦
              let (o, has, channel, named, expected) =
                All-lookup (IsWaiting s.openings) session slot s.shared.sessions
                  (IsSound.waiting sound) waits in
              let same : o.token ≡ token =
                expected ∙ (list_eq_iff slot.expected_token token).0 right in
              let heard_it : Has (s.next, o.session, o.token) t.hellos = rw (named, same) here in
              rw (waits, right, greet, accept_data)
                (deliver-IsSound agents t heard session slot (connection s.next) waits
                  (o, has, channel, heard_it))
        ]
      ]

  fail-IsSound :
      (s : System) (session : Text) (error : Option Text) (bytes : ℕ)
      → IsSound agents s
      → IsSound agents (report (control (session_done session false error bytes)) s)
  unfolding report control_frame fail_session
  fail-IsSound s session error bytes sound =
      elim (Option-cases (lookup session s.shared.sessions)) [
        | inl absent ↦
            rw (absent, report, control_frame, fail_session) (drop-IsSound agents s sound session)
        | inr (slot, waits) ↦
            let (o, has, channel, named, expected) =
              All-lookup (IsWaiting s.openings) session slot s.shared.sessions
                (IsSound.waiting sound) waits in
            rw (waits, report, control_frame, fail_session)
              (deliver-IsSound agents s sound session slot _ waits (o, has, channel))
      ]

  report-IsSound : (s : System) (frame : Frame) → IsSound agents s → IsSound agents (report frame s)
  unfolding report control_frame
  report-IsSound s (data_frame bytes) sound = sound
  report-IsSound s (control (session_done session true error bytes)) sound = sound
  report-IsSound s (control (session_done session false error bytes)) sound =
      fail-IsSound s session error bytes sound
  report-IsSound s (control pong) sound = sound
  report-IsSound s (control ping) sound = sound
  report-IsSound s (control (register a b c d e)) sound = sound
  report-IsSound s (control (registered a b)) sound = sound
  report-IsSound s (control (start_backup a b c)) sound = sound
  report-IsSound s (control (start_restore a b c)) sound = sound
  report-IsSound s (control (cancel a)) sound = sound
  report-IsSound s (control (hello a b)) sound = sound
  report-IsSound s (control (end_msg a b)) sound = sound

  connect-IsSound :
      (s : System) (message_of : Refusal → Text) (agent host token version : Text) (proto : ℕ)
      (replied : Bool)
      → IsSound agents s
      → IsSound agents (connect message_of agent host token version proto replied s)
  unfolding connect admit
  connect-IsSound s message_of agent host token version proto replied sound =
      let more = next-IsSound agents s sound in
      let t : System = record s { next = s.next + 1 } in
      elim (Option-cases (refusal_of agent token proto s.shared)) [
        | inr (refusal, refused_) ↦ rw (refused_, connect, admit) more
        | inl welcomed ↦ elim (Bool-cases replied) [
          | inr gone ↦ rw (welcomed, gone, connect, admit) more
          | inl there_ ↦ rw (welcomed, there_, connect, admit) (serving-IsSound agents t more _ _)
        ]
      ]

  close-IsSound :
      (s : System) (before after : List (ℕ × Text)) (conn : ℕ) (agent : Text)
      → IsSound agents s
      → IsSound agents
          (record s { shared = deregister agent conn s.shared; serving = before ++ after })
  unfolding deregister
  close-IsSound s before after conn agent sound =
      elim (Option-cases (lookup agent s.shared.agents)) [
        | inl absent ↦ rw (absent, deregister) (serving-IsSound agents s sound _ _)
        | inr (a, present) ↦ elim (Bool-cases (a.control == conn)) [
          | inl same ↦ rw (present, same, deregister) (serving-IsSound agents s sound _ _)
          | inr other ↦ rw (present, other, deregister) (serving-IsSound agents s sound _ _)
        ]
      ]

  Step-IsSound : {s t : System} → Step s t → IsSound agents s → IsSound agents t
  Step-IsSound (began s agent make_start session) = begin-IsSound s agent make_start session
  Step-IsSound (finished s session wait) = end-IsSound s session wait
  Step-IsSound (greeted s session token) = greet-IsSound s session token
  Step-IsSound (reported s frame) = report-IsSound s frame
  Step-IsSound (connected s message_of agent host token version proto replied) =
      connect-IsSound s message_of agent host token version proto replied
  Step-IsSound (closed s before after conn agent serves) = close-IsSound s before after conn agent

  Reached-IsSound : (s : System) → Reached agents s → IsSound agents s
  unfolding started new
  Reached-IsSound s start = record {
    configured = refl;
    commanded = tt;
    waiting = tt;
    delivered = tt;
    slots_once = tt;
    inbox_once = tt;
    apart = tt;
  }
  Reached-IsSound s (go_on {s = before} reached step) =
      Step-IsSound step (Reached-IsSound before reached)

  -- Of a proxy that was started with these agents, after any steps of its tasks, let a call have been sent a data
  -- connection: it was sent no other answer, as no channel was sent two; and the connection has named, in its `Hello`, the
  -- identifier of just the session that this call commanded, and the token that the session's agent is configured with.
  pub Reached-delivered :
      (s : System) (channel stream : ℕ)
      → Reached agents s
      → Has (channel, connection stream) s.inbox
      → Distinct (map (λ d. d.0) s.inbox)
        × ((o : Opening) × Has o s.openings
            × (o.channel ≡ channel)
            × (lookup o.agent (new agents).tokens ≡ some o.token)
            × Has (stream, o.session, o.token) s.hellos)
  Reached-delivered s channel stream reached given =
      let sound = Reached-IsSound s reached in
      let (o, has, same, heard) =
        All-has (IsDelivered s.openings s.hellos) (channel, connection stream) s.inbox
          (IsSound.delivered sound) given in
      let (known, less) =
        All-has (IsOpened (new agents).tokens s.next) o s.openings (IsSound.commanded sound) has in
      (IsSound.inbox_once sound, (o, has, same, known, heard))
