-- ===== src/Relay/Server/Steps.antt =====
-- crates/pbsgui-engine/src/relay/server.rs: the tasks of the proxy as steps on what they share.
pub mod Channels
pub mod Sound
pub mod Delivered
pub mod Alive
use pbsgui.Base.{Bool, List, Result, Text, [], err, none, ok, some, ℕ, ◌++◌, ◌+◌, ◌∷◌, ◌≡◌}
use pbsgui.Base.Maps.{lookup}
use pbsgui.Relay.Proto.{ControlMsg, Frame}
use pbsgui.Relay.Server.{
  AgentAuth, SessionSlot, Shared, Arrival, Refusal, Wait, Delivery, new, begin_session, end_session,
  accept_data, admit, deregister, control_frame, drop_session, ServerError,
}

-- A session that was commanded: its channel, its identifier, the agent, and the token that the agent is configured with.
pub record Opening : Type 0 where
  pub channel : ℕ
  pub session : Text
  pub agent : Text
  pub token : Text

-- The registry, what the channels of the waiting calls were given, the number of the next channel or connection, and, as
-- history, the sessions commanded, the `Hello`s read, and the control connections that are served, with their agents.
pub record System : Type 0 where
  pub shared : Shared
  pub inbox : List (ℕ × Arrival)
  pub next : ℕ
  pub openings : List Opening
  pub hellos : List (ℕ × Text × Text)
  pub serving : List (ℕ × Text)

unfoldable pub started : List AgentAuth → System
started agents = record {
  shared = new agents;
  inbox = [];
  next = 0;
  openings = [];
  hellos = [];
  serving = [];
}

abbrev pub deliver_to : Delivery → List (ℕ × Arrival) → List (ℕ × Arrival)
deliver_to none inbox = inbox
deliver_to (some d) inbox = d ∷ inbox

abbrev pub opening_of : Result ServerError (ℕ × ControlMsg) → Opening → List Opening → List Opening
opening_of (err e) opening openings = openings
opening_of (ok c) opening openings = opening ∷ openings

-- `open_session` up to the command, with a new channel.
unfoldable pub begin : Text → (Text → ControlMsg) → Text → System → System
unfolding begin_session
begin agent make_start session s =
    let (command, shared) = begin_session agent make_start session s.next s.shared in
    let opening : Opening = record {
      channel = s.next;
      session = session;
      agent = agent;
      token = elim (lookup agent s.shared.tokens) [ none ↦ [] | some t ↦ t ];
    } in
    record s {
      shared = shared;
      next = s.next + 1;
      openings = opening_of command opening s.openings;
    }

unfoldable pub end : Text → Wait → System → System
unfolding end_session
end session wait s = record s { shared = (end_session session wait s.shared).1 }

-- A data connection, whose number is new, and its `Hello`.
unfoldable pub greet : Text → Text → System → System
unfolding accept_data
greet session token s =
    let (result, delivery, shared) = accept_data session token s.next s.shared in
    record s {
      shared = shared;
      inbox = deliver_to delivery s.inbox;
      next = s.next + 1;
      hellos = (s.next, session, token) ∷ s.hellos;
    }

-- A frame on a control connection.
unfoldable pub report : Frame → System → System
unfolding control_frame
report frame s =
    let (result, delivery, shared) = control_frame frame s.shared in
    record s { shared = shared; inbox = deliver_to delivery s.inbox }

-- A control connection with a new channel, which is served if it is admitted.
unfoldable pub connect : (Refusal → Text) → Text → Text → Text → Text → ℕ → Bool → System → System
unfolding admit
connect message_of agent host token version proto replied s =
    let (reply, result, shared) =
      admit message_of agent host token version proto s.next replied s.shared in
    record s {
      shared = shared;
      next = s.next + 1;
      serving = elim result [ err e ↦ s.serving | ok _ ↦ (s.next, agent) ∷ s.serving ];
    }

-- What any of the tasks does next. A control connection that is served may end.
pub data Step : System → System → Type 0 where
  began :
      (s : System) (agent : Text) (make_start : Text → ControlMsg) (session : Text)
      → Step s (begin agent make_start session s)
  finished : (s : System) (session : Text) (wait : Wait) → Step s (end session wait s)
  greeted : (s : System) (session token : Text) → Step s (greet session token s)
  reported : (s : System) (frame : Frame) → Step s (report frame s)
  connected :
      (s : System) (message_of : Refusal → Text) (agent host token version : Text) (proto : ℕ)
      (replied : Bool)
      → Step s (connect message_of agent host token version proto replied s)
  closed :
      (s : System) (before after : List (ℕ × Text)) (conn : ℕ) (agent : Text)
      → s.serving ≡ before ++ (conn, agent) ∷ after
      → Step s (record s { shared = deregister agent conn s.shared; serving = before ++ after })

pub data Reached (agents : List AgentAuth) : System → Type 0 where
  start : Reached agents (started agents)
  go_on : {s t : System} → Reached agents s → Step s t → Reached agents t
