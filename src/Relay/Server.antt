-- ===== src/Relay/Server.antt =====
-- crates/pbsgui-engine/src/relay/server.rs: the registry of the proxy, its agents and the sessions that wait for their data
-- connections. Channels and connections are numbers, and a lock is held for one of these operations at a time.
pub mod Global
pub mod Admission
pub mod Steps
pub mod Pump
pub mod Rounds
use pbsgui.Base.{
  Bool, List, Option, Result, Text, [], err, false, if◌then◌else◌, list_eq, map, none, not, ok,
  some, true, ℕ, ◌==◌, ◌∷◌,
}
use pbsgui.Base.Maps.{Entries, lookup, remove_key, insert_key}
use pbsgui.Relay.Proto.{
  ControlMsg, registered, register, hello, session_done, pong, start_backup, start_restore, Frame,
  control, relay_proto_version,
}

pub record AgentAuth : Type 0 where
  pub name : Text
  pub token : Text

pub record AgentStatus : Type 0 where
  pub name : Text
  pub host : Text
  pub version : Text

-- `control` is the channel to the connection's writer.
pub record AgentConn : Type 0 where
  pub host : Text
  pub version : Text
  pub control : ℕ

-- `deliver` is the channel to the call that waits.
pub record SessionSlot : Type 0 where
  pub expected_token : Text
  pub deliver : ℕ

pub record Shared : Type 0 where
  pub tokens : Entries Text
  pub agents : Entries AgentConn
  pub sessions : Entries SessionSlot

-- What a waiting call is sent: the data connection, or why there is none.
pub data Arrival : Type 0 where
  connection : ℕ → Arrival
  failed : Text → Arrival

pub data Refusal : Type 0 where
  protocol_mismatch bad_token not_configured : Refusal

pub data ServerError : Type 0 where
  -- of `open_session`
  agent_not_connected agent_not_configured agent_disconnected no_data_connection : ServerError
  could_not_start : Text → ServerError
  -- of `handle_conn`
  session_bad_token session_unknown unexpected_first_frame : ServerError
  -- of `serve_control` and `read_control_loop`
  refused : Refusal → ServerError
  reply_failed unexpected_frame : ServerError

-- `agents.into_iter().map(…).collect()`, behind what is already there.
unfoldable pub collect_tokens : List AgentAuth → Entries Text → Entries Text
collect_tokens [] tokens = tokens
collect_tokens (a ∷ agents) tokens = collect_tokens agents (insert_key a.name a.token tokens)

unfoldable pub new : List AgentAuth → Shared
unfolding collect_tokens
new agents = record { tokens = collect_tokens agents []; agents = []; sessions = [] }

unfoldable pub connected_agents : Shared → List AgentStatus
connected_agents s =
    map (λ e. record { name = e.0; host = e.1.host; version = e.1.version }) s.agents

-- The closures of `backup_stream` and of `restore_stream`.
unfoldable pub backup_start : Option Text → Text → Text → ControlMsg
backup_start instance_name set_name session_id = start_backup session_id instance_name set_name

unfoldable pub restore_start : Option Text → Text → Text → ControlMsg
restore_start instance_name set_name session_id = start_restore session_id instance_name set_name

-- `open_session` up to the command: the agent's control channel and the command to send on it. `deliver` is the new
-- channel, and `session_id` the new identifier.
unfoldable pub begin_session :
    Text → (Text → ControlMsg) → Text → ℕ → Shared → Result ServerError (ℕ × ControlMsg) × Shared
begin_session agent make_start session_id deliver s = elim (lookup agent s.agents) [
  | none ↦ (err agent_not_connected, s)
  | some conn ↦ elim (lookup agent s.tokens) [
    | none ↦ (err agent_not_configured, s)
    | some expected ↦
        let slot : SessionSlot = record { expected_token = expected; deliver = deliver } in
        (
          ok (conn.control, make_start session_id),
          record s { sessions = insert_key session_id slot s.sessions },
        )
  ]
]

-- How the command and the wait end: the command cannot be sent, the channel gives something, its sender is dropped, or
-- the time is up.
pub data Wait : Type 0 where
  unsent dropped elapsed : Wait
  arrived : Arrival → Wait

unfoldable pub drop_session : Text → Shared → Shared
drop_session session_id s = record s { sessions = remove_key session_id s.sessions }

-- `open_session` from the command on.
unfoldable pub end_session : Text → Wait → Shared → Result ServerError ℕ × Shared
unfolding drop_session
end_session session_id unsent s = (err agent_disconnected, drop_session session_id s)
end_session session_id (arrived (connection stream)) s = (ok stream, s)
end_session session_id (arrived (failed error)) s =
    (err (could_not_start error), drop_session session_id s)
end_session session_id dropped s = (err no_data_connection, drop_session session_id s)
end_session session_id elapsed s = (err no_data_connection, drop_session session_id s)

-- What is sent to the channel of a slot, if anything is.
abbrev pub Delivery : Type 0
Delivery = Option (ℕ × Arrival)

-- `handle_conn` on `Hello`, of a connection with that number.
unfoldable pub accept_data :
    Text → Text → ℕ → Shared → Result ServerError (Unit {0}) × Delivery × Shared
unfolding drop_session
accept_data session_id token stream s = elim (lookup session_id s.sessions) [
  | none ↦ (err session_unknown, none, drop_session session_id s)
  | some slot ↦
      if list_eq slot.expected_token token
      then (ok tt, some (slot.deliver, connection stream), drop_session session_id s)
      else (err session_bad_token, none, drop_session session_id s)
]

-- What the first frame of a connection asks for.
pub data First : Type 0 where
  control_connection : Text → Text → Text → Text → ℕ → First
  data_connection : Text → Text → First

unfoldable pub classify : Frame → Result ServerError First
classify (control (register name host token version proto)) =
    ok (control_connection name host token version proto)
classify (control (hello session_id token)) = ok (data_connection session_id token)
classify other = err unexpected_first_frame

-- The refusal of `serve_control`.
unfoldable pub refusal_of : Text → Text → ℕ → Shared → Option Refusal
refusal_of agent_name token proto s =
    if not (proto == relay_proto_version)
    then some protocol_mismatch
    else elim (lookup agent_name s.tokens) [
      | none ↦ some not_configured
      | some expected ↦ if list_eq expected token then none else some bad_token
    ]

abbrev welcome : Text
welcome = b'w' ∷ b'e' ∷ b'l' ∷ b'c' ∷ b'o' ∷ b'm' ∷ b'e' ∷ []

-- `serve_control` up to the loop: the reply, with the texts of the refusals, and whether the connection is kept; `ctl_tx` is
-- its channel, and `replied` that the reply can be written.
unfoldable pub admit :
    (Refusal → Text)
    → Text
    → Text
    → Text
    → Text
    → ℕ
    → ℕ
    → Bool
    → Shared
    → ControlMsg × Result ServerError (Unit {0}) × Shared
unfolding refusal_of
admit message_of agent_name host token version proto ctl_tx replied s =
    elim (refusal_of agent_name token proto s) [
      | some refusal ↦ (
        registered false (message_of refusal),
        err (if replied then refused refusal else reply_failed),
        s,
      )
      | none ↦
          let conn : AgentConn = record { host = host; version = version; control = ctl_tx } in
          if replied
          then (
            registered true welcome,
            ok tt,
            record s { agents = insert_key agent_name conn s.agents },
          )
          else (registered true welcome, err reply_failed, s)
    ]

-- `serve_control` behind the loop.
unfoldable pub deregister : Text → ℕ → Shared → Shared
deregister agent_name this_conn s = elim (lookup agent_name s.agents) [
  | none ↦ s
  | some a ↦
      if a.control == this_conn then record s { agents = remove_key agent_name s.agents } else s
]

abbrev unknown_error : Text
unknown_error =
    b'u' ∷ b'n' ∷ b'k' ∷ b'n' ∷ b'o' ∷ b'w' ∷ b'n' ∷ b' ' ∷ b'e' ∷ b'r' ∷ b'r' ∷ b'o' ∷ b'r' ∷ []

unfoldable pub fail_session : Text → Option Text → Shared → Delivery × Shared
unfolding drop_session
fail_session session_id error s =
    let message : Text = elim error [ none ↦ unknown_error | some e ↦ e ] in
    elim (lookup session_id s.sessions) [
      | none ↦ (none, drop_session session_id s)
      | some slot ↦ (some (slot.deliver, failed message), drop_session session_id s)
    ]

-- A round of `read_control_loop`; an error ends the loop.
unfoldable pub control_frame : Frame → Shared → Result ServerError (Unit {0}) × Delivery × Shared
unfolding fail_session
control_frame (control (session_done session_id true error bytes)) s = (ok tt, none, s)
control_frame (control (session_done session_id false error bytes)) s =
    let (delivery, after) = fail_session session_id error s in (ok tt, delivery, after)
control_frame (control pong) s = (ok tt, none, s)
control_frame other s = (err unexpected_frame, none, s)
