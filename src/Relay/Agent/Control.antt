-- ===== src/Relay/Agent/Control.antt =====
-- crates/pbsgui-engine/src/relay/agent.rs: the control connection of an agent, and its sessions in flight.
use pbsgui.Base.{
  List, Option, Result, Text, [], err, false, map, none, ok, some, sym, true, ℕ, ◌++◌, ◌+◌, ◌∙◌,
  ◌∷◌, ◌≡◌, ◌≢◌,
}
use pbsgui.Base.Maps.{
  Entries, lookup, remove_key, insert_key, lookup-insert_key, lookup-remove_key,
  lookup-remove_key_other,
}
use pbsgui.Relay.Proto.{
  ControlMsg, register, registered, ping, pong, start_backup, start_restore, cancel, Frame, control,
  data_frame, relay_proto_version,
}

pub record AgentConfig : Type 0 where
  pub agent_name : Text
  pub token : Text

pub data Direction : Type 0 where
  backup restore : Direction

pub data ControlError : Type 0 where
  proxy_refused : Text → ControlError
  no_registered_reply data_on_control unexpected_message : ControlError

-- The first frame, with the host's name and the version of the build.
unfoldable pub register_msg : AgentConfig → Text → Text → ControlMsg
register_msg cfg host version = register cfg.agent_name host cfg.token version relay_proto_version

unfoldable pub registered_reply : Option Frame → Result ControlError (Unit {0})
registered_reply (some (control (registered true message))) = ok tt
registered_reply (some (control (registered false message))) = err (proxy_refused message)
registered_reply other = err no_registered_reply

-- The map of cancellation tokens, which are numbers; those that are cancelled; and the number of the next.
pub record InFlight : Type 0 where
  pub sessions : Entries ℕ
  pub cancelled : List ℕ
  pub next : ℕ

abbrev pub no_sessions : InFlight
no_sessions = record { sessions = []; cancelled = []; next = 0 }

-- A session to run: its direction, identifier, instance, device set and cancellation token.
pub data SessionTask : Type 0 where
  session_task : Direction → Text → Option Text → Text → ℕ → SessionTask

-- `spawn_session` up to the spawned task.
unfoldable pub spawn_session :
    Direction → Text → Option Text → Text → InFlight → SessionTask × InFlight
unfolding insert_key
spawn_session direction session_id instance_name set_name s = (
  session_task direction session_id instance_name set_name s.next,
  record s { sessions = insert_key session_id s.next s.sessions; next = s.next + 1 },
)

-- Behind the session, in its task.
unfoldable pub session_ended : Text → InFlight → InFlight
unfolding remove_key
session_ended session_id s = record s { sessions = remove_key session_id s.sessions }

unfoldable pub cancel_session : Text → InFlight → InFlight
unfolding lookup
cancel_session session_id s = elim (lookup session_id s.sessions) [
  | none ↦ s
  | some token ↦ record s { cancelled = token ∷ s.cancelled }
]

-- What a frame leads to: a reply, a session that is spawned, or nothing.
pub data Reaction : Type 0 where
  reply : ControlMsg → Reaction
  spawned : SessionTask → Reaction
  nothing : Reaction

-- A round of the loop of `connect_and_serve`; an error ends it.
unfoldable pub serve_frame : Frame → InFlight → Result ControlError Reaction × InFlight
unfolding spawn_session cancel_session
serve_frame (data_frame bytes) s = (err data_on_control, s)
serve_frame (control ping) s = (ok (reply pong), s)
serve_frame (control (start_backup session_id instance_name set_name)) s =
    let (new_task, t) = spawn_session backup session_id instance_name set_name s in
    (ok (spawned new_task), t)
serve_frame (control (start_restore session_id instance_name set_name)) s =
    let (new_task, t) = spawn_session restore session_id instance_name set_name s in
    (ok (spawned new_task), t)
serve_frame (control (cancel session_id)) s = (ok nothing, cancel_session session_id s)
serve_frame (control other) s = (err unexpected_message, s)

-- Behind the loop: every session in the map is cancelled, and the map is drained.
unfoldable pub connection_ended : InFlight → InFlight
connection_ended s = record s {
  sessions = [];
  cancelled = map (λ e. e.1) s.sessions ++ s.cancelled;
}

-- A session that was started is cancelled by its identifier, with the token it was given, and no other; a cancel that comes
-- when it has ended does nothing, and the end of another session does not take its token away.
spawn_session-cancel_session :
    (direction : Direction) (session other : Text) (instance_name : Option Text) (set_name : Text)
    (s : InFlight)
    → other ≢ session
    → let t = (spawn_session direction session instance_name set_name s).1 in
      ((cancel_session session t).cancelled ≡ s.next ∷ s.cancelled)
      × ((cancel_session session (session_ended other t)).cancelled ≡ s.next ∷ s.cancelled)
      × (cancel_session session (session_ended session t) ≡ session_ended session t)
unfolding spawn_session cancel_session session_ended
spawn_session-cancel_session direction session other instance_name set_name s apart =
    let entries = insert_key session s.next s.sessions in
    let found : lookup session entries ≡ some s.next =
      lookup-insert_key session s.next s.sessions in
    let kept : lookup session (remove_key other entries) ≡ some s.next =
      lookup-remove_key_other other session entries (λ e. apart (sym e)) ∙ found in
    (
      rw (found, cancel_session),
      rw (kept, cancel_session),
      rw (lookup-remove_key session entries, cancel_session),
    )
