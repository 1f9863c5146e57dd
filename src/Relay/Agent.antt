-- ===== src/Relay/Agent.antt =====
-- crates/pbsgui-engine/src/relay/agent.rs: the device sessions of an agent.
pub mod Control
use pbsgui.Base.{
  Bool, List, Option, Result, Text, [], err, false, if◌then◌else◌, none, ok, some, true, ℕ,
}
use pbsgui.Base.Bytes.{Bytes}
use pbsgui.Stream.{IoError}
use pbsgui.Relay.Proto.{Json, hello, end_msg, session_done, ControlMsg, write_control}
use pbsgui.Relay.Socket.{Socket, put, send_data}
use pbsgui.Relay.Server.Pump.{pump_data}

-- A run of the device: what it signals before its set exists, or none where it exits without; the buffers it sends, or how
-- many it takes; and what it returns in the end, or none where its thread panics.
pub record Device : Type 0 where
  pub ready : Option (Result Text (Unit {0}))
  pub bufs : List Bytes
  pub takes : ℕ
  pub joined : Option (Result Text ℕ)

pub data AgentError : Type 0 where
  not_signaled dial_failed device_panicked incomplete_image : AgentError
  -- of the device, and of the data connection
  device_failed : Text → AgentError
  writing : IoError → AgentError

-- The start of both sessions: the device signals, and then the data connection is dialed.
unfoldable pub prepared : Device → Bool → Result AgentError (Unit {0})
prepared d dialed = elim d.ready [
  | none ↦ err not_signaled
  | some (err e) ↦ err (device_failed e)
  | some (ok _) ↦ if dialed then ok tt else err dial_failed
]

-- The verdict of the `End` frame, with the text of a failed send.
unfoldable pub end_verdict : (IoError → Text) → Result Text ℕ → Option IoError → Bool × Option Text
end_verdict text_of (ok bytes) none = (true, none)
end_verdict text_of (ok bytes) (some e) = (false, some (text_of e))
end_verdict text_of (err e) send_error = (false, some e)

unfoldable pub device_result : Result Text ℕ → Result AgentError ℕ
device_result (ok bytes) = ok bytes
device_result (err e) = err (device_failed e)

unfoldable pub backup_result : Result Text ℕ → Option IoError → Result AgentError ℕ
unfolding device_result
backup_result result (some e) = err (writing e)
backup_result result none = device_result result

-- What `run_restore_session` returns of the device and the stream.
unfoldable pub restore_result : Option (Result Text ℕ) → Bool → Result AgentError ℕ
unfolding device_result
restore_result none stream_ok = err device_panicked
restore_result (some (err e)) stream_ok = err (device_failed e)
restore_result (some (ok bytes)) stream_ok = if stream_ok then ok bytes else err incomplete_image

module _ (j : Json) (text_of : IoError → Text) where
  -- `run_backup_session` behind its `Hello`, up to the teardown.
  unfoldable pub backup_body : Device → Socket → Result AgentError ℕ × Socket
  unfolding send_data put write_control end_verdict backup_result
  backup_body d s =
      let (send_error, after) = send_data d.bufs s in
      elim d.joined [
        | none ↦ (err device_panicked, after)
        | some result ↦
            let (verdict, error) = end_verdict text_of result send_error in
            (
              backup_result result send_error,
              (put (write_control j (end_msg verdict error)) after).1,
            )
      ]

  -- `run_backup_session`, on a connection that is new if it can be dialed.
  unfoldable pub run_backup_session :
      Text → Text → Device → Bool → Socket → Result AgentError ℕ × Socket
  unfolding prepared put write_control backup_body
  run_backup_session session_id token d dialed s = elim (prepared d dialed) [
    | err e ↦ (err e, s)
    | ok _ ↦
        let (greeted, bound) = put (write_control j (hello session_id token)) s in
        elim greeted [ err e ↦ (err (writing e), bound) | ok _ ↦ backup_body d bound ]
  ]

module _ (j : Json) where
  -- The loop of `run_restore_session`, which is that of `pump_data` with the device as the consumer: the buffers that the
  -- device is sent, and `stream_ok`.
  unfoldable pub receive_image : ℕ → ℕ → Bytes → List Bytes × Bool
  unfolding pump_data
  receive_image fuel takes r =
      let (fed, verdict) = pump_data j fuel takes r in
      (fed, elim verdict [ none ↦ false | some v ↦ v ])

  -- `run_restore_session`, on what the proxy sends: the buffers that the device was sent, and the result.
  unfoldable pub run_restore_session :
      Text → Text → Device → Bool → ℕ → Bytes → Socket → List Bytes × Result AgentError ℕ × Socket
  unfolding prepared put write_control receive_image restore_result
  run_restore_session session_id token d dialed fuel r s = elim (prepared d dialed) [
    | err e ↦ ([], err e, s)
    | ok _ ↦
        let (greeted, bound) = put (write_control j (hello session_id token)) s in
        elim greeted [
          | err e ↦ ([], err (writing e), bound)
          | ok _ ↦
              let (fed, stream_ok) = receive_image fuel d.takes r in
              (fed, restore_result d.joined stream_ok, bound)
        ]
  ]

-- What `spawn_session` reports, with the texts of the errors.
unfoldable pub outcome_msg : (AgentError → Text) → Text → Result AgentError ℕ → ControlMsg
outcome_msg message_of session_id (ok bytes) = session_done session_id true none bytes
outcome_msg message_of session_id (err e) = session_done session_id false (some (message_of e)) 0
