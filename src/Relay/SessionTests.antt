-- ===== src/Relay/SessionTests.antt =====
-- Concrete inputs for the theorems on relay sessions.
use pbsgui.Base.{
  List, Result, Text, [], arith, concat, list_eq, map, none, ok, refl, some, take, true, ℕ, ◌++◌,
  ◌∷◌, ◌≡◌,
}
use pbsgui.Base.Elements.{Has, here}
use pbsgui.Base.Bytes.{Bytes, to_le, from_le}
use pbsgui.Base.Maps.{lookup, remove_key, insert_key}
use pbsgui.Stream.{IoError}
use pbsgui.Stream.Reader.{new, read, receive, verdict_of}
use pbsgui.Stream.Pipe.{read_to_end, collect}
use pbsgui.Relay.Proto.{
  control, hello, write_control, write_raw, write_data, read_frame, read_payload, read_exact,
  frame_of,
}
use pbsgui.Relay.Messages.{json, json_laws}
use pbsgui.Relay.Socket.{Socket, send_data, put}
use pbsgui.Relay.Server.{
  AgentAuth, AgentConn, Refusal, connection, begin_session, accept_data, admit, refusal_of,
  collect_tokens, backup_start, drop_session,
}
use pbsgui.Relay.Server
use pbsgui.Relay.Server.Steps.{
  Opening, System, started, begin, greet, connect, Reached, start, go_on, began, greeted, connected,
}
use pbsgui.Relay.Server.Steps.Channels.{Distinct}
use pbsgui.Relay.Server.Steps.Delivered.{Reached-delivered}
use pbsgui.Relay.Server.Steps.Alive.{IsListed, Reached-IsListed}
use pbsgui.Relay.Server.Pump.{pump_data, pump_step, push_data, backup_reader}
use pbsgui.Relay.Agent.{
  Device, AgentError, prepared, end_verdict, backup_result, device_result, backup_body,
  run_backup_session, receive_image, restore_result, run_restore_session,
}
use pbsgui.Relay.Whole.Backup.{Closed, run_backup_session-whole}
use pbsgui.Relay.Whole.Restore.{run_restore_session-whole}
use pbsgui.Relay.Whole.Delivered.{data_frames, run_backup_session-delivered}

abbrev agent : Text
agent = b'S' ∷ []

abbrev token : Text
token = 9 ∷ []

abbrev session : Text
session = 7 ∷ []

abbrev agents : List AgentAuth
agents = record { name = agent; token = token } ∷ []

abbrev message_of : Refusal → Text
message_of refusal = []

abbrev connected_agent : System
connected_agent = connect message_of agent [] token [] 1 true (started agents)

abbrev commanded : System
commanded = begin agent (backup_start none []) session connected_agent

abbrev delivered : System
delivered = greet session token commanded

delivered_reached : Reached agents delivered
delivered_reached =
    go_on
      (go_on (go_on start (connected _ message_of agent [] token [] 1 true))
        (began _ agent (backup_start none []) session))
      (greeted _ session token)

Reached-delivered_example :
    Distinct (map (λ d. d.0) delivered.inbox)
    × ((o : Opening) × Has o delivered.openings
        × (o.channel ≡ 1)
        × (lookup o.agent (Server.new agents).tokens ≡ some o.token)
        × Has (2, o.session, o.token) delivered.hellos)
unfolding started Server.new collect_tokens connect admit refusal_of begin begin_session greet
    accept_data lookup insert_key remove_key list_eq
Reached-delivered_example = Reached-delivered agents delivered 1 2 delivered_reached here

Reached-IsListed_example : IsListed delivered
Reached-IsListed_example = Reached-IsListed agents delivered delivered_reached

abbrev text_of : IoError → Text
text_of e = []

abbrev device : Device
device = record {
  ready = some (ok tt);
  bufs = (5 ∷ 6 ∷ []) ∷ [] ∷ (8 ∷ []) ∷ [];
  takes = 9;
  joined = some (ok 3);
}

abbrev fresh_socket : Socket
fresh_socket = record { sent = []; capacity = 100 }

abbrev run : Result AgentError ℕ × Socket
run = run_backup_session json text_of session token device true fresh_socket

abbrev first_bytes : Bytes
first_bytes = 0 ∷ 3 ∷ 0 ∷ 0 ∷ 0 ∷ 5 ∷ 7 ∷ 9 ∷ []

abbrev body_bytes : Bytes
body_bytes = 1 ∷ 2 ∷ 0 ∷ 0 ∷ 0 ∷ 5 ∷ 6 ∷ 1 ∷ 0 ∷ 0 ∷ 0 ∷ 0 ∷ 1 ∷ 1 ∷ 0 ∷ 0 ∷ 0 ∷ 8 ∷ []

abbrev last_bytes : Bytes
last_bytes = 0 ∷ 1 ∷ 0 ∷ 0 ∷ 0 ∷ 3 ∷ []

run_backup_session-whole_example : Closed device run.0 × (5 ∷ 6 ∷ 8 ∷ [] ≡ concat device.bufs)
unfolding run_backup_session prepared put write_control write_raw to_le backup_body send_data
    write_data end_verdict read_frame read_payload read_exact frame_of from_le collect read_to_end
    read receive verdict_of pump_data pump_step backup_reader new backup_result device_result
run_backup_session-whole_example =
    run_backup_session-whole json json_laws text_of session token device true 100 50 9 9 9 2
      (control (hello session token)) (body_bytes ++ last_bytes) (5 ∷ 6 ∷ 8 ∷ []) refl (omega arith)
      refl

run_backup_session-delivered_example :
    (run.0 ≡ ok 3)
    × (read_frame json run.1.sent
        ≡ ok (some (control (hello session token)), body_bytes ++ last_bytes))
    × (read_to_end 9 2 (backup_reader (pump_data json 4 3 (body_bytes ++ last_bytes)))
        ≡ ok (concat device.bufs))
unfolding write_control write_raw to_le data_frames write_data
run_backup_session-delivered_example =
    run_backup_session-delivered json json_laws text_of session token device 3 100 4 3 9 2
      first_bytes body_bytes last_bytes refl refl refl refl refl (omega arith) (omega arith)
      (omega arith) (omega arith) (omega arith)

abbrev image : List Bytes
image = (5 ∷ []) ∷ (6 ∷ 7 ∷ []) ∷ []

abbrev pushed_bytes : Bytes
pushed_bytes = (push_data json image fresh_socket).sent

run_restore_session-whole_example :
    ((run_restore_session json session token device true 9 (take 50 pushed_bytes) fresh_socket).0
      ≡ image)
    × (device.joined ≡ some (ok 3))
unfolding run_restore_session prepared put write_control write_raw to_le send_data write_data
    read_frame read_payload read_exact frame_of from_le pump_data pump_step push_data receive_image
    restore_result device_result
run_restore_session-whole_example =
    run_restore_session-whole json json_laws session token device true image 100 50 9 3 fresh_socket
      refl
