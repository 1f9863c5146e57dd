-- ===== src/Relay/Server/Pump.antt =====
-- crates/pbsgui-engine/src/relay/server.rs: the data of a session, from the connection to the uploader and back.
use pbsgui.Base.{Bool, List, Option, [], none, ok, some, suc, true, zero, ℕ, ◌∷◌}
use pbsgui.Base.Bytes.{Bytes}
use pbsgui.Stream.{IoResult}
use pbsgui.Stream.Reader.{ChannelReader}
use pbsgui.Stream.Reader
use pbsgui.Relay.Proto.{Json, Frame, control, data_frame, end_msg, read_frame, write_control}
use pbsgui.Relay.Socket.{Socket, put, send_data}

-- The buffers that were passed on, and the verdict, or none where its sender was dropped.
abbrev pub Pumped : Type 0
Pumped = List Bytes × Option Bool

-- What a frame that was read, or the end or an error, is to the loop.
unfoldable pub pump_step : IoResult (Option Frame × Bytes) → (Bytes → Bytes → Pumped) → Pumped
pump_step (ok (some (data_frame bytes), rest)) next = next bytes rest
pump_step (ok (some (control (end_msg verdict error)), rest)) next = ([], some verdict)
pump_step other next = ([], none)

module _ (j : Json) where
  -- `pump_data`, with a bound on its rounds, on what the peer still has to say before it closes; the consumer takes so many
  -- buffers, and then stops.
  unfoldable pub pump_data : ℕ → ℕ → Bytes → Pumped
  unfolding pump_step read_frame
  pump_data zero takes r = ([], none)
  pump_data (suc fuel) takes r = pump_step (read_frame j r) (λ bytes rest. elim takes [
    | zero ↦ ([], none)
    | suc more ↦ let (sent, verdict) = pump_data fuel more rest in (bytes ∷ sent, verdict)
  ])

  -- `push_data`, up to the draining.
  unfoldable pub push_data : List Bytes → Socket → Socket
  unfolding send_data put write_control
  push_data chunks s = elim (send_data chunks s).0 [
    | some e ↦ (send_data chunks s).1
    | none ↦ (put (write_control j (end_msg true none)) (send_data chunks s).1).1
  ]

-- The struct has the fields of `ChannelReader`, and its `read` is the same but for the text of its error.
abbrev pub RelayRead : Type 0
RelayRead = ChannelReader

unfoldable pub read : ℕ → RelayRead → IoResult Bytes × RelayRead
unfolding Reader.read
read size r = Reader.read size r

-- The reader that `backup_stream` returns.
unfoldable pub backup_reader : Pumped → RelayRead
unfolding Reader.new
backup_reader (sent, verdict) = Reader.new sent verdict
