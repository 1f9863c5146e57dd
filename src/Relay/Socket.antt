-- ===== src/Relay/Socket.antt =====
-- crates/pbsgui-engine/src/relay: the writing half of a connection, and the loops that send data frames over it.
use pbsgui.Base.{
  List, Option, [], err, if◌then◌else◌, leb, length, none, ok, some, take, ℕ, ◌++◌, ◌-◌, ◌∷◌,
}
use pbsgui.Base.Bytes.{Bytes}
use pbsgui.Stream.{IoError, IoResult, broken_pipe}
use pbsgui.Relay.Proto.{write_data}

-- What was put on the wire, and how many more bytes the connection carries before it breaks.
pub record Socket : Type 0 where
  pub sent : Bytes
  pub capacity : ℕ

-- The bytes that a function writes, or its error before it writes any.
unfoldable pub put : IoResult Bytes → Socket → IoResult (Unit {0}) × Socket
put (err e) s = (err e, s)
put (ok w) s =
    if leb (length w) s.capacity
    then (ok tt, record { sent = s.sent ++ w; capacity = s.capacity - length w })
    else (err broken_pipe, record { sent = s.sent ++ take s.capacity w; capacity = 0 })

-- The buffers of a channel as data frames, up to the first error.
unfoldable pub send_data : List Bytes → Socket → Option IoError × Socket
unfolding put write_data
send_data [] s = (none, s)
send_data (b ∷ bufs) s = elim (put (write_data b) s).0 [
  | err e ↦ (some e, (put (write_data b) s).1)
  | ok _ ↦ send_data bufs (put (write_data b) s).1
]
