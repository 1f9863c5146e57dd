-- ===== src/Stream/Writer.antt =====
-- crates/pbsgui-engine/src/archive.rs: `ChannelWriter`, which hands an archive over in pieces.
use pbsgui.Base.{
  Bool, List, [], err, false, if◌then◌else◌, leb, length, ok, ℕ, ◌++◌, ◌==◌, ◌^◌, ◌∷◌,
}
use pbsgui.Base.Bytes.{Bytes}
use pbsgui.Stream.{IoResult, broken_pipe}

-- `sent` is what the channel was given, in order, and `closed` that its receiver is gone.
pub record ChannelWriter : Type 0 where
  pub buf : Bytes
  pub sent : List Bytes
  pub closed : Bool

abbrev pub opened : ChannelWriter
opened = record { buf = []; sent = []; closed = false }

-- `1 << 20`
abbrev pub piece_size : ℕ
piece_size = 2 ^ 20

-- `tx.send(…)`: a channel without a receiver refuses the buffer.
unfoldable pub send : ChannelWriter → IoResult (Unit {0}) × ChannelWriter
send w =
    if length w.buf == 0
    then (ok tt, w)
    else if w.closed
    then (err broken_pipe, record w { buf = [] })
    else (ok tt, record w { buf = []; sent = w.sent ++ (w.buf ∷ []) })

unfoldable pub write : Bytes → ChannelWriter → IoResult (Unit {0}) × ChannelWriter
unfolding send
write data_bytes w =
    let grown = record w { buf = w.buf ++ data_bytes } in
    if leb piece_size (length grown.buf) then send grown else (ok tt, grown)

unfoldable pub flush : ChannelWriter → IoResult (Unit {0}) × ChannelWriter
unfolding send
flush w = send w
