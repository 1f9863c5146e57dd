-- ===== src/Stream/Chunks.antt =====
-- crates/pbsgui-ad-engine/src/stream.rs: the writer of the Active Directory engine, which sends chunks of one size.
pub mod Whole
use pbsgui.Base.{
  [], drop, err, if◌then◌else◌, leb, length, ok, suc, take, zero, ℕ, ◌*◌, ◌++◌, ◌==◌, ◌∷◌,
}
use pbsgui.Base.Bytes.{Bytes}
use pbsgui.Stream.{IoResult, other}
use pbsgui.Stream.Writer.{ChannelWriter}

-- `256 * 1024`
abbrev pub chunk_size : ℕ
chunk_size = 256 * 1024

-- The loop of `write`, with a bound on its rounds: each of them takes a whole chunk from the buffer.
unfoldable pub send_chunks : ℕ → ChannelWriter → IoResult (Unit {0}) × ChannelWriter
send_chunks zero w = (ok tt, w)
send_chunks (suc fuel) w =
    let rest = drop chunk_size w.buf in
    let onward =
      send_chunks fuel (record w { buf = rest; sent = w.sent ++ (take chunk_size w.buf ∷ []) }) in
    if leb chunk_size (length w.buf)
    then (if w.closed then (err other, record w { buf = rest }) else onward)
    else (ok tt, w)

unfoldable pub write_chunks : Bytes → ChannelWriter → IoResult (Unit {0}) × ChannelWriter
unfolding send_chunks
write_chunks data_bytes w =
    let grown = record w { buf = w.buf ++ data_bytes } in send_chunks (length grown.buf) grown

unfoldable pub flush_chunk : ChannelWriter → IoResult (Unit {0}) × ChannelWriter
flush_chunk w =
    if length w.buf == 0
    then (ok tt, w)
    else if w.closed
    then (err other, record w { buf = [] })
    else (ok tt, record w { buf = []; sent = w.sent ++ (w.buf ∷ []) })
