-- ===== src/Stream/Reader.antt =====
-- crates/pbsgui-engine/src/sql/vdi.rs: `ChannelReader`, the reading end of a stream; that of the Active Directory engine
-- (crates/pbsgui-ad-engine/src/stream.rs) is the same but for the text of its error.
pub mod Refines
use pbsgui.Base.{
  Bool, List, Option, [], err, false, if◌then◌else◌, length, ltb, min, none, ok, slice, some, ℕ,
  ◌+◌, ◌-◌, ◌∷◌,
}
use pbsgui.Base.Bytes.{Bytes}
use pbsgui.Stream.{IoResult, unexpected_eof}

-- `rx` is the buffers that arrive until its senders drop, `done` the verdict that arrives, or none where its sender drops.
pub record ChannelReader : Type 0 where
  pub rx : List Bytes
  pub done : Option Bool
  pub buf : Bytes
  pub pos : ℕ
  pub verdict : Option Bool

unfoldable pub new : List Bytes → Option Bool → ChannelReader
new rx done = record { rx = rx; done = done; buf = []; pos = 0; verdict = none }

-- The loop that receives buffers until one has a byte that is not read, or none is left.
unfoldable pub receive : List Bytes → Bytes → ℕ → List Bytes × Bytes × ℕ
receive [] buf pos = ([], buf, pos)
receive (next ∷ rest) buf pos =
    let received = receive rest next 0 in
    if ltb pos (length buf) then (next ∷ rest, buf, pos) else received

-- `self.verdict`, or what `done` gives, where a dropped sender counts as `false`.
unfoldable pub verdict_of : ChannelReader → Bool
verdict_of r = elim r.verdict [ some v ↦ v | none ↦ elim r.done [ some v ↦ v | none ↦ false ] ]

-- `read`, into a buffer of `size` bytes.
unfoldable pub read : ℕ → ChannelReader → IoResult Bytes × ChannelReader
unfolding receive verdict_of
read size r =
    let (rx, buf, pos) = receive r.rx r.buf r.pos in
    if ltb pos (length buf)
    then (let n = min (length buf - pos) size in
        (ok (slice pos (pos + n) buf), record r { rx = rx; buf = buf; pos = pos + n }))
    else (
      if verdict_of r then ok [] else err unexpected_eof,
      record r { rx = rx; buf = buf; pos = pos; verdict = some (verdict_of r) },
    )
