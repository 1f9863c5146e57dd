-- ===== src/Stream/Tests.antt =====
-- Concrete inputs for the theorems on streams.
use pbsgui.Base.{[], arith, length, ok, refl, some, true, ◌++◌, ◌<◌, ◌∷◌, ◌≡◌}
use pbsgui.Base.Bytes.{Bytes}
use pbsgui.Stream.Reader.{ChannelReader, new, read, verdict_of}
use pbsgui.Stream.Reader.Refines.{Reads, left, read-Reads}
use pbsgui.Stream.Writer.{opened}
use pbsgui.Stream.Chunks.{chunk_size, write_chunks}
use pbsgui.Stream.Chunks.Whole.{ChunksAfter, write_chunks-whole}
use pbsgui.Stream.Pipe.{write_all, read_to_end, Holds, held, read_to_end-write_all}

abbrev piece : Bytes
piece = 1 ∷ 2 ∷ 3 ∷ []

abbrev reader : ChannelReader
reader = new (piece ∷ [] ∷ piece ∷ []) (some true)

read-Reads_example :
    Reads 2 (verdict_of reader) (left reader) (left (read 2 reader).1) (read 2 reader).0
    × (verdict_of (read 2 reader).1 ≡ verdict_of reader)
read-Reads_example = read-Reads 2 reader (omega arith)

read_to_end-write_all_example :
    ((write_all (piece ∷ piece ∷ []) opened).0 ≡ ok tt)
    × (read_to_end 7 4 (new (write_all (piece ∷ piece ∷ []) opened).1.sent (some true))
        ≡ ok (piece ++ piece))
read_to_end-write_all_example =
    read_to_end-write_all (piece ∷ piece ∷ []) (some true) 7 4 (omega arith) (omega arith)

write_chunks-whole_example :
    Holds (held opened ++ piece) (write_chunks piece opened)
    × (length (write_chunks piece opened).1.buf < chunk_size)
    × ChunksAfter opened.sent (write_chunks piece opened).1.sent
write_chunks-whole_example = write_chunks-whole piece opened refl
