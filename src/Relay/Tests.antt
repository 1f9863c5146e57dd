-- ===== src/Relay/Tests.antt =====
-- Concrete inputs for the theorems on relay frames.
use pbsgui.Base.{All, List, [], arith, err, ok, refl, take, ℕ, ◌++◌, ◌∷◌, ◌≡◌}
use pbsgui.Base.Bytes.{Bytes, IsByte, to_le, from_le}
use pbsgui.Stream.{unexpected_eof}
use pbsgui.Relay.Proto.{
  ping, Frame, control, data_frame, write_raw, write_frame, read_frame, frame_of, read_payload,
  read_exact,
}
use pbsgui.Relay.Messages.{json, json_laws}
use pbsgui.Relay.Proto.Frames.{write_frames, read_frames, read_frames-write_frames}
use pbsgui.Relay.Proto.Cut.{read_frame-cut}
use pbsgui.Relay.Proto.Sound.{read_frame-write_raw}

abbrev frames : List Frame
frames = control ping ∷ data_frame (5 ∷ 6 ∷ []) ∷ []

abbrev wire : Bytes
wire = 0 ∷ 1 ∷ 0 ∷ 0 ∷ 0 ∷ 1 ∷ 1 ∷ 2 ∷ 0 ∷ 0 ∷ 0 ∷ 5 ∷ 6 ∷ []

read_frames-write_frames_example : read_frames json 3 wire ≡ ok frames
unfolding write_frames write_frame write_raw to_le
read_frames-write_frames_example =
    read_frames-write_frames json json_laws frames wire 3 refl (omega arith)

read_frame-cut_example :
    read_frame json (take 6 (1 ∷ 2 ∷ 0 ∷ 0 ∷ 0 ∷ 5 ∷ 6 ∷ [])) ≡ err unexpected_eof
unfolding write_frame write_raw to_le
read_frame-cut_example =
    read_frame-cut json json_laws (data_frame (5 ∷ 6 ∷ [])) (1 ∷ 2 ∷ 0 ∷ 0 ∷ 0 ∷ 5 ∷ 6 ∷ []) 6 refl
      (omega arith) (omega arith)

wire_bytes : All IsByte wire
wire_bytes = ground arith

read_frame-write_raw_example :
    (kind : ℕ) × (payload : Bytes) × (w : Bytes) × (write_raw kind payload ≡ ok w)
    × (frame_of json kind payload ≡ ok (control ping))
    × (wire ≡ w ++ (1 ∷ 2 ∷ 0 ∷ 0 ∷ 0 ∷ 5 ∷ 6 ∷ []))
unfolding read_frame read_payload read_exact frame_of from_le
read_frame-write_raw_example =
    read_frame-write_raw json wire (1 ∷ 2 ∷ 0 ∷ 0 ∷ 0 ∷ 5 ∷ 6 ∷ []) (control ping) wire_bytes refl
