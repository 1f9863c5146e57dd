-- ===== src/Relay/Proto.antt =====
-- crates/pbsgui-engine/src/relay/proto.rs: the frames of a relay connection.
pub mod Frames
pub mod Cut
pub mod Sound
use pbsgui.Base.{
  Bool, Option, Text, [], drop, err, if◌then◌else◌, leb, length, ltb, none, ok, some, take, ℕ, ◌*◌,
  ◌++◌, ◌==◌, ◌>>=◌, ◌∷◌, ◌≡◌,
}
use pbsgui.Base.Bytes.{Bytes, to_le, from_le}
use pbsgui.Stream.{IoResult, unexpected_eof, invalid_input, invalid_data}

abbrev pub relay_proto_version : ℕ
relay_proto_version = 1

abbrev pub default_relay_port : ℕ
default_relay_port = 8317

abbrev pub max_frame : ℕ
max_frame = 16 * 1024 * 1024

abbrev pub kind_control : ℕ
kind_control = 0

abbrev pub kind_data : ℕ
kind_data = 1

pub data ControlMsg : Type 0 where
  -- Agent to proxy, on the control connection: name, host, token, version and protocol; session, verdict, error and bytes.
  register : Text → Text → Text → Text → ℕ → ControlMsg
  session_done : Text → Bool → Option Text → ℕ → ControlMsg
  pong : ControlMsg
  -- Proxy to agent: session, instance and the name of the device set.
  registered : Bool → Text → ControlMsg
  start_backup : Text → Option Text → Text → ControlMsg
  start_restore : Text → Option Text → Text → ControlMsg
  cancel : Text → ControlMsg
  ping : ControlMsg
  -- On a data connection: session and token; verdict and error.
  hello : Text → Text → ControlMsg
  end_msg : Bool → Option Text → ControlMsg

pub data Frame : Type 0 where
  control : ControlMsg → Frame
  data_frame : Bytes → Frame

-- The crate serde_json, on a `ControlMsg`.
pub record Json : Type 0 where
  pub to_vec : ControlMsg → Option Bytes
  pub from_slice : Bytes → Option ControlMsg

pub record JsonLaws (j : Json) : Type 0 where
  pub from_slice-to_vec :
      (m : ControlMsg) (bytes : Bytes) → j.to_vec m ≡ some bytes → j.from_slice bytes ≡ some m

-- `r.read_exact(&mut buf)` of `n` bytes, where `r` is what the peer still has to say before it closes.
unfoldable pub read_exact : ℕ → Bytes → IoResult (Bytes × Bytes)
read_exact n r = if leb n (length r) then ok (take n r, drop n r) else err unexpected_eof

-- What the function puts on the wire.
unfoldable pub write_raw : ℕ → Bytes → IoResult Bytes
write_raw kind payload =
    if leb (length payload) max_frame
    then ok ((kind ∷ to_le 4 (length payload)) ++ payload)
    else err invalid_input

unfoldable pub write_data : Bytes → IoResult Bytes
unfolding write_raw
write_data payload = write_raw kind_data payload

module _ (j : Json) where
  unfoldable pub write_control : ControlMsg → IoResult Bytes
  unfolding write_raw
  write_control msg = elim (j.to_vec msg) [
    | none ↦ err invalid_data
    | some payload ↦ write_raw kind_control payload
  ]

  unfoldable pub write_frame : Frame → IoResult Bytes
  unfolding write_raw
  write_frame (control msg) = elim (j.to_vec msg) [
    | none ↦ err invalid_data
    | some payload ↦ write_raw kind_control payload
  ]
  write_frame (data_frame bytes) = write_raw kind_data bytes

  -- The last `match`, on the kind and the payload.
  unfoldable pub frame_of : ℕ → Bytes → IoResult Frame
  frame_of kind payload =
      if kind == kind_control
      then elim (j.from_slice payload) [ none ↦ err invalid_data | some msg ↦ ok (control msg) ]
      else if kind == kind_data
      then ok (data_frame payload)
      else err invalid_data

  -- The payload behind a header.
  unfoldable pub read_payload : ℕ → ℕ → Bytes → IoResult (Option Frame × Bytes)
  unfolding frame_of read_exact
  read_payload kind len r = if ltb max_frame len then err invalid_data else do
    (payload, rest) ← read_exact len r
    frame ← frame_of kind payload
    ok (some frame, rest)

  -- The answer and what is left to read.
  unfoldable pub read_frame : Bytes → IoResult (Option Frame × Bytes)
  unfolding read_payload read_exact
  read_frame [] = ok (none, [])
  read_frame (kind ∷ r) = do (size, body) ← read_exact 4 r; read_payload kind (from_le size) body
