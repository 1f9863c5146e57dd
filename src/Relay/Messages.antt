-- ===== src/Relay/Messages.antt =====
-- Texts of messages for the theorems on relay sessions.
use pbsgui.Base.{Option, [], ap, false, if◌then◌else◌, none, some, sym, true, ◌==◌, ◌∷◌, ◌≡◌}
use mathlib.Core.Option.{none-ne-some}
use pbsgui.Base.Bytes.{Bytes}
use pbsgui.Base.Maps.{same_some}
use pbsgui.Relay.Proto.{
  ControlMsg, register, session_done, pong, registered, start_backup, start_restore, cancel, ping,
  hello, end_msg, Json, JsonLaws,
}

-- An encoding of some of the messages, where an identifier is of one byte.
abbrev parsed : Bytes → Option ControlMsg
parsed (b ∷ c ∷ bs) = if b == 5 then some (hello (c ∷ []) bs) else none
parsed (b ∷ []) =
    if b == 1
    then some ping
    else if b == 2
    then some pong
    else if b == 3
    then some (end_msg true none)
    else none
parsed [] = none

abbrev encoded : ControlMsg → Option Bytes
encoded ping = some (1 ∷ [])
encoded pong = some (2 ∷ [])
encoded (end_msg true none) = some (3 ∷ [])
encoded (hello (c ∷ []) token) = some (5 ∷ c ∷ token)
encoded msg = none

abbrev pub json : Json
json = record { to_vec = encoded; from_slice = parsed }

parsed-encoded : (m : ControlMsg) (bytes : Bytes) → encoded m ≡ some bytes → parsed bytes ≡ some m
parsed-encoded ping bytes e = ap parsed (sym (same_some e))
parsed-encoded pong bytes e = ap parsed (sym (same_some e))
parsed-encoded (end_msg true none) bytes e = ap parsed (sym (same_some e))
parsed-encoded (end_msg true (some x)) bytes e = absurd (none-ne-some bytes e)
parsed-encoded (end_msg false x) bytes e = absurd (none-ne-some bytes e)
parsed-encoded (hello (c ∷ []) token) bytes e = ap parsed (sym (same_some e))
parsed-encoded (hello [] token) bytes e = absurd (none-ne-some bytes e)
parsed-encoded (hello (c ∷ d ∷ cs) token) bytes e = absurd (none-ne-some bytes e)
parsed-encoded (register a b c d n) bytes e = absurd (none-ne-some bytes e)
parsed-encoded (session_done a b c n) bytes e = absurd (none-ne-some bytes e)
parsed-encoded (registered a b) bytes e = absurd (none-ne-some bytes e)
parsed-encoded (start_backup a b c) bytes e = absurd (none-ne-some bytes e)
parsed-encoded (start_restore a b c) bytes e = absurd (none-ne-some bytes e)
parsed-encoded (cancel a) bytes e = absurd (none-ne-some bytes e)

pub json_laws : JsonLaws json
json_laws = record { from_slice-to_vec = parsed-encoded }
