-- ===== src/Core/Signed.antt =====
-- crates/pbsgui-core/src/signed.rs: signed list stores.
pub mod RoundTrip
use pbsgui.Base.{
  List, Option, Result, [], err, if◌then◌else◌, list_eq, none, ok, ok_or, some, ◌>>=◌, ◌≡◌,
}
use pbsgui.Base.Bytes.{Bytes}

-- Why a store file is refused, or a write fails.
pub data StoreError : Type 0 where
  no_key bad_json bad_base64 signature_mismatch io_failed : StoreError
  -- `refused_message`, built from the error of the load.
  refused : StoreError → StoreError

abbrev pub StoreResult {ℓ} : Type ℓ → Type ℓ
StoreResult A = Result StoreError A

pub record Envelope : Type 0 where
  pub mac : Bytes
  pub data_text : Bytes

-- The crates serde_json, hmac and base64, and the signing key of this account.
pub record Crates (T : Type 0) : Type 0 where
  pub print : List T → Bytes
  pub parse : Bytes → Option (List T)
  pub print_envelope : Envelope → Bytes
  pub parse_envelope : Bytes → Option Envelope
  pub encode : Bytes → Bytes
  pub decode : Bytes → Option Bytes
  pub tag : Bytes → Bytes → Bytes
  pub signing_key : Option Bytes

-- Printed JSON and base64 read back.
pub record CratesLaws {T : Type 0} (c : Crates T) : Type 0 where
  pub parse-print : (xs : List T) → c.parse (c.print xs) ≡ some xs
  pub parse_envelope-print : (e : Envelope) → c.parse_envelope (c.print_envelope e) ≡ some e
  pub decode-encode : (b : Bytes) → c.decode (c.encode b) ≡ some b

module _ {T : Type 0} (c : Crates T) where
  unfoldable pub serialize : List T → StoreResult Bytes
  serialize value = do
    key ← ok_or c.signing_key no_key
    let text = c.print value
    ok (c.print_envelope (record { mac = c.encode (c.tag key text); data_text = text }))

  -- The branch of `deserialize` for a signed envelope.
  unfoldable pub verify_envelope : Envelope → StoreResult (List T)
  verify_envelope env = do
    key ← ok_or c.signing_key no_key
    expected ← ok_or (c.decode env.mac) bad_base64
    if list_eq (c.tag key env.data_text) expected
        then ok_or (c.parse env.data_text) bad_json
        else err signature_mismatch

  -- A file that is no envelope is read as an unsigned store of an older version.
  unfoldable pub deserialize : Bytes → StoreResult (List T)
  deserialize bytes = elim (c.parse_envelope bytes) [
    | some env ↦ verify_envelope env
    | none ↦ ok_or (c.parse bytes) bad_json
  ]

-- What `std::fs::read` finds at the path.
pub data Found : Type 0 where
  missing unreadable : Found
  contents : Bytes → Found

abbrev loaded : {T : Type 0} → StoreResult (List T) → List T × Option StoreError
loaded (ok items) = (items, none)
loaded (err e) = ([], some (refused e))

unfoldable pub load_list : {T : Type 0} → Crates T → Found → List T × Option StoreError
load_list c missing = ([], none)
load_list c unreadable = loaded (err io_failed)
load_list c (contents bytes) = loaded (deserialize c bytes)
