-- ===== src/Core/Signed/RoundTrip.antt =====
-- crates/pbsgui-core/src/signed.rs: a signed store reads back.
use pbsgui.Base.{List, Option-cases, inl, inr, list_eq_refl, ok, ok-injective, some, ◌≡◌}
use pbsgui.Base.Bytes.{Bytes}
use pbsgui.Core.Signed.{Envelope, Crates, CratesLaws, serialize, verify_envelope, deserialize}

deserialize-envelope :
    {T : Type 0} (c : Crates T) (bytes : Bytes) (env : Envelope)
    → c.parse_envelope bytes ≡ some env
    → deserialize c bytes ≡ verify_envelope c env
unfolding deserialize
deserialize-envelope c bytes env shape = rw (shape, deserialize)

-- What `serialize` wrote, where it succeeds, `deserialize` accepts under the same key, and reads back as the same items.
pub deserialize-serialize :
    {T : Type 0} (c : Crates T) (laws : CratesLaws c) (xs : List T) (bytes : Bytes)
    → serialize c xs ≡ ok bytes
    → deserialize c bytes ≡ ok xs
unfolding serialize verify_envelope
deserialize-serialize c laws xs bytes e = elim (Option-cases c.signing_key) [
  | inl lost ↦ cc (rw lost at e)
  | inr (key, found) ↦
      let text : Bytes = c.print xs in
      let env : Envelope = record { mac = c.encode (c.tag key text); data_text = text } in
      let written : c.print_envelope env ≡ bytes = ok-injective (rw found at e) in
      rw (
        ← written,
        deserialize-envelope c _ env (laws.parse_envelope-print env),
        found,
        laws.decode-encode (c.tag key text),
        list_eq_refl (c.tag key text),
        laws.parse-print xs,
      )
]
