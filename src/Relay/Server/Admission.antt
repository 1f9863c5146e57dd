-- ===== src/Relay/Server/Admission.antt =====
-- crates/pbsgui-engine/src/relay/server.rs: which agents are admitted.
use pbsgui.Base.{
  ==_iff, Bool-cases, Option-cases, Text, ap, inl, inr, list_eq, list_eq_iff, none, some, sym, ℕ,
  ◌==◌, ◌↔◌, ◌∙◌, ◌≡◌,
}
use mathlib.Core.Bool.{false≢true}
use mathlib.Core.Option.{none-ne-some}
use pbsgui.Base.Maps.{lookup, same_some}
use pbsgui.Relay.Proto.{relay_proto_version}
use pbsgui.Relay.Server.{Shared, refusal_of}

-- No refusal means that the agent speaks this protocol and gave the token it is configured with.
pub refusal_of-none :
    (name token : Text) (proto : ℕ) (s : Shared)
    → (refusal_of name token proto s ≡ none)
      ↔ ((proto ≡ relay_proto_version) × (lookup name s.tokens ≡ some token))
unfolding refusal_of
refusal_of-none name token proto s = elim (Bool-cases (proto == relay_proto_version)) [
  | inr old ↦ (
    λ h. absurd (none-ne-some _ (sym (rw (old, refusal_of) at h))),
    λ k. absurd (false≢true (sym old ∙ (==_iff proto relay_proto_version).1 k.0)),
  )
  | inl speaks ↦ elim (Option-cases (lookup name s.tokens)) [
    | inl unknown ↦ (
      λ h. absurd (none-ne-some _ (sym (rw (speaks, unknown, refusal_of) at h))),
      λ k. absurd (none-ne-some token (sym unknown ∙ k.1)),
    )
    | inr (expected, known) ↦ elim (Bool-cases (list_eq expected token)) [
      | inl same ↦ (
        λ h. (
          (==_iff proto relay_proto_version).0 speaks,
          known ∙ ap (λ t. some t) ((list_eq_iff expected token).0 same),
        ),
        λ k. rw (speaks, known, same),
      )
      | inr other ↦ (
        λ h. absurd (none-ne-some _ (sym (rw (speaks, known, other, refusal_of) at h))),
        λ k.
            absurd (
              false≢true
                (sym other ∙ (list_eq_iff expected token).1 (same_some (sym known ∙ k.1)))),
      )
    ]
  ]
]
