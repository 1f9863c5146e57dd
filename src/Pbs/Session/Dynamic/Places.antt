-- ===== src/Pbs/Session/Dynamic/Places.antt =====
-- crates/pbs-client/src/session.rs: where a chunk that a dynamic backup refers to is.
use pbsgui.Base.{
  Bool, Bool-cases, List, [], ap, ap₂, false, inl, inr, list_eq, list_eq_refl, map, map-append,
  refl, sym, true, ◌++◌, ◌||◌, ◌∙◌, ◌∷◌, ◌≡◌,
}
use mathlib.Core.Bool.{false≢true}
use pbsgui.Base.Bytes.{Bytes}
use pbsgui.Pbs.Session.Writer.Monad.{Request, dynamic_chunk, append_dynamic}
use pbsgui.Pbs.Session.Dynamic.{has}

-- The digests of the chunks that a log has uploaded.
abbrev pub uploads : List Request → List Bytes
uploads [] = []
uploads (dynamic_chunk wid digest size body ∷ log) = digest ∷ uploads log
uploads (r ∷ log) = uploads log

-- The digests of the append requests of a log, in the order in which they were sent.
abbrev pub appends : List Request → List Bytes
appends [] = []
appends (append_dynamic wid ds offsets ∷ log) = appends log ++ ds
appends (r ∷ log) = appends log

abbrev pub pending : List (Bytes × Bytes) → List Bytes
pending tasks = map (λ t. t.0) tasks

-- Known from the previous snapshot, uploaded in this one, or in a task.
abbrev pub IsCovered : List Bytes → List Request → List (Bytes × Bytes) → Bytes → Type 0
IsCovered known log tasks d = (has d known || (has d (uploads log) || has d (pending tasks))) ≡ true

pub has-append : (d : Bytes) (xs ys : List Bytes) → has d (xs ++ ys) ≡ (has d xs || has d ys)
unfolding has
has-append d [] ys = refl
has-append d (x ∷ xs) ys = elim (Bool-cases (list_eq x d)) [
  | inl hit ↦ rw (hit, has) refl
  | inr miss ↦ rw (miss, has) (has-append d xs ys)
]

or_more : (k u t n : Bool) → (k || (u || t)) ≡ true → (k || (u || (t || n))) ≡ true
or_more true u t n h = refl
or_more false true t n h = refl
or_more false false true n h = refl
or_more false false false n h = absurd (false≢true h)

or_here : (k u t : Bool) → (k || (u || (t || true))) ≡ true
or_here true u t = refl
or_here false true t = refl
or_here false false true = refl
or_here false false false = refl

or_moved :
    (k u x b a : Bool) → (k || (u || (b || (x || a)))) ≡ true → (k || ((x || u) || (b || a))) ≡ true
or_moved true u x b a h = refl
or_moved false true true b a h = refl
or_moved false true false b a h = refl
or_moved false false true b a h = refl
or_moved false false false true a h = refl
or_moved false false false false true h = refl
or_moved false false false false false h = absurd (false≢true h)

module _ (known : List Bytes) (log : List Request) (tasks : List (Bytes × Bytes)) where
  pending-grown :
      (d : Bytes) (task : Bytes × Bytes)
      → has d (pending (tasks ++ task ∷ [])) ≡ (has d (pending tasks) || has d (task.0 ∷ []))
  pending-grown d task =
      ap (has d) (map-append (λ (t : Bytes × Bytes). t.0) tasks (task ∷ []))
      ∙ has-append d (pending tasks) (task.0 ∷ [])

  pub IsCovered-grown :
      (task : Bytes × Bytes) (d : Bytes)
      → IsCovered known log tasks d
      → IsCovered known log (tasks ++ task ∷ []) d
  IsCovered-grown task d h =
      ap (λ b. has d known || (has d (uploads log) || b)) (pending-grown d task)
      ∙ or_more (has d known) (has d (uploads log)) (has d (pending tasks)) (has d (task.0 ∷ [])) h

  pub IsCovered-new : (d data_bytes : Bytes) → IsCovered known log (tasks ++ (d, data_bytes) ∷ []) d
  unfolding has
  IsCovered-new d data_bytes =
      ap (λ b. has d known || (has d (uploads log) || b))
        (pending-grown d (d, data_bytes)
          ∙ ap (λ b. has d (pending tasks) || (b || false)) (list_eq_refl d))
      ∙ or_here (has d known) (has d (uploads log)) (has d (pending tasks))

pub IsCovered-known :
    (known : List Bytes) (log : List Request) (tasks : List (Bytes × Bytes)) (d : Bytes)
    → has d known ≡ true
    → IsCovered known log tasks d
IsCovered-known known log tasks d seen =
    ap (λ b. b || (has d (uploads log) || has d (pending tasks))) seen

pub IsCovered-ended :
    (known : List Bytes) (log log' : List Request) (before after : List (Bytes × Bytes))
    (task : Bytes × Bytes) (d : Bytes)
    → uploads log' ≡ task.0 ∷ uploads log
    → IsCovered known log (before ++ task ∷ after) d
    → IsCovered known log' (before ++ after) d
unfolding has
IsCovered-ended known log log' before after task d sent h =
    let split : has d (pending (before ++ task ∷ after))
        ≡ (has d (pending before) || (list_eq task.0 d || has d (pending after))) =
      ap (has d) (map-append (λ (t : Bytes × Bytes). t.0) before (task ∷ after))
      ∙ has-append d (pending before) (pending (task ∷ after)) in
    let joined : has d (pending (before ++ after))
        ≡ (has d (pending before) || has d (pending after)) =
      ap (has d) (map-append (λ (t : Bytes × Bytes). t.0) before after)
      ∙ has-append d (pending before) (pending after) in
    ap₂ (λ u b. has d known || (u || b)) (ap (has d) sent) joined
    ∙ or_moved (has d known) (has d (uploads log)) (list_eq task.0 d) (has d (pending before))
        (has d (pending after))
        (ap (λ b. has d known || (has d (uploads log) || b)) (sym split) ∙ h)
