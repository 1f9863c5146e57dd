-- ===== src/Engine/Store/Laws.antt =====
-- The list of a store as a map from ids.
use pbsgui.Base.{
  Bool-cases, List, Option-cases, Text, [], ap, false, inl, inr, list_eq_iff, list_eq_refl, none,
  refl, some, sym, true, ◌++◌, ◌∙◌, ◌∷◌, ◌≡◌, ◌≢◌,
}
use mathlib.Core.Option
use pbsgui.Engine.Store.{HasId, has_id, replace_first, get, upsert, remove}

module _ {T : Type 0} ⦃h : HasId T⦄ where
  has_id_self : (x : T) → has_id (h.id x) x ≡ true
  has_id_self x = list_eq_refl (h.id x)

  -- Two different ids do not fit one element.
  has_id_other : (a b : Text) (x : T) → a ≢ b → has_id a x ≡ true → has_id b x ≡ false
  has_id_other a b x ne hit = elim (Bool-cases (has_id b x)) [
    | inl both ↦
        absurd (ne (sym ((list_eq_iff (h.id x) a).0 hit) ∙ (list_eq_iff (h.id x) b).0 both))
    | inr miss ↦ miss
  ]

  get_hit : (key : Text) (x : T) (xs : List T) → has_id key x ≡ true → get key (x ∷ xs) ≡ some x
  unfolding get
  get_hit key x xs e = rw e

  get_miss :
      (key : Text) (x : T) (xs : List T) → has_id key x ≡ false → get key (x ∷ xs) ≡ get key xs
  unfolding get
  get_miss key x xs e = rw e

  replace_hit :
      (key : Text) (f : T → T) (x : T) (xs : List T)
      → has_id key x ≡ true
      → replace_first key f (x ∷ xs) ≡ some (f x ∷ xs)
  unfolding replace_first
  replace_hit key f x xs e = rw e

  replace_miss :
      (key : Text) (f : T → T) (x : T) (xs : List T)
      → has_id key x ≡ false
      → replace_first key f (x ∷ xs) ≡ Option.map (λ r. x ∷ r) (replace_first key f xs)
  unfolding replace_first
  replace_miss key f x xs e = rw e

  upsert_found :
      (item : T) (xs ys : List T)
      → replace_first (h.id item) (λ _. item) xs ≡ some ys
      → upsert item xs ≡ ys
  unfolding upsert
  upsert_found item xs ys e = rw (e, upsert)

  upsert_new :
      (item : T) (xs : List T)
      → replace_first (h.id item) (λ _. item) xs ≡ none
      → upsert item xs ≡ xs ++ (item ∷ [])
  unfolding upsert
  upsert_new item xs e = rw (e, upsert)

  upsert_hit :
      (item x : T) (xs : List T) → has_id (h.id item) x ≡ true → upsert item (x ∷ xs) ≡ item ∷ xs
  upsert_hit item x xs e =
      upsert_found item (x ∷ xs) (item ∷ xs) (replace_hit (h.id item) (λ _. item) x xs e)

  upsert_miss :
      (item x : T) (xs : List T)
      → has_id (h.id item) x ≡ false
      → upsert item (x ∷ xs) ≡ x ∷ upsert item xs
  upsert_miss item x xs e =
      let step = replace_miss (h.id item) (λ _. item) x xs e in
      elim (Option-cases (replace_first (h.id item) (λ _. item) xs)) [
        | inl fresh ↦
            upsert_new item (x ∷ xs) (step ∙ ap (Option.map (λ r. x ∷ r)) fresh)
            ∙ ap (λ r. x ∷ r) (sym (upsert_new item xs fresh))
        | inr (ys, found) ↦
            upsert_found item (x ∷ xs) (x ∷ ys) (step ∙ ap (Option.map (λ r. x ∷ r)) found)
            ∙ ap (λ r. x ∷ r) (sym (upsert_found item xs ys found))
      ]

  -- After `upsert item`, the item is found under its id.
  pub get-upsert_same : (item : T) (xs : List T) → get (h.id item) (upsert item xs) ≡ some item
  unfolding upsert
  get-upsert_same item [] = get_hit (h.id item) item [] (has_id_self item)
  get-upsert_same item (x ∷ xs) = elim (Bool-cases (has_id (h.id item) x)) [
    | inl hit ↦
        ap (get (h.id item)) (upsert_hit item x xs hit)
        ∙ get_hit (h.id item) item xs (has_id_self item)
    | inr miss ↦
        ap (get (h.id item)) (upsert_miss item x xs miss)
        ∙ get_miss (h.id item) x (upsert item xs) miss
        ∙ get-upsert_same item xs
  ]

  -- No other id is affected.
  pub get-upsert_other :
      (item : T) (key : Text)
      → key ≢ h.id item
      → (xs : List T) → get key (upsert item xs) ≡ get key xs
  unfolding upsert
  get-upsert_other item key ne [] =
      get_miss key item [] (has_id_other (h.id item) key item (λ e. ne (sym e)) (has_id_self item))
  get-upsert_other item key ne (x ∷ xs) = elim (Bool-cases (has_id (h.id item) x)) [
    | inl hit ↦
        ap (get key) (upsert_hit item x xs hit)
        ∙ get_miss key item xs
            (has_id_other (h.id item) key item (λ e. ne (sym e)) (has_id_self item))
        ∙ sym (get_miss key x xs (has_id_other (h.id item) key x (λ e. ne (sym e)) hit))
    | inr miss ↦ ap (get key) (upsert_miss item x xs miss) ∙ elim (Bool-cases (has_id key x)) [
      | inl found ↦ get_hit key x (upsert item xs) found ∙ sym (get_hit key x xs found)
      | inr other ↦
          get_miss key x (upsert item xs) other
          ∙ get-upsert_other item key ne xs
          ∙ sym (get_miss key x xs other)
    ]
  ]

  remove_hit :
      (key : Text) (x : T) (xs : List T) → has_id key x ≡ true → remove key (x ∷ xs) ≡ remove key xs
  unfolding remove
  remove_hit key x xs e = rw e

  remove_miss :
      (key : Text) (x : T) (xs : List T)
      → has_id key x ≡ false
      → remove key (x ∷ xs) ≡ x ∷ remove key xs
  unfolding remove
  remove_miss key x xs e = rw e

  pub get-remove_same : (key : Text) (xs : List T) → get key (remove key xs) ≡ none
  unfolding get remove
  get-remove_same key [] = refl
  get-remove_same key (x ∷ xs) = elim (Bool-cases (has_id key x)) [
    | inl hit ↦ ap (get key) (remove_hit key x xs hit) ∙ get-remove_same key xs
    | inr miss ↦
        ap (get key) (remove_miss key x xs miss)
        ∙ get_miss key x (remove key xs) miss
        ∙ get-remove_same key xs
  ]

  pub get-remove_other :
      (key other : Text) → other ≢ key → (xs : List T) → get other (remove key xs) ≡ get other xs
  unfolding get remove
  get-remove_other key other ne [] = refl
  get-remove_other key other ne (x ∷ xs) = elim (Bool-cases (has_id key x)) [
    | inl hit ↦
        ap (get other) (remove_hit key x xs hit)
        ∙ get-remove_other key other ne xs
        ∙ sym (get_miss other x xs (has_id_other key other x (λ e. ne (sym e)) hit))
    | inr miss ↦ ap (get other) (remove_miss key x xs miss) ∙ elim (Bool-cases (has_id other x)) [
      | inl found ↦ get_hit other x (remove key xs) found ∙ sym (get_hit other x xs found)
      | inr absent ↦
          get_miss other x (remove key xs) absent
          ∙ get-remove_other key other ne xs
          ∙ sym (get_miss other x xs absent)
    ]
  ]
