-- ===== src/Engine/Store.antt =====
-- crates/pbsgui-engine/src/connstore.rs and jobstore.rs: the list stores of the engine.
pub mod Laws
pub mod Reload
pub mod Jobs
use pbsgui.Base.{
  Bool, List, Option, Text, [], err, filter, find, if◌then◌else◌, list_eq, map, none, not, ok, some,
  ◌++◌, ◌∷◌,
}
use pbsgui.Base.Bytes.{Bytes}
use mathlib.Core.Option
use pbsgui.Core.Signed.{StoreError, StoreResult, Crates, Found, serialize, load_list}

-- `trait HasId`
pub record HasId (T : Type 0) : Type 0 where
  pub id : T → Text

-- A store, with what its file holds.
pub record Store (T : Type 0) : Type 0 where
  pub items : List T
  pub load_error : Option StoreError
  pub file : Found

module _ {T : Type 0} ⦃h : HasId T⦄ where
  abbrev pub has_id : Text → T → Bool
  has_id key x = list_eq (h.id x) key

  -- Changes the first element of that id, or answers `none`.
  unfoldable pub replace_first : Text → (T → T) → List T → Option (List T)
  replace_first key f [] = none
  replace_first key f (x ∷ xs) =
      let rest = Option.map (λ r. x ∷ r) (replace_first key f xs) in
      if has_id key x then some (f x ∷ xs) else rest

  -- `match items.iter_mut().find(…) { Some(slot) => *slot = item, None => items.push(item) }`
  unfoldable pub upsert : T → List T → List T
  unfolding replace_first
  upsert item xs = elim (replace_first (h.id item) (λ _. item) xs) [
    | none ↦ xs ++ (item ∷ [])
    | some ys ↦ ys
  ]

  -- `if let Some(job) = jobs.iter_mut().find(…) { … }`
  unfoldable pub update_first : Text → (T → T) → List T → List T
  unfolding replace_first
  update_first key f xs = elim (replace_first key f xs) [ none ↦ xs | some ys ↦ ys ]

  unfoldable pub remove : Text → List T → List T
  remove key xs = filter (λ x. not (has_id key x)) xs

  unfoldable pub get : Text → List T → Option T
  get key xs = find (has_id key) xs

module _ {T : Type 0} (c : Crates T) where
  -- `with_path`: the store that the file gives.
  unfoldable pub with_path : Found → Store T
  with_path found =
      let (items, load_error) = load_list c found in
      record { items = items; load_error = load_error; file = found }

  -- `ensure_writable`, before `k`.
  abbrev writable : Store T → StoreResult (Unit {0}) × Store T → StoreResult (Unit {0}) × Store T
  writable s k = elim s.load_error [ some e ↦ (err e, s) | none ↦ k ]

  -- Serializing and `write_atomic`, whose outcome is `w`: the file changes as a whole, or not at all.
  unfoldable pub write_items : StoreResult (Unit {0}) → Store T → StoreResult (Unit {0}) × Store T
  write_items w s = elim (serialize c s.items) [
    | err e ↦ (err e, s)
    | ok bytes ↦ elim w [
      | err e ↦ (err e, s)
      | ok _ ↦ (ok tt, record s { file = Found.contents bytes })
    ]
  ]

  unfoldable pub persist : StoreResult (Unit {0}) → Store T → StoreResult (Unit {0}) × Store T
  unfolding write_items
  persist w s = writable s (write_items w s)

  -- A change to the list, under the lock, and then `persist`.
  unfoldable pub mutate :
      (List T → List T) → StoreResult (Unit {0}) → Store T → StoreResult (Unit {0}) × Store T
  unfolding persist
  mutate f w s = writable s (persist w (record s { items = f s.items }))

  module _ ⦃h : HasId T⦄ where
    -- `save` and `save_job`
    unfoldable pub save : T → StoreResult (Unit {0}) → Store T → StoreResult (Unit {0}) × Store T
    unfolding mutate upsert
    save item = mutate (upsert item)

    unfoldable pub delete :
        Text → StoreResult (Unit {0}) → Store T → StoreResult (Unit {0}) × Store T
    unfolding mutate remove
    delete key = mutate (remove key)

    -- The first element of that id is changed, as `record_run` does.
    unfoldable pub update :
        Text → (T → T) → StoreResult (Unit {0}) → Store T → StoreResult (Unit {0}) × Store T
    unfolding mutate update_first
    update key f = mutate (update_first key f)
