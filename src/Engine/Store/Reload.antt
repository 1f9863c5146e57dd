-- ===== src/Engine/Store/Reload.antt =====
-- What a store's file holds after a change.
use pbsgui.Base.{
  List, Option-cases, Result-cases, Text, [], ap, err, inl, inr, none, ok, refl, some, sym, ◌∙◌,
  ◌≡◌, ◌≢◌, ◌⊎◌,
}
use mathlib.Core.Path.{subst}
use pbsgui.Base.Bytes.{Bytes}
use pbsgui.Core.Signed.{
  StoreError, StoreResult, Crates, contents, serialize, load_list, CratesLaws, deserialize, refused,
}
use pbsgui.Core.Signed.RoundTrip.{deserialize-serialize}
use pbsgui.Engine.Store.Laws.{get-upsert_same, get-upsert_other, get-remove_same, get-remove_other}
use pbsgui.Engine.Store.{
  Store, with_path, write_items, persist, mutate, save, delete, update, HasId, get, upsert, remove,
  update_first,
}

module _ {T : Type 0} (c : Crates T) where
  write_items-cases :
      (w : StoreResult (Unit {0})) (s : Store T)
      → ((bytes : Bytes) × (serialize c s.items ≡ ok bytes)
          × (write_items c w s ≡ (ok tt, record s { file = contents bytes })))
        ⊎ ((e : StoreError) × (write_items c w s ≡ (err e, s)))
  unfolding write_items
  write_items-cases w s = elim (Result-cases (serialize c s.items)) [
    | inr (e, bad) ↦ inr (e, rw (bad, write_items))
    | inl (bytes, good) ↦ elim (Result-cases w) [
      | inr (e, bad) ↦ inr (e, rw (good, bad, write_items))
      | inl (_, written) ↦ inl (bytes, good, rw (good, written, write_items))
    ]
  ]

  mutate_refused :
      (f : List T → List T) (w : StoreResult (Unit {0})) (s : Store T) (e : StoreError)
      → s.load_error ≡ some e
      → mutate c f w s ≡ (err e, s)
  unfolding mutate
  mutate_refused f w s e broken = rw broken

  mutate_open :
      (f : List T → List T) (w : StoreResult (Unit {0})) (s : Store T)
      → s.load_error ≡ none
      → mutate c f w s ≡ write_items c w (record s { items = f s.items })
  unfolding mutate persist
  mutate_open f w s sound = rw (sound, sound)

  mutate-cases :
      (f : List T → List T) (w : StoreResult (Unit {0})) (s : Store T)
      → ((bytes : Bytes) × (s.load_error ≡ none)
          × (serialize c (f s.items) ≡ ok bytes)
          × (mutate c f w s ≡ (
            ok tt,
            record { items = f s.items; load_error = s.load_error; file = contents bytes },
          )))
        ⊎ ((e : StoreError) × (t : Store T) × (mutate c f w s ≡ (err e, t)) × (t.file ≡ s.file))
  mutate-cases f w s = elim (Option-cases s.load_error) [
    | inr (e, broken) ↦ inr (e, s, mutate_refused f w s e broken, refl)
    | inl sound ↦ elim (write_items-cases w (record s { items = f s.items })) [
      | inl (bytes, good, e) ↦ inl (bytes, sound, good, mutate_open f w s sound ∙ e)
      | inr (e, bad) ↦ inr (e, record s { items = f s.items }, mutate_open f w s sound ∙ bad, refl)
    ]
  ]

  -- A change that reports an error leaves the store's file as it was, whatever it did in memory.
  pub mutate-failed :
      (f : List T → List T) (w : StoreResult (Unit {0})) (s t : Store T) (e : StoreError)
      → mutate c f w s ≡ (err e, t)
      → t.file ≡ s.file
  mutate-failed f w s t e failed = elim (mutate-cases f w s) [
    | inl (bytes, sound, good, done) ↦ cc
    | inr (_, kept_store, bad, kept) ↦
        (let same : kept_store ≡ t = ap (λ r. r.1) (sym bad ∙ failed) in rw (← same, kept))
  ]

  -- A change that reports success has put the changed list in memory, and a store loaded from the file it left is the
  -- store in memory: nothing that was acknowledged is lost by a restart.
  pub mutate-saved :
      (laws : CratesLaws c) (f : List T → List T) (w : StoreResult (Unit {0})) (s t : Store T)
      → mutate c f w s ≡ (ok tt, t)
      → (t.items ≡ f s.items) × (with_path c t.file ≡ t)
  unfolding with_path load_list
  mutate-saved laws f w s t done = elim (mutate-cases f w s) [
    | inr (_, _, bad, _) ↦ cc
    | inl (bytes, sound, good, e) ↦
        let same = ap (λ r. r.1) (sym e ∙ done) in
        let back = deserialize-serialize c laws (f s.items) bytes good in
        (ap (λ r. r.items) (sym same), subst (λ r. with_path c r.file ≡ r) same (rw (back, sound)))
  ]

  -- A file that does not verify gives an empty store; every change to it is refused with the error of the load, in
  -- memory and on disk.
  pub unverified_file :
      ⦃h : HasId T⦄ (bytes : Bytes) (e : StoreError)
      → deserialize c bytes ≡ err e
      → (item : T) (key : Text) (f : T → T) (w : StoreResult (Unit {0}))
      → let s = with_path c (contents bytes) in
        (s.items ≡ [])
        × (save c item w s ≡ (err (refused e), s))
        × (delete c key w s ≡ (err (refused e), s))
        × (update c key f w s ≡ (err (refused e), s))
  unfolding with_path load_list save delete update
  unverified_file bytes e bad item key f w =
      let s = with_path c (contents bytes) in
      let broken : s.load_error ≡ some (refused e) = rw bad in
      (
        rw bad,
        mutate_refused (upsert item) w s (refused e) broken,
        mutate_refused (remove key) w s (refused e) broken,
        mutate_refused (update_first key f) w s (refused e) broken,
      )

  -- After a `save` that reports success, a store loaded from the file gives the item under its id, and under any other
  -- id what the store gave before.
  pub save-reloaded :
      ⦃h : HasId T⦄ (laws : CratesLaws c) (item : T) (w : StoreResult (Unit {0})) (s t : Store T)
      (key : Text)
      → save c item w s ≡ (ok tt, t)
      → key ≢ h.id item
      → (get (h.id item) (with_path c t.file).items ≡ some item)
        × (get key (with_path c t.file).items ≡ get key s.items)
  unfolding save
  save-reloaded ⦃h⦄ laws item w s t key done ne =
      let (new_items, reload) = mutate-saved laws (upsert item) w s t done in
      let list : (with_path c t.file).items ≡ upsert item s.items =
        ap (λ r. r.items) reload ∙ new_items in
      (rw (list, get-upsert_same item s.items), rw (list, get-upsert_other item key ne s.items))

  -- After a `delete` that reports success, a store loaded from the file has no item of that id, and gives under any
  -- other id what the store gave before.
  pub delete-reloaded :
      ⦃h : HasId T⦄ (laws : CratesLaws c) (key other : Text) (w : StoreResult (Unit {0}))
      (s t : Store T)
      → delete c key w s ≡ (ok tt, t)
      → other ≢ key
      → (get key (with_path c t.file).items ≡ none)
        × (get other (with_path c t.file).items ≡ get other s.items)
  unfolding delete
  delete-reloaded laws key other w s t done ne =
      let (new_items, reload) = mutate-saved laws (remove key) w s t done in
      let list : (with_path c t.file).items ≡ remove key s.items =
        ap (λ r. r.items) reload ∙ new_items in
      (rw (list, get-remove_same key s.items), rw (list, get-remove_other key other ne s.items))
