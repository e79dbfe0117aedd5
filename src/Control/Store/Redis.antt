-- ===== src/Control/Store/Redis.antt =====
-- The own items of mocko-control/lib/store/redis-store.ts: an array that each call reads and writes
-- back whole. The three kinds of items have the same code.
use mocko.Base.{
  ℕ, zero, suc, ◌≤◌, ◌≡◌, refl, Text, Bool, true, false, Option, none, some, List, [], ◌∷◌, ◌++◌,
  arith, any, find, length, ◌==◌, nat_eq, text_eq, if◌then◌else◌, Option-cases, inl, inr,
}
use mocko.Control.Store.{has_id, put, without, OwnStore}

module _ {T : Type 0} (id_of : T → Text) where
  -- `items.findIndex((item) => item.id === id)`; none is -1
  unfoldable pub find_index : Text → List T → Option ℕ
  find_index id [] = none
  find_index id (x ∷ xs) =
      let later : Option ℕ = elim (find_index id xs) [ none ↦ none | some i ↦ some (suc i) ] in
      if id_of x == id then some 0 else later

  -- `items[index] = item`
  unfoldable pub set_at : ℕ → T → List T → List T
  set_at i item [] = []
  set_at zero item (x ∷ xs) = item ∷ xs
  set_at (suc i) item (x ∷ xs) = x ∷ set_at i item xs

  unfoldable pub save : T → List T → List T
  unfolding find_index set_at
  save item items = elim (find_index (id_of item) items) [
    | none ↦ items ++ item ∷ []
    | some index ↦ set_at index item items
  ]

  unfoldable pub get : Text → List T → Option T
  get id items = find (has_id id_of id) items

  -- `nextItems.length === items.length`
  unfoldable pub delete : Text → List T → Bool × List T
  delete id items =
      if length (without id_of id items) == length items
      then (false, items)
      else (true, without id_of id items)

  pub save-put : (item : T) (items : List T) → save item items ≡ put id_of item items
  unfolding save put
  save-put item [] = refl
  save-put item (x ∷ xs) = elim (Option-cases (find_index (id_of item) xs)) [
    | inl nowhere ↦ ground (arith, save-put item xs)
    | inr (i, there) ↦ ground (arith, save-put item xs)
  ]

  length-without-le : (id : Text) (items : List T) → length (without id_of id items) ≤ length items
  length-without-le id [] = omega arith
  length-without-le id (x ∷ xs) = ground (arith, length-without-le id xs)

  without-same :
      (id : Text) (items : List T)
      → any (has_id id_of id) items ≡ false
      → without id_of id items ≡ items
  without-same id [] h = refl
  without-same id (x ∷ xs) h = ground (arith, without-same id xs)

  same-length :
      (id : Text) (items : List T)
      → length (without id_of id items) ≡ length items
      → any (has_id id_of id) items ≡ false
  same-length id [] h = refl
  same-length id (x ∷ xs) h = ground (arith, same-length id xs, length-without-le id xs)

  pub delete-without : (id : Text) (items : List T) → (delete id items).1 ≡ without id_of id items
  unfolding delete
  delete-without id items = ground (arith, same-length id items, without-same id items)

  pub delete-any : (id : Text) (items : List T) → (delete id items).0 ≡ any (has_id id_of id) items
  unfolding delete
  delete-any id items = ground (arith, same-length id items, without-same id items)

  -- The array implements the store.
  unfoldable pub redis_store : OwnStore id_of
  unfolding get
  redis_store = record {
    State = List T;
    IsValid = λ items. Unit;
    list = λ items. items;
    get = get;
    save = save;
    delete = delete;
    save-IsValid = λ item s v. tt;
    delete-IsValid = λ id s v. tt;
    get-eq-find = λ id s v. refl;
    list-save = λ item s v. save-put item s;
    list-delete = λ id s v. delete-without id s;
    delete_iff = λ id s v. delete-any id s;
  }
