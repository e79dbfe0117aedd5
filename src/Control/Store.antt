-- ===== src/Control/Store.antt =====
-- What mocko-control/lib/store/store.ts asks of the store of one kind of own items (mocks, hosts or
-- callbacks), each with an id: the operations, and what they do to the list of items.
pub mod Memory
pub mod Redis
pub mod Agreement
use mocko.Base.{
  ◌≡◌, Text, Bool, not, Option, none, some, List, [], ◌∷◌, any, filter, find, ◌==◌, text_eq,
  if◌then◌else◌,
}

module _ {T : Type 0} (id_of : T → Text) where
  abbrev pub has_id : Text → T → Bool
  has_id id item = id_of item == id

  -- the item in the place of the first that has its id, or else at the end
  unfoldable pub put : T → List T → List T
  put item [] = item ∷ []
  put item (x ∷ xs) = if id_of x == id_of item then item ∷ xs else x ∷ put item xs

  abbrev pub without : Text → List T → List T
  without id items = filter (λ item. not (id_of item == id)) items

  pub record OwnStore : Type 1 where
    pub State : Type 0
    pub IsValid : State → Type 0
    pub list : State → List T
    pub get : Text → State → Option T
    pub save : T → State → State
    pub delete : Text → State → Bool × State
    pub save-IsValid : (item : T) (s : State) → IsValid s → IsValid (save item s)
    pub delete-IsValid : (id : Text) (s : State) → IsValid s → IsValid (delete id s).1
    pub get-eq-find : (id : Text) (s : State) → IsValid s → get id s ≡ find (has_id id) (list s)
    pub list-save : (item : T) (s : State) → IsValid s → list (save item s) ≡ put item (list s)
    pub list-delete :
        (id : Text) (s : State) → IsValid s → list (delete id s).1 ≡ without id (list s)
    pub delete_iff :
        (id : Text) (s : State) → IsValid s → (delete id s).0 ≡ any (has_id id) (list s)
