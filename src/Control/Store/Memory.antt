-- ===== src/Control/Store/Memory.antt =====
-- mocko-control/lib/store/memory-store.ts: a map from ids to items. The three kinds of items have the
-- same code.
use mocko.Base.{◌≡◌, refl, Text, Bool, Option, List, [], ◌∷◌, arith, any, find, is_some, text_eq}
use mocko.Base.Dict
use mocko.Base.Dict.{Dict, NodupKeys, set-NodupKeys, delete-NodupKeys}
use mocko.Control.Store.{has_id, put, without, OwnStore}

module _ {T : Type 0} (id_of : T → Text) where
  unfoldable pub list : Dict Text T → List T
  list s = Dict.values s

  unfoldable pub get : Text → Dict Text T → Option T
  get id s = Dict.get id s

  unfoldable pub save : T → Dict Text T → Dict Text T
  save item s = Dict.set (id_of item) item s

  unfoldable pub delete : Text → Dict Text T → Bool × Dict Text T
  delete id s = (is_some (Dict.get id s), Dict.delete id s)

  abbrev pub IsKeyed : Dict Text T → Type 0
  IsKeyed [] = Unit
  IsKeyed ((k, item) ∷ s) = (k ≡ id_of item) × IsKeyed s

  pub record IsValid (s : Dict Text T) : Type 0 where
    pub nodup : NodupKeys s
    pub keyed : IsKeyed s

  pub set-IsKeyed :
      (item : T) (s : Dict Text T) → IsKeyed s → IsKeyed (Dict.set (id_of item) item s)
  unfolding Dict.set
  set-IsKeyed item [] h = (refl, tt)
  set-IsKeyed item ((k, x) ∷ s) h = ground (arith, set-IsKeyed item s h.1)

  delete-IsKeyed : (id : Text) (s : Dict Text T) → IsKeyed s → IsKeyed (Dict.delete id s)
  unfolding Dict.delete
  delete-IsKeyed id [] h = tt
  delete-IsKeyed id ((k, x) ∷ s) h = ground (arith, delete-IsKeyed id s h.1)

  pub get-find :
      (id : Text) (s : Dict Text T)
      → IsKeyed s
      → Dict.get id s ≡ find (has_id id_of id) (Dict.values s)
  unfolding Dict.get
  get-find id [] h = refl
  get-find id ((k, x) ∷ s) h = ground (arith, get-find id s h.1)

  values-set :
      (item : T) (s : Dict Text T)
      → IsKeyed s
      → Dict.values (Dict.set (id_of item) item s) ≡ put id_of item (Dict.values s)
  unfolding Dict.set put
  values-set item [] h = refl
  values-set item ((k, x) ∷ s) h = ground (arith, values-set item s h.1)

  values-delete :
      (id : Text) (s : Dict Text T)
      → IsKeyed s
      → Dict.values (Dict.delete id s) ≡ without id_of id (Dict.values s)
  unfolding Dict.delete
  values-delete id [] h = refl
  values-delete id ((k, x) ∷ s) h = ground (arith, values-delete id s h.1)

  any-get :
      (id : Text) (s : Dict Text T)
      → IsKeyed s
      → is_some (Dict.get id s) ≡ any (has_id id_of id) (Dict.values s)
  unfolding Dict.get
  any-get id [] h = refl
  any-get id ((k, x) ∷ s) h = ground (arith, any-get id s h.1)

  pub save-IsValid : (item : T) (s : Dict Text T) → IsValid s → IsValid (save item s)
  unfolding save
  save-IsValid item s v = record {
    nodup = set-NodupKeys (id_of item) item s v.nodup;
    keyed = set-IsKeyed item s v.keyed;
  }

  pub delete-IsValid : (id : Text) (s : Dict Text T) → IsValid s → IsValid (delete id s).1
  unfolding delete
  delete-IsValid id s v = record {
    nodup = delete-NodupKeys id s v.nodup;
    keyed = delete-IsKeyed id s v.keyed;
  }

  pub list-save :
      (item : T) (s : Dict Text T) → IsValid s → list (save item s) ≡ put id_of item (list s)
  unfolding list save
  list-save item s v = values-set item s v.keyed

  pub list-delete :
      (id : Text) (s : Dict Text T) → IsValid s → list (delete id s).1 ≡ without id_of id (list s)
  unfolding list delete
  list-delete id s v = values-delete id s v.keyed

  pub get-eq-find :
      (id : Text) (s : Dict Text T) → IsValid s → get id s ≡ find (has_id id_of id) (list s)
  unfolding list get
  get-eq-find id s v = get-find id s v.keyed

  pub delete_iff :
      (id : Text) (s : Dict Text T) → IsValid s → (delete id s).0 ≡ any (has_id id_of id) (list s)
  unfolding list delete
  delete_iff id s v = any-get id s v.keyed

  -- The map implements the store.
  unfoldable pub memory_store : OwnStore id_of
  memory_store = record {
    State = Dict Text T;
    IsValid = IsValid;
    list = list;
    get = get;
    save = save;
    delete = delete;
    save-IsValid = save-IsValid;
    delete-IsValid = delete-IsValid;
    get-eq-find = get-eq-find;
    list-save = list-save;
    list-delete = list-delete;
    delete_iff = delete_iff;
  }
