-- ===== src/Callbacks/MemoryRepository/Valid.antt =====
-- The repository's invariant: each entry is stored under its own id, and no id twice.
use mocko.Base.{
  ℕ, ◌≡◌, refl, ◌↔◌, inl, inr, Text, none, some, List, [], ◌∷◌, arith, Elem, filter, is_some,
  text_eq, if◌then◌else◌, Option-cases,
}
use mocko.Base.Dict
use mocko.Base.Dict.{get-set, get-delete, NodupKeys, set-NodupKeys, delete-NodupKeys}
use mocko.Callbacks.Pending.{PendingCallback, count_id}
use mocko.Callbacks.MemoryRepository.{
  Repository, is_due, with_held_at, schedule, list, delete_all, claim_due, claim, hold, cancel,
}

module _ {P : Type 0} where
  abbrev pub KeyedById : Repository P → Type 0
  KeyedById [] = Unit
  KeyedById ((k, p) ∷ s) = (k ≡ p.id) × KeyedById s

  pub record IsValid (s : Repository P) : Type 0 where
    pub nodup : NodupKeys s
    pub keyed : KeyedById s

  set-KeyedById :
      (k : Text) (p : PendingCallback P) (s : Repository P)
      → k ≡ p.id
      → KeyedById s
      → KeyedById (Dict.set k p s)
  unfolding Dict.set
  set-KeyedById k p [] e h = (e, tt)
  set-KeyedById k p ((j, q) ∷ s) e h = ground (arith, set-KeyedById k p s e h.1)

  delete-KeyedById : (k : Text) (s : Repository P) → KeyedById s → KeyedById (Dict.delete k s)
  unfolding Dict.delete
  delete-KeyedById k [] h = tt
  delete-KeyedById k ((j, q) ∷ s) h = ground (arith, delete-KeyedById k s h.1)

  pub id_of_get :
      (k : Text) (s : Repository P) (p : PendingCallback P)
      → KeyedById s
      → Dict.get k s ≡ some p
      → k ≡ p.id
  unfolding Dict.get
  id_of_get k [] p h e = cc
  id_of_get k ((j, q) ∷ s) p h e = ground (arith, id_of_get k s p h.1)

  pub set-IsValid :
      (p : PendingCallback P) (s : Repository P) → IsValid s → IsValid (Dict.set p.id p s)
  set-IsValid p s v = record {
    nodup = set-NodupKeys p.id p s v.nodup;
    keyed = set-KeyedById p.id p s refl v.keyed;
  }

  pub delete-IsValid : (k : Text) (s : Repository P) → IsValid s → IsValid (Dict.delete k s)
  delete-IsValid k s v = record {
    nodup = delete-NodupKeys k s v.nodup;
    keyed = delete-KeyedById k s v.keyed;
  }

  pub delete_all-IsValid :
      (ps : List (PendingCallback P)) (s : Repository P) → IsValid s → IsValid (delete_all ps s)
  unfolding delete_all
  delete_all-IsValid [] s v = v
  delete_all-IsValid (p ∷ ps) s v =
      delete_all-IsValid ps (Dict.delete p.id s) (delete-IsValid p.id s v)

  pub schedule-IsValid :
      (p : PendingCallback P) (s : Repository P) → IsValid s → IsValid (schedule p s)
  unfolding schedule
  schedule-IsValid p s v = set-IsValid p s v

  pub claim_due-IsValid : (now : ℕ) (s : Repository P) → IsValid s → IsValid (claim_due now s).1
  unfolding claim_due
  claim_due-IsValid now s v = delete_all-IsValid (filter (is_due now) (list s)) s v

  pub claim-IsValid : (k : Text) (s : Repository P) → IsValid s → IsValid (claim k s).1
  unfolding claim
  claim-IsValid k s v = ground (arith, delete-IsValid k s v)

  pub hold-IsValid : (k : Text) (t : ℕ) (s : Repository P) → IsValid s → IsValid (hold k t s).1
  unfolding hold
  hold-IsValid k t s v = elim (Option-cases (Dict.get k s)) [
    | inl e ↦ ground arith
    | inr (p, e) ↦ ground (arith, id_of_get k s p v.keyed e, set-IsValid (with_held_at p t) s v)
  ]

  pub cancel-IsValid : (k : Text) (s : Repository P) → IsValid s → IsValid (cancel k s).1
  unfolding cancel
  cancel-IsValid k s v = delete-IsValid k s v

  get_of_Elem :
      (p : PendingCallback P) (s : Repository P)
      → NodupKeys s
      → KeyedById s
      → Elem p (Dict.values s)
      → Dict.get p.id s ≡ some p
  unfolding Dict.get
  get_of_Elem p [] n h m = elim m [ ]
  get_of_Elem p ((j, q) ∷ s) n h (inl e) = ground arith
  get_of_Elem p ((j, q) ∷ s) n h (inr m) = let ih = get_of_Elem p s n.1 h.1 m in ground arith

  Elem-of_get :
      (k : Text) (p : PendingCallback P) (s : Repository P)
      → Dict.get k s ≡ some p
      → Elem p (Dict.values s)
  unfolding Dict.get
  Elem-of_get k p [] e = cc
  Elem-of_get k p ((j, q) ∷ s) e = ground (arith, Elem-of_get k p s)

  -- In a valid repository the values are exactly what `get` finds.
  pub Elem-values_iff :
      (p : PendingCallback P) (s : Repository P)
      → IsValid s
      → Elem p (Dict.values s) ↔ (Dict.get p.id s ≡ some p)
  Elem-values_iff p s v = (get_of_Elem p s v.nodup v.keyed, Elem-of_get p.id p s)

  count_id_absent :
      (k : Text) (s : Repository P)
      → KeyedById s
      → Dict.get k s ≡ none
      → count_id k (Dict.values s) ≡ 0
  unfolding Dict.get
  count_id_absent k [] h e = refl
  count_id_absent k ((j, q) ∷ s) h e = ground (arith, count_id_absent k s h.1)

  count_id-values :
      (k : Text) (s : Repository P)
      → NodupKeys s
      → KeyedById s
      → count_id k (Dict.values s) ≡ (if is_some (Dict.get k s) then 1 else 0)
  unfolding Dict.get
  count_id-values k [] n h = refl
  count_id-values k ((j, q) ∷ s) n h =
      ground (arith, count_id-values k s n.1 h.1, count_id_absent k s h.1)

  -- A stored id is counted once.
  pub count_id-values_lem :
      (k : Text) (s : Repository P)
      → IsValid s
      → count_id k (Dict.values s) ≡ (if is_some (Dict.get k s) then 1 else 0)
  count_id-values_lem k s v = count_id-values k s v.nodup v.keyed
