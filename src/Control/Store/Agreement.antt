-- ===== src/Control/Store/Agreement.antt =====
-- The stores of mocko-control/lib/store answer alike: what a caller sees of memory-store.ts and of
-- redis-store.ts, over any calls for one kind of own items.
use mocko.Base.{◌≡◌, refl, sym, ◌∙◌, ap, Text, Bool, Option, List, [], ◌∷◌, any, find, text_eq}
use mocko.Control.Store.{has_id, put, without, OwnStore}
use mocko.Control.Store.Memory.{memory_store}
use mocko.Control.Store.Redis.{redis_store}

pub data Call (T : Type 0) : Type 0 where
  save : T → Call T
  delete : Text → Call T
  get : Text → Call T
  list : Call T

-- What a call answers.
pub data Answer (T : Type 0) : Type 0 where
  saved : Answer T
  deleted : Bool → Answer T
  got : Option T → Answer T
  listed : List T → Answer T

module _ {T : Type 0} (id_of : T → Text) where
  module _ (store : OwnStore id_of) where
    unfoldable pub step : Call T → store.State → Answer T × store.State
    step (save item) s = (saved, store.save item s)
    step (delete id) s = (deleted (store.delete id s).0, (store.delete id s).1)
    step (get id) s = (got (store.get id s), s)
    step list s = (listed (store.list s), s)

    unfoldable pub answers : List (Call T) → store.State → List (Answer T)
    unfolding step
    answers [] s = []
    answers (call ∷ calls) s = (step call s).0 ∷ answers calls (step call s).1

    step-IsValid :
        (call : Call T) (s : store.State) → store.IsValid s → store.IsValid (step call s).1
    unfolding step
    step-IsValid (save item) s v = store.save-IsValid item s v
    step-IsValid (delete id) s v = store.delete-IsValid id s v
    step-IsValid (get id) s v = v
    step-IsValid list s v = v

  module _ (store other : OwnStore id_of) where
    step-agree :
        (call : Call T) (s : store.State) (t : other.State)
        → store.IsValid s
        → other.IsValid t
        → store.list s ≡ other.list t
        → ((step store call s).0 ≡ (step other call t).0)
          × (store.list (step store call s).1 ≡ other.list (step other call t).1)
    unfolding step
    step-agree (save item) s t v w e =
        (refl, store.list-save item s v ∙ (ap (put id_of item) e ∙ sym (other.list-save item t w)))
    step-agree (delete id) s t v w e = (
      ap deleted (
          store.delete_iff id s v ∙ (ap (any (has_id id_of id)) e ∙ sym (other.delete_iff id t w))),
      store.list-delete id s v ∙ (ap (without id_of id) e ∙ sym (other.list-delete id t w)),
    )
    step-agree (get id) s t v w e = (
      ap got (
          store.get-eq-find id s v
          ∙ (ap (find (has_id id_of id)) e ∙ sym (other.get-eq-find id t w))),
      e,
    )
    step-agree list s t v w e = (ap listed e, e)

    answers-agree :
        (calls : List (Call T)) (s : store.State) (t : other.State)
        → store.IsValid s
        → other.IsValid t
        → store.list s ≡ other.list t
        → answers store calls s ≡ answers other calls t
    unfolding answers
    answers-agree [] s t v w e = refl
    answers-agree (call ∷ calls) s t v w e =
        let (same, e') = step-agree call s t v w e in
        let rest : answers store calls (step store call s).1
            ≡ answers other calls (step other call t).1 =
          answers-agree calls (step store call s).1 (step other call t).1
            (step-IsValid store call s v) (step-IsValid other call t w) e' in
        ap (λ a. a ∷ answers store calls (step store call s).1) same
        ∙ ap (λ later. (step other call t).0 ∷ later) rest

  abbrev pub memory_empty : (memory_store id_of).State
  unfolding memory_store
  memory_empty = []

  abbrev pub redis_empty : (redis_store id_of).State
  unfolding redis_store
  redis_empty = []

  -- From empty stores, any sequence of saves, deletes, lookups and listings gets the same answers from
  -- the map of the memory store and from the array of the Redis store.
  pub memory-redis_agree :
      (calls : List (Call T))
      → answers (memory_store id_of) calls memory_empty
        ≡ answers (redis_store id_of) calls redis_empty
  unfolding memory_store redis_store mocko.Control.Store.Memory.list
  memory-redis_agree calls =
      answers-agree (memory_store id_of) (redis_store id_of) calls memory_empty redis_empty
        (record { nodup = tt; keyed = tt }) tt refl
