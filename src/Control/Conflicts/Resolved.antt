-- ===== src/Control/Conflicts/Resolved.antt =====
-- What `resolveConflict` shows of what `computeConflicts` computed.
use mocko.Base.{
  ◌≡◌, refl, sym, ap, ◌∙◌, Text, Bool, not, none, some, List, [], ◌∷◌, filter, map, ltb, length,
  any, Elem, Elem-filter, arith, ◌==◌, text_eq, true, if◌then◌else◌, Bool-cases, inl, inr,
}
use mocko.Base.Dict
use mocko.Base.Dict.{Dict, get-set}
use mocko.Base.Grouping.{has_key}
use mocko.Control.Conflicts.{Conflict, conflict, others, compute_conflicts}
use mocko.Control.Conflicts.Groups.{mark, split_mark, has_id}
use mocko.Control.Conflicts.Reference.{rivals, compute_conflicts_lem}
use mocko.Control.Conflicts.Display.{by_id, summaries, resolved_with, resolve_conflict}

module _ {T S : Type 0} (id_of : T → Text) (to_summary : T → S) where
  abbrev AreOne : List T → Type 0
  AreOne items = (x y : T) → Elem x items → Elem y items → id_of x ≡ id_of y → x ≡ y

  by_id-other :
      (items : List T) (found : Dict Text T) (item : T)
      → ((x : T) → Elem x items → id_of x ≡ id_of item → x ≡ item)
      → Dict.get (id_of item) found ≡ some item
      → Dict.get (id_of item) (by_id id_of to_summary items found) ≡ some item
  unfolding by_id
  by_id-other [] found item one h = h
  by_id-other (x ∷ items) found item one h =
      by_id-other items (Dict.set (id_of x) x found) item (λ y m. one y (inr m))
        (elim (text_eq.dec (id_of x) (id_of item)) [
          | yes same ↦
              let e : x ≡ item = one x (inl refl) same in
              ground (arith, get-set (id_of item) (id_of x) x found)
          | no other ↦ ground (arith, get-set (id_of item) (id_of x) x found)
        ])

  by_id-Elem :
      (items : List T) (found : Dict Text T) (item : T)
      → ((x : T) → Elem x items → id_of x ≡ id_of item → x ≡ item)
      → Elem item items
      → Dict.get (id_of item) (by_id id_of to_summary items found) ≡ some item
  unfolding by_id
  by_id-Elem [] found item one m = elim m [ ]
  by_id-Elem (x ∷ items) found item one (inl e) =
      by_id-other items (Dict.set (id_of x) x found) item (λ y m. one y (inr m))
        (ground (arith, get-set (id_of item) (id_of x) x found))
  by_id-Elem (x ∷ items) found item one (inr m) =
      by_id-Elem items (Dict.set (id_of x) x found) item (λ y k. one y (inr k)) m

  summaries_of :
      (items : List T)
      → AreOne items
      → (others : List T) → ((x : T) → Elem x others → Elem x items)
      → summaries id_of to_summary (by_id id_of to_summary items []) (map id_of others)
        ≡ map to_summary others
  unfolding summaries
  summaries_of items one [] within = refl
  summaries_of items one (x ∷ others) within =
      let there = within x (inl refl) in
      rw (by_id-Elem items [] x (λ y m e. one y x m there e) there)
        (ap (λ rest. to_summary x ∷ rest) (summaries_of items one others (λ y m. within y (inr m))))

  resolved :
      (items : List T)
      → AreOne items
      → (id : Text) (conflicts : Dict Text Conflict) (c : Conflict) (related : List T)
      → Dict.get id conflicts ≡ some c
      → c.related ≡ map id_of related
      → ((x : T) → Elem x related → Elem x items)
      → resolve_conflict id_of to_summary id conflicts items
        ≡ some (record { role = c.role; related = map to_summary related })
  unfolding resolve_conflict
  resolved items one id conflicts c related h ids within =
      ap (resolved_with id_of to_summary items) h
      ∙ ap (λ shown. some (record { role = c.role; related = shown }))
          (ap (λ l. summaries id_of to_summary (by_id id_of to_summary items []) l) ids
            ∙ summaries_of items one related within)

module _ {T : Type 0} (id_of : T → Text) (is_file : T → Bool) (key_of : T → Text) where
  -- The ids that a conflict relates are those of items of its group.
  abbrev IsOf : List T → Conflict → Type 0
  IsOf group c =
      (related : List T) × (((x : T) → Elem x related → Elem x group)
        × (c.related ≡ map id_of related))

  all_but-IsOf :
      (group : List T) (id : Text) (c : Conflict)
      → (if any (has_id id_of is_file key_of id) group
          then some (record { role = conflict; related = others id_of is_file key_of id group })
          else none)
        ≡ some c
      → IsOf group c
  all_but-IsOf group id c h = (
    filter (λ other. not (id_of other == id)) group,
    (λ x m. ((Elem-filter (λ other. not (id_of other == id)) x group).0 m).0, ground arith),
  )

  split_mark-IsOf :
      (group ui files : List T) (id : Text) (c : Conflict)
      → ((x : T) → Elem x ui → Elem x group)
      → ((x : T) → Elem x files → Elem x group)
      → split_mark id_of is_file key_of group ui files id ≡ some c
      → IsOf group c
  split_mark-IsOf group [] files id c u f h = all_but-IsOf group id c h
  split_mark-IsOf group (a ∷ []) [] id c u f h = all_but-IsOf group id c h
  split_mark-IsOf group (a ∷ []) (b ∷ []) id c u f h = elim (text_eq.dec id (id_of b)) [
    | yes e ↦ (a ∷ [], (u, ground arith))
    | no n ↦ (b ∷ [], (f, ground arith))
  ]
  split_mark-IsOf group (a ∷ []) (b ∷ d ∷ files) id c u f h = all_but-IsOf group id c h
  split_mark-IsOf group (a ∷ b ∷ ui) files id c u f h = all_but-IsOf group id c h

  mark-IsOf :
      (group : List T) (id : Text) (c : Conflict)
      → mark id_of is_file key_of group id ≡ some c
      → IsOf group c
  mark-IsOf group id c h = elim (Bool-cases (ltb (length group) 2)) [
    | inl few ↦ absurd (ground arith)
    | inr many ↦
        split_mark-IsOf group (filter (λ item. not (is_file item)) group) (filter is_file group) id
          c (λ x m. ((Elem-filter (λ item. not (is_file item)) x group).0 m).0)
          (λ x m. ((Elem-filter is_file x group).0 m).0) (ground arith)
  ]

  -- Where no two items have one id: for a conflict that is computed for an item, the client is shown its
  -- role and the summaries of the related items, each of them, in their order; all have the item's key.
  pub resolve_conflict_lem :
      {S : Type 0} (to_summary : T → S) (items : List T)
      → ((x y : T) → Elem x items → Elem y items → id_of x ≡ id_of y → x ≡ y)
      → (item : T) (c : Conflict) → Elem item items
      → Dict.get (id_of item) (compute_conflicts id_of is_file key_of items) ≡ some c
      → (related : List T) × (((x : T) → Elem x related → Elem x items × (key_of x ≡ key_of item))
          × ((c.related ≡ map id_of related)
              × (resolve_conflict id_of to_summary
                    (id_of item)
                    (compute_conflicts id_of is_file key_of items)
                    items
                  ≡ some (record { role = c.role; related = map to_summary related }))))
  resolve_conflict_lem to_summary items one item c m h =
      let marked = sym (compute_conflicts_lem id_of is_file key_of items one item m).0 ∙ h in
      let (related, (within, ids)) =
        mark-IsOf (rivals id_of is_file key_of item items) (id_of item) c marked in
      let rival : (x : T)
          → Elem x related
          → Elem x items × (has_key key_of (key_of item) x ≡ true) =
        λ x k. (Elem-filter (has_key key_of (key_of item)) x items).0 (within x k) in
      (
        related,
        (
          λ x k. ((rival x k).0, let same = (rival x k).1 in ground arith),
          (
            ids,
            resolved id_of to_summary items one (id_of item)
                (compute_conflicts id_of is_file key_of items) c related h ids
                (λ x k. (rival x k).0),
          ),
        ),
      )
