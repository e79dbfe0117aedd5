-- ===== src/Control/Conflicts/Groups.antt =====
-- What the two loops of `computeConflicts` do to the maps.
use mocko.Base.{
  ◌≡◌, ◌≢◌, refl, sym, ap, ◌∙◌, Text, Bool, not, Option, none, some, List, [], ◌∷◌, filter, length,
  ltb, any, first, Elem, arith, ◌==◌, text_eq, if◌then◌else◌, inl, inr,
}
use mocko.Base.Dict
use mocko.Base.Dict.{Dict, get-set, NodupKeys, set-NodupKeys}
use mocko.Base.Grouping.{group_of, get_of_Elem}
use mocko.Control.Conflicts.{
  Conflict, active, shadowed, conflict, others, mark_conflicts, mark_split, mark_group, mark_groups,
}

module _ {T : Type 0} (id_of : T → Text) (is_file : T → Bool) (key_of : T → Text) where
  abbrev pub has_id : Text → T → Bool
  has_id id item = id_of item == id

  -- What a group says of an id.
  abbrev pub split_mark : List T → (ui files : List T) → Text → Option Conflict
  split_mark group (u ∷ []) (f ∷ []) id =
      if id == id_of f
      then some (record { role = shadowed; related = id_of u ∷ [] })
      else if id == id_of u
      then some (record { role = active; related = id_of f ∷ [] })
      else none
  split_mark group ui files id =
      if any (has_id id) group
      then some (record { role = conflict; related = others id_of is_file key_of id group })
      else none

  abbrev pub mark : List T → Text → Option Conflict
  mark group id =
      if ltb (length group) 2
      then none
      else split_mark group (filter (λ item. not (is_file item)) group) (filter is_file group) id

  get-mark_conflicts :
      (group items : List T) (result : Dict Text Conflict) (id : Text)
      → Dict.get id (mark_conflicts id_of is_file key_of group items result) ≡ (
          if any (has_id id) items
          then some (record { role = conflict; related = others id_of is_file key_of id group })
          else Dict.get id result)
  unfolding mark_conflicts
  get-mark_conflicts group [] result id = refl
  get-mark_conflicts group (item ∷ items) result id =
      let marked : Conflict = record {
        role = conflict;
        related = others id_of is_file key_of (id_of item) group;
      } in
      get-mark_conflicts group items (Dict.set (id_of item) marked result) id
      ∙ ground (arith, get-set id (id_of item) marked result)

  get-mark_all :
      (group : List T) (result : Dict Text Conflict) (id : Text)
      → Dict.get id (mark_conflicts id_of is_file key_of group group result)
        ≡ first
            (if any (has_id id) group
              then some (record { role = conflict; related = others id_of is_file key_of id group })
              else none)
            (Dict.get id result)
  get-mark_all group result id = ground (arith, get-mark_conflicts group group result id)

  get-mark_split :
      (group ui files : List T) (result : Dict Text Conflict) (id : Text)
      → Dict.get id (mark_split id_of is_file key_of group ui files result)
        ≡ first (split_mark group ui files id) (Dict.get id result)
  get-mark_split group [] files result id = get-mark_all group result id
  get-mark_split group (u ∷ []) [] result id = get-mark_all group result id
  get-mark_split group (u ∷ []) (f ∷ []) result id =
      let above : Conflict = record { role = active; related = id_of f ∷ [] } in
      let below : Conflict = record { role = shadowed; related = id_of u ∷ [] } in
      ground (
        arith,
        get-set id (id_of f) below (Dict.set (id_of u) above result),
        get-set id (id_of u) above result,
      )
  get-mark_split group (u ∷ []) (f ∷ g ∷ files) result id = get-mark_all group result id
  get-mark_split group (u ∷ v ∷ ui) files result id = get-mark_all group result id

  pub get-mark_group :
      (group : List T) (result : Dict Text Conflict) (id : Text)
      → Dict.get id (mark_group id_of is_file key_of group result)
        ≡ first (mark group id) (Dict.get id result)
  unfolding mark_group
  get-mark_group group result id = ground (
    arith,
    get-mark_split group (filter (λ item. not (is_file item)) group) (filter is_file group) result
        id,
  )

  get-mark_groups_others :
      (groups : Dict Text (List T)) (result : Dict Text Conflict) (id : Text)
      → ((k : Text) (group : List T) → Elem (k, group) groups → mark group id ≡ none)
      → Dict.get id (mark_groups id_of is_file key_of groups result) ≡ Dict.get id result
  unfolding mark_groups
  get-mark_groups_others [] result id h = refl
  get-mark_groups_others ((k, group) ∷ groups) result id h =
      let unmarked : mark group id ≡ none = h k group (inl refl) in
      get-mark_groups_others groups (mark_group id_of is_file key_of group result) id
        (λ j g m. h j g (inr m))
      ∙ (get-mark_group group result id ∙ ap (λ o. first o (Dict.get id result)) unmarked)

  -- Where the groups of other keys say nothing of an id, the second loop leaves what the group of its
  -- key says.
  pub get-mark_groups :
      (groups : Dict Text (List T)) (result : Dict Text Conflict) (key id : Text)
      → NodupKeys groups
      → ((k : Text) (group : List T) → Elem (k, group) groups → k ≢ key → mark group id ≡ none)
      → Dict.get id (mark_groups id_of is_file key_of groups result)
        ≡ first (mark (group_of key_of key groups) id) (Dict.get id result)
  unfolding mark_groups Dict.get
  get-mark_groups [] result key id n h = refl
  get-mark_groups ((k, group) ∷ groups) result key id n h = elim (text_eq.dec key k) [
    | yes same ↦
        let rest =
          get-mark_groups_others groups (mark_group id_of is_file key_of group result) id (λ j g m.
            h j g (inr m) (λ e.
              let there : Dict.get j groups ≡ some g = get_of_Elem key_of groups j g n.1 m in
              ground arith)) in
        rest ∙ (get-mark_group group result id ∙ ground arith)
    | no other ↦
        let unmarked : mark group id ≡ none = h k group (inl refl) (λ e. other (sym e)) in
        get-mark_groups groups (mark_group id_of is_file key_of group result) key id n.1
          (λ j g m. h j g (inr m))
        ∙ (ap (first (mark (group_of key_of key groups) id))
              (get-mark_group group result id ∙ ap (λ o. first o (Dict.get id result)) unmarked)
            ∙ ground arith)
  ]
