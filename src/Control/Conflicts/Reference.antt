-- ===== src/Control/Conflicts/Reference.antt =====
-- `computeConflicts`, item by item.
use mocko.Base.{
  ◌≡◌, ◌≢◌, ◌⊎◌, refl, sym, ap, subst, ◌∙◌, Text, Bool, true, false, not, Option, none, some, List,
  [], ◌∷◌, filter, length, leb, any, or_else, first, is_some, Elem, Elem-filter, arith, text_eq,
  Bool-cases, inl, inr,
}
use mocko.Base.Dict
use mocko.Base.Dict.{Dict, NodupKeys}
use mocko.Base.Grouping.{
  has_key, group_of, group_items, group_of-group_items, group_items-NodupKeys, get_of_Elem,
}
use mocko.Control.Conflicts.{compute_conflicts}
use mocko.Control.Conflicts.Groups.{has_id, mark, split_mark, get-mark_groups}

first-none : {A : Type 0} (o : Option A) → first o none ≡ o
first-none none = refl
first-none (some a) = refl

module _ {T : Type 0} (id_of : T → Text) (is_file : T → Bool) (key_of : T → Text) where
  any_of_Elem :
      (group : List T) (item : T)
      → Elem item group
      → any (has_id id_of is_file key_of (id_of item)) group ≡ true
  any_of_Elem [] item m = elim m [ ]
  any_of_Elem (x ∷ group) item (inl e) =
      let same : id_of x ≡ id_of item = ap id_of (sym e) in ground arith
  any_of_Elem (x ∷ group) item (inr m) = ground (arith, any_of_Elem group item m)

  Elem-of_any :
      (group : List T) (id : Text)
      → any (has_id id_of is_file key_of id) group ≡ true
      → (item : T) × Elem item group × (id_of item ≡ id)
  Elem-of_any [] id h = cc
  Elem-of_any (x ∷ group) id h = elim (text_eq.dec (id_of x) id) [
    | yes e ↦ (x, inl refl, e)
    | no n ↦ let (item, m, e) = Elem-of_any group id (ground arith) in (item, inr m, e)
  ]

  abbrev ui_of : List T → List T
  ui_of group = filter (λ item. not (is_file item)) group

  abbrev files_of : List T → List T
  files_of group = filter is_file group

  split_mark-absent :
      (group ui files : List T) (id : Text)
      → any (has_id id_of is_file key_of id) group ≡ false
      → ((x : T) → Elem x ui → id_of x ≢ id)
      → ((x : T) → Elem x files → id_of x ≢ id)
      → split_mark id_of is_file key_of group ui files id ≡ none
  split_mark-absent group [] files id h u f = ground arith
  split_mark-absent group (a ∷ []) [] id h u f = ground arith
  split_mark-absent group (a ∷ []) (c ∷ []) id h u f =
      let other_ui : id_of a ≢ id = u a (inl refl) in
      let other_file : id_of c ≢ id = f c (inl refl) in ground arith
  split_mark-absent group (a ∷ []) (c ∷ d ∷ files) id h u f = ground arith
  split_mark-absent group (a ∷ c ∷ ui) files id h u f = ground arith

  mark-absent :
      (group : List T) (id : Text)
      → ((x : T) → Elem x group → id_of x ≢ id)
      → mark id_of is_file key_of group id ≡ none
  mark-absent group id h = elim (Bool-cases (any (has_id id_of is_file key_of id) group)) [
    | inl found ↦ let (x, m, e) = Elem-of_any group id found in absurd (h x m e)
    | inr missing ↦
        let unmarked : split_mark id_of is_file key_of group (ui_of group) (files_of group) id
            ≡ none =
          split_mark-absent group (ui_of group) (files_of group) id missing
            (λ x m. h x ((Elem-filter (λ item. not (is_file item)) x group).0 m).0)
            (λ x m. h x ((Elem-filter is_file x group).0 m).0) in
        ground arith
  ]

  split_mark-present :
      (group ui files : List T) (item : T)
      → any (has_id id_of is_file key_of (id_of item)) group ≡ true
      → Elem item ui ⊎ Elem item files
      → is_some (split_mark id_of is_file key_of group ui files (id_of item)) ≡ true
  split_mark-present group [] files item h m = ground arith
  split_mark-present group (a ∷ []) [] item h m = ground arith
  split_mark-present group (a ∷ []) (c ∷ []) item h m =
      let one : (item ≡ a) ⊎ (item ≡ c) = elim m [
        | inl (inl e) ↦ inl e
        | inl (inr n) ↦ elim n [ ]
        | inr (inl e) ↦ inr e
        | inr (inr n) ↦ elim n [ ]
      ] in
      elim one [
        | inl e ↦ let same : id_of item ≡ id_of a = ap id_of e in ground arith
        | inr e ↦ let same : id_of item ≡ id_of c = ap id_of e in ground arith
      ]
  split_mark-present group (a ∷ []) (c ∷ d ∷ files) item h m = ground arith
  split_mark-present group (a ∷ c ∷ ui) files item h m = ground arith

  mark-present :
      (group : List T) (item : T)
      → Elem item group
      → is_some (mark id_of is_file key_of group (id_of item)) ≡ leb 2 (length group)
  mark-present group item m =
      let side : Elem item (ui_of group) ⊎ Elem item (files_of group) =
        elim (Bool-cases (is_file item)) [
          | inl file ↦ inr ((Elem-filter is_file item group).1 (m, file))
          | inr not_file ↦
              inl ((Elem-filter (λ x. not (is_file x)) item group).1 (m, ap not not_file))
        ] in
      let marked =
        split_mark-present group (ui_of group) (files_of group) item (any_of_Elem group item m)
          side in
      ground arith

  -- The items that share an item's key, itself among them.
  abbrev pub rivals : T → List T → List T
  rivals item items = filter (has_key key_of (key_of item)) items

  module _ (items : List T)
      (unique : (x y : T) → Elem x items → Elem y items → id_of x ≡ id_of y → x ≡ y) (item : T)
      (m : Elem item items) where
    grouped :
        (k : Text)
        → group_of key_of k (group_items key_of items []) ≡ filter (has_key key_of k) items
    unfolding Dict.get
    grouped k = group_of-group_items key_of items [] k

    other_groups :
        (k : Text) (group : List T)
        → Elem (k, group) (group_items key_of items [])
        → k ≢ key_of item
        → mark id_of is_file key_of group (id_of item) ≡ none
    other_groups k group there other =
        let keys = group_items-NodupKeys key_of items [] tt in
        let is_group : group ≡ filter (has_key key_of k) items =
          sym (
            ap (λ o. or_else o [])
              (get_of_Elem key_of (group_items key_of items []) k group keys there))
          ∙ grouped k in
        mark-absent group (id_of item) (λ x at same.
          let (listed, keyed) =
            (Elem-filter (has_key key_of k) x items).0 (subst (Elem x) is_group at) in
          let x_item : key_of x ≡ key_of item = ap key_of (unique x item listed m same) in
          other (ground arith))

    computed :
        Dict.get (id_of item) (compute_conflicts id_of is_file key_of items)
        ≡ mark id_of is_file key_of (rivals item items) (id_of item)
    unfolding compute_conflicts Dict.get
    computed =
        get-mark_groups id_of is_file key_of (group_items key_of items []) [] (key_of item)
          (id_of item) (group_items-NodupKeys key_of items [] tt) other_groups
        ∙ (ap (λ g. first (mark id_of is_file key_of g (id_of item)) none) (grouped (key_of item))
            ∙ first-none (mark id_of is_file key_of (rivals item items) (id_of item)))

  -- Where no two items have one id, what is computed for an item is what the items with its key say of
  -- it: with one of the UI and one of a file, the first is active over the second; otherwise all are in
  -- conflict. It is something exactly if another item has the key.
  pub compute_conflicts_lem :
      (items : List T)
      → ((x y : T) → Elem x items → Elem y items → id_of x ≡ id_of y → x ≡ y)
      → (item : T) → Elem item items
      → (Dict.get (id_of item) (compute_conflicts id_of is_file key_of items)
          ≡ mark id_of is_file key_of (rivals item items) (id_of item))
        × (is_some (Dict.get (id_of item) (compute_conflicts id_of is_file key_of items))
            ≡ leb 2 (length (rivals item items)))
  compute_conflicts_lem items unique item m =
      let eq = computed items unique item m in
      let rival : Elem item (rivals item items) =
        (Elem-filter (has_key key_of (key_of item)) item items).1 (m, ground arith) in
      (eq, ap is_some eq ∙ mark-present (rivals item items) item rival)
