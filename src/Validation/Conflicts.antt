-- ===== src/Validation/Conflicts.antt =====
-- The groups of validate.ts with more than one definition: what is reported of them.
use mocko.Base.{
  ◌≡◌, ◌↔◌, ◌⊎◌, ◌≢◌, refl, sym, ap, subst, ◌∙◌, Text, true, some, List, [], ◌∷◌, ◌++◌, filter,
  or_else, Elem, Elem-append, Elem-map, text_eq, arith, append-nil, append_assoc, Elem-filter,
  Option-cases, inl, inr,
}
use mocko.Base.Dict
use mocko.Base.Dict.{Dict, NodupKeys}
use mocko.Base.Grouping.{
  has_key, group_items, group_of-group_items, group_items-NodupKeys, get_of_Elem,
}
use mocko.Definitions.Data.{Mock, Host}
use mocko.Diagnostics.{Diagnostic, DiagnosticsCollector, push, push_all}
use mocko.Diagnostics.Reports.{
  duplicates, report_groups, route_conflict, route_key, is_routed, report_conflicts,
}

pub items-push_all :
    (ds : List Diagnostic) (c : DiagnosticsCollector)
    → c.enabled ≡ true
    → ((push_all ds c).enabled ≡ true) × ((push_all ds c).items ≡ c.items ++ ds)
unfolding push_all push
items-push_all [] c h = (h, sym (append-nil c.items))
items-push_all (d ∷ ds) c h =
    let pushed : (push d c).items ≡ c.items ++ d ∷ [] = ground arith in
    let (still, all) = items-push_all ds (push d c) (ground arith) in
    (still, all ∙ (ap (λ l. l ++ ds) pushed ∙ append_assoc c.items (d ∷ []) ds))

get-Elem :
    {T : Type 0} (groups : Dict Text (List T)) (k : Text) (group : List T)
    → Dict.get k groups ≡ some group
    → Elem (k, group) groups
unfolding Dict.get
get-Elem [] k group e = cc
get-Elem ((j, g) ∷ groups) k group e = ground (arith, get-Elem groups k group)

module _ {T : Type 0} (report : (first duplicate : T) → Diagnostic) (key_of : T → Text) where
  -- `first` is the first of the items with its key, and `duplicate` stands behind it with the same.
  abbrev pub Repeats : (first duplicate : T) → List T → Type 0
  Repeats first duplicate [] = ⊥
  Repeats first duplicate (x ∷ xs) =
      ((first ≡ x) × (key_of duplicate ≡ key_of x) × Elem duplicate xs)
      ⊎ ((key_of duplicate ≢ key_of x) × Repeats first duplicate xs)

  -- The reports of the group of a key.
  abbrev Reported : Diagnostic → Text → List T → Type 0
  Reported d key items =
      (first : T) × ((duplicate : T) × (Repeats first duplicate items
          × (key_of duplicate ≡ key)
          × (d ≡ report first duplicate)))

  duplicates-Repeats :
      (items : List T) (key : Text) (d : Diagnostic)
      → Elem d (duplicates report (filter (has_key key_of key) items))
      → Reported d key items
  duplicates-Repeats [] key d m = elim m [ ]
  duplicates-Repeats (x ∷ xs) key d m = elim (text_eq.dec (key_of x) key) [
    | yes e ↦
        let shape : filter (has_key key_of key) (x ∷ xs) ≡ x ∷ filter (has_key key_of key) xs =
          ground arith in
        let (y, there, eq) =
          (Elem-map (report x) d (filter (has_key key_of key) xs)).0
            (subst (λ g. Elem d (duplicates report g)) shape m) in
        let (listed, keyed) = (Elem-filter (has_key key_of key) y xs).0 there in
        let same : key_of y ≡ key = ground arith in
        (x, (y, (inl (refl, same ∙ sym e, listed), same, eq)))
    | no n ↦
        let shape : filter (has_key key_of key) (x ∷ xs) ≡ filter (has_key key_of key) xs =
          ground arith in
        let (f, (y, (r, same, eq))) =
          duplicates-Repeats xs key d (subst (λ g. Elem d (duplicates report g)) shape m) in
        (f, (y, (inr ((λ h. n (sym h ∙ same)), r), same, eq)))
  ]

  Repeats-duplicates :
      (items : List T) (f y : T)
      → Repeats f y items
      → Elem (report f y) (duplicates report (filter (has_key key_of (key_of y)) items))
  Repeats-duplicates [] f y r = elim r [ ]
  Repeats-duplicates (x ∷ xs) f y (inl (first, same, listed)) =
      let key = key_of y in
      let shape : x ∷ filter (has_key key_of key) xs ≡ filter (has_key key_of key) (x ∷ xs) =
        ground arith in
      subst (λ g. Elem (report f y) (duplicates report g)) shape
        ((Elem-map (report x) (report f y) (filter (has_key key_of key) xs)).1 (
          y,
          (Elem-filter (has_key key_of key) y xs).1 (listed, ground arith),
          ap (λ z. report z y) first,
        ))
  Repeats-duplicates (x ∷ xs) f y (inr (other, r)) =
      let key = key_of y in
      let shape : filter (has_key key_of key) xs ≡ filter (has_key key_of key) (x ∷ xs) =
        ground arith in
      subst (λ g. Elem (report f y) (duplicates report g)) shape (Repeats-duplicates xs f y r)

  -- the reports of all groups, in order
  abbrev pub all_duplicates : Dict Text (List T) → List Diagnostic
  all_duplicates [] = []
  all_duplicates ((key, group) ∷ groups) = duplicates report group ++ all_duplicates groups

  pub items-report_groups :
      (groups : Dict Text (List T)) (c : DiagnosticsCollector)
      → c.enabled ≡ true
      → ((report_groups report groups c).enabled ≡ true)
        × ((report_groups report groups c).items ≡ c.items ++ all_duplicates groups)
  unfolding report_groups
  items-report_groups [] c h = (h, sym (append-nil c.items))
  items-report_groups ((key, group) ∷ groups) c h =
      let ds = duplicates report group in
      let (on, pushed) = items-push_all ds c h in
      let (still, all) = items-report_groups groups (push_all ds c) on in
      (
        still,
        all
            ∙ (ap (λ l. l ++ all_duplicates groups) pushed
                ∙ append_assoc c.items ds (all_duplicates groups)),
      )

  Elem-all_duplicates :
      (groups : Dict Text (List T)) (d : Diagnostic)
      → Elem d (all_duplicates groups) ↔ (
          (key : Text) × ((group : List T) × (Elem (key, group) groups
              × Elem d (duplicates report group))))
  Elem-all_duplicates [] d = (λ m. elim m [ ], λ h. elim h.1.1.0 [ ])
  Elem-all_duplicates ((k, g) ∷ groups) d = (
    λ m. elim ((Elem-append d (duplicates report g) (all_duplicates groups)).0 m) [
      | inl n ↦ (k, (g, (inl refl, n)))
      | inr n ↦
          let (key, (group, (there, at))) = (Elem-all_duplicates groups d).0 n in
          (key, (group, (inr there, at)))
    ],
    λ (key, (group, (there, at))). elim there [
      | inl e ↦
          (Elem-append d (duplicates report g) (all_duplicates groups)).1
            (inl (subst (λ p. Elem d (duplicates report p)) (ap (λ q. q.1) e) at))
      | inr n ↦
          (Elem-append d (duplicates report g) (all_duplicates groups)).1
            (inr ((Elem-all_duplicates groups d).1 (key, (group, (n, at)))))
    ],
  )

  pub group_is :
      (items : List T) (k : Text) (group : List T)
      → Elem (k, group) (group_items key_of items [])
      → group ≡ filter (has_key key_of k) items
  unfolding Dict.get
  group_is items k group there =
      sym (
        ap (λ o. or_else o [])
          (get_of_Elem key_of (group_items key_of items []) k group
            (group_items-NodupKeys key_of items [] tt) there))
      ∙ group_of-group_items key_of items [] k

  -- A key of some item has its group.
  pub has_group :
      (items : List T) (d : Diagnostic) (k : Text)
      → Elem d (duplicates report (filter (has_key key_of k) items))
      → Elem (k, filter (has_key key_of k) items) (group_items key_of items [])
  unfolding Dict.get
  has_group items d k m = elim (Option-cases (Dict.get k (group_items key_of items []))) [
    | inl missing ↦
        let empty : filter (has_key key_of k) items ≡ [] =
          sym (group_of-group_items key_of items [] k) ∙ ap (λ o. or_else o []) missing in
        elim (subst (λ g. Elem d (duplicates report g)) empty m) [ ]
    | inr (group, e) ↦
        let there = get-Elem (group_items key_of items []) k group e in
        subst (λ g. Elem (k, g) (group_items key_of items [])) (group_is items k group there) there
  ]

  -- What is reported of the groups of some items is each item that stands behind one with its key,
  -- against the first of those.
  pub Elem-group_duplicates :
      (items : List T) (d : Diagnostic)
      → Elem d (all_duplicates (group_items key_of items [])) ↔ (
          (first : T) × ((duplicate : T) × (Repeats first duplicate items
              × (d ≡ report first duplicate))))
  Elem-group_duplicates items d = (
    λ m.
        let (k, (group, (there, at))) = (Elem-all_duplicates (group_items key_of items []) d).0 m in
        let (f, (y, (r, same, eq))) =
          duplicates-Repeats items k d
            (subst (λ g. Elem d (duplicates report g)) (group_is items k group there) at) in
        (f, (y, (r, eq))),
    λ (f, (y, (r, eq))).
        let at = Repeats-duplicates items f y r in
        subst (λ e. Elem e (all_duplicates (group_items key_of items []))) (sym eq)
          ((Elem-all_duplicates (group_items key_of items []) (report f y)).1 (
            key_of y,
            (
              filter (has_key key_of (key_of y)) items,
              (has_group items (report f y) (key_of y) at, at),
            ),
          )),
  )

-- With an enabled collector, report_conflicts keeps what was collected and adds reports of exactly the
-- enabled mocks of no reserved path whose method, path and host, as the key of routes has them, an
-- earlier one of these mocks has too, each against the first of those.
pub report_conflicts_lem :
    (mocks : List Mock) (hosts : List Host) (c : DiagnosticsCollector)
    → c.enabled ≡ true
    → (reports : List Diagnostic) × (((report_conflicts mocks hosts c).items ≡ c.items ++ reports)
        × ((d : Diagnostic)
            → Elem d reports ↔ (
                (first : Mock) × ((duplicate : Mock) × (Repeats route_conflict
                      (route_key hosts)
                      first
                      duplicate
                      (filter is_routed mocks)
                    × (d ≡ route_conflict first duplicate))))))
unfolding report_conflicts
report_conflicts_lem mocks hosts c h =
    let routed = filter is_routed mocks in
    let groups = group_items (route_key hosts) routed [] in
    (
      all_duplicates route_conflict (route_key hosts) groups,
      (
        (items-report_groups route_conflict (route_key hosts) groups c h).1,
        λ d. Elem-group_duplicates route_conflict (route_key hosts) routed d,
      ),
    )
