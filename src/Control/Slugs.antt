-- ===== src/Control/Slugs.antt =====
-- mocko-control/lib/utils/slugs.ts, over any item with a slug and annotations: which of several
-- items with one slug counts.
use mocko.Base.{
  ◌≡◌, refl, sym, ◌∙◌, ap, first, is_some, Text, Bool, true, false, not, ◌&&◌, Option, none, some,
  List, [], ◌∷◌, arith, any, find, ◌==◌, text_eq, if◌then◌else◌, to_lower_case, Option-cases, inl,
  inr, Bool-cases,
}
use mocko.Base.Dict
use mocko.Base.Dict.{Dict, get-set}
use mocko.Control.Store.{has_id}
use mocko.Control.Store.Memory.{IsKeyed, set-IsKeyed, get-find}

module _ {T : Type 0} (slug : T → Text) (is_ui : T → Bool) where
  abbrev pub key_of : T → Text
  key_of item = to_lower_case (slug item)

  -- `!current || (!isUiDefinition(current) && isUiDefinition(item))`
  abbrev pub takes_place : Option T → T → Bool
  takes_place none item = true
  takes_place (some current) item = not (is_ui current) && is_ui item

  unfoldable pub collect : List T → Dict Text T → Dict Text T
  collect [] by_slug = by_slug
  collect (item ∷ items) by_slug = collect items (
      if takes_place (Dict.get (key_of item) by_slug) item
      then Dict.set (key_of item) item by_slug
      else by_slug)

  unfoldable pub unique_by_slug_preferring_ui : List T → List T
  unfolding collect
  unique_by_slug_preferring_ui items = Dict.values (collect items [])

  unfoldable pub find_by_slug_preferring_ui : List T → Text → Option T
  unfolding unique_by_slug_preferring_ui
  find_by_slug_preferring_ui items s =
      find (has_id key_of (to_lower_case s)) (unique_by_slug_preferring_ui items)

  unfoldable pub is_overridden_by_ui : T → List T → Bool
  is_overridden_by_ui item items =
      if is_ui item then false else any (λ other. is_ui other && key_of other == key_of item) items

  abbrev pub find_ui : Text → List T → Option T
  find_ui t items = find (λ item. is_ui item && key_of item == t) items

  abbrev pub find_key : Text → List T → Option T
  find_key t items = find (has_id key_of t) items

  -- what the map holds for a slug after the items are collected, from what it held before
  abbrev after : Text → Option T → List T → Option T
  after t none items = first (find_ui t items) (find_key t items)
  after t (some current) items =
      if is_ui current then some current else first (find_ui t items) (some current)

  get-collect :
      (t : Text) (items : List T) (by_slug : Dict Text T)
      → Dict.get t (collect items by_slug) ≡ after t (Dict.get t by_slug) items
  unfolding collect
  get-collect t [] by_slug = elim (Option-cases (Dict.get t by_slug)) [
    | inl n ↦ rw n refl
    | inr (c, e) ↦ ground arith
  ]
  get-collect t (item ∷ items) by_slug = elim (Option-cases (Dict.get t by_slug)) [
    | inl n ↦ ground (
      arith,
      get-collect t items (Dict.set (key_of item) item by_slug),
      get-collect t items by_slug,
      get-set t (key_of item) item by_slug,
    )
    | inr (c, e) ↦ ground (
      arith,
      get-collect t items (Dict.set (key_of item) item by_slug),
      get-collect t items by_slug,
      get-set t (key_of item) item by_slug,
    )
  ]

  collect-IsKeyed :
      (items : List T) (by_slug : Dict Text T)
      → IsKeyed key_of by_slug
      → IsKeyed key_of (collect items by_slug)
  unfolding collect
  collect-IsKeyed [] by_slug h = h
  collect-IsKeyed (item ∷ items) by_slug h =
      elim (Bool-cases (takes_place (Dict.get (key_of item) by_slug) item)) [
        | inl taken ↦
            rw (taken, collect)
              (collect-IsKeyed items (Dict.set (key_of item) item by_slug)
                (set-IsKeyed key_of item by_slug h))
        | inr kept ↦ rw (kept, collect) (collect-IsKeyed items by_slug h)
      ]

  -- findBySlugPreferringUi answers the first item of the user interface with the slug, whatever the
  -- case, and where there is none the first item of a file with it.
  pub find_by_slug_preferring_ui_lem :
      (items : List T) (s : Text)
      → find_by_slug_preferring_ui items s
        ≡ first (find_ui (to_lower_case s) items) (find_key (to_lower_case s) items)
  unfolding find_by_slug_preferring_ui unique_by_slug_preferring_ui Dict.get
  find_by_slug_preferring_ui_lem items s =
      sym (get-find key_of (to_lower_case s) (collect items []) (collect-IsKeyed items [] tt))
      ∙ get-collect (to_lower_case s) items []

  any-find_ui :
      (t : Text) (items : List T)
      → any (λ other. is_ui other && key_of other == t) items ≡ is_some (find_ui t items)
  any-find_ui t [] = refl
  any-find_ui t (item ∷ items) = ground (arith, any-find_ui t items)

  found_ui :
      (t : Text) (items : List T) (found : T) → find_ui t items ≡ some found → is_ui found ≡ true
  found_ui t [] found e = cc
  found_ui t (item ∷ items) found e = ground (arith, found_ui t items found)

  -- A file's item that isOverriddenByUi reports is not what its slug stands for: an item of the user
  -- interface is.
  pub overridden-find_by_slug :
      (item : T) (items : List T)
      → is_overridden_by_ui item items ≡ true
      → (is_ui item ≡ false)
        × ((found : T) × (find_by_slug_preferring_ui items (slug item) ≡ some found)
            × (is_ui found ≡ true))
  unfolding is_overridden_by_ui
  overridden-find_by_slug item items e = elim (Option-cases (find_ui (key_of item) items)) [
    | inl n ↦ ground (arith, any-find_ui (key_of item) items)
    | inr (found, f) ↦ (
      ground arith,
      (
        found,
        find_by_slug_preferring_ui_lem items (slug item)
            ∙ ap (λ a. first a (find_key (key_of item) items)) f,
        ground (arith, found_ui (key_of item) items found f),
      ),
    )
  ]
