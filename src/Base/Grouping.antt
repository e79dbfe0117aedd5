-- ===== src/Base/Grouping.antt =====
-- A `Map` from keys to the items that have them: `groups.get(key)`, with the item pushed on the group
-- that is there or on a new one.
use mathlib.Core.Path.{◌≡◌, sym, ◌∙◌}
use mathlib.Core.Logic.{inl, inr}
use mathlib.Core.Bool.{Bool}
use mathlib.Core.Option.{some}
use mathlib.Core.List.{List, [], ◌∷◌, ◌++◌, append_assoc, append-nil}
use native.Mathlib.Omega.{arith}
use mocko.Base.Tests.{or_else}
use mocko.Base.Equality.{◌==◌, text_eq}
use mocko.Base.Lists.{filter, Elem}
use mocko.Base.Strings.{Text}
use mocko.Base.Dict
use mocko.Base.Dict.{Dict, get-set, NodupKeys, set-NodupKeys}

module _ {T : Type 0} (key_of : T → Text) where
  abbrev pub group_of : Text → Dict Text (List T) → List T
  group_of key groups = or_else (Dict.get key groups) []

  unfoldable pub group_items : List T → Dict Text (List T) → Dict Text (List T)
  group_items [] groups = groups
  group_items (item ∷ items) groups =
      group_items items (Dict.set (key_of item) (group_of (key_of item) groups ++ item ∷ []) groups)

  abbrev pub has_key : Text → T → Bool
  has_key key item = key_of item == key

  pub group_of-group_items :
      (items : List T) (groups : Dict Text (List T)) (key : Text)
      → group_of key (group_items items groups) ≡ group_of key groups ++ filter (has_key key) items
  unfolding group_items
  group_of-group_items [] groups key = sym (append-nil _)
  group_of-group_items (item ∷ items) groups key =
      let group = group_of (key_of item) groups ++ item ∷ [] in
      group_of-group_items items (Dict.set (key_of item) group groups) key
      ∙ ground (
        arith,
        get-set key (key_of item) group groups,
        append_assoc (group_of key groups) (item ∷ []) (filter (has_key key) items),
      )

  pub group_items-NodupKeys :
      (items : List T) (groups : Dict Text (List T))
      → NodupKeys groups
      → NodupKeys (group_items items groups)
  unfolding group_items
  group_items-NodupKeys [] groups h = h
  group_items-NodupKeys (item ∷ items) groups h =
      group_items-NodupKeys items _ (set-NodupKeys (key_of item) _ groups h)

  pub get_of_Elem :
      (groups : Dict Text (List T)) (k : Text) (group : List T)
      → NodupKeys groups
      → Elem (k, group) groups
      → Dict.get k groups ≡ some group
  unfolding Dict.get
  get_of_Elem [] k group n m = elim m [ ]
  get_of_Elem ((j, g) ∷ groups) k group n (inl e) = ground arith
  get_of_Elem ((j, g) ∷ groups) k group n (inr m) =
      let later : Dict.get k groups ≡ some group = get_of_Elem groups k group n.1 m in ground arith
