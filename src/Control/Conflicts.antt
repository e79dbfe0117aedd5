-- ===== src/Control/Conflicts.antt =====
-- mocko-control/lib/conflict/conflicts.ts: which of the items with one key shadows which, and the keys
-- of hosts, callbacks and mocks.
pub mod Groups
pub mod Reference
pub mod Display
pub mod Resolved
use mocko.Base.{
  ℕ, Text, txt, Bool, true, false, not, Option, none, some, List, [], ◌∷◌, ◌++◌, map, filter,
  length, ltb, or_else, to_lower_case, ◌==◌, text_eq, if◌then◌else◌,
}
use mocko.Base.Dict
use mocko.Base.Dict.{Dict}
use mocko.Base.Grouping.{group_items}
use mocko.Control.Hosts.{Host, is_file_definition}

pub data ConflictRole : Type 0 where
  active shadowed conflict : ConflictRole

pub record Conflict : Type 0 where
  pub role : ConflictRole
  pub related : List Text

module _ {T : Type 0} (id_of : T → Text) (is_file : T → Bool) (key_of : T → Text) where
  -- the ids of the others of a group
  abbrev pub others : Text → List T → List Text
  others id group = map id_of (filter (λ other. not (id_of other == id)) group)

  unfoldable pub mark_conflicts : List T → List T → Dict Text Conflict → Dict Text Conflict
  mark_conflicts group [] result = result
  mark_conflicts group (item ∷ items) result = mark_conflicts group items (
      Dict.set (id_of item) (record { role = conflict; related = others (id_of item) group })
        result)

  -- the pair of one item of the UI and one of a file, or the conflict of all
  abbrev pub mark_split : List T → (ui files : List T) → Dict Text Conflict → Dict Text Conflict
  mark_split group (u ∷ []) (f ∷ []) result =
      Dict.set (id_of f) (record { role = shadowed; related = id_of u ∷ [] })
        (Dict.set (id_of u) (record { role = active; related = id_of f ∷ [] }) result)
  mark_split group ui files result = mark_conflicts group group result

  unfoldable pub mark_group : List T → Dict Text Conflict → Dict Text Conflict
  unfolding mark_conflicts
  mark_group group result =
      if ltb (length group) 2
      then result
      else mark_split group (filter (λ item. not (is_file item)) group) (filter is_file group)
          result

  -- the second loop
  unfoldable pub mark_groups : Dict Text (List T) → Dict Text Conflict → Dict Text Conflict
  unfolding mark_group
  mark_groups [] result = result
  mark_groups ((key, group) ∷ groups) result = mark_groups groups (mark_group group result)

  unfoldable pub compute_conflicts : List T → Dict Text Conflict
  unfolding group_items mark_groups
  compute_conflicts items = mark_groups (group_items key_of items []) []

unfoldable pub compute_host_conflicts : List Host → Dict Text Conflict
unfolding compute_conflicts
compute_host_conflicts hosts =
    compute_conflicts (λ (host : Host). host.id) is_file_definition
      (λ host. to_lower_case host.slug) hosts

-- what `computeMockConflicts` reads of a mock
pub record Mock : Type 0 where
  pub id : Text
  pub host : Option Text
  pub method : Text
  pub path : Text
  pub is_enabled : Bool
  pub is_file : Bool

unfoldable pub conflict_key : Mock → Text
conflict_key mock = or_else mock.host [] ++ (0 ∷ mock.method ++ (0 ∷ mock.path))

unfoldable pub compute_mock_conflicts : List Mock → Dict Text Conflict
unfolding compute_conflicts conflict_key
compute_mock_conflicts mocks =
    compute_conflicts (λ (mock : Mock). mock.id) (λ mock. mock.is_file) conflict_key
      (filter (λ mock. mock.is_enabled) mocks)
