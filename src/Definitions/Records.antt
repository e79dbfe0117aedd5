-- ===== src/Definitions/Records.antt =====
-- `mergeRecords` and `mergeData` of mocko-core/src/utils/utils.ts.
pub mod Laws
use mocko.Base.{Text, Option, none, some, List, [], ◌∷◌, ◌++◌, text_eq}
use mocko.Base.Dict
use mocko.Base.Dict.{Dict}
use mocko.Definitions.Data.{Value, array, scalar, Record, DataBlocks}

module _ {A : Type 0} where
  -- the value of a key that stood there already, and the one that comes
  abbrev pub joined : Option (Value A) → Value A → Value A
  joined (some (array xs)) (array ys) = array (xs ++ ys)
  joined _ values = values

  -- the inner loop of `mergeRecords`, over the entries of one record
  unfoldable pub merge_entries : Record A → Record A → Record A
  merge_entries merged [] = merged
  merge_entries merged ((key, values) ∷ entries) =
      merge_entries (Dict.set key (joined (Dict.get key merged) values) merged) entries

  unfoldable pub merge_from : Record A → List (Record A) → Record A
  merge_from merged [] = merged
  merge_from merged (record' ∷ records) = merge_from (merge_entries merged record') records

  unfoldable pub merge_records : List (Record A) → Record A
  unfolding merge_from merge_entries
  merge_records records = merge_from [] records

  -- the block of `mergeData` after one more entry of the name
  abbrev pub block : Option (Record A) → Record A → Record A
  block none entry = entry
  block (some existing) entry = merge_records (existing ∷ entry ∷ [])

  pub merge_blocks : DataBlocks A → DataBlocks A → DataBlocks A
  merge_blocks merged [] = merged
  merge_blocks merged ((name, entry) ∷ blocks) =
      merge_blocks (Dict.set name (block (Dict.get name merged) entry) merged) blocks

  pub merge_data_from : DataBlocks A → List (DataBlocks A) → DataBlocks A
  merge_data_from merged [] = merged
  merge_data_from merged (blocks ∷ rest) = merge_data_from (merge_blocks merged blocks) rest

  unfoldable pub merge_data : List (DataBlocks A) → DataBlocks A
  unfolding merge_data_from merge_blocks
  merge_data data_blocks = merge_data_from [] data_blocks
