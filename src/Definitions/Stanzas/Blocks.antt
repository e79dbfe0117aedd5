-- ===== src/Definitions/Stanzas/Blocks.antt =====
-- Blocks that the parser of a file puts in arrays stay in arrays when mergeRecords puts the records
-- of mocko-core/src/utils/utils.ts together.
use mocko.Base.{Text, ◌≡◌, refl, Option, none, some, List, [], ◌∷◌, ◌++◌, map, All, text_eq, arith}
use mocko.Base.Dict
use mocko.Base.Dict.{Dict}
use mocko.Base.Result.{ok}
use mocko.Definitions.Data.{Value, array, scalar, Record, DataBlocks}
use mocko.Definitions.Records.{merge_records, merge_entries, merge_from, joined}
use mocko.Definitions.Stanzas.{stanzas, data_entries}

module _ {B : Type 0} where
  abbrev pub IsArray : Value B → Type 0
  IsArray value = (xs : List B) × (value ≡ array xs)

  abbrev pub AreArrays : Record B → Type 0
  AreArrays record' = All (λ (entry : Text × Value B). IsArray entry.1) record'

  pub joined-IsArray :
      (there : Option (Value B)) (value : Value B) → IsArray value → IsArray (joined there value)
  joined-IsArray none value h = h
  joined-IsArray (some (scalar x)) value h = h
  joined-IsArray (some (array xs)) value (ys, e) = (xs ++ ys, rw e refl)

  pub set-AreArrays :
      (key : Text) (value : Value B) (merged : Record B)
      → IsArray value
      → AreArrays merged
      → AreArrays (Dict.set key value merged)
  unfolding Dict.set
  set-AreArrays key value [] a h = (a, tt)
  set-AreArrays key value ((name, other) ∷ merged) a h =
      ground (arith, set-AreArrays key value merged a h.1)

  pub merge_entries-AreArrays :
      (merged entries : Record B)
      → AreArrays merged
      → AreArrays entries
      → AreArrays (merge_entries merged entries)
  unfolding merge_entries
  merge_entries-AreArrays merged [] h k = h
  merge_entries-AreArrays merged ((key, value) ∷ entries) h (a, k) =
      merge_entries-AreArrays (Dict.set key (joined (Dict.get key merged) value) merged) entries
        (set-AreArrays key (joined (Dict.get key merged) value) merged
          (joined-IsArray (Dict.get key merged) value a) h)
        k

  merge_from-AreArrays :
      (merged : Record B) (records : List (Record B))
      → AreArrays merged
      → All AreArrays records
      → AreArrays (merge_from merged records)
  unfolding merge_from
  merge_from-AreArrays merged [] h k = h
  merge_from-AreArrays merged (record' ∷ records) h (a, k) =
      merge_from-AreArrays (merge_entries merged record') records
        (merge_entries-AreArrays merged record' h a) k

  pub merge_records-AreArrays :
      (records : List (Record B)) → All AreArrays records → AreArrays (merge_records records)
  unfolding merge_records
  merge_records-AreArrays records k = merge_from-AreArrays [] records tt k

  pub stanzas-ok :
      (record' : Record B)
      → AreArrays record'
      → (blocks : List (Text × B)) × (stanzas record' ≡ ok blocks)
  unfolding stanzas
  stanzas-ok [] h = ([], refl)
  stanzas-ok ((name, value) ∷ entries) ((xs, e), h) =
      let (rest, f) = stanzas-ok entries h in
      (map {A = B} {B = Text × B} (λ block. (name, block)) xs ++ rest, rw e (rw f refl))

pub data_entries-ok :
    {A : Type 0} (record' : Record (Record A))
    → AreArrays record'
    → (entries : DataBlocks A) × (data_entries record' ≡ ok entries)
unfolding data_entries
data_entries-ok [] h = ([], refl)
data_entries-ok ((name, value) ∷ entries) ((records, e), h) =
    let (rest, f) = data_entries-ok entries h in
    ((name, merge_records records) ∷ rest, rw e (rw f refl))
