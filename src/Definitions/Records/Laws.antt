-- ===== src/Definitions/Records/Laws.antt =====
-- Which value a key has after a merge.
use mocko.Base.{
  ◌≡◌, refl, sym, ◌∙◌, ap, Text, Option, none, some, List, [], ◌∷◌, ◌++◌, map, arith, All, text_eq,
  ◌==◌, if◌then◌else◌,
}
use mocko.Base.Dict
use mocko.Base.Dict.{NodupKeys, get-set}
use mocko.Definitions.Data.{Value, array, scalar, Record, DataBlocks}
use mocko.Definitions.Records.{
  joined, merge_entries, merge_from, merge_records, block, merge_blocks, merge_data_from,
  merge_data,
}

module _ {A : Type 0} where
  -- Arrays are joined; of any other two values the later one stands.
  abbrev pub combine : Option (Value A) → Option (Value A) → Option (Value A)
  combine old none = old
  combine none (some v) = some v
  combine (some (array xs)) (some (array ys)) = some (array (xs ++ ys))
  combine (some v) (some w) = some w

  combine-joined :
      (old : Option (Value A)) (v : Value A) → some (joined old v) ≡ combine old (some v)
  combine-joined none v = ground arith
  combine-joined (some (array xs)) (array ys) = refl
  combine-joined (some (array xs)) (scalar y) = refl
  combine-joined (some (scalar x)) v = ground arith

  get-merge_entries :
      (k : Text) (merged entries : Record A)
      → NodupKeys entries
      → Dict.get k (merge_entries merged entries) ≡ combine (Dict.get k merged) (Dict.get k entries)
  unfolding merge_entries Dict.get
  get-merge_entries k merged [] h = refl
  get-merge_entries k merged ((j, v) ∷ entries) h = ground (
    arith,
    get-merge_entries k (Dict.set j (joined (Dict.get j merged) v) merged) entries h.1,
    get-set k j (joined (Dict.get j merged) v) merged,
    combine-joined (Dict.get j merged) v,
  )

  -- What is left of a key's values, taken one after the other.
  abbrev pub combined : Option (Value A) → List (Option (Value A)) → Option (Value A)
  combined old [] = old
  combined old (v ∷ vs) = combined (combine old v) vs

  get-merge_from :
      (k : Text) (merged : Record A) (records : List (Record A))
      → All NodupKeys records
      → Dict.get k (merge_from merged records)
        ≡ combined (Dict.get k merged) (map (λ r. Dict.get k r) records)
  unfolding merge_from
  get-merge_from k merged [] h = refl
  get-merge_from k merged (r ∷ records) h =
      get-merge_from k (merge_entries merged r) records h.1
      ∙ ap (λ o. combined o (map (λ e. Dict.get k e) records)) (get-merge_entries k merged r h.0)

  -- The value of a key in merged records: its arrays joined in order, and otherwise the last value.
  pub get-merge_records :
      (k : Text) (records : List (Record A))
      → All NodupKeys records
      → Dict.get k (merge_records records) ≡ combined none (map (λ r. Dict.get k r) records)
  unfolding merge_records Dict.get
  get-merge_records k records h = get-merge_from k [] records h

  pub merge_entries-NodupKeys :
      (merged entries : Record A) → NodupKeys merged → NodupKeys (merge_entries merged entries)
  unfolding merge_entries
  merge_entries-NodupKeys merged [] h = h
  merge_entries-NodupKeys merged ((j, v) ∷ entries) h =
      merge_entries-NodupKeys (Dict.set j (joined (Dict.get j merged) v) merged) entries
        (Dict.set-NodupKeys j (joined (Dict.get j merged) v) merged h)

  -- Objects have each key once, the blocks and the entries in them.
  pub record IsObject (d : DataBlocks A) : Type 0 where
    pub nodup : NodupKeys d
    pub entries : (name : Text) (e : Record A) → Dict.get name d ≡ some e → NodupKeys e

  abbrev in_block : Text → Option (Record A) → Option (Value A)
  in_block k none = none
  in_block k (some e) = Dict.get k e

  -- `data[name][key]`, none if there is no such block
  abbrev pub value_at : Text → Text → DataBlocks A → Option (Value A)
  value_at name k d = in_block k (Dict.get name d)

  pub combine-none : (v : Option (Value A)) → combine none v ≡ v
  combine-none none = refl
  combine-none (some v) = refl

  in_block-block :
      (k : Text) (old : Option (Record A)) (entry : Record A)
      → ((e : Record A) → old ≡ some e → NodupKeys e)
      → NodupKeys entry
      → Dict.get k (block old entry) ≡ combine (in_block k old) (Dict.get k entry)
  in_block-block k none entry h n = sym (combine-none (Dict.get k entry))
  in_block-block k (some e) entry h n =
      get-merge_records k (e ∷ entry ∷ []) (h e refl, (n, tt)) ∙ rw (combine-none (Dict.get k e))

  block-NodupKeys :
      (old : Option (Record A)) (entry : Record A) → NodupKeys entry → NodupKeys (block old entry)
  unfolding merge_records merge_from
  block-NodupKeys none entry n = n
  block-NodupKeys (some e) entry n =
      merge_entries-NodupKeys (merge_entries [] e) entry (merge_entries-NodupKeys [] e tt)

  -- the merged blocks with one more
  abbrev added : Text → Record A → DataBlocks A → DataBlocks A
  added name entry merged = Dict.set name (block (Dict.get name merged) entry) merged

  added-IsObject :
      (name : Text) (entry : Record A) (merged : DataBlocks A)
      → NodupKeys entry
      → IsObject merged
      → IsObject (added name entry merged)
  added-IsObject name entry merged n o = record {
    nodup = Dict.set-NodupKeys name (block (Dict.get name merged) entry) merged o.nodup;
    entries = λ j e there. ground (
      arith,
      get-set j name (block (Dict.get name merged) entry) merged,
      o.entries j e,
      block-NodupKeys (Dict.get name merged) entry n,
    );
  }

  value_at-added :
      (j k name : Text) (entry : Record A) (merged : DataBlocks A)
      → NodupKeys entry
      → IsObject merged
      → value_at j k (added name entry merged) ≡ (
          if j == name
          then combine (value_at j k merged) (Dict.get k entry)
          else value_at j k merged)
  value_at-added j k name entry merged n o = ground (
    arith,
    get-set j name (block (Dict.get name merged) entry) merged,
    in_block-block k (Dict.get name merged) entry (o.entries name) n,
  )

  merge_blocks-IsObject :
      (merged blocks : DataBlocks A)
      → IsObject merged
      → All (λ b. NodupKeys b.1) blocks
      → IsObject (merge_blocks merged blocks)
  unfolding merge_blocks
  merge_blocks-IsObject merged [] o h = o
  merge_blocks-IsObject merged ((name, entry) ∷ blocks) o h =
      merge_blocks-IsObject (added name entry merged) blocks
        (added-IsObject name entry merged h.0 o) h.1

  value_at-merge_blocks :
      (j k : Text) (merged blocks : DataBlocks A)
      → IsObject merged
      → NodupKeys blocks
      → All (λ b. NodupKeys b.1) blocks
      → value_at j k (merge_blocks merged blocks)
        ≡ combine (value_at j k merged) (value_at j k blocks)
  unfolding merge_blocks Dict.get
  value_at-merge_blocks j k merged [] o u h = refl
  value_at-merge_blocks j k merged ((name, entry) ∷ blocks) o u h = ground (
    arith,
    value_at-merge_blocks j k (added name entry merged) blocks
        (added-IsObject name entry merged h.0 o) u.1 h.1,
    value_at-added j k name entry merged h.0 o,
  )

  -- each block's entries
  abbrev pub AreObjects : DataBlocks A → Type 0
  AreObjects d = NodupKeys d × All (λ b. NodupKeys b.1) d

  value_at-merge_from :
      (j k : Text) (merged : DataBlocks A) (ds : List (DataBlocks A))
      → IsObject merged
      → All AreObjects ds
      → value_at j k (merge_data_from merged ds)
        ≡ combined (value_at j k merged) (map (λ d. value_at j k d) ds)
  unfolding merge_data_from
  value_at-merge_from j k merged [] o h = refl
  value_at-merge_from j k merged (d ∷ ds) o h =
      value_at-merge_from j k (merge_blocks merged d) ds (merge_blocks-IsObject merged d o h.0.1)
        h.1
      ∙ ap (λ v. combined v (map (λ e. value_at j k e) ds))
          (value_at-merge_blocks j k merged d o h.0.0 h.0.1)

  -- The value at a block and a key of merged data: the arrays of the sources joined in order, and
  -- otherwise the value of the last source that has one. Each source is taken to have each block, and
  -- each block each key, once.
  pub value_at-merge_data :
      (j k : Text) (ds : List (DataBlocks A))
      → All AreObjects ds
      → value_at j k (merge_data ds) ≡ combined none (map (λ d. value_at j k d) ds)
  unfolding merge_data Dict.get
  value_at-merge_data j k ds h =
      value_at-merge_from j k [] ds (record { nodup = tt; entries = λ name e there. cc }) h
