-- ===== src/Definitions/Stanzas/Named.antt =====
-- The blocks under each name, when mergeRecords has put the records of a file together.
use mocko.Base.{
  Text, ◌≡◌, refl, sym, ap, subst, ◌∙◌, Option, none, some, List, [], ◌∷◌, ◌++◌, map, append_assoc,
  append-nil, All, text_eq, arith, ◌==◌, if◌then◌else◌, Bool-cases, inl, inr,
}
use mocko.Base.Dict
use mocko.Base.Dict.{Dict, NodupKeys, get-set}
use mocko.Base.Result.{ok, >>=-eq-ok}
use mocko.Definitions.Data.{Value, array, scalar, Record}
use mocko.Definitions.Records.{merge_records, merge_entries, merge_from, joined}
use mocko.Definitions.Records.Laws.{merge_entries-NodupKeys}
use mocko.Definitions.Stanzas.{blocks_of, stanzas}
use mocko.Definitions.Stanzas.Blocks.{
  IsArray, AreArrays, joined-IsArray, set-AreArrays, merge_entries-AreArrays,
}

module _ {B : Type 0} where
  abbrev pub elements : Value B → List B
  elements (array xs) = xs
  elements (scalar x) = []

  -- What one record has under a name.
  abbrev pub written_in : Text → Record B → List B
  written_in req [] = []
  written_in req ((name, value) ∷ entries) =
      let rest = written_in req entries in if req == name then elements value ++ rest else rest

  -- What the records have under a name, one after the other.
  abbrev pub written : Text → List (Record B) → List B
  written req [] = []
  written req (record' ∷ records) = written_in req record' ++ written req records

  -- What stands under a name in a list of blocks with their names.
  abbrev pub named : Text → List (Text × B) → List B
  named req [] = []
  named req ((name, block) ∷ blocks) =
      let rest = named req blocks in if req == name then block ∷ rest else rest

  abbrev elements_of : Option (Value B) → List B
  elements_of none = []
  elements_of (some value) = elements value

  abbrev IsArrayIfThere : Option (Value B) → Type 0
  IsArrayIfThere none = Unit {0}
  IsArrayIfThere (some value) = IsArray value

  get-IsArrayIfThere :
      (key : Text) (record' : Record B) → AreArrays record' → IsArrayIfThere (Dict.get key record')
  unfolding Dict.get
  get-IsArrayIfThere key [] h = tt
  get-IsArrayIfThere key ((name, value) ∷ entries) (a, h) = elim (Bool-cases (key == name)) [
    | inl same ↦ rw same a
    | inr other ↦ rw other (get-IsArrayIfThere key entries h)
  ]

  elements-joined :
      (there : Option (Value B)) (value : Value B)
      → IsArrayIfThere there
      → IsArray value
      → elements (joined there value) ≡ elements_of there ++ elements value
  elements-joined none value h a = ground arith
  elements-joined (some (array xs)) value h (ys, e) = rw e refl
  elements-joined (some (scalar x)) value (ys, e) a = cc

  abbrev at : Text → Record B → List B
  at req record' = elements_of (Dict.get req record')

  at-set :
      (req key : Text) (value : Value B) (merged : Record B)
      → AreArrays merged
      → IsArray value
      → at req (Dict.set key (joined (Dict.get key merged) value) merged)
        ≡ at req merged ++ (if req == key then elements value else [])
  at-set req key value merged h a =
      ap elements_of (get-set req key (joined (Dict.get key merged) value) merged)
      ∙ (elim (text_eq.dec req key) [
        | yes same ↦
            subst
              (λ k.
                elements_of (
                  if req == k then some (joined (Dict.get k merged) value) else Dict.get req merged)
                ≡ at req merged ++ (if req == k then elements value else []))
              same
              (ground (
                arith,
                elements-joined (Dict.get req merged) value (get-IsArrayIfThere req merged h) a,
              ))
        | no other ↦ ground (arith, append-nil (at req merged))
      ])

  at-merge_entries :
      (req : Text) (merged entries : Record B)
      → AreArrays merged
      → AreArrays entries
      → at req (merge_entries merged entries) ≡ at req merged ++ written_in req entries
  unfolding merge_entries
  at-merge_entries req merged [] h k = sym (append-nil _)
  at-merge_entries req merged ((key, value) ∷ entries) h (a, k) =
      let v = joined (Dict.get key merged) value in
      let put = set-AreArrays key v merged (joined-IsArray (Dict.get key merged) value a) h in
      at-merge_entries req (Dict.set key v merged) entries put k
      ∙ (ap (λ l. l ++ written_in req entries) (at-set req key value merged h a)
          ∙ (append_assoc (at req merged) (if req == key then elements value else [])
                (written_in req entries)
              ∙ ap (λ l. at req merged ++ l) (ground arith)))

  at-merge_from :
      (req : Text) (merged : Record B) (records : List (Record B))
      → AreArrays merged
      → All AreArrays records
      → at req (merge_from merged records) ≡ at req merged ++ written req records
  unfolding merge_from
  at-merge_from req merged [] h k = sym (append-nil _)
  at-merge_from req merged (record' ∷ records) h (a, k) =
      at-merge_from req (merge_entries merged record') records
        (merge_entries-AreArrays merged record' h a) k
      ∙ (ap (λ l. l ++ written req records) (at-merge_entries req merged record' h a)
          ∙ append_assoc (at req merged) (written_in req record') (written req records))

  merge_from-NodupKeys :
      (merged : Record B) (records : List (Record B))
      → NodupKeys merged
      → NodupKeys (merge_from merged records)
  unfolding merge_from
  merge_from-NodupKeys merged [] h = h
  merge_from-NodupKeys merged (record' ∷ records) h =
      merge_from-NodupKeys (merge_entries merged record') records
        (merge_entries-NodupKeys merged record' h)

  pub merge_records-NodupKeys : (records : List (Record B)) → NodupKeys (merge_records records)
  unfolding merge_records
  merge_records-NodupKeys records = merge_from-NodupKeys [] records tt

  named-append :
      (req name : Text) (xs : List B) (rest : List (Text × B))
      → named req (map {A = B} {B = Text × B} (λ block. (name, block)) xs ++ rest)
        ≡ (if req == name then xs else []) ++ named req rest
  named-append req name [] rest = ground arith
  named-append req name (x ∷ xs) rest = ground (arith, named-append req name xs rest)

  blocks_of-elements :
      (value : Value B) (xs : List B) → blocks_of value ≡ ok xs → elements value ≡ xs
  blocks_of-elements (array ys) xs h = cc
  blocks_of-elements (scalar x) xs h = cc

  at-first :
      (req name : Text) (value : Value B) (entries : Record B)
      → Dict.get name entries ≡ none
      → at req ((name, value) ∷ entries)
        ≡ (if req == name then elements value else []) ++ at req entries
  unfolding Dict.get
  at-first req name value entries once = elim (text_eq.dec req name) [
    | yes same ↦
        let gone : Dict.get req entries ≡ none = ap (λ k. Dict.get k entries) same ∙ once in
        let left : at req entries ≡ [] = ap elements_of gone in
        ground (arith, left, append-nil (elements value))
    | no other ↦ ground arith
  ]

  named-stanzas :
      (req : Text) (record' : Record B) (blocks : List (Text × B))
      → NodupKeys record'
      → stanzas record' ≡ ok blocks
      → named req blocks ≡ at req record'
  unfolding stanzas Dict.get
  named-stanzas req [] blocks h e =
      let same : [] ≡ blocks = cc in subst (λ bs. named req bs ≡ []) same refl
  named-stanzas req ((name, value) ∷ entries) blocks (once, h) e =
      let (xs, found, later) = >>=-eq-ok (blocks_of value) _ e in
      let (rest, others, end) = >>=-eq-ok (stanzas entries) _ later in
      let same : map {A = B} {B = Text × B} (λ block. (name, block)) xs ++ rest ≡ blocks = cc in
      ap (named req) (sym same)
      ∙ (named-append req name xs rest
          ∙ (ap (λ ys. (if req == name then ys else []) ++ named req rest)
                (sym (blocks_of-elements value xs found))
              ∙ (ap (λ ys. (if req == name then elements value else []) ++ ys)
                    (named-stanzas req entries rest h others)
                  ∙ sym (at-first req name value entries once))))

  -- Under each name, the blocks are those that the records have under it, in order.
  pub named-merge_records :
      (req : Text) (records : List (Record B)) (blocks : List (Text × B))
      → All AreArrays records
      → stanzas (merge_records records) ≡ ok blocks
      → named req blocks ≡ written req records
  unfolding merge_records Dict.get
  named-merge_records req records blocks h e =
      named-stanzas req (merge_records records) blocks (merge_records-NodupKeys records) e
      ∙ at-merge_from req [] records tt h
