-- ===== src/Control/OperationFields/RoundTrip.antt =====
-- An operation that is written is read back.
use native.Mathlib.Decide.{ℕ_discrete}
use mocko.Base.{
  ℕ, ◌≡◌, refl, ap, ◌∙◌, Text, Option, none, some, first, List, [], ◌∷◌, arith, ◌==◌, text_eq,
  if◌then◌else◌,
}
use mocko.Base.Dict
use mocko.Base.Dict.{Dict}
use mocko.Control.OperationFields.{
  StoredOperation, TypedData, stale_flags_data, matching_flags_data, v1_migration_data,
  v1_purge_data, truthy, defined, string_of, parse_optional_number, entries_of, serialize_operation,
  operation_of, deserialize_operation,
}

-- the value of a key among entries
abbrev value_at : List (Text × Option Text) → Text → Option Text
value_at [] k = none
value_at ((key, o) ∷ entries) k =
    let rest = value_at entries k in if k == key then first o rest else rest

get-defined :
    (entries : List (Text × Option Text)) (k : Text)
    → Dict.get k (defined entries) ≡ value_at entries k
unfolding defined Dict.get
get-defined [] k = refl
get-defined ((key, none) ∷ entries) k = ground (arith, get-defined entries k)
get-defined ((key, some v) ∷ entries) k = ground (arith, get-defined entries k)

truthy_idem : (o : Option Text) → truthy (first (truthy o) none) ≡ truthy o
truthy_idem none = refl
truthy_idem (some []) = refl
truthy_idem (some (c ∷ cs)) = refl

first-none : (o : Option Text) → truthy (first o none) ≡ truthy o
first-none none = refl
first-none (some t) = refl

module _ (string : ℕ → Text) (number : Text → ℕ)
    (number-string : (n : ℕ) → number (string n) ≡ n) where
  optional_back :
      (o : Option ℕ)
      → parse_optional_number string number (first (string_of string number o) none) ≡ o
  optional_back none = refl
  optional_back (some n) = ap some (number-string n)

  -- What JSON cannot tell apart from a missing time: the empty text.
  abbrev pub normalized : TypedData → TypedData
  normalized (v1_purge_data d) =
      v1_purge_data (record d { migration_completed_at = truthy d.migration_completed_at })
  normalized d = d

  abbrev whole : Text → Text → Text → Option Text → TypedData → StoredOperation
  whole id status created_at completed_at typed = record {
    id = id;
    status = status;
    created_at = created_at;
    completed_at = completed_at;
    typed = typed;
  }

  typed_back :
      (id status created_at : Text) (completed_at : Option Text) (typed : TypedData)
      → operation_of string number
          (value_at (entries_of string number (whole id status created_at completed_at typed)))
        ≡ some (whole id status created_at (truthy completed_at) (normalized typed))
  unfolding text_eq ℕ_discrete
  typed_back id status created_at completed_at (stale_flags_data d) =
      rw
        (
          truthy_idem completed_at,
          number-string d.threshold_seconds,
          optional_back d.scanned_count,
          optional_back d.stale_flags,
          optional_back d.purged_count,
        )
        refl
  typed_back id status created_at completed_at (matching_flags_data d) =
      rw
        (
          truthy_idem completed_at,
          optional_back d.scanned_count,
          optional_back d.matched_count,
          optional_back d.purged_count,
        )
        refl
  typed_back id status created_at completed_at (v1_migration_data d) =
      rw
        (
          truthy_idem completed_at,
          optional_back d.mocks_found,
          optional_back d.flags_found,
          optional_back d.mocks_migrated,
          optional_back d.flags_migrated,
          optional_back d.flags_skipped,
        )
        refl
  typed_back id status created_at completed_at (v1_purge_data d) =
      rw
        (
          truthy_idem completed_at,
          first-none d.migration_completed_at,
          optional_back d.keys_found,
          optional_back d.purged_count,
        )
        refl

  -- Where `Number` reads back what `String` prints of a count, an operation that is written to its hash
  -- is read back as it was, of each type and with any of its counts, but for times that are empty
  -- texts, which are read as missing.
  pub deserialize_operation-serialize_operation :
      (op : StoredOperation)
      → deserialize_operation string number (serialize_operation string number op)
        ≡ some (record op { completed_at = truthy op.completed_at; typed = normalized op.typed })
  unfolding deserialize_operation serialize_operation
  deserialize_operation-serialize_operation op =
      ap (operation_of string number) (λ i k. get-defined (entries_of string number op) k i)
      ∙ typed_back op.id op.status op.created_at op.completed_at op.typed
