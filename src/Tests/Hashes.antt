-- ===== src/Tests/Hashes.antt =====
-- The theorems on the hashes of operations and of flags, at a migration that is under way, with counts
-- printed as one unit, and at a flag that is written to an empty database.
use mocko.Base.{ℕ, ◌≡◌, refl, Text, txt, none, some, [], ◌∷◌}
use mocko.Base.{◌++◌, ◌==◌, text_eq, if◌then◌else◌, arith, first}
use mocko.Base.Result.{Result, ok}
use mocko.Base.Dict
use mocko.Base.Dict.{Dict}
use mocko.Redis.{HashKeys}
use mocko.Control.OperationFields.{
  StoredOperation, v1_migration_data, truthy, serialize_operation, deserialize_operation,
}
use mocko.Control.OperationFields.RoundTrip.{normalized, deserialize_operation-serialize_operation}

abbrev string : ℕ → Text
string n = n ∷ []

abbrev number : Text → ℕ
number [] = 0
number (n ∷ _) = n

number-string : (n : ℕ) → number (string n) ≡ n
number-string n = refl

abbrev migration : StoredOperation
migration = record {
  id = txt "7";
  status = txt "EXECUTING";
  created_at = txt "2024-05-01";
  completed_at = none;
  typed = v1_migration_data (record {
    source_prefix = txt "mocko:";
    mocks_found = some 2;
    flags_found = some 9;
    mocks_migrated = none;
    flags_migrated = some 4;
    flags_skipped = none;
  });
}

deserialize_operation-serialize_operation_example :
    deserialize_operation string number (serialize_operation string number migration)
    ≡ some (record migration {
      completed_at = truthy migration.completed_at;
      typed = normalized string number number-string migration.typed;
    })
deserialize_operation-serialize_operation_example =
    deserialize_operation-serialize_operation string number number-string migration

get-append :
    (xs ys : Dict Text Text) (f : Text)
    → Dict.get f (xs ++ ys) ≡ first (Dict.get f xs) (Dict.get f ys)
unfolding Dict.get
get-append [] ys f = refl
get-append ((j, v) ∷ xs) ys f = ground (arith, get-append xs ys f)

empty_field : (f : Text) → Dict.get {V = Text} f [] ≡ none
unfolding Dict.get
empty_field f = refl

-- a database as one function from keys to hashes
abbrev functions : HashKeys
functions = record {
  State = Text → Dict Text Text;
  hgetall = λ k s. s k;
  hset = λ key fields s k. if k == key then fields ++ s k else s k;
  del = λ key s. (1, λ k. if k == key then [] else s k);
  field-hset = λ key fields s k f. ground (arith, get-append fields (s k) f);
  field-del = λ key s k f. ground (arith, empty_field f);
}

abbrev accept : Text → Result ℕ Text
accept value = ok value

abbrev nothing : functions.State
nothing key = []
