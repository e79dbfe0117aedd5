-- ===== src/Definitions/Stanzas.antt =====
-- What mocko-core/src/definitions/data reads of the values that the parser of a file gives: properties,
-- which may be of any type, names, and blocks under names, whose errors are thrown or handed on. `A` is
-- the type of the values.
pub mod Blocks
pub mod Named
pub mod Sorted
use mocko.Base.{
  ℕ, zero, suc, Text, txt, Bool, true, false, not, Option, none, some, List, [], ◌∷◌, ◌++◌, map,
  any, is_empty, trim, to_lower_case, to_upper_case, ◌==◌, nat_eq, text_eq, if◌then◌else◌,
}
use mocko.Base.Dict
use mocko.Base.Dict.{Dict}
use mocko.Base.Result.{Result, ok, err, ◌>>=◌, ◌>>◌}
use mocko.Definitions.Data.{
  Value, array, scalar, Record, DataBlocks, Mock, Host, Callback, MockoDefinition,
}
use mocko.Definitions.Records.{merge_records}

-- A property of a value. `other` is an object, an array or any other value that counts as true.
pub data Attribute (A : Type 0) : Type 0 where
  missing null no_entries : Attribute A
  text : Text → Attribute A
  number : ℕ → Attribute A
  boolean : Bool → Attribute A
  other : A → Attribute A

pub data ConfigError : Type 0 where
  not_blocks : ConfigError
  name_not_text : (req : Text) → ConfigError
  on_mock on_host on_callback : (name message : Text) → ConfigError

pub record MockCandidate (A : Type 0) : Type 0 where
  pub name : Attribute A
  pub method : Text
  pub path : Text
  pub host : Attribute A
  pub parse : Attribute A
  pub format : Attribute A
  pub is_enabled : Attribute A
  pub labels : Attribute A
  pub code : Attribute A
  pub delay : Attribute A
  pub body : Attribute A
  pub headers : Attribute A

pub record HostCandidate (A : Type 0) : Type 0 where
  pub slug : Text
  pub name : Attribute A
  pub source : Attribute A
  pub destination : Attribute A

pub record CallbackCandidate (A : Type 0) : Type 0 where
  pub slug : Text
  pub name : Attribute A
  pub method : Attribute A
  pub host : Attribute A
  pub path : Attribute A
  pub url : Attribute A
  pub delay : Attribute A
  pub headers : Attribute A
  pub body : Attribute A

pub record Config (A : Type 0) : Type 0 where
  pub mock : List (Record A)
  pub data_blocks : Option (List (Record (Record A)))
  pub host : List (Record A)
  pub callback : List (Record A)

-- `a || b`
unfoldable pub or_value : {A : Type 0} → Attribute A → Attribute A → Attribute A
or_value missing b = b
or_value null b = b
or_value no_entries b = no_entries
or_value (text t) b = if is_empty t then b else text t
or_value (number zero) b = b
or_value (number (suc n)) b = number (suc n)
or_value (boolean true) b = boolean true
or_value (boolean false) b = b
or_value (other a) b = other a

-- `req.split(" ")`: the first part, and the others joined again
unfoldable pub split_request : Text → Text × Text
unfolding nat_eq
split_request [] = ([], [])
split_request (c ∷ cs) =
    let (method, path) = split_request cs in if c == b' ' then ([], cs) else (c ∷ method, path)

unfoldable pub method_of_request : Text → Text
unfolding split_request to_upper_case
method_of_request req = to_upper_case (split_request req).0

-- `name?.trim() || undefined`
unfoldable pub trimmed_name : {A : Type 0} → Text → Attribute A → Result ConfigError (Attribute A)
unfolding or_value trim
trimmed_name req missing = ok missing
trimmed_name req null = ok missing
trimmed_name req (text t) = ok (or_value (text (trim t)) missing)
trimmed_name req no_entries = err (name_not_text req)
trimmed_name req (number n) = err (name_not_text req)
trimmed_name req (boolean b) = err (name_not_text req)
trimmed_name req (other a) = err (name_not_text req)

-- `typeof name === 'string' ? name.trim() || undefined : name`
unfoldable pub callback_name : {A : Type 0} → Attribute A → Attribute A
unfolding or_value trim
callback_name (text t) = or_value (text (trim t)) missing
callback_name name = name

unfoldable pub callback_method : {A : Type 0} → Attribute A → Attribute A
unfolding to_upper_case
callback_method (text t) = text (to_upper_case t)
callback_method method = method

-- the error of a call, with where it was made
abbrev pub located : {A : Type 0} → (Text → ConfigError) → Result Text A → Result ConfigError A
located on (ok a) = ok a
located on (err message) = err (on message)

unfoldable pub format_conflicts : Mock → Bool
unfolding to_lower_case
format_conflicts mock = elim mock.format [
  | none ↦ false
  | some format ↦
      if is_empty format
      then false
      else any (λ key. to_lower_case key == txt "content-type") (Dict.keys mock.response.headers)
]

abbrev pub sorted_in : {Y E : Type 0} → Result E Y → List Y × List E → List Y × List E
sorted_in (ok y) (ys, es) = (y ∷ ys, es)
sorted_in (err e) (ys, es) = (ys, e ∷ es)

-- `flatMap` with a `try` around each call, whose errors are handed on
unfoldable pub collect : {X Y E : Type 0} → (X → Result E Y) → List X → List Y × List E
collect f [] = ([], [])
collect f (x ∷ xs) = sorted_in (f x) (collect f xs)

-- the same with no handler to hand an error to
unfoldable pub collect_or_throw :
    {X Y E : Type 0} → (X → Result E Y) → List X → Result E (List Y × List E)
collect_or_throw f [] = ok ([], [])
collect_or_throw f (x ∷ xs) = do y ← f x; (ys, es) ← collect_or_throw f xs; ok (y ∷ ys, es)

unfoldable pub collect_with :
    {X Y E : Type 0} → (has_handler : Bool) → (X → Result E Y) → List X → Result E (List Y × List E)
unfolding collect collect_or_throw
collect_with true f xs = ok (collect f xs)
collect_with false f xs = collect_or_throw f xs

abbrev pub blocks_of : {B : Type 0} → Value B → Result ConfigError (List B)
blocks_of (array xs) = ok xs
blocks_of (scalar x) = err not_blocks

-- each block under its name
unfoldable pub stanzas : {B : Type 0} → Record B → Result ConfigError (List (Text × B))
stanzas [] = ok []
stanzas {B} ((name, value) ∷ entries) = do
  blocks ← blocks_of value
  rest ← stanzas entries
  ok (map {A = B} {B = Text × B} (λ block. (name, block)) blocks ++ rest)

-- `mergeRecords(values)` for each name of the data
unfoldable pub data_entries : {A : Type 0} → Record (Record A) → Result ConfigError (DataBlocks A)
unfolding merge_records
data_entries [] = ok []
data_entries ((name, value) ∷ entries) = do
  records ← blocks_of value
  rest ← data_entries entries
  ok ((name, merge_records records) ∷ rest)
