-- ===== src/Sdk/FlagDefs.antt =====
-- mocko-sdk/src/flags/runtime-flag-def.ts: the keys that a flag definition builds from its pattern.
pub mod Sections
pub mod Keys
use mocko.Base.{
  ℕ, Text, txt, Bool, true, false, ◌||◌, Option, none, some, List, [], ◌∷◌, ◌++◌, is_empty, trim,
  starts_with, ends_with, includes, ◌==◌, nat_eq, text_eq, if◌then◌else◌,
}
use mocko.Base.Dict
use mocko.Base.Dict.{Dict}
use mocko.Base.Result.{Result, ok, err, ◌>>=◌}

-- the pieces of a pattern that `/\{([^{}]+)\}/g` finds, and the units between them
pub data Segment : Type 0 where
  literal : ℕ → Segment
  placeholder : Text → Segment

abbrev pub literals : Text → List Segment → List Segment
literals [] rest = rest
literals (c ∷ cs) rest = literal c ∷ literals cs rest

-- the matches from here on; `some name` is a brace that was opened, and what followed it
unfoldable pub segments_from : Option Text → Text → List Segment
unfolding nat_eq
segments_from none [] = []
segments_from none (c ∷ cs) =
    let opened = segments_from (some []) cs in
    let rest = segments_from none cs in if c == b'{' then opened else literal c ∷ rest
segments_from (some name) [] = literals (b'{' ∷ name) []
segments_from (some name) (c ∷ cs) =
    let reopened = segments_from (some []) cs in
    let closed = segments_from none cs in
    let longer = segments_from (some (name ++ c ∷ [])) cs in
    if c == b'{'
    then literals (b'{' ∷ name) reopened
    else if c == b'}'
    then (if is_empty name then literal b'{' ∷ literal b'}' ∷ closed else placeholder name ∷ closed)
    else longer

unfoldable pub segments : Text → List Segment
unfolding segments_from
segments pattern = segments_from none pattern

abbrev pub params_of : List Segment → List Text
params_of [] = []
params_of (literal c ∷ rest) = params_of rest
params_of (placeholder name ∷ rest) = name ∷ params_of rest

unfoldable pub extract_params : Text → List Text
unfolding segments
extract_params pattern = params_of (segments pattern)

-- the text with each placeholder replaced
unfoldable pub rendered : (Text → Text) → List Segment → Text
rendered value_of [] = []
rendered value_of (literal c ∷ rest) = c ∷ rendered value_of rest
rendered value_of (placeholder name ∷ rest) = value_of name ++ rendered value_of rest

-- A parameter that is not there would be written as `undefined`.
abbrev pub value_in : Dict Text Text → Text → Text
value_in values name = elim (Dict.get name values) [ none ↦ txt "undefined" | some value ↦ value ]

unfoldable pub replace_params : Text → Dict Text Text → Text
unfolding segments rendered
replace_params pattern values = rendered (value_in values) (segments pattern)

pub data UsageError : Type 0 where
  expected_parameters : ℕ → UsageError
  expected_string : UsageError
  expected_params_object : UsageError
  missing_parameter : Text → UsageError
  pattern_required pattern_colons pattern_unnamed : UsageError

unfoldable pub validate_pattern : Text → Result UsageError (Unit {0})
validate_pattern pattern =
    if is_empty (trim pattern)
    then err pattern_required
    else if starts_with pattern (txt ":")
        || (ends_with pattern (txt ":") || includes pattern (txt "::"))
    then err pattern_colons
    else if includes pattern (txt "{}")
    then err pattern_unnamed
    else ok tt

-- An argument of a call: a text, an object whose fields are texts or not, or anything else.
pub data Argument : Type 0 where
  string : Text → Argument
  object : Dict Text (Option Text) → Argument
  other : Argument

abbrev pub joined : Option (Option Text) → Option Text
joined none = none
joined (some o) = o

-- the loop of `keyFromManyArgs`
unfoldable pub collect_values :
    List Text → Dict Text (Option Text) → Dict Text Text → Result UsageError (Dict Text Text)
collect_values [] given values = ok values
collect_values (param ∷ params) given values = elim (joined (Dict.get param given)) [
  | none ↦ err (missing_parameter param)
  | some value ↦ collect_values params given (Dict.set param value values)
]

abbrev pub key_from_one_arg : Text → Text → List Argument → Result UsageError Text
key_from_one_arg pattern param (string value ∷ []) =
    ok (replace_params pattern ((param, value) ∷ []))
key_from_one_arg pattern param (object o ∷ []) = err expected_string
key_from_one_arg pattern param (other ∷ []) = err expected_string
key_from_one_arg pattern param args = err (expected_parameters 1)

abbrev pub key_from_many_args : Text → List Text → List Argument → Result UsageError Text
key_from_many_args pattern params (object o ∷ []) = do
  values ← collect_values params o []
  ok (replace_params pattern values)
key_from_many_args pattern params (string value ∷ []) = err expected_params_object
key_from_many_args pattern params (other ∷ []) = err expected_params_object
key_from_many_args pattern params args = err (expected_parameters 1)

abbrev pub key_from_no_args : Text → List Argument → Result UsageError Text
key_from_no_args pattern [] = ok pattern
key_from_no_args pattern args = err (expected_parameters 0)

abbrev pub key_with : Text → List Text → List Argument → Result UsageError Text
key_with pattern [] args = key_from_no_args pattern args
key_with pattern (param ∷ []) args = key_from_one_arg pattern param args
key_with pattern params args = key_from_many_args pattern params args

unfoldable pub key_from_args : Text → List Argument → Result UsageError Text
unfolding extract_params replace_params collect_values
key_from_args pattern args = key_with pattern (extract_params pattern) args
