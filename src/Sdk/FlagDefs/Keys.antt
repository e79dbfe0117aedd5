-- ===== src/Sdk/FlagDefs/Keys.antt =====
-- The keys that a flag definition of the SDK builds, and what the core says of them.
use mocko.Base.{
  ◌≡◌, refl, sym, ap, subst, Text, txt, true, Option, none, some, List, [], ◌∷◌, All, nat_eq,
  text_eq, arith, Option-cases, inl, inr,
}
use mocko.Base.Dict
use mocko.Base.Dict.{Dict, get-set}
use mocko.Base.Result.{ok, Result-cases}
use mocko.Sdk.FlagDefs.{
  segments, rendered, validate_pattern, replace_params, value_in, Argument, string, object, other,
  collect_values, key_from_args, key_with, extract_params,
}
use mocko.Sdk.FlagDefs.Sections.{
  braced, rendered-segments, are_filled, filled_pattern, IsAccepted, filled-IsAccepted, IsPlain,
  filled_rendered,
}

undefined-IsPlain : IsPlain (txt "undefined")
unfolding nat_eq native.Mathlib.Decide.ℕ_discrete
undefined-IsPlain = (λ e. cc, refl)

-- Its texts may stand in a key.
abbrev pub HasPlainTexts : Argument → Type 0
HasPlainTexts (string value) = IsPlain value
HasPlainTexts (object fields) =
    (name value : Text) → Dict.get name fields ≡ some (some value) → IsPlain value
HasPlainTexts other = Unit

abbrev ArePlain : Dict Text Text → Type 0
ArePlain values = (name : Text) → IsPlain (value_in values name)

set-ArePlain :
    (param value : Text) (values : Dict Text Text)
    → IsPlain value
    → ArePlain values
    → ArePlain (Dict.set param value values)
set-ArePlain param value values p h name = elim (text_eq.dec name param) [
  | yes e ↦
      let there : Dict.get name (Dict.set param value values) ≡ some value =
        ground (arith, get-set name param value values) in
      subst IsPlain (sym (ap (λ o. elim o [ none ↦ txt "undefined" | some v ↦ v ]) there)) p
  | no n ↦
      let same : Dict.get name (Dict.set param value values) ≡ Dict.get name values =
        ground (arith, get-set name param value values) in
      subst IsPlain (sym (ap (λ o. elim o [ none ↦ txt "undefined" | some v ↦ v ]) same)) (h name)
]

collected :
    (params : List Text) (fields : Dict Text (Option Text)) (values all : Dict Text Text)
    → HasPlainTexts (object fields)
    → ArePlain values
    → collect_values params fields values ≡ ok all
    → ArePlain all
unfolding collect_values
collected [] fields values all p h e = let same : values ≡ all = cc in subst ArePlain same h
collected (param ∷ params) fields values all p h e = elim (Option-cases (Dict.get param fields)) [
  | inl n ↦ absurd (ground arith)
  | inr (none, g) ↦ absurd (ground arith)
  | inr (some value, g) ↦
      collected params fields (Dict.set param value values) all p
        (set-ArePlain param value values (p param value g) h) (ground arith)
]

replaced :
    (pattern : Text) (values : Dict Text Text)
    → validate_pattern pattern ≡ ok tt
    → ArePlain values
    → IsAccepted (replace_params pattern values)
unfolding replace_params
replaced pattern values v plain =
    filled-IsAccepted (rendered (value_in values) (segments pattern)) (
      filled_rendered (value_in values) plain true (segments pattern) (
        subst (λ t. are_filled true t ≡ true) (sym (rendered-segments pattern))
          (filled_pattern pattern v)))

none-ArePlain : ArePlain []
unfolding Dict.get
none-ArePlain name = undefined-IsPlain

one-ArePlain : (param value : Text) → IsPlain value → ArePlain ((param, value) ∷ [])
unfolding Dict.set
one-ArePlain param value p = set-ArePlain param value [] p none-ArePlain

key_with-IsAccepted :
    (pattern : Text) (params : List Text) (args : List Argument) (key : Text)
    → validate_pattern pattern ≡ ok tt
    → All HasPlainTexts args
    → key_with pattern params args ≡ ok key
    → IsAccepted key
key_with-IsAccepted pattern [] [] key v p h =
    let same : pattern ≡ key = cc in
    subst IsAccepted same (filled-IsAccepted pattern (filled_pattern pattern v))
key_with-IsAccepted pattern [] (a ∷ args) key v p h = cc
key_with-IsAccepted pattern (param ∷ []) [] key v p h = cc
key_with-IsAccepted pattern (param ∷ []) (string value ∷ []) key v p h =
    let same : replace_params pattern ((param, value) ∷ []) ≡ key = cc in
    subst IsAccepted same (replaced pattern ((param, value) ∷ []) v (one-ArePlain param value p.0))
key_with-IsAccepted pattern (param ∷ []) (object fields ∷ []) key v p h = cc
key_with-IsAccepted pattern (param ∷ []) (other ∷ []) key v p h = cc
key_with-IsAccepted pattern (param ∷ []) (string value ∷ b ∷ args) key v p h = cc
key_with-IsAccepted pattern (param ∷ []) (object fields ∷ b ∷ args) key v p h = cc
key_with-IsAccepted pattern (param ∷ []) (other ∷ b ∷ args) key v p h = cc
key_with-IsAccepted pattern (param ∷ q ∷ params) [] key v p h = cc
key_with-IsAccepted pattern (param ∷ q ∷ params) (string value ∷ []) key v p h = cc
key_with-IsAccepted pattern (param ∷ q ∷ params) (other ∷ []) key v p h = cc
key_with-IsAccepted pattern (param ∷ q ∷ params) (object fields ∷ []) key v p h =
    elim (Result-cases (collect_values (param ∷ q ∷ params) fields [])) [
      | inl (thrown, e) ↦ absurd (ground arith)
      | inr (values, e) ↦
          let same : replace_params pattern values ≡ key = ground arith in
          subst IsAccepted same (
            replaced pattern values v
              (collected (param ∷ q ∷ params) fields [] values p.0 none-ArePlain e))
    ]
key_with-IsAccepted pattern (param ∷ q ∷ params) (string value ∷ b ∷ args) key v p h = cc
key_with-IsAccepted pattern (param ∷ q ∷ params) (object fields ∷ b ∷ args) key v p h = cc
key_with-IsAccepted pattern (param ∷ q ∷ params) (other ∷ b ∷ args) key v p h = cc

-- Whatever key a flag definition with a valid pattern builds from its arguments, whose texts are not
-- empty and hold no ':', the core's template helpers accept it as it is, and it does not start with a
-- ':'; and the pieces into which the pattern is cut for its placeholders are all of it.
pub key_from_args-IsAccepted :
    (pattern : Text) (args : List Argument) (key : Text)
    → validate_pattern pattern ≡ ok tt
    → All HasPlainTexts args
    → key_from_args pattern args ≡ ok key
    → IsAccepted key × (rendered braced (segments pattern) ≡ pattern)
unfolding key_from_args
key_from_args-IsAccepted pattern args key v p h =
    (key_with-IsAccepted pattern (extract_params pattern) args key v p h, rendered-segments pattern)
