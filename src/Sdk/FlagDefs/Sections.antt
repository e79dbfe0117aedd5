-- ===== src/Sdk/FlagDefs/Sections.antt =====
-- The pieces of a pattern, and the sections between the colons of a key.
use mocko.Base.{
  ◌≡◌, ◌≢◌, refl, ap, subst, ◌∙◌, Text, Bool, true, false, not, ◌&&◌, Option, none, some, List, [],
  ◌∷◌, ◌++◌, is_empty, trim, starts_with, contains, ◌==◌, nat_eq, text_eq, if◌then◌else◌, arith,
  append_assoc, Bool-cases, inl, inr,
}
use mocko.Base.Result.{ok}
use mocko.Flags.Keys.{has_empty_section-eq, colon, has_empty_section, validate_flag_key, text}
use mocko.Sdk.FlagDefs.{
  Segment, literal, placeholder, literals, segments_from, segments, rendered, validate_pattern,
}

-- a placeholder as it stands in the pattern
abbrev pub braced : Text → Text
braced name = b'{' ∷ name ++ b'}' ∷ []

rendered-literals :
    (f : Text → Text) (cs : Text) (rest : List Segment)
    → rendered f (literals cs rest) ≡ cs ++ rendered f rest
unfolding rendered
rendered-literals f [] rest = refl
rendered-literals f (c ∷ cs) rest = ap (λ t. c ∷ t) (rendered-literals f cs rest)

abbrev pending_text : Option Text → Text → Text
pending_text none cs = cs
pending_text (some name) cs = b'{' ∷ name ++ cs

rendered-segments_from :
    (open_name : Option Text) (cs : Text)
    → rendered braced (segments_from open_name cs) ≡ pending_text open_name cs
unfolding segments_from rendered
rendered-segments_from none [] = refl
rendered-segments_from none (c ∷ cs) =
    ground (arith, rendered-segments_from (some []) cs, rendered-segments_from none cs)
rendered-segments_from (some name) [] = ap (λ t. b'{' ∷ t) (rendered-literals braced name [])
rendered-segments_from (some name) (c ∷ cs) = elim (Bool-cases (c == b'{')) [
  | inl opened ↦ ground (
    arith,
    rendered-literals braced name (segments_from (some []) cs),
    rendered-segments_from (some []) cs,
  )
  | inr no_brace ↦ elim (Bool-cases (c == b'}')) [
    | inl closed ↦ ground (
      arith,
      rendered-segments_from none cs,
      append_assoc name (b'}' ∷ []) cs,
      Bool-cases (is_empty name),
    )
    | inr unit ↦
        ground
          (arith, rendered-segments_from (some (name ++ c ∷ [])) cs, append_assoc name (c ∷ []) cs)
  ]
]

-- The pieces that are found in a pattern are all of it.
pub rendered-segments : (pattern : Text) → rendered braced (segments pattern) ≡ pattern
unfolding segments
rendered-segments pattern = rendered-segments_from none pattern

-- The sections of a text are not empty; `after` says that one has just begun.
abbrev pub are_filled : (after : Bool) → Text → Bool
are_filled after [] = not after
are_filled after (c ∷ cs) =
    let next = are_filled true cs in
    let rest = are_filled false cs in if c == colon then not after && next else rest

filled-sections : (s : Text) → are_filled false s ≡ not (has_empty_section s)
unfolding has_empty_section
filled-sections [] = refl
filled-sections (c ∷ []) = ground arith
filled-sections (c ∷ d ∷ cs) = ground (arith, filled-sections (d ∷ cs))

filled_after :
    (after : Bool) (xs rest : Text)
    → are_filled after (xs ++ (b'}' ∷ rest)) ≡ true
    → are_filled false rest ≡ true
filled_after after [] rest h = ground arith
filled_after after (x ∷ xs) rest h = elim (Bool-cases (x == colon)) [
  | inl e ↦ filled_after true xs rest (ground arith)
  | inr n ↦ filled_after false xs rest (ground arith)
]

filled_value :
    (after : Bool) (v rest : Text)
    → v ≢ []
    → contains v colon ≡ false
    → are_filled after (v ++ rest) ≡ are_filled false rest
filled_value after [] rest some_v h = absurd (some_v refl)
filled_value after (x ∷ []) rest some_v h = ground arith
filled_value after (x ∷ y ∷ v) rest some_v h =
    ground (arith, filled_value false (y ∷ v) rest (λ e. cc) (ground arith))

-- A value for a placeholder: not empty, and with no ':'.
abbrev pub IsPlain : Text → Type 0
IsPlain v = (v ≢ []) × (contains v colon ≡ false)

pub filled_rendered :
    (value_of : Text → Text)
    → ((name : Text) → IsPlain (value_of name))
    → (after : Bool) (segs : List Segment) → are_filled after (rendered braced segs) ≡ true
    → are_filled after (rendered value_of segs) ≡ true
unfolding rendered
filled_rendered value_of plain after [] h = h
filled_rendered value_of plain after (literal c ∷ segs) h = elim (Bool-cases (c == colon)) [
  | inl e ↦ let rest = filled_rendered value_of plain true segs (ground arith) in ground arith
  | inr n ↦ let rest = filled_rendered value_of plain false segs (ground arith) in ground arith
]
filled_rendered value_of plain after (placeholder name ∷ segs) h =
    let shape = append_assoc (b'{' ∷ name) (b'}' ∷ []) (rendered braced segs) in
    let behind =
      filled_after after (b'{' ∷ name) (rendered braced segs)
        (subst (λ t. are_filled after t ≡ true) shape h) in
    filled_value after (value_of name) (rendered value_of segs) (plain name).0 (plain name).1
    ∙ filled_rendered value_of plain false segs behind

pub filled_pattern :
    (pattern : Text) → validate_pattern pattern ≡ ok tt → are_filled true pattern ≡ true
unfolding validate_pattern trim starts_with
filled_pattern [] h = cc
filled_pattern (c ∷ cs) h = ground (arith, filled-sections (c ∷ cs), has_empty_section-eq (c ∷ cs))

-- What the core says of a key whose sections are filled.
abbrev pub IsAccepted : Text → Type 0
IsAccepted key =
    (validate_flag_key {V = Text} (text key) ≡ ok key) × (starts_with key (colon ∷ []) ≡ false)

pub filled-IsAccepted : (key : Text) → are_filled true key ≡ true → IsAccepted key
unfolding validate_flag_key starts_with
filled-IsAccepted [] h = cc
filled-IsAccepted (c ∷ cs) h = (ground (arith, filled-sections (c ∷ cs)), ground arith)
