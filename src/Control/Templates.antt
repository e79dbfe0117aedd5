-- ===== src/Control/Templates.antt =====
-- Where a template fails to parse: indexToLineAndColumn and assertTemplateIsValid of
-- mocko-control/lib/mock/mock.service.ts and mocko-control/lib/callback/callback.service.ts. The parser
-- of bigodon is an argument: the message and the index of its error, if it has one.
pub mod Positions
use mocko.Base.{
  ℕ, zero, suc, ◌+◌, Text, txt, Option, none, some, List, [], ◌∷◌, is_empty, ◌==◌, nat_eq,
  if◌then◌else◌,
}
use mocko.Base.Result.{Result, ok, err}

-- the loop of the mock service, which also goes past the end; `left` indices are left
unfoldable pub walk : (left : ℕ) → Text → (line column : ℕ) → ℕ × ℕ
unfolding nat_eq
walk zero code line column = (line, column)
walk (suc left) [] line column = walk left [] line (column + 1)
walk (suc left) (c ∷ cs) line column =
    walk left cs (if c == 10 then line + 1 else line) (if c == 10 then 1 else column + 1)

-- the loop of the callback service, which stops at the end
unfoldable pub walk_within : (left : ℕ) → Text → (line column : ℕ) → ℕ × ℕ
unfolding nat_eq
walk_within zero code line column = (line, column)
walk_within (suc left) [] line column = (line, column)
walk_within (suc left) (c ∷ cs) line column =
    walk_within left cs (if c == 10 then line + 1 else line) (if c == 10 then 1 else column + 1)

unfoldable pub index_to_line_and_column : Text → ℕ → ℕ × ℕ
unfolding walk
index_to_line_and_column code index = walk index code 1 1

unfoldable pub index_to_line_and_column_within : Text → ℕ → ℕ × ℕ
unfolding walk_within
index_to_line_and_column_within code index = walk_within index code 1 1

-- `!body`: missing or empty
abbrev pub present : Option Text → Option Text
present none = none
present (some text) = if is_empty text then none else some text

-- `templateParseError`: the message of the parser, and where
pub record TemplateParseError : Type 0 where
  pub message : Text
  pub line : ℕ
  pub column : ℕ

module _ (parse : Text → Option (Text × ℕ)) where
  abbrev parse_failure : (Text → ℕ → ℕ × ℕ) → Text → Option (Text × ℕ) → Option TemplateParseError
  parse_failure position body none = none
  parse_failure position body (some (message, index)) = some (record {
    message = message;
    line = (position body index).0;
    column = (position body index).1;
  })

  abbrev body_error : (Text → ℕ → ℕ × ℕ) → Option Text → Option TemplateParseError
  body_error position none = none
  body_error position (some body) = parse_failure position body (parse body)

  -- assertTemplateIsValid of the mock service, and assertBodyTemplateIsValid: what they throw
  unfoldable pub template_error : Option Text → Option TemplateParseError
  unfolding index_to_line_and_column
  template_error body = body_error index_to_line_and_column (present body)

  unfoldable pub body_template_error : Option Text → Option TemplateParseError
  unfolding index_to_line_and_column_within
  body_template_error body = body_error index_to_line_and_column_within (present body)

  abbrev field_error : Option Text → Option Text
  field_error none = none
  field_error (some template) = elim (parse template) [
    | none ↦ none
    | some (message, index) ↦ some message
  ]

  -- assertFieldTemplateIsValid: the parser's message, if it throws
  unfoldable pub field_template_error : Option Text → Option Text
  field_template_error template = field_error (present template)
