-- ===== src/Control/Templates/Positions.antt =====
-- Which line and column an index of a template has.
use mocko.Base.{
  ℕ, zero, suc, ◌+◌, ◌≤◌, ◌≡◌, refl, ap, Text, Bool, false, ◌||◌, [], ◌∷◌, length, take, ◌==◌,
  nat_eq, if◌then◌else◌, arith,
}
use mocko.Control.Templates.{
  walk, walk_within, index_to_line_and_column, index_to_line_and_column_within,
}

abbrev pub newlines : Text → ℕ
newlines [] = 0
newlines (c ∷ cs) = let rest = newlines cs in if c == 10 then rest + 1 else rest

abbrev pub has_newline : Text → Bool
has_newline [] = false
has_newline (c ∷ cs) = c == 10 || has_newline cs

-- what stands behind the last newline
abbrev pub last_line : Text → Text
last_line [] = []
last_line (c ∷ cs) =
    let rest = last_line cs in if has_newline cs then rest else if c == 10 then cs else c ∷ cs

length-take : (n : ℕ) (xs : Text) → n ≤ length xs → length (take n xs) ≡ n
length-take zero xs h = refl
length-take (suc n) [] h = absurd (omega arith)
length-take (suc n) (x ∷ xs) h = ap suc (length-take n xs (omega arith))

walk_lem :
    (left : ℕ) (code : Text) (line column : ℕ)
    → left ≤ length code
    → walk left code line column ≡ (
      line + newlines (take left code),
      if has_newline (take left code)
          then length (last_line (take left code)) + 1
          else column + left,
    )
unfolding walk
walk_lem zero code line column h = ground arith
walk_lem (suc left) [] line column h = absurd (omega arith)
walk_lem (suc left) (c ∷ cs) line column h = ground (
  arith,
  walk_lem left cs (if c == 10 then line + 1 else line) (if c == 10 then 1 else column + 1),
  length-take left cs,
)

walk_within_lem :
    (left : ℕ) (code : Text) (line column : ℕ)
    → left ≤ length code
    → walk_within left code line column ≡ walk left code line column
unfolding walk walk_within
walk_within_lem zero code line column h = refl
walk_within_lem (suc left) [] line column h = absurd (omega arith)
walk_within_lem (suc left) (c ∷ cs) line column h =
    walk_within_lem left cs (if c == 10 then line + 1 else line) (if c == 10 then 1 else column + 1)
      (omega arith)

last_line-whole : (code : Text) → has_newline code ≡ false → last_line code ≡ code
last_line-whole [] h = refl
last_line-whole (c ∷ cs) h = ground arith

-- For an index within the template, the line is one more than the newlines before it, and the column
-- one more than the units between the last of them, or the start, and the index; the callback service,
-- which stops at the end, and the mock service, which does not, say the same.
pub index_to_line_and_column_lem :
    (code : Text) (index : ℕ)
    → index ≤ length code
    → (index_to_line_and_column code index
        ≡ (newlines (take index code) + 1, length (last_line (take index code)) + 1))
      × (index_to_line_and_column_within code index ≡ index_to_line_and_column code index)
unfolding index_to_line_and_column index_to_line_and_column_within
index_to_line_and_column_lem code index h = (
  ground
      (arith, walk_lem index code 1 1, length-take index code, last_line-whole (take index code)),
  walk_within_lem index code 1 1 h,
)
