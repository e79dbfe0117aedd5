-- ===== src/Base/Strings.antt =====
-- JavaScript strings: sequences of UTF-16 code units. Case mapping and white space are those of
-- the ASCII range.
use Prim.Native.Nat.{ℕ, zero, suc, ◌+◌, ◌-◌, ◌*◌}
use Prim.Native.Char.{code}
use Prim.Native.String.{String}
use mathlib.Core.Path.{◌≡◌, refl}
use mathlib.Core.Bool.{Bool, true, false, ◌&&◌, ◌||◌, cond}
use mathlib.Core.Option.{Option, none, some}
use mathlib.Core.List.{List, [], ◌∷◌, map, reverse}
use native.Mathlib.Omega.{arith}
use mocko.Base.Tests.{leb, if◌then◌else◌}
use mocko.Base.Equality.{◌==◌, nat_eq, text_eq}

abbrev pub Text : Type 0
Text = List ℕ

-- A literal.
abbrev pub txt : String → Text
txt String.[] = []
txt (String.◌∷◌ c s) = code c ∷ txt s

pub lower_unit : ℕ → ℕ
lower_unit c = if leb b'A' c && leb c b'Z' then c + 32 else c

-- `s.toLowerCase()`
unfoldable pub to_lower_case : Text → Text
unfolding lower_unit
to_lower_case = map lower_unit

pub upper_unit : ℕ → ℕ
upper_unit c = if leb b'a' c && leb c b'z' then c - 32 else c

-- `s.toUpperCase()`
unfoldable pub to_upper_case : Text → Text
unfolding upper_unit
to_upper_case = map upper_unit

-- `s.length === 0`, `!s` for a string
abbrev pub is_empty {ℓ} : {A : Type ℓ} → List A → Bool
is_empty [] = true
is_empty (x ∷ xs) = false

-- `s.startsWith(prefix)`
unfoldable pub starts_with : Text → Text → Bool
unfolding nat_eq
starts_with s [] = true
starts_with [] (p ∷ ps) = false
starts_with (c ∷ cs) (p ∷ ps) = c == p && starts_with cs ps

-- `s.endsWith(suffix)`
unfoldable pub ends_with : Text → Text → Bool
unfolding text_eq
ends_with [] suffix = is_empty suffix
ends_with (c ∷ cs) suffix = c ∷ cs == suffix || ends_with cs suffix

-- `s.includes(part)`
unfoldable pub includes : Text → Text → Bool
unfolding starts_with
includes [] part = is_empty part
includes (c ∷ cs) part = starts_with (c ∷ cs) part || includes cs part

is_space : ℕ → Bool
is_space c = c == 32 || (leb 9 c && leb c 13) || c == 160

unfoldable pub trim_start : Text → Text
unfolding is_space nat_eq
trim_start [] = []
trim_start (c ∷ cs) = let rest = trim_start cs in cond (is_space c) rest (c ∷ cs)

-- `s.trim()`
unfoldable pub trim : Text → Text
unfolding trim_start
trim s = reverse (trim_start (reverse (trim_start s)))

-- `s.substring(n)`, `s.slice(n)`
abbrev pub drop_prefix : Text → Text → Text
drop_prefix s [] = s
drop_prefix [] (p ∷ ps) = []
drop_prefix (c ∷ cs) (p ∷ ps) = drop_prefix cs ps

lower_test : to_lower_case (txt "GET /Api") ≡ txt "get /api"
unfolding to_lower_case
lower_test = refl

trim_test : trim (txt " a b ") ≡ txt "a b"
unfolding trim
trim_test = refl

includes_test : includes (txt "a::b") (txt "::") ≡ true
unfolding includes
includes_test = refl

lower_unit_idem : (c : ℕ) → lower_unit (lower_unit c) ≡ lower_unit c
unfolding lower_unit
lower_unit_idem c = ground arith

pub to_lower_case_idem : (s : Text) → to_lower_case (to_lower_case s) ≡ to_lower_case s
unfolding to_lower_case
to_lower_case_idem [] = refl
to_lower_case_idem (c ∷ s) = cc (lower_unit_idem c, to_lower_case_idem s)

-- The integers that texts stand for; `negsuc n` is -(n + 1).
pub data ℤ : Type 0 where
  pos negsuc : ℕ → ℤ

is_digit : ℕ → Bool
is_digit c = leb b'0' c && leb c b'9'

-- the digits at the front, after `n`
digits_from : ℕ → Text → ℕ
unfolding is_digit
digits_from n [] = n
digits_from n (c ∷ cs) =
    let more = digits_from (n * 10 + (c - 48)) cs in if is_digit c then more else n

starts_with_digit : Text → Bool
unfolding is_digit
starts_with_digit [] = false
starts_with_digit (c ∷ cs) = is_digit c

negated : ℕ → ℤ
negated zero = pos 0
negated (suc n) = negsuc n

unsigned : Text → Option ℤ
unfolding starts_with_digit digits_from
unsigned s = if starts_with_digit s then some (pos (digits_from 0 s)) else none

signed : Text → Option ℤ
unfolding unsigned negated nat_eq
signed [] = none
signed (c ∷ cs) =
    if c == b'-'
    then (if starts_with_digit cs then some (negated (digits_from 0 cs)) else none)
    else if c == b'+'
    then unsigned cs
    else unsigned (c ∷ cs)

-- `parseInt(s, 10)`; none is NaN
unfoldable pub parse_int : Text → Option ℤ
unfolding signed trim_start
parse_int s = signed (trim_start s)

parse_int_test : parse_int (txt " 404px") ≡ some (pos 404)
unfolding parse_int
parse_int_test = refl
