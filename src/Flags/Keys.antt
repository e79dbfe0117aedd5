-- ===== src/Flags/Keys.antt =====
-- The checks of mocko-core/src/helpers/flag.ts on what a template passes, and those of
-- flag.controller.ts on what the API receives. Numbers are integers.
use mocko.Base.{
  ℕ, ℤ, pos, negsuc, zero, suc, ◌≡◌, ◌≢◌, ◌↔◌, refl, Bool, true, false, ◌&&◌, ◌||◌, Text, is_empty,
  trim, starts_with, ends_with, includes, Option, none, some, [], ◌∷◌, arith, ◌==◌, nat_eq, text_eq,
  if◌then◌else◌,
}
use mocko.Base.Result.{Result, ok, err, ◌>>=◌}
use mocko.Flags.MemoryRepository
use mocko.Flags.MemoryRepository.{Flags}

-- An argument of a template helper.
pub data Argument (V : Type 0) : Type 0 where
  text : Text → Argument V
  number : ℤ → Argument V
  undefined : Argument V
  other : V → Argument V

pub data FlagError : Type 0 where
  key_not_string key_empty key_empty_section : FlagError
  ttl_not_number ttl_not_positive : FlagError
  key_required key_bad_colons : FlagError

-- the code of ':'
abbrev pub colon : ℕ
colon = 58

abbrev head_is_colon : Text → Bool
head_is_colon [] = true
head_is_colon (c ∷ cs) = c == colon

-- `/:(:|$)/.test(key)`
unfoldable pub has_empty_section : Text → Bool
unfolding nat_eq
has_empty_section [] = false
has_empty_section (c ∷ cs) = (c == colon && head_is_colon cs) || has_empty_section cs

module _ {V : Type 0} where
  unfoldable pub validate_flag_key : Argument V → Result FlagError Text
  unfolding has_empty_section
  validate_flag_key (text key) =
      if is_empty key
      then err key_empty
      else if has_empty_section key
      then err key_empty_section
      else ok key
  validate_flag_key _ = err key_not_string

  unfoldable pub validate_flag_expiration : Argument V → Result FlagError ℕ
  validate_flag_expiration (number (pos zero)) = err ttl_not_positive
  validate_flag_expiration (number (pos (suc n))) = ok (suc n)
  validate_flag_expiration (number (negsuc n)) = err ttl_not_positive
  validate_flag_expiration _ = err ttl_not_number

  -- `typeof ttlMillis !== 'undefined'`
  abbrev helper_ttl : Argument V → Result FlagError (Option ℕ)
  helper_ttl undefined = ok none
  helper_ttl ttl = do millis ← validate_flag_expiration ttl; ok (some millis)

  -- the template helpers, over the memory repository; a `get` that expires a flag drops it
  unfoldable pub get_flag : ℕ → Argument V → Flags V → Result FlagError (Option V × Flags V)
  unfolding validate_flag_key
  get_flag now key flags = do k ← validate_flag_key key; ok (MemoryRepository.get now k flags)

  unfoldable pub set_flag : ℕ → Argument V → V → Argument V → Flags V → Result FlagError (Flags V)
  unfolding validate_flag_key validate_flag_expiration
  set_flag now key value ttl flags = do
    k ← validate_flag_key key
    millis ← helper_ttl ttl
    ok (MemoryRepository.set now k value millis flags)

  unfoldable pub del_flag : Argument V → Flags V → Result FlagError (Flags V)
  unfolding validate_flag_key
  del_flag key flags = do k ← validate_flag_key key; ok (MemoryRepository.del k flags)

  unfoldable pub has_flag : ℕ → Argument V → Flags V → Result FlagError (Bool × Flags V)
  unfolding validate_flag_key
  has_flag now key flags = do k ← validate_flag_key key; ok (MemoryRepository.has now k flags)

-- `assertValidKey` of the controller
unfoldable pub assert_valid_key : Text → Result FlagError (Unit {0})
assert_valid_key key =
    if is_empty (trim key)
    then err key_required
    else if starts_with key (colon ∷ [])
        || ends_with key (colon ∷ [])
        || includes key (colon ∷ colon ∷ [])
    then err key_bad_colons
    else ok tt

pub has_empty_section-eq :
    (key : Text)
    → has_empty_section key ≡ (ends_with key (colon ∷ []) || includes key (colon ∷ colon ∷ []))
unfolding has_empty_section ends_with includes
has_empty_section-eq [] = refl
has_empty_section-eq (c ∷ []) = ground arith
has_empty_section-eq (c ∷ d ∷ cs) = ground (arith, has_empty_section-eq (d ∷ cs))

assert_valid_key_empty : assert_valid_key [] ≡ err key_required
unfolding assert_valid_key trim
assert_valid_key_empty = refl

-- A text key passes the templates' check exactly if it is not empty, does not end in ':' and has no
-- '::' in it.
pub validate_flag_key_iff :
    (V : Type 0) (key : Text)
    → (validate_flag_key {V = V} (text key) ≡ ok key) ↔ (
        (key ≢ [])
        × (ends_with key (colon ∷ []) ≡ false)
        × (includes key (colon ∷ colon ∷ []) ≡ false))
unfolding validate_flag_key
validate_flag_key_iff V [] = ground arith
validate_flag_key_iff V (c ∷ cs) = ground (arith, has_empty_section-eq (c ∷ cs))

-- A key that the API accepts is one that the templates accept, so what the API writes can be read in
-- a template.
pub validate_flag_key-assert_valid_key :
    (V : Type 0) (key : Text)
    → assert_valid_key key ≡ ok tt
    → validate_flag_key {V = V} (text key) ≡ ok key
unfolding assert_valid_key
validate_flag_key-assert_valid_key V [] h = cc assert_valid_key_empty
validate_flag_key-assert_valid_key V (c ∷ cs) h =
    (validate_flag_key_iff V (c ∷ cs)).1 (ground arith)
