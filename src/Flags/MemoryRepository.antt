-- ===== src/Flags/MemoryRepository.antt =====
-- mocko-core/src/api/flag/flag.memory-repository.ts. `V` is the type of flag values, `now` the
-- reading of `Date.now()` in the call. Times and lifetimes are whole milliseconds.
pub mod Expiry
use mocko.Base.{
  ℕ, zero, suc, ◌+◌, Text, starts_with, Bool, true, false, ◌&&◌, Option, none, some, List, [], ◌∷◌,
  leb, if◌then◌else◌, filter, sort, is_some, text_eq,
}
use mocko.Base.Dict
use mocko.Base.Dict.{Dict}

pub record MemoryFlag (V : Type 0) : Type 0 where
  pub value : V
  pub expires_at : Option ℕ

abbrev pub Flags : Type 0 → Type 0
Flags V = Dict Text (MemoryFlag V)

-- `flag.expiresAt && flag.expiresAt <= Date.now()`: zero is no time
abbrev pub is_expired : ℕ → Option ℕ → Bool
is_expired now none = false
is_expired now (some zero) = false
is_expired now (some (suc t)) = leb (suc t) now

module _ {V : Type 0} where
  -- what `getLive` does with the entry that it finds
  pub live_entry : ℕ → Text → Option (MemoryFlag V) → Flags V → Option (MemoryFlag V) × Flags V
  live_entry now key none flags = (none, flags)
  live_entry now key (some flag) flags =
      if is_expired now flag.expires_at then (none, Dict.delete key flags) else (some flag, flags)

  unfoldable pub get_live : ℕ → Text → Flags V → Option (MemoryFlag V) × Flags V
  unfolding live_entry
  get_live now key flags = live_entry now key (Dict.get key flags) flags

  -- `flag?.expiresAt`
  abbrev pub expiry_of : Option (MemoryFlag V) → Option ℕ
  expiry_of none = none
  expiry_of (some flag) = flag.expires_at

  -- `if(ttlMillis)`: neither undefined nor zero
  unfoldable pub expiration_for : ℕ → Text → Option ℕ → Flags V → Option ℕ × Flags V
  unfolding get_live
  expiration_for now key (some (suc ttl)) flags = (some (now + suc ttl), flags)
  expiration_for now key (some zero) flags =
      (expiry_of (get_live now key flags).0, (get_live now key flags).1)
  expiration_for now key none flags =
      (expiry_of (get_live now key flags).0, (get_live now key flags).1)

  unfoldable pub set : ℕ → Text → V → Option ℕ → Flags V → Flags V
  unfolding expiration_for
  set now key value ttl flags =
      let (expires_at, flags') = expiration_for now key ttl flags in
      Dict.set key (record { value = value; expires_at = expires_at }) flags'

  abbrev pub value_of : Option (MemoryFlag V) → Option V
  value_of none = none
  value_of (some flag) = some flag.value

  unfoldable pub get : ℕ → Text → Flags V → Option V × Flags V
  unfolding get_live
  get now key flags = (value_of (get_live now key flags).0, (get_live now key flags).1)

  unfoldable pub del : Text → Flags V → Flags V
  del key flags = Dict.delete key flags

  unfoldable pub has : ℕ → Text → Flags V → Bool × Flags V
  unfolding get_live
  has now key flags = (is_some (get_live now key flags).0, (get_live now key flags).1)

  -- the `filter` of `listFlags`: a key without the prefix is not looked up
  pub live_keys : ℕ → Text → List Text → Flags V → List Text × Flags V
  live_keys now prefix [] flags = ([], flags)
  live_keys now prefix (key ∷ keys) flags =
      let skipped = live_keys now prefix keys flags in
      let looked : List Text × Flags V =
        let (flag, flags') = get_live now key flags in
        let (rest, flags'') = live_keys now prefix keys flags' in
        (if is_some flag then key ∷ rest else rest, flags'') in
      if starts_with key prefix then looked else skipped

  -- `locale_le` is the order of `localeCompare`
  unfoldable pub list_flags : (Text → Text → Bool) → ℕ → Text → Flags V → List Text × Flags V
  unfolding live_keys
  list_flags locale_le now prefix flags =
      let (keys, flags') = live_keys now prefix (Dict.keys flags) flags in
      (sort locale_le keys, flags')
