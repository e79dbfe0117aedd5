-- ===== src/Flags/RedisRepository.antt =====
-- mocko-core/src/api/flag/flag.redis-repository.ts over hashes that may expire. `V` is the type of flag
-- values; JSON and the printing of a time are arguments. A lifetime is in milliseconds, as in the
-- source.
pub mod Agreement
pub mod Writes
pub mod Refinement
pub mod Reads
use mocko.Base.{
  ℕ, zero, suc, Text, txt, Bool, Option, none, some, List, [], ◌∷◌, ◌++◌, is_empty, is_some,
  if◌then◌else◌, text_eq,
}
use mocko.Base.Dict
use mocko.Base.Dict.{Dict}
use mocko.Base.Result.{Result, ok, err}
use mocko.Redis.Expiring.{ExpiringHashes}

pub data FlagSource : Type 0 where
  mock control sdk : FlagSource

pub record Flag (V : Type 0) : Type 0 where
  pub value : V
  pub mock_updated_at : Option Text
  pub control_updated_at : Option Text
  pub sdk_updated_at : Option Text

-- `JSON.parse` throws on a text that is no JSON.
pub data FlagError : Type 0 where
  invalid_json : Text → FlagError
  not_found_after_write : Text → FlagError
  managed_api_unsupported : FlagError

abbrev pub redis_key : Text → Text
redis_key key = txt "flags:" ++ key

abbrev pub updated_at_field : FlagSource → Text
updated_at_field mock = txt "mockUpdatedAt"
updated_at_field control = txt "controlUpdatedAt"
updated_at_field sdk = txt "sdkUpdatedAt"

-- `payload.mockUpdatedAt || undefined`
abbrev pub or_undefined : Option Text → Option Text
or_undefined none = none
or_undefined (some t) = if is_empty t then none else some t

module _ (h : ExpiringHashes) {V : Type 0} (stringify : V → Text) (parse : Text → Option V)
    (print_time : ℕ → Text) where
  abbrev pub serialize_flag : ℕ → V → FlagSource → Dict Text Text
  serialize_flag now value source =
      (txt "value", stringify value) ∷ (updated_at_field source, print_time now) ∷ []

  -- what `deserializeFlag` makes of the text under `value`
  abbrev pub parsed :
      Text → Option V → (payload : Text → Option Text) → Result FlagError (Option (Flag V))
  parsed text none payload = err (invalid_json text)
  parsed text (some value) payload = ok (
      some (record {
        value = value;
        mock_updated_at = or_undefined (payload (txt "mockUpdatedAt"));
        control_updated_at = or_undefined (payload (txt "controlUpdatedAt"));
        sdk_updated_at = or_undefined (payload (txt "sdkUpdatedAt"));
      }))

  abbrev pub deserialize_at :
      Option Text → (payload : Text → Option Text) → Result FlagError (Option (Flag V))
  deserialize_at none payload = ok none
  deserialize_at (some text) payload = parsed text (parse text) payload

  abbrev pub deserialize_flag : Dict Text Text → Result FlagError (Option (Flag V))
  deserialize_flag payload =
      deserialize_at (Dict.get (txt "value") payload) (λ f. Dict.get f payload)

  unfoldable pub get : ℕ → Text → h.State → Result FlagError (Option (Flag V))
  get now key s = deserialize_flag (h.hgetall now (redis_key key) s)

  -- `if(ttlMillis)`: neither undefined nor zero; the transaction runs at one time
  unfoldable pub write : ℕ → Text → V → FlagSource → Option ℕ → h.State → h.State
  write now key value source none s = h.hset now (redis_key key) (serialize_flag now value source) s
  write now key value source (some zero) s =
      h.hset now (redis_key key) (serialize_flag now value source) s
  write now key value source (some (suc ttl)) s =
      h.pexpire now (redis_key key) (suc ttl)
        (h.hset now (redis_key key) (serialize_flag now value source) s)

  abbrev pub read_back : Text → Result FlagError (Option (Flag V)) → Result FlagError (Flag V)
  read_back key (err thrown) = err thrown
  read_back key (ok none) = err (not_found_after_write key)
  read_back key (ok (some flag)) = ok flag

  -- `set` writes at `now`, and reads the flag back `later`, from a state that others may have changed
  unfoldable pub set_result : (later : ℕ) → Text → h.State → Result FlagError (Flag V)
  unfolding get
  set_result later key s = read_back key (get later key s)

  unfoldable pub set :
      (now later : ℕ)
      → Text
      → V
      → FlagSource
      → Option ℕ
      → h.State
      → Result FlagError (Flag V) × h.State
  unfolding write set_result
  set now later key value source ttl s =
      let s' = write now key value source ttl s in (set_result later key s', s')

  unfoldable pub del : ℕ → Text → h.State → h.State
  del now key s = h.del now (redis_key key) s

  unfoldable pub has : ℕ → Text → h.State → Bool
  has now key s = is_some (h.hget now (redis_key key) (txt "value") s)

  unfoldable pub list_flags : Text → Result FlagError (List Text)
  list_flags prefix = err managed_api_unsupported
