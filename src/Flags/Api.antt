-- ===== src/Flags/Api.antt =====
-- mocko-core/src/api/flag/flag.controller.ts: the requests on single flags, with the flags in memory.
-- JSON and `decodeURIComponent` (none if it throws) are arguments, and so is the key as Hapi gives it.
-- The schema of a payload asks for a text that is not empty, and for a lifetime above zero.
use mocko.Base.{
  ℕ, zero, suc, ◌*◌, Text, Bool, true, false, is_empty, Option, none, some, if◌then◌else◌,
}
use mocko.Base.Result.{Result, ok, err, ◌>>=◌, ◌>>◌}
use mocko.Deploy.{Config, Header, DeployError, authorize_flags}
use mocko.Flags.Keys.{FlagError, assert_valid_key}
use mocko.Flags.MemoryRepository
use mocko.Flags.MemoryRepository.{Flags}
use mocko.Flags.RedisRepository.{FlagSource}

pub data ApiError : Type 0 where
  not_authorized : DeployError → ApiError
  malformed_key : ApiError
  bad_key : FlagError → ApiError
  bad_payload not_json flag_not_found : ApiError

pub record SetFlagPayload : Type 0 where
  pub value : Text
  pub source : FlagSource
  pub ttl : Option ℕ

abbrev pub is_no_lifetime : Option ℕ → Bool
is_no_lifetime none = false
is_no_lifetime (some zero) = true
is_no_lifetime (some (suc n)) = false

unfoldable pub parse_set_payload : SetFlagPayload → Result ApiError SetFlagPayload
parse_set_payload payload =
    if is_empty payload.value
    then err bad_payload
    else if is_no_lifetime payload.ttl
    then err bad_payload
    else ok payload

unfoldable pub parse_api_ttl_millis : Option ℕ → Option ℕ
parse_api_ttl_millis none = none
parse_api_ttl_millis (some ttl) = some (ttl * 1000)

abbrev pub checked : {E A : Type 0} → (E → ApiError) → Result E A → Result ApiError A
checked f (ok a) = ok a
checked f (err e) = err (f e)

abbrev pub present : {A : Type 0} → ApiError → Option A → Result ApiError A
present e none = err e
present e (some a) = ok a

module _ {V : Type 0} (stringify : V → Option Text) (parse : Text → Option V)
    (decode : Text → Option Text) (c : Config) where
  -- the key that a request is about, once the request is let through
  abbrev pub key_of_request : Header → Text → Result ApiError Text
  key_of_request authorization param = do
    checked not_authorized (authorize_flags c authorization)
    present malformed_key (decode param)

  abbrev pub valid_key : Header → Text → Result ApiError Text
  valid_key authorization param = do
    key ← key_of_request authorization param
    checked bad_key (assert_valid_key key)
    ok key

  -- what is written: the key, the value and its text, and the lifetime in milliseconds
  unfoldable pub parsed_put :
      Header → Text → SetFlagPayload → Result ApiError (Text × V × Text × Option ℕ)
  unfolding parse_set_payload parse_api_ttl_millis
  parsed_put authorization param body = do
    key ← valid_key authorization param
    payload ← parse_set_payload body
    value ← present not_json (parse payload.value)
    ok (key, value, payload.value, parse_api_ttl_millis payload.ttl)

  abbrev pub store_put :
      ℕ
      → Flags V
      → Result ApiError (Text × V × Text × Option ℕ)
      → Result ApiError (Option Text) × Flags V
  store_put now flags (err e) = (err e, flags)
  store_put now flags (ok (key, value, text, ttl)) =
      (ok (some text), MemoryRepository.set now key value ttl flags)

  unfoldable pub put_flag :
      ℕ → Header → Text → SetFlagPayload → Flags V → Result ApiError (Option Text) × Flags V
  unfolding parsed_put
  put_flag now authorization param body flags =
      store_put now flags (parsed_put authorization param body)

  -- `FlagDto.ofFlag`
  abbrev pub dto_or_missing : Option V → Result ApiError (Option Text)
  dto_or_missing none = err flag_not_found
  dto_or_missing (some value) = ok (stringify value)

  abbrev pub read_key : ℕ → Flags V → Result ApiError Text → Result ApiError (Option Text) × Flags V
  read_key now flags (err e) = (err e, flags)
  read_key now flags (ok key) =
      let (value, flags') = MemoryRepository.get now key flags in (dto_or_missing value, flags')

  unfoldable pub get_flag : ℕ → Header → Text → Flags V → Result ApiError (Option Text) × Flags V
  get_flag now authorization param flags = read_key now flags (key_of_request authorization param)

  abbrev pub delete_key : Flags V → Result ApiError Text → Result ApiError (Unit {0}) × Flags V
  delete_key flags (err e) = (err e, flags)
  delete_key flags (ok key) = (ok tt, MemoryRepository.del key flags)

  unfoldable pub delete_flag : Header → Text → Flags V → Result ApiError (Unit {0}) × Flags V
  delete_flag authorization param flags = delete_key flags (key_of_request authorization param)
