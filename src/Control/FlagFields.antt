-- ===== src/Control/FlagFields.antt =====
-- One flag in mocko-control/lib/store/redis-store.ts: `getFlag`, `setFlag` and `deleteFlag`, over the
-- hashes of Redis. The normalization of a JSON text, which throws where it is none, is an argument, and
-- `now` is the time as the code prints it.
pub mod Written
use mocko.Base.{ℕ, Text, txt, Bool, Option, none, some, List, [], ◌∷◌, ◌++◌, ltb, text_eq}
use mocko.Base.Result.{Result, err, ok}
use mocko.Base.Dict
use mocko.Base.Dict.{Dict}
use mocko.Redis.{HashKeys}

pub data FlagSource : Type 0 where
  mock control sdk : FlagSource

pub record StoreFlag : Type 0 where
  pub key : Text
  pub value : Text
  pub mock_updated_at : Option Text
  pub control_updated_at : Option Text
  pub sdk_updated_at : Option Text

pub data WriteError (E : Type 0) : Type 0 where
  invalid_json : E → WriteError E
  not_found_after_write : WriteError E

abbrev pub updated_at_field : FlagSource → Text
updated_at_field mock = txt "mockUpdatedAt"
updated_at_field control = txt "controlUpdatedAt"
updated_at_field sdk = txt "sdkUpdatedAt"

abbrev pub serialize_flag : Text → FlagSource → (now : Text) → Dict Text Text
serialize_flag value source now = (txt "value", value) ∷ (updated_at_field source, now) ∷ []

abbrev pub deserialize_flag : Text → (field : Text → Option Text) → Option StoreFlag
deserialize_flag key field = elim (field (txt "value")) [
  | none ↦ none
  | some value ↦ some (record {
    key = key;
    value = value;
    mock_updated_at = field (txt "mockUpdatedAt");
    control_updated_at = field (txt "controlUpdatedAt");
    sdk_updated_at = field (txt "sdkUpdatedAt");
  })
]

-- `${FLAG_PREFIX}${key}`
abbrev pub redis_key : Text → Text
redis_key key = txt "flags:" ++ key

module _ (h : HashKeys) where
  unfoldable pub get_flag : Text → h.State → Option StoreFlag
  get_flag key s = deserialize_flag key (λ f. Dict.get f (h.hgetall (redis_key key) s))

  unfoldable pub set_flag :
      {E : Type 0}
      → (normalize : Text → Result E Text) → (now : Text) → Text
      → Text
      → FlagSource
      → h.State
      → Result (WriteError E) StoreFlag × h.State
  unfolding get_flag
  set_flag normalize now key value source s = elim (normalize value) [
    | err e ↦ (err (invalid_json e), s)
    | ok normalized ↦
        let s' = h.hset (redis_key key) (serialize_flag normalized source now) s in
        elim (get_flag key s') [
          | none ↦ (err not_found_after_write, s')
          | some flag ↦ (ok flag, s')
        ]
  ]

  unfoldable pub delete_flag : Text → h.State → Bool × h.State
  delete_flag key s = let (deleted, s') = h.del (redis_key key) s in (ltb 0 deleted, s')
