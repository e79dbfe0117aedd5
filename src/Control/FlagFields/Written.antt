-- ===== src/Control/FlagFields/Written.antt =====
-- What a write of a flag leaves.
use native.Mathlib.Decide.{ℕ_discrete}
use mocko.Base.{◌≡◌, ◌≢◌, refl, ap, ◌∙◌, Text, txt, Option, some, first, arith, text_eq}
use mocko.Base.Result.{Result, ok}
use mocko.Base.Dict
use mocko.Base.Dict.{Dict}
use mocko.Redis.{HashKeys}
use mocko.Control.FlagFields.{
  FlagSource, mock, control, sdk, StoreFlag, serialize_flag, deserialize_flag, redis_key, get_flag,
  set_flag,
}

module _ (h : HashKeys) where
  -- The times of the flag that is there, if any.
  abbrev pub time : Text → Text → h.State → Option Text
  time key f s = Dict.get f (h.hgetall (redis_key key) s)

  -- The flag that a write makes of what is there: the new value, the new time for its source, and the
  -- times of the other sources as they were.
  abbrev pub rewritten : Text → Text → FlagSource → Text → h.State → StoreFlag
  rewritten key value mock now s = record {
    key = key;
    value = value;
    mock_updated_at = some now;
    control_updated_at = time key (txt "controlUpdatedAt") s;
    sdk_updated_at = time key (txt "sdkUpdatedAt") s;
  }
  rewritten key value control now s = record {
    key = key;
    value = value;
    mock_updated_at = time key (txt "mockUpdatedAt") s;
    control_updated_at = some now;
    sdk_updated_at = time key (txt "sdkUpdatedAt") s;
  }
  rewritten key value sdk now s = record {
    key = key;
    value = value;
    mock_updated_at = time key (txt "mockUpdatedAt") s;
    control_updated_at = time key (txt "controlUpdatedAt") s;
    sdk_updated_at = some now;
  }

  abbrev after : Text → Text → FlagSource → Text → h.State → h.State
  after key value source now s = h.hset (redis_key key) (serialize_flag value source now) s

  abbrev merged : Text → Text → FlagSource → Text → h.State → Text → Option Text
  merged key value source now s f =
      first (Dict.get f (serialize_flag value source now)) (time key f s)

  field-after :
      (key value : Text) (source : FlagSource) (now : Text) (s : h.State) (f : Text)
      → Dict.get f (h.hgetall (redis_key key) (after key value source now s))
        ≡ merged key value source now s f
  field-after key value source now s f =
      ground
        (arith, h.field-hset (redis_key key) (serialize_flag value source now) s (redis_key key) f)

  deserialize-merged :
      (key value : Text) (source : FlagSource) (now : Text) (s : h.State)
      → deserialize_flag key (merged key value source now s)
        ≡ some (rewritten key value source now s)
  unfolding Dict.get text_eq ℕ_discrete
  deserialize-merged key value mock now s = refl
  deserialize-merged key value control now s = refl
  deserialize-merged key value sdk now s = refl

  get_flag-after :
      (key value : Text) (source : FlagSource) (now : Text) (s : h.State)
      → get_flag h key (after key value source now s) ≡ some (rewritten key value source now s)
  unfolding get_flag
  get_flag-after key value source now s =
      ap (deserialize_flag key) (λ i f. field-after key value source now s f i)
      ∙ deserialize-merged key value source now s

  set_flag-eq :
      {E : Type 0} (normalize : Text → Result E Text) (now key value : Text) (source : FlagSource)
      (s : h.State) (v : Text)
      → normalize value ≡ ok v
      → set_flag h normalize now key value source s
        ≡ (ok (rewritten key v source now s), after key v source now s)
  unfolding set_flag
  set_flag-eq normalize now key value source s v e =
      let written = get_flag-after key v source now s in ground arith

  other-redis_key : (key other : Text) → other ≢ key → redis_key other ≢ redis_key key
  other-redis_key key other ne e = ground arith

  field-other :
      (key value : Text) (source : FlagSource) (now : Text) (s : h.State) (other : Text)
      → other ≢ key
      → (f : Text)
      → Dict.get f (h.hgetall (redis_key other) (after key value source now s))
        ≡ Dict.get f (h.hgetall (redis_key other) s)
  field-other key value source now s other ne f =
      let apart : redis_key other ≢ redis_key key = other-redis_key key other ne in
      ground (
        arith,
        h.field-hset (redis_key key) (serialize_flag value source now) s (redis_key other) f,
      )

  get_flag-other :
      (key value : Text) (source : FlagSource) (now : Text) (s : h.State) (other : Text)
      → other ≢ key
      → get_flag h other (after key value source now s) ≡ get_flag h other s
  unfolding get_flag
  get_flag-other key value source now s other ne =
      ap (deserialize_flag other) (λ i f. field-other key value source now s other ne f i)

  -- Where the value is JSON, a write answers with the flag as it is then stored: the normalized value,
  -- the new time for its source, and the other times as they were; and every other flag is as it was.
  pub set_flag_lem :
      {E : Type 0} (normalize : Text → Result E Text) (now key value : Text) (source : FlagSource)
      (s : h.State) (v : Text)
      → normalize value ≡ ok v
      → ((set_flag h normalize now key value source s).0 ≡ ok (rewritten key v source now s))
        × (get_flag h key (set_flag h normalize now key value source s).1
            ≡ some (rewritten key v source now s))
        × ((other : Text)
            → other ≢ key
            → get_flag h other (set_flag h normalize now key value source s).1 ≡ get_flag h other s)
  set_flag_lem normalize now key value source s v e =
      let done = set_flag-eq normalize now key value source s v e in
      (
        ap (λ r. r.0) done,
        ap (λ r. get_flag h key r.1) done ∙ get_flag-after key v source now s,
        λ other ne.
            ap (λ r. get_flag h other r.1) done ∙ get_flag-other key v source now s other ne,
      )
