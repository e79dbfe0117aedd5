-- ===== src/Redis.antt =====
-- The commands of Redis that the sources send, as documented for the value at one key: a parameter of
-- the definitions that use them.
pub mod Expiring
pub mod Lapsing
pub mod Reference
use mocko.Base.{
  first, ◌+◌, ◌&&◌, not, contains, ◌++◌, take, drop, ℕ, ◌≤◌, ◌≡◌, ◌≢◌, ◌↔◌, ◌⊎◌, Text, Bool, Option,
  none, some, List, [], ◌∷◌, Elem, All, filter, map, leb, ◌==◌, text_eq, if◌then◌else◌,
}
use mocko.Base.Dict
use mocko.Base.Dict.{Dict}

-- Each member's score is at most those of the members behind it.
abbrev pub ByScore : List (Text × ℕ) → Type 0
ByScore [] = Unit
ByScore (e ∷ es) = All (λ f. e.1 ≤ f.1) es × ByScore es

pub record SortedSet : Type 1 where
  pub State : Type 0
  pub IsValid : State → Type 0
  -- no key
  pub empty : State
  -- ZRANGE key 0 -1 WITHSCORES
  pub range : State → List (Text × ℕ)
  -- ZRANGEBYSCORE key -inf max
  pub range_by_score : ℕ → State → List Text
  -- ZADD key score member
  pub add : ℕ → Text → State → State
  -- ZREM key member
  pub rem : Text → State → ℕ × State
  pub empty-IsValid : IsValid empty
  pub add-IsValid :
      (score : ℕ) (member : Text) (s : State) → IsValid s → IsValid (add score member s)
  pub rem-IsValid : (member : Text) (s : State) → IsValid s → IsValid (rem member s).1
  pub range-empty : range empty ≡ []
  pub range-ByScore : (s : State) → IsValid s → ByScore (range s)
  pub range_by_score-range :
      (max : ℕ) (s : State)
      → IsValid s
      → range_by_score max s ≡ map (λ e. e.0) (filter (λ e. leb e.1 max) (range s))
  pub Elem-add :
      (score : ℕ) (member : Text) (s : State) (m : Text) (n : ℕ)
      → IsValid s
      → Elem (m, n) (range (add score member s))
        ↔ (((m ≡ member) × (n ≡ score)) ⊎ ((m ≢ member) × Elem (m, n) (range s)))
  pub Elem-rem :
      (member : Text) (s : State) (m : Text) (n : ℕ)
      → IsValid s
      → Elem (m, n) (range (rem member s).1) ↔ ((m ≢ member) × Elem (m, n) (range s))
  -- ZREM answers how many members it took.
  pub rem_some :
      (member : Text) (s : State) (n : ℕ)
      → IsValid s
      → Elem (member, n) (range s)
      → (rem member s).0 ≡ 1
  pub rem_none :
      (member : Text) (s : State)
      → IsValid s
      → ((n : ℕ) → Elem (member, n) (range s) → ⊥)
      → (rem member s).0 ≡ 0

pub record Hash : Type 1 where
  pub State : Type 0
  pub IsValid : State → Type 0
  pub empty : State
  -- HGET key field
  pub get : Text → State → Option Text
  -- HSET key field value
  pub set : Text → Text → State → State
  -- HDEL key field
  pub del : Text → State → ℕ × State
  -- HGETALL key
  pub all : State → Dict Text Text
  pub empty-IsValid : IsValid empty
  pub set-IsValid : (field value : Text) (s : State) → IsValid s → IsValid (set field value s)
  pub del-IsValid : (field : Text) (s : State) → IsValid s → IsValid (del field s).1
  pub get-empty : (f : Text) → get f empty ≡ none
  pub get-set :
      (field value f : Text) (s : State)
      → IsValid s
      → get f (set field value s) ≡ (if f == field then some value else get f s)
  pub get-del :
      (field f : Text) (s : State)
      → IsValid s
      → get f (del field s).1 ≡ (if f == field then none else get f s)
  -- HDEL answers how many fields it took.
  pub del-count :
      (field : Text) (s : State)
      → IsValid s
      → (del field s).0 ≡ (elim (get field s) [ none ↦ 0 | some value ↦ 1 ])
  pub Elem-all : (f v : Text) (s : State) → IsValid s → Elem (f, v) (all s) ↔ (get f s ≡ some v)

-- The keys of a database, as far as DEL is concerned.
pub record Keyspace : Type 1 where
  pub State : Type 0
  pub exists : Text → State → Bool
  -- DBSIZE
  pub size : State → ℕ
  -- DEL key ...
  pub del : List Text → State → ℕ × State
  pub exists-del :
      (keys : List Text) (s : State) (key : Text)
      → exists key (del keys s).1 ≡ (exists key s && not (contains keys key))
  -- DEL answers how many keys it took.
  pub del-size : (keys : List Text) (s : State) → (del keys s).0 + size (del keys s).1 ≡ size s

-- A list at one key.
pub record ListKey : Type 1 where
  pub State : Type 0
  pub empty : State
  -- LRANGE key 0 -1
  pub range : State → List Text
  -- RPUSH key element ...
  pub rpush : List Text → State → State
  -- LPOP key count
  pub lpop : ℕ → State → List Text × State
  pub range-empty : range empty ≡ []
  pub range-rpush :
      (elements : List Text) (s : State) → range (rpush elements s) ≡ range s ++ elements
  pub lpop-take : (count : ℕ) (s : State) → (lpop count s).0 ≡ take count (range s)
  pub range-lpop : (count : ℕ) (s : State) → range (lpop count s).1 ≡ drop count (range s)

-- The hashes of flags, where a pipeline of DEL, HSET and PEXPIRE writes one anew: its value, and the
-- milliseconds that it has to live, if it is to expire.
pub record FlagKeys : Type 1 where
  pub State : Type 0
  pub read : Text → State → Option (Text × Option ℕ)
  pub replace : Text → Text → Option ℕ → State → State
  pub read-replace :
      (key value : Text) (ttl : Option ℕ) (s : State) (k : Text)
      → read k (replace key value ttl s) ≡ (if k == key then some (value, ttl) else read k s)

-- The hashes of a database. The laws are on their fields: a hash with no field is no key.
pub record HashKeys : Type 1 where
  pub State : Type 0
  -- HGETALL key
  pub hgetall : Text → State → Dict Text Text
  -- HSET key field value ...
  pub hset : Text → Dict Text Text → State → State
  -- DEL key
  pub del : Text → State → ℕ × State
  pub field-hset :
      (key : Text) (fields : Dict Text Text) (s : State) (k f : Text)
      → Dict.get f (hgetall k (hset key fields s)) ≡ (
          if k == key
          then first (Dict.get f fields) (Dict.get f (hgetall k s))
          else Dict.get f (hgetall k s))
  pub field-del :
      (key : Text) (s : State) (k f : Text)
      → Dict.get f (hgetall k (del key s).1) ≡ (if k == key then none else Dict.get f (hgetall k s))
