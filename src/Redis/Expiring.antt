-- ===== src/Redis/Expiring.antt =====
-- Hashes that may expire, as Redis documents HGET, HGETALL, HSET, PEXPIRE, DEL and PEXPIRETIME for the
-- time at which a command is run: a hash is gone after its expiry, and a write of fields does not change
-- the expiry. What is so at the very millisecond of the expiry is left open.
use mocko.Base.{
  ℕ, suc, ◌+◌, ◌≤◌, ◌<◌, ◌≡◌, ◌≢◌, first, Text, Option, none, some, ◌==◌, text_eq, if◌then◌else◌,
}
use mocko.Base.Dict
use mocko.Base.Dict.{Dict, get-set, get-delete}

pub record ExpiringHashes : Type 1 where
  pub State : Type 0
  -- HGET key field
  pub hget : ℕ → Text → Text → State → Option Text
  -- HGETALL key
  pub hgetall : ℕ → Text → State → Dict Text Text
  -- PEXPIRETIME key, none for a key without an expiry and for no key
  pub pexpiretime : ℕ → Text → State → Option ℕ
  -- HSET key field value ...
  pub hset : ℕ → Text → Dict Text Text → State → State
  -- PEXPIRE key milliseconds
  pub pexpire : ℕ → Text → ℕ → State → State
  -- DEL key
  pub del : ℕ → Text → State → State
  pub get-hgetall :
      (now : ℕ) (key f : Text) (s : State) → Dict.get f (hgetall now key s) ≡ hget now key f s
  pub pexpiretime_absent :
      (now : ℕ) (key : Text) (s : State)
      → ((f : Text) → hget now key f s ≡ none)
      → pexpiretime now key s ≡ none
  -- the passing of time
  pub hget_kept :
      (now later : ℕ) (key f : Text) (s : State)
      → now ≤ later
      → (pexpiretime now key s ≡ none)
      → hget later key f s ≡ hget now key f s
  pub hget_before :
      (now later : ℕ) (key f : Text) (s : State) (t : ℕ)
      → now ≤ later
      → pexpiretime now key s ≡ some t
      → later < t
      → hget later key f s ≡ hget now key f s
  pub hget_after :
      (now later : ℕ) (key f : Text) (s : State) (t : ℕ)
      → now ≤ later
      → pexpiretime now key s ≡ some t
      → t < later
      → hget later key f s ≡ none
  pub pexpiretime_kept :
      (now later : ℕ) (key : Text) (s : State)
      → now ≤ later
      → pexpiretime now key s ≡ none
      → pexpiretime later key s ≡ none
  pub pexpiretime_before :
      (now later : ℕ) (key : Text) (s : State) (t : ℕ)
      → now ≤ later
      → pexpiretime now key s ≡ some t
      → later < t
      → pexpiretime later key s ≡ some t
  -- the commands
  pub hget-hset :
      (now : ℕ) (key k f : Text) (fields : Dict Text Text) (s : State)
      → hget now k f (hset now key fields s)
        ≡ (if k == key then first (Dict.get f fields) (hget now k f s) else hget now k f s)
  pub pexpiretime-hset :
      (now : ℕ) (key k : Text) (fields : Dict Text Text) (s : State)
      → pexpiretime now k (hset now key fields s) ≡ pexpiretime now k s
  pub hget-pexpire :
      (now : ℕ) (key k f : Text) (ttl : ℕ) (s : State)
      → hget now k f (pexpire now key (suc ttl) s) ≡ hget now k f s
  pub pexpiretime-pexpire :
      (now : ℕ) (key k f value : Text) (ttl : ℕ) (s : State)
      → hget now key f s ≡ some value
      → pexpiretime now k (pexpire now key (suc ttl) s)
        ≡ (if k == key then some (now + suc ttl) else pexpiretime now k s)
  pub hget-del :
      (now : ℕ) (key k f : Text) (s : State)
      → hget now k f (del now key s) ≡ (if k == key then none else hget now k f s)
  pub pexpiretime-del :
      (now : ℕ) (key k : Text) (s : State)
      → k ≢ key
      → pexpiretime now k (del now key s) ≡ pexpiretime now k s
