-- ===== src/Control/FlagMigration.antt =====
-- The migration of the flags of a V1 database, of mocko-control/lib/store/redis-store.ts. The replies to
-- GET and PTTL of the source, which may be errors, and the hashes of the destination are arguments;
-- an error reply of the destination is left out, and so are the updates of the progress.
pub mod Copies
pub mod Migrated
use mocko.Base.{
  ℕ, zero, suc, ◌+◌, ◌-◌, Text, txt, Bool, Option, none, some, List, [], ◌∷◌, ◌++◌, length, take,
  drop, is_some,
}
use mocko.Base.Result.{Result, err, ok, ◌>>=◌}
use mocko.Redis.{FlagKeys}
use mocko.Control.Scan.{do_scan}
use mocko.Control.FlagList.{flags_at}
use mocko.Control.FlagPurge.{batch_size}

-- `ttlMillis > 0`: PEXPIRE is not called with a lifetime of 0
abbrev pub positive : Option ℕ → Option ℕ
positive none = none
positive (some zero) = none
positive (some (suc ttl)) = some (suc ttl)

module _ (d : FlagKeys) {E : Type 0} (get : Text → Result E (Option Text))
    (pttl : Text → Result E (Option ℕ)) (source_prefix : Text) where
  -- `${FLAG_PREFIX}${key.slice(sourceFlagPrefix.length)}`
  abbrev pub flag_key : Text → Text
  flag_key key = txt "flags:" ++ drop (length (flags_at source_prefix)) key

  -- the writes of a key: DEL, HSET and PEXPIRE, where its value is a string
  abbrev pub queue :
      Text
      → Option Text
      → Option ℕ
      → List (Text × (Text × Option ℕ))
      → List (Text × (Text × Option ℕ))
  queue key none ttl writes = writes
  queue key (some value) ttl writes = (flag_key key, (value, positive ttl)) ∷ writes

  -- the loop of `copyV1FlagBatch`, which fills the pipeline of writes. `pttl` is none unless the key
  -- expires.
  unfoldable pub queued_writes : List Text → Result E (List (Text × (Text × Option ℕ)))
  queued_writes [] = ok []
  queued_writes (key ∷ keys) = get key >>= (λ value.
      pttl key >>= (λ ttl. queued_writes keys >>= (λ writes. ok (queue key value ttl writes))))

  abbrev pub run_writes : List (Text × (Text × Option ℕ)) → d.State → d.State
  run_writes [] s = s
  run_writes ((key, (value, ttl)) ∷ writes) s = run_writes writes (d.replace key value ttl s)

  -- `copyV1FlagBatch`: the number of the keys whose value is a string, each written anew; an error
  -- reply is thrown before anything is written
  unfoldable pub copy_batch : List Text → d.State → Result E (ℕ × d.State)
  unfolding queued_writes
  copy_batch keys s = queued_writes keys >>= (λ writes. ok (length writes, run_writes writes s))

  -- The variables of the loop, beside the store, and the error that it throws.
  pub record Migrating : Type 0 where
    pub store : d.State
    pub flags_migrated : ℕ
    pub flags_skipped : ℕ
    pub thrown : Option E

  -- the loop over a page's batches
  unfoldable pub copy_page : (fuel : ℕ) → List Text → Migrating → Migrating
  unfolding copy_batch
  copy_page zero keys s = s
  copy_page (suc fuel) [] s = s
  copy_page (suc fuel) (key ∷ keys) s = elim (copy_batch (take batch_size (key ∷ keys)) s.store) [
    | err e ↦ record s { thrown = some e }
    | ok (migrated, store) ↦ copy_page fuel (drop batch_size (key ∷ keys)) (record {
      store = store;
      flags_migrated = s.flags_migrated + migrated;
      flags_skipped = s.flags_skipped + (length (take batch_size (key ∷ keys)) - migrated);
      thrown = none;
    })
  ]

  unfoldable pub migrate_page : ℕ → List Text → Migrating → Bool × Migrating
  unfolding copy_page
  migrate_page call keys s = let s' = copy_page (length keys) keys s in (is_some s'.thrown, s')

  -- `migrateV1Flags`; none when the fuel is out
  unfoldable pub migrate_flags :
      (scan : ℕ → Text → Text × List Text) → (fuel : ℕ) → d.State → Option Migrating
  unfolding migrate_page
  migrate_flags scan fuel s =
      do_scan scan migrate_page fuel 0 (txt "0")
        (record { store = s; flags_migrated = 0; flags_skipped = 0; thrown = none })
