-- ===== src/Control/FlagPurge/Selected.antt =====
-- A scan and then the purge of what it found.
use mocko.Base.{
  ℕ, suc, ◌+◌, ◌*◌, ◌≤◌, ◌≡◌, refl, ap, ◌∙◌, Text, txt, Bool, true, not, ◌&&◌, Option, some, List,
  [], ◌∷◌, filter, length, contains, starts_with, arith, All, All-filter, All-Elem, Elem, text_eq,
  Bool-cases, inl, inr,
}
use mocko.Redis.{Keyspace, ListKey}
use mocko.Control.Operations.{done}
use mocko.Control.Scan.{Iteration}
use mocko.Control.FlagList.{flags_at}
use mocko.Control.FlagList.Agreement.{join}
use mocko.Control.FlagPurge.{
  batch_size, Work, is_matching_flag_key, find_matching_flag_keys, is_stale, find_stale_keys,
  purge_flags, scan_for_management, scan_matching_flags, scan_stale_flags,
}
use mocko.Control.FlagPurge.Batches.{scan_for_management_lem}
use mocko.Control.FlagPurge.Exact.{IsFlagKey, purged_keys, purged_keys-flags, purge_flags_lem}

contains-filter :
    (keep : Text → Bool) (keys : List Text) (k : Text)
    → contains (filter keep keys) k ≡ (contains keys k && keep k)
contains-filter keep [] k = refl
contains-filter keep (key ∷ keys) k = ground (arith, contains-filter keep keys k)

contains-of_Elem : (keys : List Text) (k : Text) → Elem k keys → contains keys k ≡ true
contains-of_Elem [] k m = elim m [ ]
contains-of_Elem (key ∷ keys) k m = ground (arith, contains-of_Elem keys k)

pub Elem-of_contains : (keys : List Text) (k : Text) → contains keys k ≡ true → Elem k keys
Elem-of_contains [] k h = cc
Elem-of_contains (key ∷ keys) k h = ground (arith, Elem-of_contains keys k)

module _ (db : Keyspace) (l : ListKey) (prefix : Text) where
  -- The scan has ended, and the purge then ends with the selected flags deleted, and no other key.
  abbrev pub Purged :
      Work db l
      → (now fuel : ℕ) → (selected : Text → Bool) → (scanned : Option (Work db l)) → Type 0
  Purged w now fuel selected scanned =
      (m : ℕ) × (w1 w2 : Work db l) × (scanned ≡ some w1)
      × (purge_flags db l prefix now fuel w1 ≡ some w2)
      × ((k : Text)
          → db.exists k w2.keyspace
            ≡ (db.exists k w.keyspace && not (starts_with k (flags_at prefix) && selected k)))
      × (w2.operation.status ≡ done)
      × (w2.operation.purged_count ≡ some m)
      × (m + db.size w2.keyspace ≡ db.size w.keyspace)

  module _ (elapsed : ℕ → Bool) (scan : ℕ → Text → Text × List Text) (fuel : ℕ)
      (pages : List (List Text)) (w : Work db l) (now n : ℕ)
      (ended : Iteration scan 0 (txt "0") pages) (enough : length pages ≤ fuel)
      (batches : length (join pages) ≤ batch_size * n) (flags : All (IsFlagKey prefix) (join pages))
      (complete : (k : Text)
        → db.exists k w.keyspace ≡ true
        → IsFlagKey prefix k
        → Elem k (join pages)) where
    found-selected :
        (keep : Text → Bool) (k : Text)
        → (db.exists k w.keyspace && not (contains (filter keep (join pages)) k))
          ≡ (db.exists k w.keyspace && not (starts_with k (flags_at prefix) && keep k))
    found-selected keep k = elim (Bool-cases (starts_with k (flags_at prefix))) [
      | inl is_flag ↦ elim (Bool-cases (db.exists k w.keyspace)) [
        | inl there ↦
            let listed : contains (join pages) k ≡ true =
              contains-of_Elem (join pages) k (complete k there is_flag) in
            ground (arith, contains-filter keep (join pages) k)
        | inr gone ↦ ground arith
      ]
      | inr other ↦ elim (Bool-cases (contains (join pages) k)) [
        | inl listed ↦
            let is_flag : starts_with k (flags_at prefix) ≡ true =
              All-Elem (IsFlagKey prefix) (join pages) k flags
                (Elem-of_contains (join pages) k listed) in
            absurd (ground arith)
        | inr unlisted ↦ ground (arith, contains-filter keep (join pages) k)
      ]
    ]

    length-filter-le :
        (keep : Text → Bool) (keys : List Text) → length (filter keep keys) ≤ length keys
    length-filter-le keep [] = omega arith
    length-filter-le keep (key ∷ keys) = ground (arith, length-filter-le keep keys)

    scan-Purged :
        (keep : Text → Bool)
        → Purged w now (suc n) keep (scan_for_management db l (filter keep) elapsed scan fuel w)
    scan-Purged keep =
        let (w1, scanned, list, same, ready, count, found) =
          scan_for_management_lem db l keep elapsed scan fuel pages w ended enough in
        let (m, w2, purged, exists, size, empty, status, completed, count') =
          purge_flags_lem db l prefix now n w1
            (omega (arith, batches, ap length list, length-filter-le keep (join pages))) in
        let taken : purged_keys prefix (l.range w1.flag_keys) ≡ filter keep (join pages) =
          ap (purged_keys prefix) list
          ∙ purged_keys-flags prefix (filter keep (join pages))
              (All-filter (IsFlagKey prefix) keep (join pages) flags) in
        (
          m,
          w1,
          w2,
          scanned,
          purged,
          λ k.
              exists k
              ∙ (ap
                    (λ x.
                      db.exists k x && not (contains (purged_keys prefix (l.range w1.flag_keys)) k))
                    same
                  ∙ (ap (λ x. db.exists k w.keyspace && not (contains x k)) taken
                      ∙ found-selected keep k)),
          status,
          count',
          size ∙ ap db.size same,
        )

    -- Where SCAN comes to an end, having given keys of flags only and each that there is, nothing else is
    -- written, and the fuel is enough for its pages and for the batches of their keys, the scan for
    -- matching flags and then the purge end, and delete exactly the flags that match; the purged count is
    -- the number of the keys that are gone.
    pub scan_matching_flags-Purged :
        (matches : Text → Bool)
        → Purged w now
            (suc n)
            (is_matching_flag_key prefix matches)
            (scan_matching_flags db l prefix matches elapsed scan fuel w)
    unfolding scan_matching_flags find_matching_flag_keys
    scan_matching_flags-Purged matches = scan-Purged (is_matching_flag_key prefix matches)

    -- Where SCAN comes to an end, having given keys of flags only and each that there is, and nothing
    -- else is written, the scan for stale flags and then the purge end, and delete exactly the flags
    -- that were idle for longer than the threshold; the purged count is the number of the keys that are
    -- gone.
    pub scan_stale_flags-Purged :
        (idle_seconds : Text → Option ℕ) (threshold : ℕ)
        → Purged w now
            (suc n)
            (is_stale idle_seconds threshold)
            (scan_stale_flags db l idle_seconds threshold elapsed scan fuel w)
    unfolding scan_stale_flags find_stale_keys
    scan_stale_flags-Purged idle_seconds threshold = scan-Purged (is_stale idle_seconds threshold)
