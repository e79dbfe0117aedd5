-- ===== src/Control/FlagPurge/Exact.antt =====
-- The purge deletes the keys that the scan found, and no others.
use mocko.Base.{
  ℕ, zero, suc, ◌+◌, ◌*◌, ◌≤◌, ◌≡◌, refl, sym, subst, ap, ◌∙◌, Text, txt, Bool, true, false, not,
  ◌&&◌, ◌||◌, some, List, [], ◌∷◌, ◌++◌, map, length, length-drop, take, drop, take-drop, contains,
  starts_with, is_empty, arith, All, text_eq, nat_eq, Bool-cases, inl, inr,
}
use mocko.Redis.{Keyspace, ListKey}
use mocko.Control.Operations.{done}
use mocko.Control.FlagList.{flags_at}
use mocko.Control.FlagPurge.{
  batch_size, Work, to_relative_key, to_relative_keys, del_relative, purge_batches, purge_flags,
}

pub contains-append :
    (xs ys : List Text) (k : Text) → contains (xs ++ ys) k ≡ (contains xs k || contains ys k)
contains-append [] ys k = refl
contains-append (x ∷ xs) ys k = ground (arith, contains-append xs ys k)

pub and-not_or : (a b c d : Bool) → d ≡ (b || c) → ((a && not b) && not c) ≡ (a && not d)
and-not_or a b c d e = ground arith

-- the keys that DEL takes for keys of the list
abbrev pub purged_keys : Text → List Text → List Text
purged_keys prefix keys = map (λ key. prefix ++ key) (to_relative_keys prefix keys)

contains-purged_keys :
    (prefix : Text) (xs ys : List Text) (k : Text)
    → contains (purged_keys prefix (xs ++ ys)) k
      ≡ (contains (purged_keys prefix xs) k || contains (purged_keys prefix ys) k)
unfolding to_relative_keys
contains-purged_keys prefix [] ys k = refl
contains-purged_keys prefix (x ∷ xs) ys k = ground (arith, contains-purged_keys prefix xs ys k)

-- a key of a flag, and what is before it and behind it
starts_with-split : (s p : Text) → starts_with s p ≡ true → p ++ drop (length p) s ≡ s
unfolding starts_with nat_eq
starts_with-split s [] h = refl
starts_with-split [] (c ∷ p) h = cc
starts_with-split (d ∷ s) (c ∷ p) h = ground (arith, starts_with-split s p)

starts_with-longer :
    (s p : Text) (c : ℕ) (q : Text)
    → starts_with s (p ++ c ∷ q) ≡ true
    → (starts_with s p ≡ true) × (is_empty (drop (length p) s) ≡ false)
unfolding starts_with nat_eq
starts_with-longer [] [] c q h = cc
starts_with-longer (d ∷ s) [] c q h = (refl, refl)
starts_with-longer [] (e ∷ p) c q h = cc
starts_with-longer (d ∷ s) (e ∷ p) c q h = ground (arith, starts_with-longer s p c q)

module _ (prefix : Text) where
  abbrev pub IsFlagKey : Text → Type 0
  IsFlagKey key = starts_with key (flags_at prefix) ≡ true

  pub purged_keys-flags : (keys : List Text) → All IsFlagKey keys → purged_keys prefix keys ≡ keys
  unfolding to_relative_keys to_relative_key
  purged_keys-flags [] h = refl
  purged_keys-flags (key ∷ keys) h = ground (
    arith,
    purged_keys-flags keys h.1,
    starts_with-longer key prefix 102 (txt "lags:") h.0,
    starts_with-split key prefix,
  )

module _ (db : Keyspace) (l : ListKey) (prefix : Text) where
  exists-del_relative :
      (keys : List Text) (s : db.State) (k : Text)
      → db.exists k (del_relative db l prefix keys s).1
        ≡ (db.exists k s && not (contains (map (λ key. prefix ++ key) keys) k))
  unfolding del_relative
  exists-del_relative [] s k = ground arith
  exists-del_relative (key ∷ keys) s k = db.exists-del (map (λ key. prefix ++ key) (key ∷ keys)) s k

  del_relative-size :
      (keys : List Text) (s : db.State)
      → (del_relative db l prefix keys s).0 + db.size (del_relative db l prefix keys s).1
        ≡ db.size s
  unfolding del_relative
  del_relative-size keys s = ground (arith, db.del-size (map (λ key. prefix ++ key) keys) s)

  -- What the loop does with a list of keys.
  record Purges (keys : List Text) (before purged_count : ℕ) (w w' : Work db l) : Type 0 where
    pub exists :
        (k : Text)
        → db.exists k w'.keyspace
          ≡ (db.exists k w.keyspace && not (contains (purged_keys prefix keys) k))
    pub counted : purged_count + db.size w'.keyspace ≡ before + db.size w.keyspace

  is_empty-short : (keys : List Text) → length keys ≤ 0 → is_empty (take batch_size keys) ≡ true
  is_empty-short [] h = refl
  is_empty-short (key ∷ keys) h = absurd (omega arith)

  is_empty-take : (keys : List Text) → is_empty (take batch_size keys) ≡ true → keys ≡ []
  is_empty-take [] h = refl
  is_empty-take (key ∷ keys) h = cc

  module _ (w : Work db l) where
    abbrev popped : List Text
    popped = (l.lpop batch_size w.flag_keys).0

    abbrev deletion : ℕ × db.State
    deletion = del_relative db l prefix (to_relative_keys prefix popped) w.keyspace

    abbrev after : Work db l
    after = record w { keyspace = deletion.1; flag_keys = (l.lpop batch_size w.flag_keys).1 }

    last_batch-Purges :
        (before : ℕ)
        → is_empty popped ≡ true
        → Purges
            (l.range w.flag_keys)
            before
            before
            w
            (record w { flag_keys = (l.lpop batch_size w.flag_keys).1 })
    last_batch-Purges before h =
        let none_left : l.range w.flag_keys ≡ [] =
          is_empty-take (l.range w.flag_keys)
            (subst (λ r. is_empty r ≡ true) (l.lpop-take batch_size w.flag_keys) h) in
        record {
          exists = λ k. rw none_left (unfold to_relative_keys in ground arith);
          counted = refl;
        }

    batch-Purges :
        (before n : ℕ) (w' : Work db l)
        → Purges (l.range after.flag_keys) (before + deletion.0) n after w'
        → Purges (l.range w.flag_keys) before n w w'
    batch-Purges before n w' rest = record {
      exists = λ k.
          let r = l.range w.flag_keys in
          let front = take batch_size r in
          let back = drop batch_size r in
          let split : contains (purged_keys prefix r) k
              ≡ (contains (purged_keys prefix front) k || contains (purged_keys prefix back) k) =
            ap (λ x. contains (purged_keys prefix x) k) (sym (take-drop batch_size r))
            ∙ contains-purged_keys prefix front back k in
          let deleted : db.exists k deletion.1
              ≡ (db.exists k w.keyspace && not (contains (purged_keys prefix front) k)) =
            exists-del_relative (to_relative_keys prefix popped) w.keyspace k
            ∙ ap (λ x. db.exists k w.keyspace && not (contains (purged_keys prefix x) k))
                (l.lpop-take batch_size w.flag_keys) in
          let later : db.exists k w'.keyspace
              ≡ (db.exists k deletion.1 && not (contains (purged_keys prefix back) k)) =
            rest.exists k
            ∙ ap (λ x. db.exists k deletion.1 && not (contains (purged_keys prefix x) k))
                (l.range-lpop batch_size w.flag_keys) in
          later
          ∙ (ap (λ x. x && not (contains (purged_keys prefix back) k)) deleted
              ∙ and-not_or _ _ _ _ split);
      counted =
          omega
            (arith, rest.counted, del_relative-size (to_relative_keys prefix popped) w.keyspace);
    }

  purge_batches-Purges :
      (n before : ℕ) (w : Work db l)
      → length (l.range w.flag_keys) ≤ batch_size * n
      → (m : ℕ) × (w' : Work db l) × (purge_batches db l prefix (suc n) before w ≡ some (m, w'))
        × Purges (l.range w.flag_keys) before m w w'
  unfolding purge_batches
  purge_batches-Purges zero before w h = (
    before,
    record w { flag_keys = (l.lpop batch_size w.flag_keys).1 },
    let popped_none : is_empty (popped w) ≡ true =
          subst (λ r. is_empty r ≡ true) (sym (l.lpop-take batch_size w.flag_keys))
            (is_empty-short (l.range w.flag_keys) (omega arith)) in
        ground arith,
    last_batch-Purges w before (
        subst (λ r. is_empty r ≡ true) (sym (l.lpop-take batch_size w.flag_keys))
          (is_empty-short (l.range w.flag_keys) (omega arith))),
  )
  purge_batches-Purges (suc n) before w h = elim (Bool-cases (is_empty (popped w))) [
    | inl e ↦ (
      before,
      record w { flag_keys = (l.lpop batch_size w.flag_keys).1 },
      ground arith,
      last_batch-Purges w before e,
    )
    | inr ne ↦
        let shorter : length (l.range (after w).flag_keys) ≤ batch_size * n = omega (
          arith,
          h,
          ap length (l.range-lpop batch_size w.flag_keys),
          length-drop batch_size (l.range w.flag_keys),
        ) in
        let (m, w', ended, purged) =
          purge_batches-Purges n (before + (deletion w).0) (after w) shorter in
        (m, w', ground arith, batch-Purges w before m w' purged)
  ]

  -- A purge ends once the fuel is more than the number of the batches: the operation is done, the list
  -- is gone, the keys of the list that carry the prefix are deleted and no others, and the purged count
  -- is the number of the keys that are gone.
  pub purge_flags_lem :
      (now n : ℕ) (w : Work db l)
      → length (l.range w.flag_keys) ≤ batch_size * n
      → (m : ℕ) × (w' : Work db l) × (purge_flags db l prefix now (suc n) w ≡ some w')
        × ((k : Text)
            → db.exists k w'.keyspace ≡ (
                db.exists k w.keyspace
                && not (contains (purged_keys prefix (l.range w.flag_keys)) k)))
        × (m + db.size w'.keyspace ≡ db.size w.keyspace)
        × (l.range w'.flag_keys ≡ [])
        × (w'.operation.status ≡ done)
        × (w'.operation.completed_at ≡ some now)
        × (w'.operation.purged_count ≡ some m)
  unfolding purge_flags
  purge_flags_lem now n w h =
      let (m, w', ended, purged) = purge_batches-Purges n 0 w h in
      (
        m,
        record w' {
          flag_keys = l.empty;
          operation = record w'.operation {
            status = done;
            completed_at = some now;
            purged_count = some m;
          };
        },
        ground arith,
        purged.exists,
        omega (arith, purged.counted),
        l.range-empty,
        refl,
        refl,
        refl,
      )
