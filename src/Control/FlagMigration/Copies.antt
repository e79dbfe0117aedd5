-- ===== src/Control/FlagMigration/Copies.antt =====
-- What the loops of the migration count and write.
use mocko.Base.{
  ltb, ℕ, zero, suc, ◌+◌, ◌-◌, ◌≤◌, ◌≡◌, ◌⊎◌, refl, sym, subst, ap, ◌∙◌, Text, true, false, Option,
  none, some, List, [], ◌∷◌, ◌++◌, length, length-append, length-drop, take, drop, take-drop,
  append_assoc, Elem, arith, ◌==◌, text_eq, if◌then◌else◌, Option-cases, is_some, inl, inr,
}
use mocko.Base.Result.{Result, err, ok, >>=-eq-ok, >>=-eq-err, Result-cases}
use mocko.Redis.{FlagKeys}
use mocko.Control.Scan.{over_pages}
use mocko.Control.FlagList.Agreement.{join}
use mocko.Control.FlagPurge.{batch_size}
use mocko.Control.FlagMigration.{
  positive, flag_key, queue, queued_writes, run_writes, copy_batch, Migrating, copy_page,
  migrate_page,
}

-- A life that ends is one of more than 0.
abbrev pub lasting : Option ℕ → Option ℕ
lasting none = none
lasting (some ttl) = if ltb 0 ttl then some ttl else none

module _ (d : FlagKeys) {E : Type 0} (get : Text → Result E (Option Text))
    (pttl : Text → Result E (Option ℕ)) (source_prefix : Text) where
  abbrev pub value_at : Text → Option Text
  value_at key = elim (get key) [ err e ↦ none | ok value ↦ value ]

  -- what is left of the life of a key, if it ends
  abbrev pub life_at : Text → Option ℕ
  life_at key = elim (pttl key) [ err e ↦ none | ok ttl ↦ lasting ttl ]

  abbrev pub IsError : Text → E → Type 0
  IsError key e = (get key ≡ err e) ⊎ (pttl key ≡ err e)

  -- what one key writes under `k`, over what is there
  abbrev pub written_by : Text → Text → Option (Text × Option ℕ) → Option (Text × Option ℕ)
  written_by key k o = elim (value_at key) [
    | none ↦ o
    | some value ↦
        if k == flag_key d get pttl source_prefix key then some (value, life_at key) else o
  ]

  abbrev pub written : List Text → Text → Option (Text × Option ℕ) → Option (Text × Option ℕ)
  written [] k o = o
  written (key ∷ keys) k o = written keys k (written_by key k o)

  written-append :
      (xs ys : List Text) (k : Text) (o : Option (Text × Option ℕ))
      → written (xs ++ ys) k o ≡ written ys k (written xs k o)
  written-append [] ys k o = refl
  written-append (key ∷ xs) ys k o = written-append xs ys k (written_by key k o)

  abbrev Writes : Type 0
  Writes = List (Text × (Text × Option ℕ))

  queued_writes-written :
      (keys : List Text) (writes : Writes) (s : d.State) (k : Text)
      → queued_writes d get pttl source_prefix keys ≡ ok writes
      → (length writes ≤ length keys)
        × (d.read k (run_writes d get pttl source_prefix writes s) ≡ written keys k (d.read k s))
  unfolding queued_writes
  queued_writes-written [] writes s k h =
      let same : [] ≡ writes = cc in
      subst
        (λ (w : Writes).
          (length w ≤ 0) × (d.read k (run_writes d get pttl source_prefix w s) ≡ d.read k s))
        same (omega arith, refl)
  queued_writes-written (key ∷ keys) writes s k h =
      let (value, got, h) = >>=-eq-ok (get key) _ h in
      let (ttl, lives, h) = >>=-eq-ok (pttl key) _ h in
      let (rest, later, h) = >>=-eq-ok (queued_writes d get pttl source_prefix keys) _ h in
      let same : queue d get pttl source_prefix key value ttl rest ≡ writes = cc in
      subst
        (λ (w : Writes).
          (length w ≤ suc (length keys))
          × (d.read k (run_writes d get pttl source_prefix w s)
              ≡ written (key ∷ keys) k (d.read k s)))
        same
        (elim (Option-cases value) [
          | inl n ↦
              let (short, as_written) = queued_writes-written keys rest s k later in
              rw n (omega (arith, short), as_written ∙ ap (written keys k) (ground arith))
          | inr (v, there) ↦
              let s' = d.replace (flag_key d get pttl source_prefix key) v (positive ttl) s in
              let (short, as_written) = queued_writes-written keys rest s' k later in
              rw there (
                omega (arith, short),
                as_written
                    ∙ ap (written keys k) (
                        ground (
                          arith,
                          d.read-replace (flag_key d get pttl source_prefix key) v (positive ttl) s
                              k,
                        )),
              )
        ])

  queued_writes-err :
      (keys : List Text) (e : E)
      → queued_writes d get pttl source_prefix keys ≡ err e
      → (key : Text) × Elem key keys × IsError key e
  unfolding queued_writes
  queued_writes-err [] e h = cc
  queued_writes-err (key ∷ keys) e h = elim (>>=-eq-err (get key) _ h) [
    | inl failed ↦ (key, inl refl, inl failed)
    | inr (value, got, h) ↦ elim (>>=-eq-err (pttl key) _ h) [
      | inl failed ↦ (key, inl refl, inr failed)
      | inr (ttl, lives, h) ↦ elim (>>=-eq-err (queued_writes d get pttl source_prefix keys) _ h) [
        | inl later ↦
            let (other, there, failed) = queued_writes-err keys e later in
            (other, inr there, failed)
        | inr (rest, later, h) ↦ cc
      ]
    ]
  ]

  -- What the loop does with a list of keys, where no reply is an error.
  pub record Copies (keys : List Text) (s t : Migrating d get pttl source_prefix) : Type 0 where
    pub going : t.thrown ≡ none
    pub counted :
        t.flags_migrated + t.flags_skipped ≡ s.flags_migrated + s.flags_skipped + length keys
    pub read : (k : Text) → d.read k t.store ≡ written keys k (d.read k s.store)

  -- Or it stops at an error, with the keys before a batch written.
  pub record Stops (keys : List Text) (s t : Migrating d get pttl source_prefix) : Type 0 where
    pub error : E
    pub thrown : t.thrown ≡ some error
    pub before : List Text
    pub behind : List Text
    pub split : keys ≡ before ++ behind
    pub failing : (key : Text) × Elem key behind × IsError key error
    pub read : (k : Text) → d.read k t.store ≡ written before k (d.read k s.store)

  Copies-append :
      (xs ys : List Text) (s t u : Migrating d get pttl source_prefix)
      → Copies xs s t
      → Copies ys t u
      → Copies (xs ++ ys) s u
  Copies-append xs ys s t u a c = record {
    going = c.going;
    counted = omega (arith, a.counted, c.counted, length-append xs ys);
    read = λ k.
        c.read k ∙ (ap (written ys k) (a.read k) ∙ sym (written-append xs ys k (d.read k s.store)));
  }

  Copies-Stops :
      (xs ys : List Text) (s t u : Migrating d get pttl source_prefix)
      → Copies xs s t
      → Stops ys t u
      → Stops (xs ++ ys) s u
  Copies-Stops xs ys s t u a c = record {
    error = c.error;
    thrown = c.thrown;
    before = xs ++ c.before;
    behind = c.behind;
    split = ap (λ l. xs ++ l) c.split ∙ sym (append_assoc xs c.before c.behind);
    failing = c.failing;
    read = λ k.
        c.read k
        ∙ (ap (written c.before k) (a.read k)
            ∙ sym (written-append xs c.before k (d.read k s.store)));
  }

  Elem-append_left : (key : Text) (xs ys : List Text) → Elem key xs → Elem key (xs ++ ys)
  Elem-append_left key [] ys there = elim there [ ]
  Elem-append_left key (x ∷ xs) ys (inl e) = inl e
  Elem-append_left key (x ∷ xs) ys (inr m) = inr (Elem-append_left key xs ys m)

  Stops-append :
      (xs ys : List Text) (s u : Migrating d get pttl source_prefix)
      → Stops xs s u
      → Stops (xs ++ ys) s u
  Stops-append xs ys s u c = record {
    error = c.error;
    thrown = c.thrown;
    before = c.before;
    behind = c.behind ++ ys;
    split = ap (λ l. l ++ ys) c.split ∙ append_assoc c.before c.behind ys;
    failing =
        let (key, there, failed) = c.failing in
        (key, Elem-append_left key c.behind ys there, failed);
    read = c.read;
  }

  abbrev pub Ends : List Text → (s t : Migrating d get pttl source_prefix) → Type 0
  Ends keys s t = Copies keys s t ⊎ Stops keys s t

  Ends-append :
      (xs ys : List Text) (s t u : Migrating d get pttl source_prefix)
      → Copies xs s t
      → Ends ys t u
      → Ends (xs ++ ys) s u
  Ends-append xs ys s t u a (inl c) = inl (Copies-append xs ys s t u a c)
  Ends-append xs ys s t u a (inr c) = inr (Copies-Stops xs ys s t u a c)

  abbrev after_batch :
      List Text
      → ℕ × d.State
      → Migrating d get pttl source_prefix
      → Migrating d get pttl source_prefix
  after_batch batch (migrated, store) s = record {
    store = store;
    flags_migrated = s.flags_migrated + migrated;
    flags_skipped = s.flags_skipped + (length batch - migrated);
    thrown = none;
  }

  batch-Copies :
      (batch : List Text) (s : Migrating d get pttl source_prefix) (copied : ℕ × d.State)
      → copy_batch d get pttl source_prefix batch s.store ≡ ok copied
      → Copies batch s (after_batch batch copied s)
  unfolding copy_batch
  batch-Copies batch s copied h =
      let (writes, filled, end) = >>=-eq-ok (queued_writes d get pttl source_prefix batch) _ h in
      let same : (length writes, run_writes d get pttl source_prefix writes s.store) ≡ copied =
        cc in
      subst (λ c. Copies batch s (after_batch batch c s)) same
        (record {
          going = refl;
          counted = omega (arith, (queued_writes-written batch writes s.store [] filled).0);
          read = λ k. (queued_writes-written batch writes s.store k filled).1;
        })

  batch-err :
      (batch : List Text) (s : Migrating d get pttl source_prefix) (e : E)
      → copy_batch d get pttl source_prefix batch s.store ≡ err e
      → Stops batch s (record s { thrown = some e })
  unfolding copy_batch
  batch-err batch s e h = elim (>>=-eq-err (queued_writes d get pttl source_prefix batch) _ h) [
    | inl failed ↦ record {
      error = e;
      thrown = refl;
      before = [];
      behind = batch;
      split = refl;
      failing = queued_writes-err batch e failed;
      read = λ k. refl;
    }
    | inr (writes, filled, end) ↦ cc
  ]

  copy_page-Ends :
      (fuel : ℕ) (keys : List Text) (s : Migrating d get pttl source_prefix)
      → length keys ≤ fuel
      → s.thrown ≡ none
      → Ends keys s (copy_page d get pttl source_prefix fuel keys s)
  unfolding copy_page
  copy_page-Ends zero [] s h going =
      inl (record { going = going; counted = omega arith; read = λ k. refl })
  copy_page-Ends zero (key ∷ keys) s h going = absurd (omega arith)
  copy_page-Ends (suc fuel) [] s h going =
      inl (record { going = going; counted = omega arith; read = λ k. refl })
  copy_page-Ends (suc fuel) (key ∷ keys) s h going =
      let front = take batch_size (key ∷ keys) in
      let back = drop batch_size (key ∷ keys) in
      subst (λ all. Ends all s (copy_page d get pttl source_prefix (suc fuel) (key ∷ keys) s))
        (take-drop batch_size (key ∷ keys))
        (elim (Result-cases (copy_batch d get pttl source_prefix front s.store)) [
          | inl (e, failed) ↦
              rw (failed, copy_page)
                (inr (Stops-append front back s _ (batch-err front s e failed)))
          | inr (copied, done) ↦
              rw (done, copy_page)
                (Ends-append front back s (after_batch front copied s) _
                  (batch-Copies front s copied done)
                  (copy_page-Ends fuel back (after_batch front copied s)
                    (omega (arith, h, length-drop batch_size (key ∷ keys))) refl))
        ])

  abbrev pub migrated :
      (ℕ → Text → Text × List Text)
      → ℕ
      → List (List Text)
      → Migrating d get pttl source_prefix
      → Migrating d get pttl source_prefix
  migrated scan call pages s = over_pages scan (migrate_page d get pttl source_prefix) call pages s

  pub migrated-Ends :
      (scan : ℕ → Text → Text × List Text) (call : ℕ) (pages : List (List Text))
      (s : Migrating d get pttl source_prefix)
      → s.thrown ≡ none
      → Ends (join pages) s (migrated scan call pages s)
  unfolding migrate_page
  migrated-Ends scan call [] s going =
      inl (record { going = going; counted = omega arith; read = λ k. refl })
  migrated-Ends scan call (keys ∷ pages) s going =
      let t = copy_page d get pttl source_prefix (length keys) keys s in
      elim (copy_page-Ends (length keys) keys s (omega arith) going) [
        | inl c ↦
            let goes_on : is_some t.thrown ≡ false = ap (λ o. is_some o) c.going in
            rw goes_on (
              Ends-append keys (join pages) s t _ c (migrated-Ends scan (suc call) pages t c.going))
        | inr c ↦
            let stopped : is_some t.thrown ≡ true = ap (λ o. is_some o) c.thrown in
            rw stopped (inr (Stops-append keys (join pages) s t c))
      ]
