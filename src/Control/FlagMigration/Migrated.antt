-- ===== src/Control/FlagMigration/Migrated.antt =====
-- The migration copies every flag of the source that is a string.
use mocko.Base.{
  ℕ, ◌+◌, ◌≤◌, ◌≡◌, ◌⊎◌, refl, sym, subst, ap, ◌∙◌, Text, txt, Bool, true, false, Option, none,
  some, List, [], ◌∷◌, ◌++◌, length, length-map, map, ◌||◌, contains, arith, ◌==◌, text_eq,
  if◌then◌else◌, Elem, inl, inr,
}
use mathlib.Core.List.{map-append}
use mocko.Base.Result.{Result}
use mocko.Redis.{FlagKeys}
use mocko.Control.Scan.{Iteration, do_scan-over_pages}
use mocko.Control.FlagList.{flags_at}
use mocko.Control.FlagList.Agreement.{in_redis, join, drop-append}
use mocko.Control.FlagMigration.{flag_key, Migrating, migrate_page, migrate_flags}
use mocko.Control.FlagMigration.Copies.{
  value_at, life_at, IsError, written_by, written, Copies, Stops, migrated, migrated-Ends,
}

join-in_redis :
    (prefix : Text) (pages : List (List Text))
    → join (map (in_redis prefix) pages) ≡ in_redis prefix (join pages)
join-in_redis prefix [] = refl
join-in_redis prefix (keys ∷ pages) =
    ap (λ r. in_redis prefix keys ++ r) (join-in_redis prefix pages)
    ∙ sym (map-append (λ key. flags_at prefix ++ key) keys (join pages))

split-map :
    (f : Text → Text) (names xs ys : List Text)
    → map f names ≡ xs ++ ys
    → (before : List Text) × (behind : List Text) × (names ≡ before ++ behind)
      × (map f before ≡ xs)
      × (map f behind ≡ ys)
split-map f names [] ys h = ([], names, refl, refl, h)
split-map f [] (x ∷ xs) ys h = cc
split-map f (name ∷ names) (x ∷ xs) ys h =
    let tails : map f names ≡ xs ++ ys = cc in
    let heads : f name ≡ x = cc in
    let (before, behind, split, left, right) = split-map f names xs ys tails in
    (
      name ∷ before,
      behind,
      ap (λ l. name ∷ l) split,
      ap (λ l. f name ∷ l) left ∙ ap (λ y. y ∷ xs) heads,
      right,
    )

Elem-map :
    (f : Text → Text) (names : List Text) (key : Text)
    → Elem key (map f names)
    → (name : Text) × Elem name names × (f name ≡ key)
Elem-map f [] key there = elim there [ ]
Elem-map f (name ∷ names) key (inl same) = (name, inl refl, sym same)
Elem-map f (name ∷ names) key (inr there) =
    let (other, among, same) = Elem-map f names key there in (other, inr among, same)

module _ (d : FlagKeys) {E : Type 0} (get : Text → Result E (Option Text))
    (pttl : Text → Result E (Option ℕ)) (source_prefix : Text) where
  -- The flag of a name as the source has it, or else what there was.
  abbrev pub copy_of : Text → Option (Text × Option ℕ) → Option (Text × Option ℕ)
  copy_of name o = elim (value_at d get pttl source_prefix (flags_at source_prefix ++ name)) [
    | none ↦ o
    | some value ↦ some (value, life_at d get pttl source_prefix (flags_at source_prefix ++ name))
  ]

  copy_of_idem :
      (name : Text) (o : Option (Text × Option ℕ)) → copy_of name (copy_of name o) ≡ copy_of name o
  copy_of_idem name o = ground arith

  collapse :
      (here later : Bool) (name : Text) (o : Option (Text × Option ℕ))
      → (if later
          then copy_of name (if here then copy_of name o else o)
          else (if here then copy_of name o else o))
        ≡ (if here || later then copy_of name o else o)
  collapse true true name o = copy_of_idem name o
  collapse true false name o = refl
  collapse false true name o = refl
  collapse false false name o = refl

  -- a key of the source is one name's alone
  written_by-name :
      (n name : Text) (o : Option (Text × Option ℕ))
      → written_by d get pttl source_prefix (flags_at source_prefix ++ n) (txt "flags:" ++ name) o
        ≡ (if n == name then copy_of name o else o)
  written_by-name n name o =
      let key : flag_key d get pttl source_prefix (flags_at source_prefix ++ n)
          ≡ txt "flags:" ++ n =
        ap (λ t. txt "flags:" ++ t) (drop-append (flags_at source_prefix) n) in
      elim (text_eq.dec n name) [
        | yes same ↦
            subst
              (λ m.
                written_by d get pttl source_prefix (flags_at source_prefix ++ n)
                  (txt "flags:" ++ m) o
                ≡ (if n == m then copy_of m o else o))
              same (ground (arith, key))
        | no other ↦ ground (arith, key)
      ]

  written-name :
      (names : List Text) (name : Text) (o : Option (Text × Option ℕ))
      → written d get pttl source_prefix (in_redis source_prefix names) (txt "flags:" ++ name) o
        ≡ (if contains names name then copy_of name o else o)
  written-name [] name o = refl
  written-name (n ∷ names) name o =
      ap (written d get pttl source_prefix (in_redis source_prefix names) (txt "flags:" ++ name))
        (written_by-name n name o)
      ∙ (written-name names name (if n == name then copy_of name o else o)
          ∙ collapse (n == name) (contains names name) name o)

  abbrev pub AreCopied : List Text → (s : d.State) → (t : d.State) → Type 0
  AreCopied names s t =
      (name : Text)
      → d.read (txt "flags:" ++ name) t ≡ (
          if contains names name
          then copy_of name (d.read (txt "flags:" ++ name) s)
          else d.read (txt "flags:" ++ name) s)

  -- The migration has gone through.
  abbrev pub Completes : List Text → d.State → Migrating d get pttl source_prefix → Type 0
  Completes names s t =
      (t.thrown ≡ none)
      × (t.flags_migrated + t.flags_skipped ≡ length names)
      × AreCopied names s t.store

  -- It has thrown the error of a reply, with the flags before a batch copied.
  abbrev pub Throws : List Text → d.State → Migrating d get pttl source_prefix → Type 0
  Throws names s t =
      (e : E) × (before : List Text) × (behind : List Text) × (t.thrown ≡ some e)
      × (names ≡ before ++ behind)
      × ((name : Text) × Elem name behind
          × IsError d get pttl source_prefix (flags_at source_prefix ++ name) e)
      × AreCopied before s t.store

  Copies-Completes :
      (names : List Text) (s t : Migrating d get pttl source_prefix)
      → s.flags_migrated + s.flags_skipped ≡ 0
      → Copies d get pttl source_prefix (in_redis source_prefix names) s t
      → Completes names s.store t
  Copies-Completes names s t start c = (
    c.going,
    omega (arith, start, c.counted, length-map (λ key. flags_at source_prefix ++ key) names),
    λ name.
        c.read (txt "flags:" ++ name)
        ∙ written-name names name (d.read (txt "flags:" ++ name) s.store),
  )

  Stops-Throws :
      (names : List Text) (s t : Migrating d get pttl source_prefix)
      → Stops d get pttl source_prefix (in_redis source_prefix names) s t
      → Throws names s.store t
  Stops-Throws names s t c =
      let prefixed : Text → Text = λ key. flags_at source_prefix ++ key in
      let (before, behind, split, left, right) =
        split-map prefixed names c.before c.behind c.split in
      let (key, there, failed) = c.failing in
      let (name, among, same) =
        Elem-map prefixed behind key (subst (λ l. Elem key l) (sym right) there) in
      (
        c.error,
        before,
        behind,
        c.thrown,
        split,
        (name, among, subst (λ k. IsError d get pttl source_prefix k c.error) (sym same) failed),
        λ name.
            c.read (txt "flags:" ++ name)
            ∙ (ap
                  (λ keys.
                    written d get pttl source_prefix keys (txt "flags:" ++ name)
                      (d.read (txt "flags:" ++ name) s.store))
                  (sym left)
                ∙ written-name before name (d.read (txt "flags:" ++ name) s.store)),
      )

  -- Where SCAN comes to an end, with the keys of flags of the source in its pages, and the fuel is at
  -- least the number of pages, the migration ends in one of two ways. Either it throws nothing, each key
  -- is counted once, as migrated or skipped, and each flag of the pages that is a string in the source
  -- is now in the destination, with its value and with what is left of its life where this is more than
  -- 0. Or it throws the error of a reply about one of the names behind those that it has copied, and the
  -- names before these are copied in this way. Every other flag is as it was.
  pub migrate_flags_lem :
      (scan : ℕ → Text → Text × List Text) (fuel : ℕ) (pages : List (List Text)) (s : d.State)
      → Iteration scan 0 (txt "0") (map (in_redis source_prefix) pages)
      → length pages ≤ fuel
      → (t : Migrating d get pttl source_prefix) × (migrate_flags d get pttl source_prefix scan fuel
            s
          ≡ some t)
        × (Completes (join pages) s t ⊎ Throws (join pages) s t)
  unfolding migrate_flags
  migrate_flags_lem scan fuel pages s it le =
      let start : Migrating d get pttl source_prefix = record {
        store = s;
        flags_migrated = 0;
        flags_skipped = 0;
        thrown = none;
      } in
      let redis_pages = map (in_redis source_prefix) pages in
      let end = migrated d get pttl source_prefix scan 0 redis_pages start in
      (
        end,
        do_scan-over_pages scan (migrate_page d get pttl source_prefix) fuel 0 (txt "0") redis_pages
            start it (omega (arith, le, length-map (in_redis source_prefix) pages)),
        elim (migrated-Ends d get pttl source_prefix scan 0 redis_pages start refl) [
          | inl c ↦ inl (
              Copies-Completes (join pages) start end refl (
                subst (λ keys. Copies d get pttl source_prefix keys start end)
                  (join-in_redis source_prefix pages) c))
          | inr c ↦ inr (
              Stops-Throws (join pages) start end (
                subst (λ keys. Stops d get pttl source_prefix keys start end)
                  (join-in_redis source_prefix pages) c))
        ],
      )
