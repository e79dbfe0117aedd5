-- ===== src/Definitions/Files/Seeds.antt =====
-- The ids that definition.provider.ts gives the definitions of a file differ.
use mocko.Base.{
  ℕ, ◌+◌, ◌≤◌, ◌≡◌, ◌≢◌, refl, sym, subst, Text, true, false, List, [], ◌∷◌, ◌++◌, map, ltb,
  or_else, contains, All, Elem, Elem-map, ◌==◌, text_eq, nat_eq, if◌then◌else◌, arith, Bool-cases,
  inl, inr,
}
use mocko.Base.Dict
use mocko.Base.Dict.{Dict, get-set}
use mocko.Definitions.Files.{count_seeds, number_seeds, disambiguate_seeds, slug_ids, slug_seed}

-- no '#' in a text
abbrev pub NoHash : Text → Type 0
NoHash s = contains s 35 ≡ false

abbrev pub AreDistinct : List Text → Type 0
AreDistinct [] = Unit
AreDistinct (x ∷ xs) = (Elem x xs → ⊥) × AreDistinct xs

cut_hash :
    (a b x y : Text) → NoHash a → NoHash b → a ++ (35 ∷ x) ≡ b ++ (35 ∷ y) → (a ≡ b) × (x ≡ y)
cut_hash [] [] x y ha hb e = (refl, cc)
cut_hash [] (d ∷ b) x y ha hb e = absurd (ground arith)
cut_hash (c ∷ a) [] x y ha hb e = absurd (ground arith)
cut_hash (c ∷ a) (d ∷ b) x y ha hb e =
    let (same, rest) = cut_hash a b x y (ground arith) (ground arith) (cc) in (cc, rest)

no_cut : (a b x : Text) → NoHash b → a ++ (35 ∷ x) ≢ b
no_cut [] [] x hb e = cc
no_cut [] (d ∷ b) x hb e = ground arith
no_cut (c ∷ a) [] x hb e = cc
no_cut (c ∷ a) (d ∷ b) x hb e = no_cut a b x (ground arith) (cc)

abbrev occurred : Text → Dict Text ℕ → ℕ
occurred s d = or_else (Dict.get s d) 0

count_of : Text → List Text → ℕ
count_of s [] = 0
count_of s (x ∷ xs) = let rest = count_of s xs in if s == x then rest + 1 else rest

occurred-count_seeds :
    (s : Text) (seeds : List Text) (d : Dict Text ℕ)
    → occurred s (count_seeds seeds d) ≡ occurred s d + count_of s seeds
unfolding count_seeds count_of
occurred-count_seeds s [] d = omega arith
occurred-count_seeds s (x ∷ xs) d = ground (
  arith,
  occurred-count_seeds s xs (Dict.set x (occurred x d + 1) d),
  get-set s x (occurred x d + 1) d,
)

count_of-Elem : (s : Text) (seeds : List Text) → Elem s seeds → 1 ≤ count_of s seeds
unfolding count_of
count_of-Elem s [] m = elim m [ ]
count_of-Elem s (x ∷ xs) (inl e) = ground arith
count_of-Elem s (x ∷ xs) (inr m) = ground (arith, count_of-Elem s xs m)

-- A seed that is not counted twice does not come again.
abbrev AreRare : Dict Text ℕ → List Text → Type 0
AreRare counts [] = Unit
AreRare counts (x ∷ xs) = (ltb 1 (occurred x counts) ≡ false → Elem x xs → ⊥) × AreRare counts xs

rare_of :
    (counts : Dict Text ℕ) (seeds : List Text)
    → ((s : Text) → count_of s seeds ≤ occurred s counts)
    → AreRare counts seeds
unfolding count_of
rare_of counts [] h = tt
rare_of counts (x ∷ xs) h = (
  λ once m. let seen = h x in let again = count_of-Elem x xs m in ground arith,
  rare_of counts xs (λ s. let seen = h s in ground arith),
)

module _ (show : ℕ → Text) (show_injective : (m n : ℕ) → show m ≡ show n → m ≡ n) where
  abbrev numbered : Dict Text ℕ → Text → ℕ → Text
  numbered counts s n = if ltb 1 (occurred s counts) then s ++ (35 ∷ show n) else s

  numbered_later :
      (counts d : Dict Text ℕ) (seeds : List Text) (y : Text)
      → Elem y (number_seeds show counts d seeds)
      → (s : Text) × ((n : ℕ) × ((Elem s seeds × (occurred s d ≤ n)) × (y ≡ numbered counts s n)))
  unfolding number_seeds
  numbered_later counts d [] y m = elim m [ ]
  numbered_later counts d (x ∷ xs) y (inl e) = (x, (occurred x d, ((inl refl, omega arith), e)))
  numbered_later counts d (x ∷ xs) y (inr m) =
      let (s, (n, ((at, le), e))) =
        numbered_later counts (Dict.set x (occurred x d + 1) d) xs y m in
      (s, (n, ((inr at, ground (arith, get-set s x (occurred x d + 1) d)), e)))

  numbered_apart :
      (counts : Dict Text ℕ) (s t : Text) (m n : ℕ)
      → NoHash s
      → NoHash t
      → numbered counts s m ≡ numbered counts t n
      → (s ≡ t) × (ltb 1 (occurred s counts) ≡ true → m ≡ n)
  numbered_apart counts s t m n hs ht e = elim (Bool-cases (ltb 1 (occurred s counts))) [
    | inl more_s ↦ elim (Bool-cases (ltb 1 (occurred t counts))) [
      | inl more_t ↦
          let (same, number) = cut_hash s t (show m) (show n) hs ht (ground arith) in
          (same, λ h. show_injective m n number)
      | inr once_t ↦ absurd (no_cut s t (show m) ht (ground arith))
    ]
    | inr once_s ↦ elim (Bool-cases (ltb 1 (occurred t counts))) [
      | inl more_t ↦ absurd (no_cut t s (show n) hs (ground arith))
      | inr once_t ↦ (ground arith, λ h. cc)
    ]
  ]

  All-NoHash : (seeds : List Text) (s : Text) → All NoHash seeds → Elem s seeds → NoHash s
  All-NoHash [] s h m = elim m [ ]
  All-NoHash (x ∷ xs) s h (inl e) = subst NoHash (sym e) h.0
  All-NoHash (x ∷ xs) s h (inr m) = All-NoHash xs s h.1 m

  number_seeds-AreDistinct :
      (counts d : Dict Text ℕ) (seeds : List Text)
      → All NoHash seeds
      → AreRare counts seeds
      → AreDistinct (number_seeds show counts d seeds)
  unfolding number_seeds
  number_seeds-AreDistinct counts d [] h rare = tt
  number_seeds-AreDistinct counts d (x ∷ xs) h rare =
      let d' = Dict.set x (occurred x d + 1) d in
      (
        λ m.
            let (s, (n, ((at, le), e))) = numbered_later counts d' xs _ m in
            let (same, number) =
              numbered_apart counts x s (occurred x d) n h.0 (All-NoHash xs s h.1 at) e in
            let again : Elem x xs = subst (λ t. Elem t xs) (sym same) at in
            elim (Bool-cases (ltb 1 (occurred x counts))) [
              | inl more ↦
                  let equal = number more in
                  let after : occurred x d' ≤ n = subst (λ t. occurred t d' ≤ n) (sym same) le in
                  absurd (ground (arith, get-set x x (occurred x d + 1) d))
              | inr once ↦ rare.0 once again
            ],
        number_seeds-AreDistinct counts d' xs h.1 rare.1,
      )

  pub disambiguate_seeds-AreDistinct :
      (seeds : List Text) → All NoHash seeds → AreDistinct (disambiguate_seeds show seeds)
  unfolding disambiguate_seeds Dict.get
  disambiguate_seeds-AreDistinct seeds h =
      number_seeds-AreDistinct (count_seeds seeds []) [] seeds h
        (rare_of (count_seeds seeds []) seeds (λ s. omega (arith, occurred-count_seeds s seeds [])))

  map-AreDistinct :
      (f : Text → Text) (xs : List Text)
      → ((a b : Text) → f a ≡ f b → a ≡ b)
      → AreDistinct xs
      → AreDistinct (map f xs)
  map-AreDistinct f [] inj h = tt
  map-AreDistinct f (x ∷ xs) inj h = (
    λ m.
        let (y, at, e) = (Elem-map f (f x) xs).0 m in
        h.0 (subst (λ t. Elem t xs) (sym (inj x y e)) at),
    map-AreDistinct f xs inj h.1,
  )

  -- With ids that differ for different names, and decimal numbers that differ: where no name of the
  -- definitions of a file holds a '#', no two of the hosts, or of the callbacks, of the file get one id,
  -- and no two of its mocks a seed, also where several have the same slug, or the same method, path and
  -- host.
  pub slug_ids-AreDistinct :
      (uuidv5 : Text → Text)
      → ((a b : Text) → uuidv5 a ≡ uuidv5 b → a ≡ b)
      → (kind path : Text) (slugs seeds : List Text)
      → All NoHash (map (slug_seed show uuidv5 kind path) slugs)
      → All NoHash seeds
      → AreDistinct (slug_ids show uuidv5 kind path slugs)
        × AreDistinct (disambiguate_seeds show seeds)
  unfolding slug_ids
  slug_ids-AreDistinct uuidv5 inj kind path slugs seeds h k = (
    map-AreDistinct uuidv5 (disambiguate_seeds show (map (slug_seed show uuidv5 kind path) slugs))
        inj (disambiguate_seeds-AreDistinct (map (slug_seed show uuidv5 kind path) slugs) h),
    disambiguate_seeds-AreDistinct seeds k,
  )
