-- ===== src/Base/Lists.antt =====
-- Arrays: the callbacks `filter`, `find`, `some`, `every`, and `sort` as a stable insertion sort.
use Prim.Native.Nat.{ℕ, zero, suc, ◌+◌, ◌-◌}
use mathlib.Core.Path.{◌≡◌, refl, sym, subst, ap, ◌∙◌}
use mathlib.Core.Logic.{◌↔◌, ◌⊎◌, inl, inr}
use mathlib.Core.Bool.{Bool, true, false, ◌&&◌, ◌||◌, cond}
use mathlib.Core.Option.{Option, none, some}
use mathlib.Core.List.{List, [], ◌∷◌, ◌++◌, map, reverse, reverse-cons}
use native.Mathlib.Omega.{arith}

pub data Nowhere {ℓ} : Type ℓ where

module _ {ℓ} {A : Type ℓ} where
  abbrev pub length : List A → ℕ
  length [] = 0
  length (x ∷ xs) = suc (length xs)

  abbrev pub All {κ} : (A → Type κ) → List A → Type κ
  All P [] = Unit
  All P (x ∷ xs) = P x × All P xs

  abbrev pub filter : (A → Bool) → List A → List A
  filter p [] = []
  filter p (x ∷ xs) = let rest = filter p xs in cond (p x) (x ∷ rest) rest

  abbrev pub find : (A → Bool) → List A → Option A
  find p [] = none
  find p (x ∷ xs) = let rest = find p xs in cond (p x) (some x) rest

  abbrev pub any : (A → Bool) → List A → Bool
  any p [] = false
  any p (x ∷ xs) = p x || any p xs

  abbrev pub all : (A → Bool) → List A → Bool
  all p [] = true
  all p (x ∷ xs) = p x && all p xs

  abbrev pub take : ℕ → List A → List A
  take zero xs = []
  take (suc n) [] = []
  take (suc n) (x ∷ xs) = x ∷ take n xs

  abbrev pub drop : ℕ → List A → List A
  drop zero xs = xs
  drop (suc n) [] = []
  drop (suc n) (x ∷ xs) = drop n xs

  -- Membership, with its place.
  abbrev pub Elem : A → List A → Type ℓ
  Elem a [] = Nowhere
  Elem a (x ∷ xs) = (a ≡ x) ⊎ Elem a xs

  -- `array.sort`: equal elements keep their order. `le` says that the first may stand in front.
  unfoldable pub insert_sorted : (A → A → Bool) → A → List A → List A
  insert_sorted le x [] = x ∷ []
  insert_sorted le x (y ∷ ys) = cond (le x y) (x ∷ y ∷ ys) (y ∷ insert_sorted le x ys)

  unfoldable pub sort : (A → A → Bool) → List A → List A
  unfolding insert_sorted
  sort le [] = []
  sort le (x ∷ xs) = insert_sorted le x (sort le xs)

module _ {ℓ} {A : Type ℓ} where
  pub length-append : (xs ys : List A) → length (xs ++ ys) ≡ length xs + length ys
  length-append [] ys = omega arith
  length-append (x ∷ xs) ys = omega (arith, length-append xs ys)

  pub length-map {κ} : {B : Type κ} (f : A → B) (xs : List A) → length (map f xs) ≡ length xs
  length-map f [] = refl
  length-map f (x ∷ xs) = ap suc (length-map f xs)

  pub find-append :
      (p : A → Bool) (xs ys : List A)
      → find p (xs ++ ys) ≡ elim (find p xs) [ none ↦ find p ys | some x ↦ some x ]
  find-append p [] ys = refl
  find-append p (x ∷ xs) ys = ground (arith, find-append p xs ys)

  pub find_sound : (p : A → Bool) (xs : List A) (a : A) → find p xs ≡ some a → p a ≡ true
  find_sound p [] a h = cc
  find_sound p (x ∷ xs) a h = ground (arith, find_sound p xs a)

  pub find-Elem : (p : A → Bool) (xs : List A) (a : A) → find p xs ≡ some a → Elem a xs
  find-Elem p [] a h = cc
  find-Elem p (x ∷ xs) a h = ground (arith, find-Elem p xs a)

  -- `[...xs].reverse().find(p)`: the last element that passes
  unfoldable pub find_last : (A → Bool) → List A → Option A
  find_last p xs = find p (reverse xs)

  pub find_last-nil : (p : A → Bool) → find_last p [] ≡ none
  unfolding find_last
  find_last-nil p = refl

  pub find_last-cons :
      (p : A → Bool) (x : A) (xs : List A)
      → find_last p (x ∷ xs)
        ≡ elim (find_last p xs) [ some y ↦ some y | none ↦ cond (p x) (some x) none ]
  unfolding find_last
  find_last-cons p x xs =
      ap (find p) (reverse-cons x xs) ∙ find-append p (reverse xs) (x ∷ []) ∙ ground arith

  pub All-map {κ ν} :
      (P : A → Type κ) (Q : A → Type ν) (xs : List A) → ((x : A) → P x → Q x) → All P xs → All Q xs
  All-map P Q [] f h = tt
  All-map P Q (x ∷ xs) f h = (f x h.0, All-map P Q xs f h.1)

  pub All-filter {κ} :
      (P : A → Type κ) (p : A → Bool) (xs : List A) → All P xs → All P (filter p xs)
  All-filter P p [] h = tt
  All-filter P p (x ∷ xs) h = ground (arith, All-filter P p xs h.1)

  pub All-append {κ} : (P : A → Type κ) (xs ys : List A) → All P xs → All P ys → All P (xs ++ ys)
  All-append P [] ys h k = k
  All-append P (x ∷ xs) ys h k = (h.0, All-append P xs ys h.1 k)

  pub Elem-filter :
      (p : A → Bool) (a : A) (xs : List A) → Elem a (filter p xs) ↔ (Elem a xs × (p a ≡ true))
  Elem-filter p a [] = (λ h. (h, elim h [ ]), λ h. h.0)
  Elem-filter p a (x ∷ xs) = ground (arith, Elem-filter p a xs)

  pub Elem-insert_sorted :
      (le : A → A → Bool) (a x : A) (xs : List A)
      → Elem a (insert_sorted le x xs) ↔ ((a ≡ x) ⊎ Elem a xs)
  unfolding insert_sorted
  Elem-insert_sorted le a x [] = ground arith
  Elem-insert_sorted le a x (y ∷ ys) = ground (arith, Elem-insert_sorted le a x ys)

  -- Sorting keeps the members.
  pub Elem-sort : (le : A → A → Bool) (a : A) (xs : List A) → Elem a (sort le xs) ↔ Elem a xs
  unfolding sort
  Elem-sort le a [] = ground arith
  Elem-sort le a (x ∷ xs) =
      ground (arith, Elem-sort le a xs, Elem-insert_sorted le a x (sort le xs))

  pub filter-append :
      (p : A → Bool) (xs ys : List A) → filter p (xs ++ ys) ≡ filter p xs ++ filter p ys
  filter-append p [] ys = refl
  filter-append p (x ∷ xs) ys = ground (arith, filter-append p xs ys)

  pub take-drop : (n : ℕ) (xs : List A) → take n xs ++ drop n xs ≡ xs
  take-drop zero xs = refl
  take-drop (suc n) [] = refl
  take-drop (suc n) (x ∷ xs) = ap (λ ys. x ∷ ys) (take-drop n xs)

  pub length-drop : (n : ℕ) (xs : List A) → length (drop n xs) ≡ length xs - n
  length-drop zero xs = omega arith
  length-drop (suc n) [] = omega arith
  length-drop (suc n) (x ∷ xs) = omega (arith, length-drop n xs)

  pub Elem-append : (a : A) (xs ys : List A) → Elem a (xs ++ ys) ↔ (Elem a xs ⊎ Elem a ys)
  Elem-append a [] ys = (inr, λ h. elim h [ inl m ↦ elim m [ ] | inr m ↦ m ])
  Elem-append a (x ∷ xs) ys = ground (arith, Elem-append a xs ys)

  pub All-Elem {κ} : (P : A → Type κ) (xs : List A) (a : A) → All P xs → Elem a xs → P a
  All-Elem P [] a h m = elim m [ ]
  All-Elem P (x ∷ xs) a h (inl e) = subst P (sym e) h.0
  All-Elem P (x ∷ xs) a h (inr m) = All-Elem P xs a h.1 m

module _ {ℓ κ} {A : Type ℓ} {B : Type κ} where
  pub Elem-map :
      (f : A → B) (y : B) (xs : List A) → Elem y (map f xs) ↔ ((x : A) × Elem x xs × (y ≡ f x))
  Elem-map f y [] = (λ m. elim m [ ], λ (x, m, e). elim m [ ])
  Elem-map f y (x ∷ xs) = (
    λ m. elim m [
      | inl e ↦ (x, inl refl, e)
      | inr m' ↦ let (z, k, e) = (Elem-map f y xs).0 m' in (z, inr k, e)
    ],
    λ (z, k, e). elim k [
      | inl same ↦ inl (e ∙ ap f same)
      | inr k' ↦ inr ((Elem-map f y xs).1 (z, k', e))
    ],
  )
