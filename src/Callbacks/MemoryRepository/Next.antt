-- ===== src/Callbacks/MemoryRepository/Next.antt =====
-- The minimum that `nextDueAt` finds, and the order of `list`.
use mocko.Base.{
  ℕ, ◌≤◌, ◌≡◌, refl, ◌⊎◌, inl, inr, Bool, false, Option, none, some, List, [], ◌∷◌, arith, Elem,
  All, text_eq, sort, insert_sorted, filter, ltb, Bool-cases,
}
use mocko.Base.Dict
use mocko.Callbacks.Pending.{PendingCallback}
use mocko.Callbacks.MemoryRepository.{
  Repository, is_held, due_order, earlier, next_from, next_due_at,
}
use mocko.Callbacks.MemoryRepository.Valid.{IsValid, Elem-values_iff}

module _ {P : Type 0} where
  -- `t` is at most the due time of every entry that is not held.
  abbrev pub IsBelow : Option ℕ → PendingCallback P → Type 0
  IsBelow t p = is_held p ≡ false → (u : ℕ) × (t ≡ some u) × (u ≤ p.due_at)

  earlier-le :
      (next : Option ℕ) (p : PendingCallback P)
      → is_held p ≡ false
      → (u : ℕ) × (earlier next p ≡ some u) × (u ≤ p.due_at)
  unfolding earlier
  earlier-le none p free = (p.due_at, ground arith, omega arith)
  earlier-le (some t) p free = elim (Bool-cases (ltb p.due_at t)) [
    | inl lt ↦ (p.due_at, ground arith, omega arith)
    | inr ge ↦ (t, ground arith, ground arith)
  ]

  earlier-some-le :
      (t : ℕ) (p : PendingCallback P) → (u : ℕ) × (earlier (some t) p ≡ some u) × (u ≤ t)
  unfolding earlier
  earlier-some-le t p = elim (Bool-cases (is_held p)) [
    | inl held ↦ (t, ground arith, omega arith)
    | inr free ↦ elim (Bool-cases (ltb p.due_at t)) [
      | inl lt ↦ (p.due_at, ground arith, ground arith)
      | inr ge ↦ (t, ground arith, omega arith)
    ]
  ]

  earlier_cases :
      (next : Option ℕ) (p : PendingCallback P) (t : ℕ)
      → earlier next p ≡ some t
      → (next ≡ some t) ⊎ ((is_held p ≡ false) × (p.due_at ≡ t))
  unfolding earlier
  earlier_cases next p t e = ground arith

  next_from-le :
      (t : ℕ) (ps : List (PendingCallback P)) → (u : ℕ) × (next_from (some t) ps ≡ some u) × (u ≤ t)
  unfolding next_from
  next_from-le t [] = (t, refl, omega arith)
  next_from-le t (p ∷ ps) =
      let (u, e, le) = earlier-some-le t p in
      let (w, f, le') = next_from-le u ps in (w, rw e f, omega arith)

  next_from-IsBelow :
      (next : Option ℕ) (ps : List (PendingCallback P)) (p : PendingCallback P)
      → Elem p ps
      → IsBelow (next_from next ps) p
  unfolding next_from
  next_from-IsBelow next [] p m = elim m [ ]
  next_from-IsBelow next (q ∷ ps) p (inr m) = next_from-IsBelow (earlier next q) ps p m
  next_from-IsBelow next (q ∷ ps) p (inl e) = λ free.
      let (u, f, le) = earlier-le next q (rw (← e) free) in
      let (w, g, le') = next_from-le u ps in (w, rw f g, ground arith)

  next_from-attained :
      (next : Option ℕ) (ps : List (PendingCallback P)) (t : ℕ)
      → next_from next ps ≡ some t
      → (next ≡ some t)
        ⊎ ((p : PendingCallback P) × Elem p ps × (is_held p ≡ false) × (p.due_at ≡ t))
  unfolding next_from
  next_from-attained next [] t e = inl e
  next_from-attained next (q ∷ ps) t e = elim (next_from-attained (earlier next q) ps t e) [
    | inl first ↦ elim (earlier_cases next q t first) [
      | inl same ↦ inl same
      | inr here ↦ inr (q, inl refl, here.0, here.1)
    ]
    | inr (p, m, free, at) ↦ inr (p, inr m, free, at)
  ]

  module _ (s : Repository P) (v : IsValid s) where
    -- In a valid repository, no entry that is not held is due before the time that `nextDueAt`
    -- returns, and it returns a time whenever there is such an entry.
    pub next_due_at-IsBelow :
        (p : PendingCallback P) → Dict.get p.id s ≡ some p → IsBelow (next_due_at s) p
    unfolding next_due_at
    next_due_at-IsBelow p e = next_from-IsBelow none (Dict.values s) p ((Elem-values_iff p s v).1 e)

    -- In a valid repository, a time that `nextDueAt` returns is the due time of a stored entry that
    -- is not held.
    pub next_due_at_attained :
        (t : ℕ)
        → next_due_at s ≡ some t
        → (p : PendingCallback P) × (Dict.get p.id s ≡ some p)
          × (is_held p ≡ false)
          × (p.due_at ≡ t)
    unfolding next_due_at
    next_due_at_attained t e = elim (next_from-attained none (Dict.values s) t e) [
      | inl absurd_start ↦ cc
      | inr (p, m, free, at) ↦ (p, (Elem-values_iff p s v).0 m, free, at)
    ]

  abbrev IsFirst : PendingCallback P → List (PendingCallback P) → Type 0
  IsFirst p qs = All (λ q. p.due_at ≤ q.due_at) qs

  abbrev pub IsSortedByDue : List (PendingCallback P) → Type 0
  IsSortedByDue [] = Unit
  IsSortedByDue (p ∷ ps) = IsFirst p ps × IsSortedByDue ps

  IsFirst-insert_sorted :
      (x p : PendingCallback P) (ps : List (PendingCallback P))
      → x.due_at ≤ p.due_at
      → IsFirst x ps
      → IsFirst x (insert_sorted due_order p ps)
  unfolding insert_sorted
  IsFirst-insert_sorted x p [] le h = (le, tt)
  IsFirst-insert_sorted x p (q ∷ ps) le h = ground (arith, IsFirst-insert_sorted x p ps le h.1)

  IsFirst-trans :
      (x p : PendingCallback P) (ps : List (PendingCallback P))
      → x.due_at ≤ p.due_at
      → IsFirst p ps
      → IsFirst x ps
  IsFirst-trans x p [] le h = tt
  IsFirst-trans x p (q ∷ ps) le h = (omega arith, IsFirst-trans x p ps le h.1)

  insert_sorted-IsSortedByDue :
      (p : PendingCallback P) (ps : List (PendingCallback P))
      → IsSortedByDue ps
      → IsSortedByDue (insert_sorted due_order p ps)
  unfolding insert_sorted
  insert_sorted-IsSortedByDue p [] h = (tt, tt)
  insert_sorted-IsSortedByDue p (q ∷ ps) h = elim (Bool-cases (due_order p q)) [
    | inl first ↦
        let le : p.due_at ≤ q.due_at = ground arith in
        rw first ((le, IsFirst-trans p q ps le h.0), h)
    | inr later ↦
        let le : q.due_at ≤ p.due_at = ground arith in
        rw later (IsFirst-insert_sorted q p ps le h.0, insert_sorted-IsSortedByDue p ps h.1)
  ]

  pub sort-IsSortedByDue : (ps : List (PendingCallback P)) → IsSortedByDue (sort due_order ps)
  unfolding sort
  sort-IsSortedByDue [] = tt
  sort-IsSortedByDue (p ∷ ps) =
      insert_sorted-IsSortedByDue p (sort due_order ps) (sort-IsSortedByDue ps)

  IsFirst-filter :
      (keep : PendingCallback P → Bool) (x : PendingCallback P) (ps : List (PendingCallback P))
      → IsFirst x ps
      → IsFirst x (filter keep ps)
  IsFirst-filter keep x [] h = tt
  IsFirst-filter keep x (p ∷ ps) h = ground (arith, IsFirst-filter keep x ps h.1)

  pub filter-IsSortedByDue :
      (keep : PendingCallback P → Bool) (ps : List (PendingCallback P))
      → IsSortedByDue ps
      → IsSortedByDue (filter keep ps)
  filter-IsSortedByDue keep [] h = tt
  filter-IsSortedByDue keep (p ∷ ps) h =
      ground (arith, filter-IsSortedByDue keep ps h.1, IsFirst-filter keep p ps h.0)
