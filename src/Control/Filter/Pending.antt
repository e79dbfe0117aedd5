-- ===== src/Control/Filter/Pending.antt =====
-- The order of mocko-control/lib/callback/pending-sort.ts.
use mocko.Base.{
  ◌≡◌, ◌↔◌, refl, Bool, true, false, not, ◌&&◌, ◌||◌, if◌then◌else◌, List, [], ◌∷◌, ◌++◌, filter,
  leb, sort, insert_sorted, or_else, Elem, Elem-append, Elem-sort, Elem-insert_sorted, Elem-filter,
  arith, Bool-cases, inl, inr,
}
use mocko.Control.Filter.{PendingDto, is_held, sort_pending_callbacks}

-- Every element may stand before each that is behind it.
abbrev pub Ordered : (PendingDto → PendingDto → Bool) → List PendingDto → Type 0
Ordered le [] = Unit
Ordered le (x ∷ xs) = ((y : PendingDto) → Elem y xs → le x y ≡ true) × Ordered le xs

module _ (le : PendingDto → PendingDto → Bool)
    (total : (x y : PendingDto) → le x y ≡ false → le y x ≡ true)
    (trans : (x y z : PendingDto) → le x y ≡ true → le y z ≡ true → le x z ≡ true) where
  insert_sorted-Ordered :
      (x : PendingDto) (xs : List PendingDto) → Ordered le xs → Ordered le (insert_sorted le x xs)
  unfolding insert_sorted
  insert_sorted-Ordered x [] h = (λ y m. elim m [ ], tt)
  insert_sorted-Ordered x (z ∷ zs) h = elim (Bool-cases (le x z)) [
    | inl e ↦ rw e (λ y m. elim m [ inl same ↦ rw same e | inr n ↦ trans x z y e (h.0 y n) ], h)
    | inr d ↦ rw d (
      λ y m. elim ((Elem-insert_sorted le y x zs).0 m) [
        | inl same ↦ rw same (total x z d)
        | inr n ↦ h.0 y n
      ],
      insert_sorted-Ordered x zs h.1,
    )
  ]

  sort-Ordered : (xs : List PendingDto) → Ordered le (sort le xs)
  unfolding sort
  sort-Ordered [] = tt
  sort-Ordered (x ∷ xs) = insert_sorted-Ordered x (sort le xs) (sort-Ordered xs)

Ordered-imp :
    (p q : PendingDto → PendingDto → Bool) (xs : List PendingDto)
    → ((x y : PendingDto) → Elem x xs → Elem y xs → p x y ≡ true → q x y ≡ true)
    → Ordered p xs
    → Ordered q xs
Ordered-imp p q [] h o = tt
Ordered-imp p q (x ∷ xs) h o = (
  λ y m. h x y (inl refl) (inr m) (o.0 y m),
  Ordered-imp p q xs (λ a b m n. h a b (inr m) (inr n)) o.1,
)

Ordered-append :
    (le : PendingDto → PendingDto → Bool) (xs ys : List PendingDto)
    → ((x y : PendingDto) → Elem x xs → Elem y ys → le x y ≡ true)
    → Ordered le xs
    → Ordered le ys
    → Ordered le (xs ++ ys)
Ordered-append le [] ys h a b = b
Ordered-append le (x ∷ xs) ys h a b = (
  λ y m. elim ((Elem-append y xs ys).0 m) [ inl n ↦ a.0 y n | inr n ↦ h x y (inl refl) n ],
  Ordered-append le xs ys (λ p q m n. h p q (inr m) n) a.1 b,
)

-- The held ones come first, the last held in front; then the others by their due time.
unfoldable pub may_precede : PendingDto → PendingDto → Bool
may_precede a b =
    if is_held a
    then not (is_held b) || leb (or_else b.held_at 0) (or_else a.held_at 0)
    else not (is_held b) && leb a.due_at b.due_at

abbrev by_held : PendingDto → PendingDto → Bool
by_held a b = leb (or_else b.held_at 0) (or_else a.held_at 0)

abbrev by_due : PendingDto → PendingDto → Bool
by_due a b = leb a.due_at b.due_at

-- What the panel shows is every pending callback and no other, those on hold first, the one held last
-- in front, and then the others by the time at which they are due.
pub sort_pending_callbacks_lem :
    (pending : List PendingDto)
    → Ordered may_precede (sort_pending_callbacks pending)
      × ((item : PendingDto) → Elem item (sort_pending_callbacks pending) ↔ Elem item pending)
unfolding sort_pending_callbacks may_precede
sort_pending_callbacks_lem pending =
    let is_scheduled : PendingDto → Bool = λ item. not (is_held item) in
    let held = filter is_held pending in
    let scheduled = filter is_scheduled pending in
    let in_held = λ (x : PendingDto) (m : Elem x (sort by_held held)).
      ((Elem-filter is_held x pending).0 ((Elem-sort by_held x held).0 m)).1 in
    let in_scheduled = λ (x : PendingDto) (m : Elem x (sort by_due scheduled)).
      ((Elem-filter is_scheduled x pending).0 ((Elem-sort by_due x scheduled).0 m)).1 in
    (
      Ordered-append may_precede (sort by_held held) (sort by_due scheduled)
          (λ x y m n. let h = in_held x m in let k = in_scheduled y n in ground arith)
          (Ordered-imp by_held may_precede (sort by_held held)
            (λ x y m n e. let h = in_held x m in ground arith)
            (sort-Ordered by_held (λ x y h. ground arith) (λ x y z h k. ground arith) held))
          (Ordered-imp by_due may_precede (sort by_due scheduled)
            (λ x y m n e. let h = in_scheduled x m in let k = in_scheduled y n in ground arith)
            (sort-Ordered by_due (λ x y h. ground arith) (λ x y z h k. ground arith) scheduled)),
      λ item. ground (
        arith,
        Elem-append item (sort by_held held) (sort by_due scheduled),
        Elem-sort by_held item held,
        Elem-sort by_due item scheduled,
        Elem-filter is_held item pending,
        Elem-filter is_scheduled item pending,
        Bool-cases (is_held item),
      ),
    )
