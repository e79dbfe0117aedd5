-- ===== src/Validation/Unique.antt =====
-- When the groups of validate.ts report nothing: when no two items have one key.
use mocko.Base.{
  ◌≡◌, ◌↔◌, refl, sym, ap, subst, ◌∙◌, Text, true, false, List, [], ◌∷◌, ◌++◌, any, Elem, text_eq,
  arith, Bool-cases, inl, inr,
}
use mocko.Base.Grouping.{has_key, group_items}
use mocko.Diagnostics.Reports.{report_groups}
use mocko.Diagnostics.{Diagnostic}
use mocko.Validation.Conflicts.{all_duplicates, items-report_groups, Elem-group_duplicates, Repeats}
use mocko.Validation.Silence.{Silent}

append-eq-nil : (ds es : List Diagnostic) → (ds ++ es ≡ []) ↔ ((ds ≡ []) × (es ≡ []))
append-eq-nil [] es = (λ e. (refl, e), λ (_, e). e)
append-eq-nil (d ∷ ds) es = (λ e. cc, λ (e, _). cc)

pub nil_of_none : (ds : List Diagnostic) → ((d : Diagnostic) → Elem d ds → ⊥) → ds ≡ []
nil_of_none [] h = refl
nil_of_none (d ∷ ds) h = absurd (h d (inl refl))

module _ {T : Type 0} (report : (first duplicate : T) → Diagnostic) (key_of : T → Text) where
  -- No two of the items have one key.
  abbrev pub HasUniqueKeys : List T → Type 0
  HasUniqueKeys [] = Unit
  HasUniqueKeys (x ∷ xs) = (any (has_key key_of (key_of x)) xs ≡ false) × HasUniqueKeys xs

  any_of :
      (k : Text) (y : T) (xs : List T) → Elem y xs → key_of y ≡ k → any (has_key key_of k) xs ≡ true
  any_of k y [] m e = elim m [ ]
  any_of k y (x ∷ xs) (inl same) e =
      let keys : key_of x ≡ k = ap key_of (sym same) ∙ e in ground arith
  any_of k y (x ∷ xs) (inr m) e = ground (arith, any_of k y xs m e)

  of_any :
      (k : Text) (xs : List T)
      → any (has_key key_of k) xs ≡ true
      → (y : T) × (Elem y xs × (key_of y ≡ k))
  of_any k [] h = cc
  of_any k (x ∷ xs) h = elim (text_eq.dec (key_of x) k) [
    | yes e ↦ (x, (inl refl, e))
    | no n ↦ let (y, (m, e)) = of_any k xs (ground arith) in (y, (inr m, e))
  ]

  Repeats-Elem : (f y : T) (xs : List T) → Repeats report key_of f y xs → Elem y xs
  Repeats-Elem f y [] r = elim r [ ]
  Repeats-Elem f y (x ∷ xs) (inl (first, same, m)) = inr m
  Repeats-Elem f y (x ∷ xs) (inr (other, r)) = inr (Repeats-Elem f y xs r)

  unique-Repeats : (f y : T) (xs : List T) → HasUniqueKeys xs → Repeats report key_of f y xs → ⊥
  unique-Repeats f y [] u r = elim r [ ]
  unique-Repeats f y (x ∷ xs) u (inl (first, same, m)) =
      let there = any_of (key_of x) y xs m same in let none_there = u.0 in cc
  unique-Repeats f y (x ∷ xs) u (inr (other, r)) = unique-Repeats f y xs u.1 r

  Repeats-unique : (xs : List T) → ((f y : T) → Repeats report key_of f y xs → ⊥) → HasUniqueKeys xs
  Repeats-unique [] h = tt
  Repeats-unique (x ∷ xs) h = (
    elim (Bool-cases (any (has_key key_of (key_of x)) xs)) [
      | inl found ↦
          let (y, (m, e)) = of_any (key_of x) xs found in absurd (h x y (inl (refl, e, m)))
      | inr missing ↦ missing
    ],
    Repeats-unique xs (λ f y r. elim (text_eq.dec (key_of y) (key_of x)) [
      | yes e ↦ h x y (inl (refl, e, Repeats-Elem f y xs r))
      | no n ↦ h f y (inr (n, r))
    ]),
  )

  pub Silent-report_groups :
      (items : List T)
      → Silent (report_groups report (group_items key_of items [])) (HasUniqueKeys items)
  Silent-report_groups items c on =
      let ds = all_duplicates report key_of (group_items key_of items []) in
      let (still, all) = items-report_groups report key_of (group_items key_of items []) c on in
      (
        still,
        (
          λ e.
              let (kept, empty) = (append-eq-nil c.items ds).0 (sym all ∙ e) in
              (
                kept,
                Repeats-unique items (λ f y r.
                    elim (subst (Elem (report f y)) empty (
                      (Elem-group_duplicates report key_of items (report f y)).1
                        (f, (y, (r, refl))))) [ ]),
              ),
          λ (kept, u).
              all
              ∙ (append-eq-nil c.items ds).1 (
                kept,
                nil_of_none ds (λ d m.
                    let (f, (y, (r, e))) = (Elem-group_duplicates report key_of items d).0 m in
                    unique-Repeats f y items u r),
              ),
        ),
      )
