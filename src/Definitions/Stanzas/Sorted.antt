-- ===== src/Definitions/Stanzas/Sorted.antt =====
-- What `collect` of mocko-core/src/definitions/data/mocko-definition.ts makes of each item.
use mocko.Base.{◌≡◌, refl, List, [], ◌∷◌, All, All-map, text_eq, inl, inr, Elem}
use mocko.Base.Result.{Result, ok, err, Result-cases}
use mocko.Definitions.Stanzas.{collect}

-- Of each item in turn, what it gives is among the kept, or its error among the reported.
pub data IsSorted {X Y E : Type 0} (f : X → Result E Y) : List X → List Y → List E → Type 0 where
  finished : IsSorted f [] [] []
  kept :
      {x : X} {y : Y} {xs : List X} {ys : List Y} {es : List E}
      → f x ≡ ok y
      → IsSorted f xs ys es
      → IsSorted f (x ∷ xs) (y ∷ ys) es
  reported :
      {x : X} {e : E} {xs : List X} {ys : List Y} {es : List E}
      → f x ≡ err e
      → IsSorted f xs ys es
      → IsSorted f (x ∷ xs) ys (e ∷ es)

pub collect-IsSorted :
    {X Y E : Type 0} (f : X → Result E Y) (xs : List X)
    → IsSorted f xs (collect f xs).0 (collect f xs).1
unfolding collect
collect-IsSorted f [] = finished
collect-IsSorted f (x ∷ xs) = elim (Result-cases (f x)) [
  | inl (e, h) ↦ rw h (reported h (collect-IsSorted f xs))
  | inr (y, h) ↦ rw h (kept h (collect-IsSorted f xs))
]

pub IsSorted-All :
    {X Y E : Type 0} {f : X → Result E Y} {P : Y → Type 0} {xs : List X} {ys : List Y} {es : List E}
    → ((x : X) (y : Y) → f x ≡ ok y → P y)
    → IsSorted f xs ys es
    → All P ys
IsSorted-All h finished = tt
IsSorted-All h (kept e s) = (h _ _ e, IsSorted-All h s)
IsSorted-All h (reported e s) = IsSorted-All h s

pub IsSorted-Errors :
    {X Y E : Type 0} {f : X → Result E Y} {P : X → E → Type 0} {xs : List X} {ys : List Y}
    {es : List E}
    → ((x : X) (e : E) → f x ≡ err e → P x e)
    → IsSorted f xs ys es
    → All (λ e. (x : X) × (Elem x xs × P x e)) es
IsSorted-Errors h finished = tt
IsSorted-Errors {es = es} h (kept e s) =
    All-map _ _ es (λ e (x, (there, p)). (x, (inr there, p))) (IsSorted-Errors h s)
IsSorted-Errors h (reported {x = x} {es = es} e s) = (
  (x, (inl refl, h _ _ e)),
  All-map _ _ es (λ e (x, (there, p)). (x, (inr there, p))) (IsSorted-Errors h s),
)
