-- ===== src/Control/Callbacks/Firing.antt =====
-- What a callback that the panel fires stands for.
use mocko.Base.{
  ℕ, ◌≡◌, refl, ap, subst, ◌∙◌, Text, Bool, true, false, ◌&&◌, Option, none, some, List, [], ◌∷◌,
  any, find, find-Elem, find_sound, first, Elem, to_lower_case, ◌==◌, text_eq, arith, Option-cases,
  Bool-cases, inl, inr,
}
use mocko.Base.Result.{ok}
use mocko.Control.Store.{has_id, OwnStore}
use mocko.Control.Slugs.{
  find_ui, find_key, is_overridden_by_ui, find_by_slug_preferring_ui,
  find_by_slug_preferring_ui_lem,
}
use mocko.Control.Mocks.{MockAnnotation}
use mocko.Control.Callbacks.{
  Callback, callback_id, callback_slug, is_ui, Panel, list_callbacks, fire,
}

find-some :
    (p : Callback → Bool) (x : Callback) (xs : List Callback)
    → Elem x xs
    → p x ≡ true
    → (y : Callback) × (find p xs ≡ some y)
find-some p x [] m h = elim m [ ]
find-some p x (y ∷ ys) (inl e) h = (x, ground arith)
find-some p x (y ∷ ys) (inr m) h = elim (Bool-cases (p y)) [
  | inl yes_y ↦ (y, rw yes_y refl)
  | inr no_y ↦ let (z, e) = find-some p x ys m h in (z, rw no_y e)
]

find-none : (p : Callback → Bool) (xs : List Callback) → any p xs ≡ false → find p xs ≡ none
find-none p [] h = refl
find-none p (x ∷ xs) h = ground (arith, find-none p xs)

all_none :
    (p : Callback → Bool) (x : Callback) (xs : List Callback)
    → Elem x xs
    → find p xs ≡ none
    → p x ≡ false
all_none p x [] m h = elim m [ ]
all_none p x (y ∷ ys) (inl e) h = rw e (ground arith)
all_none p x (y ∷ ys) (inr m) h = all_none p x ys m (ground arith)

module _ (items : List Callback) where
  stands_for :
      (x : Callback)
      → Elem x items
      → is_overridden_by_ui callback_slug is_ui x items ≡ false
      → (found : Callback) × ((find_by_slug_preferring_ui callback_slug is_ui items x.slug
            ≡ some found)
          × (is_ui found ≡ is_ui x))
  unfolding is_overridden_by_ui
  stands_for x m h =
      let t = to_lower_case x.slug in
      let lem = find_by_slug_preferring_ui_lem callback_slug is_ui items x.slug in
      elim (Bool-cases (is_ui x)) [
        | inl ui ↦
            let (found, e) =
              find-some (λ y. is_ui y && to_lower_case y.slug == t) x items m (ground arith) in
            let sound = find_sound (λ y. is_ui y && to_lower_case y.slug == t) items found e in
            (
              found,
              (lem ∙ ap (λ o. first o (find_key callback_slug is_ui t items)) e, ground arith),
            )
        | inr file ↦
            let no_ui : find_ui callback_slug is_ui t items ≡ none =
              find-none (λ y. is_ui y && to_lower_case y.slug == t) items (ground arith) in
            let (found, e) = find-some (λ y. to_lower_case y.slug == t) x items m (ground arith) in
            let no_hit =
              all_none (λ y. is_ui y && to_lower_case y.slug == t) found items
                (find-Elem (λ y. to_lower_case y.slug == t) items found e) no_ui in
            let keyed = find_sound (λ y. to_lower_case y.slug == t) items found e in
            (
              found,
              (
                lem ∙ (ap (λ o. first o (find_key callback_slug is_ui t items)) no_ui ∙ e),
                ground arith,
              ),
            )
      ]

-- Where the panel has the core fire a callback by its slug: there is a callback with the id that was
-- asked for, it has that slug, and what the slug stands for, items of the user interface before those
-- of files, is a callback of the user interface exactly if this one is. A callback of a file that one of
-- the user interface shadows is not fired in its place.
pub fire-StandsFor :
    (parse : Text → Option (Text × ℕ)) (store : OwnStore callback_id)
    (created : List MockAnnotation) (file_callbacks : List Callback) (id slug : Text)
    (panel : Panel parse store created file_callbacks)
    → fire parse store created file_callbacks id panel ≡ ok slug
    → (asked : Callback) × ((Elem asked (list_callbacks parse store created file_callbacks panel)
          × ((asked.id ≡ id) × (asked.slug ≡ slug)))
        × ((found : Callback) × ((find_by_slug_preferring_ui callback_slug is_ui
                  (list_callbacks parse store created file_callbacks panel)
                  slug
                ≡ some found)
              × (is_ui found ≡ is_ui asked))))
unfolding fire
fire-StandsFor parse store created file_callbacks id slug panel h =
    let items = list_callbacks parse store created file_callbacks panel in
    elim (Option-cases (find (has_id callback_id id) items)) [
      | inl n ↦ absurd (ground arith)
      | inr (asked, e) ↦
          let free : is_overridden_by_ui callback_slug is_ui asked items ≡ false = ground arith in
          let same : asked.slug ≡ slug = ground arith in
          let m = find-Elem (has_id callback_id id) items asked e in
          let sound = find_sound (has_id callback_id id) items asked e in
          let (found, (f, ui)) = stands_for items asked m free in
          (
            asked,
            (
              (m, (ground arith, same)),
              (
                found,
                (
                  subst (λ s. find_by_slug_preferring_ui callback_slug is_ui items s ≡ some found)
                      same f,
                  ui,
                ),
              ),
            ),
          )
    ]
