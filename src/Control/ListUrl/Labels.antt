-- ===== src/Control/ListUrl/Labels.antt =====
-- The labels that the loop of parseMockListParams in mocko-control/lib/mock/mock-list-url.ts keeps.
use mocko.Base.{
  Text, ◌≡◌, refl, true, false, not, ◌||◌, List, [], ◌∷◌, map, filter, contains, is_empty, All,
  All-map, Elem, arith, text_eq, inl, inr, Bool-cases,
}
use mocko.Control.Filter.{normalize_label}
use mocko.Control.ListUrl.{unique_labels}

-- without the empty ones
abbrev pub filled : List Text → List Text
filled labels = filter (λ label. not (is_empty label)) labels

pub unique_labels-filled :
    (seen labels : List Text) → unique_labels seen (filled labels) ≡ unique_labels seen labels
unfolding unique_labels
unique_labels-filled seen [] = refl
unique_labels-filled seen (label ∷ labels) = ground (
  arith,
  unique_labels-filled seen labels,
  unique_labels-filled (normalize_label label ∷ seen) labels,
)

pub unique_labels-again :
    (seen fewer labels : List Text)
    → ((n : Text) → contains seen n ≡ false → contains fewer n ≡ false)
    → unique_labels fewer (unique_labels seen labels) ≡ unique_labels seen labels
unfolding unique_labels
unique_labels-again seen fewer [] h = refl
unique_labels-again seen fewer (label ∷ labels) h = elim (Bool-cases (is_empty label)) [
  | inl blank ↦ ground (arith, unique_labels-again seen fewer labels h)
  | inr filled_in ↦ elim (Bool-cases (contains seen (normalize_label label))) [
    | inl old ↦ ground (arith, unique_labels-again seen fewer labels h)
    | inr new ↦
        let still = h (normalize_label label) new in
        let rest =
          unique_labels-again (normalize_label label ∷ seen) (normalize_label label ∷ fewer) labels
            (λ n k. ground (arith, h n)) in
        ground (arith, rest)
  ]
]

pub unique_labels-Elem :
    (seen labels : List Text)
    → All (λ label. Elem label labels × (is_empty label ≡ false)) (unique_labels seen labels)
unfolding unique_labels
unique_labels-Elem seen [] = tt
unique_labels-Elem seen (label ∷ labels) =
    let more = λ (seen : List Text).
      All-map (λ x. Elem x labels × (is_empty x ≡ false))
        (λ x. Elem x (label ∷ labels) × (is_empty x ≡ false)) (unique_labels seen labels)
        (λ x (m, h). (inr m, h)) (unique_labels-Elem seen labels) in
    elim (Bool-cases (is_empty label)) [
      | inl blank ↦ rw blank (more seen)
      | inr filled_in ↦ elim (Bool-cases (contains seen (normalize_label label))) [
        | inl old ↦ rw filled_in (rw old (more seen))
        | inr new ↦
            rw filled_in (rw new ((inl refl, filled_in), more (normalize_label label ∷ seen)))
      ]
    ]

pub unique_labels-contains :
    (seen labels : List Text) (label : Text)
    → Elem label labels
    → is_empty label ≡ false
    → (contains seen (normalize_label label)
        || contains (map normalize_label (unique_labels seen labels)) (normalize_label label))
      ≡ true
unfolding unique_labels
unique_labels-contains seen [] label m h = elim m [ ]
unique_labels-contains seen (other ∷ labels) label (inl e) h = ground arith
unique_labels-contains seen (other ∷ labels) label (inr m) h = ground (
  arith,
  unique_labels-contains seen labels label m h,
  unique_labels-contains (normalize_label other ∷ seen) labels label m h,
)

-- No text is listed twice.
abbrev pub AreDistinct : List Text → Type 0
AreDistinct [] = Unit {0}
AreDistinct (t ∷ ts) = (contains ts t ≡ false) × AreDistinct ts

unique_labels-seen :
    (seen labels : List Text) (n : Text)
    → contains seen n ≡ true
    → contains (map normalize_label (unique_labels seen labels)) n ≡ false
unfolding unique_labels
unique_labels-seen seen [] n h = refl
unique_labels-seen seen (label ∷ labels) n h = ground (
  arith,
  unique_labels-seen seen labels n h,
  unique_labels-seen (normalize_label label ∷ seen) labels n,
)

pub unique_labels-AreDistinct :
    (seen labels : List Text) → AreDistinct (map normalize_label (unique_labels seen labels))
unfolding unique_labels
unique_labels-AreDistinct seen [] = tt
unique_labels-AreDistinct seen (label ∷ labels) = elim (Bool-cases (is_empty label)) [
  | inl blank ↦ rw blank (unique_labels-AreDistinct seen labels)
  | inr filled_in ↦ elim (Bool-cases (contains seen (normalize_label label))) [
    | inl old ↦ rw filled_in (rw old (unique_labels-AreDistinct seen labels))
    | inr new ↦ rw filled_in (
        rw new (
          unique_labels-seen (normalize_label label ∷ seen) labels (normalize_label label)
              (ground arith),
          unique_labels-AreDistinct (normalize_label label ∷ seen) labels,
        ))
  ]
]
