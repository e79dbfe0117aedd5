-- ===== src/Callbacks/Delivery/Targets.antt =====
-- The URL that a destination and a path are joined to.
use mocko.Base.{
  ℕ, ◌≡◌, refl, Text, txt, true, false, ◌&&◌, [], ◌∷◌, ◌++◌, arith, is_empty, starts_with,
  ends_with, ◌==◌, nat_eq, text_eq,
}
use native.Mathlib.Decide.{ℕ_discrete}
use mocko.Callbacks.Delivery.{strip_slashes, join_url}

strip_slashes-slash : (s : Text) → strip_slashes (s ++ txt "/") ≡ strip_slashes s
unfolding strip_slashes
strip_slashes-slash [] = ground arith
strip_slashes-slash (c ∷ s) = ground (arith, strip_slashes-slash s)

single : (c : ℕ) (cs : Text) → (c ∷ cs == txt "/") ≡ (c == 47 && is_empty cs)
single c [] = ground arith
single c (d ∷ cs) = ground arith

-- the end of a text, where nothing is behind the slash
strip_slashes-ends_with : (s : Text) → ends_with (strip_slashes s) (txt "/") ≡ false
unfolding strip_slashes ends_with
strip_slashes-ends_with [] = refl
strip_slashes-ends_with (c ∷ s) =
    ground (arith, strip_slashes-ends_with s, single c (strip_slashes s))

slash_first : (s : Text) → starts_with (txt "/" ++ s) (txt "/") ≡ true
unfolding starts_with nat_eq ℕ_discrete
slash_first [] = refl
slash_first (c ∷ s) = refl

-- For a path that is not empty and does not start with a slash, the URL has one slash between the
-- destination, less the slashes at its end, and the path; a slash more at the end of the destination,
-- or one before the path, makes no difference.
pub join_url_lem :
    (destination path : Text)
    → is_empty path ≡ false
    → starts_with path (txt "/") ≡ false
    → (join_url destination path ≡ strip_slashes destination ++ (txt "/" ++ path))
      × (ends_with (strip_slashes destination) (txt "/") ≡ false)
      × (join_url (destination ++ txt "/") path ≡ join_url destination path)
      × (join_url destination (txt "/" ++ path) ≡ join_url destination path)
unfolding join_url
join_url_lem destination path full ne = (
  ground arith,
  strip_slashes-ends_with destination,
  ground (arith, strip_slashes-slash destination),
  ground (arith, slash_first path),
)
