-- ===== src/Tests/Listing.antt =====
-- The theorems on the lists of the panel, at a few mocks and pending callbacks.
use mocko.Base.{Text, txt, none, some, List, [], ◌∷◌, text_eq}
use mocko.Control.Filter.{MockDto, PendingDto}

abbrev labeled : List Text → MockDto
labeled labels = record {
  name = txt "m";
  path = txt "/m";
  method = txt "GET";
  file_path = none;
  labels = labels;
}

abbrev mocks : List MockDto
mocks = labeled (txt "Api" ∷ txt "api" ∷ []) ∷ labeled [] ∷ labeled (txt "b" ∷ []) ∷ []

abbrev pending : List PendingDto
pending =
    record { id = txt "a"; due_at = 9; held_at = none }
    ∷ record { id = txt "b"; due_at = 5; held_at = some 3 }
    ∷ record { id = txt "c"; due_at = 7; held_at = none }
    ∷ []
