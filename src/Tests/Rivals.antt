-- ===== src/Tests/Rivals.antt =====
-- The theorem on mocko-control/lib/conflict/conflicts.ts, at a host of the UI and one of a file.
use mocko.Base.{
  ◌≡◌, refl, sym, ap, ◌∙◌, inl, inr, Text, txt, none, some, List, [], ◌∷◌, arith, Elem, is_some,
  leb, length, map, to_lower_case, text_eq,
}
use mocko.Base.Dict
use mocko.Control.Hosts.{Host, read_only, is_file_definition}
use mocko.Control.Conflicts.{active, compute_conflicts}
use mocko.Control.Conflicts.Display.{resolve_conflict, to_host_summary}
use mocko.Control.Conflicts.Resolved.{resolve_conflict_lem}
use mocko.Control.Conflicts.Groups.{mark}
use mocko.Control.Conflicts.Reference.{rivals, compute_conflicts_lem}

abbrev ui_host : Host
ui_host = record {
  id = txt "1";
  slug = txt "Pay";
  name = none;
  source = txt "a";
  destination = none;
  file_path = none;
  annotations = [];
}

abbrev file_host : Host
file_host = record {
  id = txt "2";
  slug = txt "pay";
  name = none;
  source = txt "b";
  destination = none;
  file_path = some (txt "hosts.hcl");
  annotations = read_only ∷ [];
}

abbrev hosts : List Host
hosts = ui_host ∷ file_host ∷ []

abbrev host_id : Host → Text
host_id host = host.id

abbrev slug_key : Host → Text
slug_key host = to_lower_case host.slug

different : txt "1" ≡ txt "2" → ⊥
different e = ground arith

unique : (x y : Host) → Elem x hosts → Elem y hosts → x.id ≡ y.id → x ≡ y
unique x y (inl e) (inl f) h = e ∙ sym f
unique x y (inl e) (inr (inl f)) h = absurd (different (sym (ap host_id e) ∙ (h ∙ ap host_id f)))
unique x y (inr (inl e)) (inl f) h =
    absurd (different (sym (ap host_id f) ∙ (sym h ∙ ap host_id e)))
unique x y (inr (inl e)) (inr (inl f)) h = e ∙ sym f
unique x y (inl e) (inr (inr n)) h = elim n [ ]
unique x y (inr (inl e)) (inr (inr n)) h = elim n [ ]
unique x y (inr (inr n)) _ h = elim n [ ]

compute_conflicts_lem_example :
    (Dict.get (txt "1") (compute_conflicts host_id is_file_definition slug_key hosts)
      ≡ mark host_id is_file_definition slug_key
          (rivals host_id is_file_definition slug_key ui_host hosts)
          (txt "1"))
    × (is_some (Dict.get (txt "1") (compute_conflicts host_id is_file_definition slug_key hosts))
        ≡ leb 2 (length (rivals host_id is_file_definition slug_key ui_host hosts)))
compute_conflicts_lem_example =
    compute_conflicts_lem host_id is_file_definition slug_key hosts unique ui_host (inl refl)

resolve_conflict_lem_example :
    (related : List Host) × (((x : Host) → Elem x related → Elem x hosts × (slug_key x ≡ txt "pay"))
      × ((txt "2" ∷ [] ≡ map host_id related)
          × (resolve_conflict host_id to_host_summary
                (txt "1")
                (compute_conflicts host_id is_file_definition slug_key hosts)
                hosts
              ≡ some (record { role = active; related = map to_host_summary related }))))
unfolding compute_conflicts Dict.get Dict.set text_eq to_lower_case native.Mathlib.Decide.ℕ_discrete
resolve_conflict_lem_example =
    resolve_conflict_lem host_id is_file_definition slug_key to_host_summary hosts unique ui_host
      (record { role = active; related = txt "2" ∷ [] }) (inl refl) refl
