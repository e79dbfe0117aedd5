-- ===== src/Control/Mocks/Sound.antt =====
-- What the requests on mocks keep true of the own mocks, and of the definition of the core.
use mocko.Base.{
  ℕ, ◌≡◌, ◌≢◌, ◌⊎◌, to_lower_case, txt, if◌then◌else◌, refl, sym, subst, Text, true, false, not,
  Option, none, some, List, [], ◌∷◌, any, map, All, All-filter, ◌==◌, text_eq, arith, Option-cases,
  Bool-cases, inl, inr,
}
use mocko.Base.Dict
use mocko.Base.Dict.{Dict}
use mocko.Base.Result.{Result, ok, err}
use mocko.Control.Store.{has_id, put, OwnStore}
use mocko.Control.Templates.{TemplateParseError, template_error, present}
use mocko.Control.Mocks.{
  Mock, MockAnnotation, CreateMockInput, PatchMockInput, MockError, mock_id, is_read_only,
  is_invalid_template, has_content_type, format_conflicts, updated, new_mock, to_deploy_definition,
  Panel, get_mock, refused_template, invalid, unless, save_and_deploy, clear_failure, create_mock,
  update_found, update_mock, delete_mock,
}
use mocko.Control.V1Mocks.{V1Mock, to_v2_mock, migrate_v1_mocks}

pub data Request : Type 0 where
  create : Text → CreateMockInput → Request
  update : Text → PatchMockInput → Request
  delete : Text → Request

abbrev pub error_of {ℓ} : {A : Type ℓ} → Result MockError A → Option MockError
error_of (ok a) = none
error_of (err e) = some e

module _ (parse : Text → Option (Text × ℕ)) where
  -- A text, where there is one and it is not empty, is a template.
  abbrev pub Parses : Option Text → Type 0
  Parses none = Unit {0}
  Parses (some []) = Unit {0}
  Parses (some (c ∷ cs)) = parse (c ∷ cs) ≡ none

  -- Its body is a template or the mock says that it is not, and it has no format beside a header
  -- Content-Type.
  pub record IsSound (mock : Mock) : Type 0 where
    pub template : Parses mock.response.body ⊎ (any is_invalid_template mock.annotations ≡ true)
    pub format :
        (present mock.format ≡ none)
        ⊎ All
            (λ (header : Text × Text). to_lower_case header.0 ≢ txt "content-type")
            mock.response.headers

  body-Parses : (t : Option Text) → template_error parse t ≡ none → Parses t
  unfolding template_error
  body-Parses none h = tt
  body-Parses (some []) h = tt
  body-Parses (some (c ∷ cs)) h = ground arith

  free_of :
      (headers : List (Text × Text))
      → has_content_type headers ≡ false
      → All (λ (header : Text × Text). to_lower_case header.0 ≢ txt "content-type") headers
  unfolding has_content_type
  free_of [] h = tt
  free_of ((key, value) ∷ headers) h = (λ same. ground arith, free_of headers (ground arith))

  free_of_conflict :
      (mock : Mock)
      → format_conflicts mock ≡ false
      → (present mock.format ≡ none)
        ⊎ All
            (λ (header : Text × Text). to_lower_case header.0 ≢ txt "content-type")
            mock.response.headers
  unfolding format_conflicts
  free_of_conflict mock h = elim (Option-cases (present mock.format)) [
    | inl n ↦ inl n
    | inr (f, e) ↦ inr (free_of mock.response.headers (ground arith))
  ]

  put-IsSound :
      (mock : Mock) (mocks : List Mock)
      → IsSound mock
      → All IsSound mocks
      → All IsSound (put mock_id mock mocks)
  unfolding put
  put-IsSound mock [] s h = (s, tt)
  put-IsSound mock (x ∷ xs) s h = elim (Bool-cases (x.id == mock.id)) [
    | inl same ↦ rw same (s, h.1)
    | inr other ↦ rw other (h.0, put-IsSound mock xs s h.1)
  ]

  -- A migrated mock is sound: one whose body is no template is marked.
  to_v2_mock-IsSound : (v1 : V1Mock) → IsSound (to_v2_mock parse v1)
  unfolding to_v2_mock format_conflicts
  to_v2_mock-IsSound v1 = record {
    template = elim (Option-cases (template_error parse (to_v2_mock parse v1).response.body)) [
      | inl valid ↦ inl (body-Parses _ valid)
      | inr (e, broken) ↦ inr (rw broken refl)
    ];
    format = inl refl;
  }

  migrated-IsSound : (v1s : List V1Mock) → All IsSound (map (to_v2_mock parse) v1s)
  migrated-IsSound [] = tt
  migrated-IsSound (v1 ∷ v1s) = (to_v2_mock-IsSound v1, migrated-IsSound v1s)

  module _ (store : OwnStore mock_id) (created : List MockAnnotation)
      (file_mock : Text → Option Mock) where
    abbrev pub Mocks : Type 0
    Mocks = Panel parse store created file_mock

    -- what a request answers, if it is refused, and what it leaves
    unfoldable pub refusal : Request → Mocks → Option MockError
    refusal (create uuid input) panel =
        error_of (create_mock parse store created file_mock uuid input panel).0
    refusal (update id input) panel =
        error_of (update_mock parse store created file_mock id input panel).0
    refusal (delete id) panel = none

    unfoldable pub handle : Request → Mocks → Mocks
    handle (create uuid input) panel =
        (create_mock parse store created file_mock uuid input panel).1
    handle (update id input) panel = (update_mock parse store created file_mock id input panel).1
    handle (delete id) panel = delete_mock parse store created file_mock id panel

    -- The store is valid, and every own mock is sound.
    pub record IsConsistent (panel : Mocks) : Type 0 where
      pub valid : store.IsValid panel.own
      pub sound : All IsSound (store.list panel.own)

    -- What a request leads to: refused, with nothing changed, or taken, with the own mocks handed to
    -- the core.
    abbrev pub Settled : Option MockError → (before after : Mocks) → Type 0
    Settled (some e) before after = after ≡ before
    Settled none before after = after.deployed ≡ (
        if before.gets_through
        then to_deploy_definition (store.list after.own)
        else before.deployed)

    refused_none :
        (e : Option TemplateParseError) (o : Option MockError)
        → refused_template parse store created file_mock e o ≡ none
        → (e ≡ none) × (o ≡ none)
    refused_none none o h = (refl, h)
    refused_none (some e) o h = cc

    valid-IsSound : (mock : Mock) → invalid parse store created file_mock mock ≡ none → IsSound mock
    unfolding invalid
    valid-IsSound mock h =
        let (t, f) = refused_none (template_error parse mock.response.body) _ h in
        record {
          template = inl (body-Parses mock.response.body t);
          format = free_of_conflict mock (ground arith);
        }

    saved-IsConsistent :
        (mock : Mock) (panel : Mocks)
        → IsSound mock
        → IsConsistent panel
        → IsConsistent (save_and_deploy parse store created file_mock mock panel)
    saved-IsConsistent mock panel s c = record {
      valid = store.save-IsValid mock panel.own c.valid;
      sound =
          subst (All IsSound) (sym (store.list-save mock panel.own c.valid))
            (put-IsSound mock (store.list panel.own) s c.sound);
    }

    unless_lem :
        (o : Option MockError) (mock : Mock) (after panel : Mocks)
        → invalid parse store created file_mock mock ≡ o
        → IsConsistent panel
        → (IsSound mock → IsConsistent after)
        → after.deployed ≡ (
            if panel.gets_through
            then to_deploy_definition (store.list after.own)
            else panel.deployed)
        → let r = unless parse store created file_mock o mock after panel in
          IsConsistent r.1 × Settled (error_of r.0) panel r.1
    unless_lem none mock after panel h c s d = (s (valid-IsSound mock h), d)
    unless_lem (some e) mock after panel h c s d = (c, refl)

    update_found_lem :
        (id : Text) (input : PatchMockInput) (found : Option Mock) (panel : Mocks)
        → IsConsistent panel
        → let r = update_found parse store created file_mock id input found panel in
          IsConsistent r.1 × Settled (error_of r.0) panel r.1
    update_found_lem id input none panel c = (c, refl)
    update_found_lem id input (some current) panel c =
        elim (Bool-cases (any is_read_only current.annotations)) [
          | inl of_file ↦ rw of_file (c, refl)
          | inr own ↦ rw own (
              unless_lem (invalid parse store created file_mock (updated input current))
                (updated input current)
                (clear_failure parse store created file_mock current.id
                  (save_and_deploy parse store created file_mock (updated input current) panel))
                panel refl c
                (λ s.
                  let saved = saved-IsConsistent (updated input current) panel s c in
                  record { valid = saved.valid; sound = saved.sound })
                refl)
        ]

    handled :
        (request : Request) (panel : Mocks)
        → IsConsistent panel
        → IsConsistent (handle request panel)
          × Settled (refusal request panel) panel (handle request panel)
    unfolding handle refusal create_mock update_mock delete_mock
    handled (create uuid input) panel c =
        let mock = new_mock created uuid input in
        unless_lem (invalid parse store created file_mock mock) mock
          (save_and_deploy parse store created file_mock mock panel) panel refl c
          (λ s. saved-IsConsistent mock panel s c) refl
    handled (update id input) panel c =
        update_found_lem id input (get_mock parse store created file_mock id panel) panel c
    handled (delete id) panel c = (
      record {
        valid = store.delete-IsValid id panel.own c.valid;
        sound = subst (All IsSound) (sym (store.list-delete id panel.own c.valid)) (
            All-filter IsSound (λ mock. not (has_id mock_id id mock)) (store.list panel.own)
              c.sound);
      },
      refl,
    )

    pub handle_mocks-IsSound :
        (request : Request) (panel : Mocks)
        → IsConsistent panel
        → (IsConsistent (handle request panel)
            × Settled (refusal request panel) panel (handle request panel))
          × ((entries : Dict Text V1Mock) → All IsSound (migrate_v1_mocks parse entries).0)
    unfolding migrate_v1_mocks
    handle_mocks-IsSound request panel c =
        (handled request panel c, λ entries. migrated-IsSound (Dict.values entries))
