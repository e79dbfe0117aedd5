-- ===== src/Control/Callbacks/Sound.antt =====
-- What the requests on callbacks keep true of the own callbacks, and of the definition of the core.
use mocko.Base.{
  ℕ, ◌≡◌, refl, sym, subst, ◌∙◌, Text, Bool, true, false, not, Option, none, some, List, [], ◌∷◌,
  first, any, All, All-filter, to_lower_case, ◌==◌, text_eq, arith, if◌then◌else◌, Bool-cases, inl,
  inr,
}
use mocko.Base.Result.{Result, ok, err}
use mocko.Control.Store.{has_id, put, without, OwnStore}
use mocko.Control.Mocks.{MockAnnotation}
use mocko.Control.Templates.{TemplateParseError, body_template_error, field_template_error}
use mocko.Control.Callbacks.{
  Callback, PatchCallbackInput, CallbackError, callback_id, is_file_definition, has_ui_slug,
  with_fields, invalid, of_body, of_field, header_error, Panel, list_callbacks, get_callback,
  save_and_deploy, unless, create_free, create_callback, update_found, update_callback, deleted,
  delete_callback,
}

pub data Request : Type 0 where
  create : (uuid slug : Text) → PatchCallbackInput → Request
  update : Text → PatchCallbackInput → Request
  delete : Text → Request

abbrev pub error_of {ℓ} : {A : Type ℓ} → Result CallbackError A → Option CallbackError
error_of (ok a) = none
error_of (err e) = some e

without-absent :
    (id : Text) (callbacks : List Callback)
    → any (has_id callback_id id) callbacks ≡ false
    → without callback_id id callbacks ≡ callbacks
without-absent id [] e = refl
without-absent id (x ∷ xs) e = ground (arith, without-absent id xs)

module _ (parse : Text → Option (Text × ℕ)) where
  -- A text, where there is one and it is not empty, is a template.
  abbrev pub Parses : Option Text → Type 0
  Parses none = Unit {0}
  Parses (some []) = Unit {0}
  Parses (some (c ∷ cs)) = parse (c ∷ cs) ≡ none

  -- Its body, its path, its url and its headers are templates.
  pub record IsSound (callback : Callback) : Type 0 where
    pub body : Parses callback.body
    pub path : Parses callback.path
    pub url : Parses callback.url
    pub headers : All (λ (header : Text × Text). Parses (some header.1)) callback.headers

  body-Parses : (t : Option Text) → body_template_error parse t ≡ none → Parses t
  unfolding body_template_error
  body-Parses none h = tt
  body-Parses (some []) h = tt
  body-Parses (some (c ∷ cs)) h = ground arith

  field-Parses : (t : Option Text) → field_template_error parse t ≡ none → Parses t
  unfolding field_template_error
  field-Parses none h = tt
  field-Parses (some []) h = tt
  field-Parses (some (c ∷ cs)) h = ground arith

  of_body-none : (e : Option TemplateParseError) → of_body parse e ≡ none → e ≡ none
  of_body-none none h = refl
  of_body-none (some e) h = cc

  of_field-none : (field : Text) (e : Option Text) → of_field parse field e ≡ none → e ≡ none
  of_field-none field none h = refl
  of_field-none field (some e) h = cc

  first-none : {A : Type 0} (a b : Option A) → first a b ≡ none → (a ≡ none) × (b ≡ none)
  first-none none b h = (refl, h)
  first-none (some a) b h = cc

  headers-Parse :
      (headers : List (Text × Text))
      → header_error parse headers ≡ none
      → All (λ (header : Text × Text). Parses (some header.1)) headers
  unfolding header_error
  headers-Parse [] h = tt
  headers-Parse ((key, value) ∷ headers) h =
      let (a, b) = first-none _ (header_error parse headers) h in
      (field-Parses (some value) (of_field-none _ _ a), headers-Parse headers b)

  -- What the check lets through is sound.
  valid-IsSound : (callback : Callback) → invalid parse callback ≡ none → IsSound callback
  unfolding invalid
  valid-IsSound callback h =
      let (body, h1) = first-none _ _ h in
      let (path, h2) = first-none _ _ h1 in
      let (url, headers) = first-none _ _ h2 in
      record {
        body = body-Parses callback.body (of_body-none _ body);
        path = field-Parses callback.path (of_field-none _ _ path);
        url = field-Parses callback.url (of_field-none _ _ url);
        headers = headers-Parse callback.headers headers;
      }

  put-IsSound :
      (callback : Callback) (callbacks : List Callback)
      → IsSound callback
      → All IsSound callbacks
      → All IsSound (put callback_id callback callbacks)
  unfolding put
  put-IsSound callback [] s h = (s, tt)
  put-IsSound callback (x ∷ xs) s h = elim (Bool-cases (x.id == callback.id)) [
    | inl same ↦ rw same (s, h.1)
    | inr other ↦ rw other (h.0, put-IsSound callback xs s h.1)
  ]

  module _ (store : OwnStore callback_id) (created : List MockAnnotation)
      (file_callbacks : List Callback) where
    abbrev pub Callbacks : Type 0
    Callbacks = Panel parse store created file_callbacks

    -- what a request answers, if it is refused, and what it leaves
    unfoldable pub refusal : Request → Callbacks → Option CallbackError
    refusal (create uuid slug input) panel =
        error_of (create_callback parse store created file_callbacks uuid slug input panel).0
    refusal (update id input) panel =
        error_of (update_callback parse store created file_callbacks id input panel).0
    refusal (delete id) panel =
        error_of (delete_callback parse store created file_callbacks id panel).0

    unfoldable pub handle : Request → Callbacks → Callbacks
    handle (create uuid slug input) panel =
        (create_callback parse store created file_callbacks uuid slug input panel).1
    handle (update id input) panel =
        (update_callback parse store created file_callbacks id input panel).1
    handle (delete id) panel = (delete_callback parse store created file_callbacks id panel).1

    pub record IsConsistent (panel : Callbacks) : Type 0 where
      pub valid : store.IsValid panel.own
      pub sound : All IsSound (store.list panel.own)

    -- Refused, with the own callbacks and the core as they were, or taken, with the own callbacks
    -- handed to the core.
    abbrev pub Settled : Option CallbackError → (before after : Callbacks) → Type 0
    Settled (some e) before after =
        (store.list after.own ≡ store.list before.own) × (after.deployed ≡ before.deployed)
    Settled none before after =
        after.deployed ≡ (if before.gets_through then store.list after.own else before.deployed)

    saved-IsConsistent :
        (callback : Callback) (panel : Callbacks)
        → IsSound callback
        → IsConsistent panel
        → IsConsistent (save_and_deploy parse store created file_callbacks callback panel)
    saved-IsConsistent callback panel s c = record {
      valid = store.save-IsValid callback panel.own c.valid;
      sound =
          subst (All IsSound) (sym (store.list-save callback panel.own c.valid))
            (put-IsSound callback (store.list panel.own) s c.sound);
    }

    unless_lem :
        (o : Option CallbackError) (callback : Callback) (panel : Callbacks)
        → invalid parse callback ≡ o
        → IsConsistent panel
        → let r = unless parse store created file_callbacks o callback panel in
          IsConsistent r.1 × Settled (error_of r.0) panel r.1
    unless_lem none callback panel h c =
        (saved-IsConsistent callback panel (valid-IsSound callback h) c, refl)
    unless_lem (some e) callback panel h c = (c, (refl, refl))

    create_free_lem :
        (taken : Bool) (callback : Callback) (panel : Callbacks)
        → IsConsistent panel
        → let r = create_free parse store created file_callbacks taken callback panel in
          IsConsistent r.1 × Settled (error_of r.0) panel r.1
    create_free_lem true callback panel c = (c, (refl, refl))
    create_free_lem false callback panel c =
        unless_lem (invalid parse callback) callback panel refl c

    update_found_lem :
        (id : Text) (input : PatchCallbackInput) (found : Option Callback) (panel : Callbacks)
        → IsConsistent panel
        → let r = update_found parse store created file_callbacks id input found panel in
          IsConsistent r.1 × Settled (error_of r.0) panel r.1
    update_found_lem id input none panel c = (c, (refl, refl))
    update_found_lem id input (some current) panel c =
        let callback = with_fields current.id current.slug current.annotations input in
        elim (Bool-cases (is_file_definition current)) [
          | inl of_file ↦ rw of_file (c, (refl, refl))
          | inr own ↦ rw own (unless_lem (invalid parse callback) callback panel refl c)
        ]

    after_delete-IsConsistent :
        (id : Text) (panel : Callbacks) (deployed : List Callback)
        → IsConsistent panel
        → IsConsistent (record panel { own = (store.delete id panel.own).1; deployed = deployed })
    after_delete-IsConsistent id panel deployed c = record {
      valid = store.delete-IsValid id panel.own c.valid;
      sound = subst (All IsSound) (sym (store.list-delete id panel.own c.valid)) (
          All-filter IsSound (λ callback. not (has_id callback_id id callback))
            (store.list panel.own) c.sound);
    }

    deleted_lem :
        (id : Text) (was_there : Bool) (panel : Callbacks)
        → (store.delete id panel.own).0 ≡ was_there
        → IsConsistent panel
        → let r =
            deleted parse store created file_callbacks id was_there
              (store.delete id panel.own).1
              panel in
          IsConsistent r.1 × Settled (error_of r.0) panel r.1
    deleted_lem id true panel e c = (after_delete-IsConsistent id panel _ c, refl)
    deleted_lem id false panel e c =
        let missing : any (has_id callback_id id) (store.list panel.own) ≡ false =
          sym (store.delete_iff id panel.own c.valid) ∙ e in
        (
          after_delete-IsConsistent id panel panel.deployed c,
          (
            store.list-delete id panel.own c.valid
                ∙ without-absent id (store.list panel.own) missing,
            refl,
          ),
        )

    -- From a valid store whose callbacks are all made of templates: a request leaves it so; one that is
    -- refused changes no own callback and hands the core nothing; and after any other the core has the
    -- own callbacks as they then are if the deploy gets through, and else those that it had. Templates are
    -- the body, the path, the url and the headers, where they are not empty.
    pub handle_callbacks-Settled :
        (request : Request) (panel : Callbacks)
        → IsConsistent panel
        → IsConsistent (handle request panel)
          × Settled (refusal request panel) panel (handle request panel)
    unfolding handle refusal create_callback update_callback delete_callback
    handle_callbacks-Settled (create uuid slug input) panel c =
        create_free_lem
          (any (has_ui_slug (to_lower_case slug))
            (list_callbacks parse store created file_callbacks panel))
          (with_fields uuid slug created input) panel c
    handle_callbacks-Settled (update id input) panel c =
        update_found_lem id input (get_callback parse store created file_callbacks id panel) panel c
    handle_callbacks-Settled (delete id) panel c =
        deleted_lem id (store.delete id panel.own).0 panel refl c
