-- ===== src/Control/Callbacks.antt =====
-- mocko-control/lib/callback/callback.service.ts, over any store of own callbacks. The callbacks of
-- files, and what the core answers about pending ones, are arguments; `P` is the type of payloads.
pub mod Sound
pub mod Firing
use mocko.Base.{
  ℕ, Text, txt, Bool, true, false, not, ◌&&◌, Option, none, some, List, [], ◌∷◌, ◌++◌, any, find,
  contains, first, to_lower_case, ◌==◌, text_eq, if◌then◌else◌,
}
use mocko.Base.Dict
use mocko.Base.Dict.{Dict}
use mocko.Base.Result.{Result, ok, err}
use mocko.Control.Store.{has_id, OwnStore}
use mocko.Control.Slugs.{is_overridden_by_ui}
use mocko.Control.Filter.{PendingDto, sort_pending_callbacks}
use mocko.Control.Mocks.{MockAnnotation, is_read_only}
use mocko.Control.Templates.{TemplateParseError, body_template_error, field_template_error, present}

pub record Callback : Type 0 where
  pub id : Text
  pub slug : Text
  pub name : Option Text
  pub file_path : Option Text
  pub method : Text
  pub host : Option Text
  pub path : Option Text
  pub url : Option Text
  pub delay : ℕ
  pub headers : Dict Text Text
  pub body : Option Text
  pub annotations : List MockAnnotation

-- The input of a create holds these fields too.
pub record PatchCallbackInput : Type 0 where
  pub name : Option Text
  pub method : Text
  pub host : Option Text
  pub path : Option Text
  pub url : Option Text
  pub delay : ℕ
  pub headers : Dict Text Text
  pub body : Option Text

pub data CallbackError : Type 0 where
  callback_not_found : Text → CallbackError
  callback_read_only : Text → CallbackError
  callback_slug_conflict : Text → CallbackError
  callback_shadowed : Text → CallbackError
  template_parse_error : TemplateParseError → CallbackError
  invalid_template_in : (field message : Text) → CallbackError
  hold_unsupported : CallbackError

abbrev pub callback_id : Callback → Text
callback_id callback = callback.id

abbrev pub callback_slug : Callback → Text
callback_slug callback = callback.slug

abbrev pub is_file_definition : Callback → Bool
is_file_definition callback = any is_read_only callback.annotations

abbrev pub is_ui : Callback → Bool
is_ui callback = not (is_file_definition callback)

abbrev pub has_ui_slug : Text → Callback → Bool
has_ui_slug slug callback = not (is_file_definition callback) && to_lower_case callback.slug == slug

-- `{ id, slug, ...toEditableFields(data), annotations }`
abbrev pub with_fields : Text → Text → List MockAnnotation → PatchCallbackInput → Callback
with_fields id slug annotations input = record {
  id = id;
  slug = slug;
  name = present input.name;
  file_path = none;
  method = input.method;
  host = input.host;
  path = input.path;
  url = input.url;
  delay = input.delay;
  headers = input.headers;
  body = present input.body;
  annotations = annotations;
}

abbrev pub callback_hold_capability : Text
callback_hold_capability = txt "callback-hold"

module _ (parse : Text → Option (Text × ℕ)) where
  abbrev pub of_body : Option TemplateParseError → Option CallbackError
  of_body none = none
  of_body (some e) = some (template_parse_error e)

  abbrev pub of_field : Text → Option Text → Option CallbackError
  of_field field none = none
  of_field field (some message) = some (invalid_template_in field message)

  -- the first header whose value is no template
  unfoldable pub header_error : Dict Text Text → Option CallbackError
  unfolding field_template_error
  header_error [] = none
  header_error ((key, value) ∷ headers) =
      first
        (of_field (txt "header \"" ++ (key ++ txt "\"")) (field_template_error parse (some value)))
        (header_error headers)

  -- assertTemplatesAreValid: what it throws
  unfoldable pub invalid : Callback → Option CallbackError
  unfolding body_template_error field_template_error header_error
  invalid callback = first (of_body (body_template_error parse callback.body)) (
      first (of_field (txt "path") (field_template_error parse callback.path)) (
        first (of_field (txt "url") (field_template_error parse callback.url))
          (header_error callback.headers)))

  module _ (store : OwnStore callback_id) (created : List MockAnnotation)
      (file_callbacks : List Callback) where
    -- The own callbacks, and those of the last definition handed to the core. `deploy` of the store only
    -- logs an error: `gets_through` says whether it has none.
    pub record Panel : Type 0 where
      pub own : store.State
      pub deployed : List Callback
      pub gets_through : Bool

    unfoldable pub list_callbacks : Panel → List Callback
    list_callbacks panel = store.list panel.own ++ file_callbacks

    unfoldable pub get_callback : Text → Panel → Option Callback
    get_callback id panel =
        first (store.get id panel.own) (find (has_id callback_id id) file_callbacks)

    -- an own state that is stored and deployed
    abbrev pub deployed_as : store.State → Panel → Panel
    deployed_as own panel = record panel {
      own = own;
      deployed = if panel.gets_through then store.list own else panel.deployed;
    }

    abbrev pub save_and_deploy : Callback → Panel → Panel
    save_and_deploy callback panel = deployed_as (store.save callback panel.own) panel

    abbrev pub unless :
        Option CallbackError → Callback → Panel → Result CallbackError Callback × Panel
    unless none callback panel = (ok callback, save_and_deploy callback panel)
    unless (some e) callback panel = (err e, panel)

    abbrev pub create_free :
        (taken : Bool) → Callback → Panel → Result CallbackError Callback × Panel
    create_free true callback panel = (err (callback_slug_conflict callback.slug), panel)
    create_free false callback panel = unless (invalid callback) callback panel

    unfoldable pub create_callback :
        (uuid slug : Text) → PatchCallbackInput → Panel → Result CallbackError Callback × Panel
    unfolding list_callbacks invalid
    create_callback uuid slug input panel =
        create_free (any (has_ui_slug (to_lower_case slug)) (list_callbacks panel))
          (with_fields uuid slug created input) panel

    abbrev pub update_found :
        Text → PatchCallbackInput → Option Callback → Panel → Result CallbackError Callback × Panel
    update_found id input none panel = (err (callback_not_found id), panel)
    update_found id input (some current) panel =
        let callback = with_fields current.id current.slug current.annotations input in
        if is_file_definition current
        then (err (callback_read_only id), panel)
        else unless (invalid callback) callback panel

    unfoldable pub update_callback :
        Text → PatchCallbackInput → Panel → Result CallbackError Callback × Panel
    unfolding get_callback invalid
    update_callback id input panel = update_found id input (get_callback id panel) panel

    abbrev pub undeletable : Text → Option Callback → CallbackError
    undeletable id none = callback_not_found id
    undeletable id (some callback) =
        if is_file_definition callback then callback_read_only id else callback_not_found id

    abbrev pub deleted : Text → Bool → store.State → Panel → Result CallbackError (Unit {0}) × Panel
    deleted id true after panel = (ok tt, deployed_as after panel)
    deleted id false after panel =
        let panel' = record panel { own = after } in
        (err (undeletable id (get_callback id panel')), panel')

    unfoldable pub delete_callback : Text → Panel → Result CallbackError (Unit {0}) × Panel
    unfolding get_callback
    delete_callback id panel =
        deleted id (store.delete id panel.own).0 (store.delete id panel.own).1 panel

    -- the slug that the core is asked to fire
    abbrev pub fired : Text → Option Callback → List Callback → Result CallbackError Text
    fired id none callbacks = err (callback_not_found id)
    fired id (some callback) callbacks =
        if is_overridden_by_ui callback_slug is_ui callback callbacks
        then err (callback_shadowed id)
        else ok callback.slug

    unfoldable pub fire : Text → Panel → Result CallbackError Text
    unfolding list_callbacks is_overridden_by_ui
    fire id panel =
        fired id (find (has_id callback_id id) (list_callbacks panel)) (list_callbacks panel)

pub record PendingCallbacksDto : Type 0 where
  pub is_supported : Bool
  pub can_hold : Bool
  pub pending : List PendingDto

-- `listPending`: none is an older core that has no pending callbacks
unfoldable pub list_pending : Option (List PendingDto) → List Text → PendingCallbacksDto
unfolding sort_pending_callbacks
list_pending none capabilities = record { is_supported = false; can_hold = false; pending = [] }
list_pending (some pending) capabilities = record {
  is_supported = true;
  can_hold = contains capabilities callback_hold_capability;
  pending = sort_pending_callbacks pending;
}

-- `holdPending`: the core is asked only if it can hold callbacks
unfoldable pub hold_pending :
    List Text → (held : Result CallbackError PendingDto) → Result CallbackError PendingDto
hold_pending capabilities held =
    if contains capabilities callback_hold_capability then held else err hold_unsupported
