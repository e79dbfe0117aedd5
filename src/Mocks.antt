-- ===== src/Mocks.antt =====
-- mocko-core/src/api/mock/mock.handler.ts and the format check of data/mock.ts. Parsing and printing
-- JSON is the argument `pretty`: the indented text of a body that is JSON, none of any other. The
-- template engine is the argument `run`.
pub mod ContentType
pub mod Handling
use mocko.Base.{
  ℕ, Text, txt, to_lower_case, includes, trim, is_empty, Bool, true, false, not, ◌&&◌, ◌||◌, Option,
  none, some, List, [], ◌∷◌, any, is_some, find_last, if◌then◌else◌, ◌==◌, text_eq, nat_eq,
}
use mocko.Base.Dict
use mocko.Base.Dict.{Dict}
use mocko.Base.Result.{Result, ok, err}
use mocko.Definitions.Data.{Mock}
use mocko.Response.{ResponseData, CallbackTrigger, ProxyError, proxy_request}

abbrev pub Headers : Type 0
Headers = Dict Text Text

-- FORMAT_TO_CONTENT_TYPE, on the formats that the schema of a mock allows
pub data Format : Type 0 where
  json html plain_text xml javascript css : Format

abbrev pub format_to_content_type : Format → Text
format_to_content_type json = txt "application/json"
format_to_content_type html = txt "text/html"
format_to_content_type plain_text = txt "text/plain"
format_to_content_type xml = txt "application/xml"
format_to_content_type javascript = txt "text/javascript"
format_to_content_type css = txt "text/css"

abbrev pub content_type : Text
content_type = txt "Content-Type"

abbrev pub lower_content_type : Text
lower_content_type = txt "content-type"

-- `assertFormatDoesNotConflictWithContentType`
abbrev pub format_conflicts : Option Format → Headers → Bool
format_conflicts none headers = false
format_conflicts (some format) headers =
    any (λ key. to_lower_case key == lower_content_type) (Dict.keys headers)

-- `buildData`
unfoldable pub initial_headers : Option Format → Headers → Headers
initial_headers none headers = headers
initial_headers (some format) headers =
    Dict.set content_type (format_to_content_type format) headers

abbrev pub is_header : Text → Text × Text → Bool
is_header target entry = to_lower_case entry.0 == target

-- `getEffectiveHeader`: the last header of the name, in any case
unfoldable pub get_effective_header : Headers → Text → Option Text
unfolding to_lower_case
get_effective_header headers target = elim (find_last (is_header (to_lower_case target)) headers) [
  | none ↦ none
  | some entry ↦ some entry.1
]

unfoldable pub is_json_content_type : Text → Bool
is_json_content_type value = includes (to_lower_case value) (txt "json")

-- `!contentType`: absent or empty
abbrev pub declared : Option Text → Option Text
declared none = none
declared (some value) = if is_empty value then none else some value

module _ (pretty : Text → Option Text) where
  -- what `normalizeBody` does under no content type
  pub guess_body : Text → Headers → Text × Headers
  guess_body body headers = if is_empty (trim body) then ([], headers) else elim (pretty body) [
    | some printed ↦ (printed, Dict.set content_type (txt "application/json") headers)
    | none ↦ (body, Dict.set content_type (txt "text/plain") headers)
  ]

  -- the body that goes out, and the headers
  unfoldable pub normalize_body : Text → Headers → Text × Headers
  unfolding guess_body
  normalize_body body headers = elim (declared (get_effective_header headers lower_content_type)) [
    | none ↦ guess_body body headers
    | some value ↦
        if not (is_json_content_type value)
        then (body, headers)
        else elim (pretty body) [ some printed ↦ (printed, headers) | none ↦ (body, headers) ]
  ]

pub data Outcome (P : Type 0) : Type 0 where
  -- the answer of a mock whose template does not compile
  invalid_template : Outcome P
  -- the template threw; the failure is registered and the error goes on
  render_failed : Outcome P
  proxied : Result ProxyError (Text × Text) → List (CallbackTrigger P) → Outcome P
  response : ℕ → Headers → Text → List (CallbackTrigger P) → Outcome P

module _ {P : Type 0} (pretty : Text → Option Text) where
  -- `handle` after the template has run: the callbacks are dispatched either way
  unfoldable pub respond : (base_uri url_search : Text) → Text → ResponseData P → Outcome P
  unfolding normalize_body
  respond base_uri url_search body d =
      let (sent, headers) = normalize_body pretty body d.response_headers in
      elim d.proxy_to [
        | some target ↦
            proxied (proxy_request base_uri url_search (some target) d.proxy_label) d.callbacks
        | none ↦ response d.status headers sent d.callbacks
      ]

  -- `handle`. `compiles` is whether the template compiled, `run` its run on the initial data.
  unfoldable pub handle :
      (base_uri url_search : Text)
      → (compiles : Bool) → (run : ResponseData P → Option (Text × ResponseData P)) → Mock
      → Option Format
      → Outcome P
  unfolding respond initial_headers
  handle base_uri url_search compiles run mock format =
      let start : ResponseData P = record {
        status = mock.response.code;
        response_headers = initial_headers format mock.response.headers;
        callbacks = [];
        proxy_to = none;
        proxy_label = none;
      } in
      if not compiles then invalid_template else elim (run start) [
        | none ↦ render_failed
        | some (body, d) ↦ respond base_uri url_search body d
      ]
