-- ===== src/Mocks/ContentType.antt =====
-- The content type of a response.
use mocko.Base.{
  ◌≡◌, refl, Text, txt, to_lower_case, trim, is_empty, false, Option, none, some, [], ◌∷◌, arith,
  any, find_last, find_last-nil, find_last-cons, ◌==◌, text_eq, if◌then◌else◌, Option-cases, inl,
  inr, or_else, is_some,
}
use mocko.Base.Dict
use mocko.Mocks.{
  Headers, Format, format_to_content_type, content_type, lower_content_type, format_conflicts,
  initial_headers, is_header, get_effective_header, is_json_content_type, declared, normalize_body,
}

lower-content_type : to_lower_case content_type ≡ lower_content_type
unfolding to_lower_case
lower-content_type = refl

lower-lower_content_type : to_lower_case lower_content_type ≡ lower_content_type
unfolding to_lower_case
lower-lower_content_type = refl

-- A new header of a name that no header has in any case is the effective one.
module _ (target key value : Text) (same : to_lower_case key ≡ target) where
  last-set :
      (headers : Headers)
      → find_last (is_header target) headers ≡ none
      → find_last (is_header target) (Dict.set key value headers) ≡ some (key, value)
  unfolding Dict.set
  last-set [] h =
      ground
        (arith, find_last-cons (is_header target) (key, value) [], find_last-nil (is_header target))
  last-set ((k, v) ∷ headers) h = ground (
    arith,
    find_last-cons (is_header target) (k, v) headers,
    find_last-cons (is_header target) (k, v) (Dict.set key value headers),
    last-set headers,
  )

last_of_no_key :
    (target : Text) (headers : Headers)
    → any (λ key. to_lower_case key == target) (Dict.keys headers) ≡ false
    → find_last (is_header target) headers ≡ none
last_of_no_key target [] h = find_last-nil (is_header target)
last_of_no_key target ((k, v) ∷ headers) h =
    ground (arith, find_last-cons (is_header target) (k, v) headers, last_of_no_key target headers)

effective_of_last :
    (headers : Headers) (entry : Text × Text)
    → find_last (is_header lower_content_type) headers ≡ some entry
    → get_effective_header headers lower_content_type ≡ some entry.1
unfolding get_effective_header
effective_of_last headers entry h = rw (h, get_effective_header)

last_of_effective :
    (headers : Headers)
    → get_effective_header headers lower_content_type ≡ none
    → find_last (is_header lower_content_type) headers ≡ none
unfolding get_effective_header
last_of_effective headers h =
    elim (Option-cases (find_last (is_header lower_content_type) headers)) [
      | inl nothing ↦ nothing
      | inr (entry, there) ↦ cc (effective_of_last headers entry there)
    ]

effective-set :
    (value : Text) (headers : Headers)
    → find_last (is_header lower_content_type) headers ≡ none
    → get_effective_header (Dict.set content_type value headers) lower_content_type ≡ some value
effective-set value headers h =
    effective_of_last (Dict.set content_type value headers) (content_type, value)
      (last-set lower_content_type content_type value lower-content_type headers h)

-- A mock with a format, and no header that conflicts with it, starts with that format's content type.
pub initial_headers-format :
    (format : Format) (headers : Headers)
    → format_conflicts (some format) headers ≡ false
    → get_effective_header (initial_headers (some format) headers) lower_content_type
      ≡ some (format_to_content_type format)
unfolding initial_headers
initial_headers-format format headers free =
    effective-set (format_to_content_type format) headers
      (last_of_no_key lower_content_type headers free)

module _ (pretty : Text → Option Text) (body : Text) (headers : Headers) where
  -- A declared content type is kept with all headers; the body is printed anew exactly if that type
  -- is a JSON type and the body is JSON.
  pub normalize_body-declared :
      (value : Text)
      → declared (get_effective_header headers lower_content_type) ≡ some value
      → normalize_body pretty body headers
        ≡ (if is_json_content_type value then or_else (pretty body) body else body, headers)
  unfolding normalize_body
  normalize_body-declared value h = ground arith

  -- A body with more than white space that goes out with no content type declared gets one: that of
  -- JSON if it is JSON, which is then printed anew, and otherwise that of plain text, and the body is
  -- kept.
  pub normalize_body-guessed :
      get_effective_header headers lower_content_type ≡ none
      → is_empty (trim body) ≡ false
      → (get_effective_header (normalize_body pretty body headers).1 lower_content_type
          ≡ some (if is_some (pretty body) then txt "application/json" else txt "text/plain"))
        × ((normalize_body pretty body headers).0 ≡ or_else (pretty body) body)
  unfolding normalize_body
  normalize_body-guessed absent full = ground (
    arith,
    effective-set (txt "application/json") headers (last_of_effective headers absent),
    effective-set (txt "text/plain") headers (last_of_effective headers absent),
  )
