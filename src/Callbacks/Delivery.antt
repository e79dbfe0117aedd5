-- ===== src/Callbacks/Delivery.antt =====
-- mocko-core/src/api/callback/callback-delivery.service.ts. The rendering of a template (bigodon, in
-- the context of a pending callback and the data blocks) and the HTTP client are arguments, each of
-- which may throw; what the template helpers do to the flags is left out.
pub mod Targets
pub mod Headers
pub mod Outcomes
pub mod Sent
pub mod Triggered
use mocko.Base.{
  ℕ, Text, txt, Bool, true, false, not, ◌&&◌, ◌||◌, Option, none, some, List, [], ◌∷◌, ◌++◌, any,
  leb, ltb, reverse, is_empty, is_some, or_else, starts_with, to_lower_case, ◌==◌, nat_eq, text_eq,
  if◌then◌else◌,
}
use mocko.Base.Result.{Result, err, ok, ◌>>=◌}
use mocko.Base.Dict
use mocko.Base.Dict.{Dict}
use mocko.Definitions.Data.{Callback, Host, MockoDefinition, DataBlocks}
use mocko.Definitions.Hosts.{find_host_by_slug, find_callback_by_slug}
use mocko.Callbacks.Pending.{PendingCallback}

pub data DeliveryError (E : Type 0) : Type 0 where
  no_definition no_host no_destination : DeliveryError E
  thrown : E → DeliveryError E

pub record Request : Type 0 where
  pub method : Text
  pub url : Text
  pub payload : Option Text
  pub headers : Dict Text Text

-- What `deliver` logs: the warning that a callback was dropped, the warning of a status that is no
-- success, or nothing but a debug line.
pub data Outcome (E : Type 0) : Type 0 where
  dropped : DeliveryError E → Outcome E
  returned_status : ℕ → Outcome E
  delivered : ℕ → Outcome E

abbrev pub slash : ℕ
slash = 47

-- `s.replace(/\/+$/, "")`
unfoldable pub strip_slashes : Text → Text
strip_slashes [] = []
strip_slashes (c ∷ cs) =
    let rest = strip_slashes cs in if c == slash && is_empty rest then [] else c ∷ rest

unfoldable pub join_url : Text → Text → Text
unfolding strip_slashes
join_url destination path =
    let base = strip_slashes destination in
    if is_empty path
    then base
    else if starts_with path (txt "/")
    then base ++ path
    else base ++ (txt "/" ++ path)

abbrev pub is_content_type : Text → Bool
is_content_type key = to_lower_case key == txt "content-type"

module _ {E : Type 0} (render : Text → Result E Text) where
  -- a call of `render`, whose error is the delivery's
  unfoldable pub rendered : Text → Result (DeliveryError E) Text
  rendered template = elim (render template) [ err e ↦ err (thrown e) | ok text ↦ ok text ]

  -- a field that the validation has required; `find` with no slug finds no host
  unfoldable pub resolve_url : Callback → List Host → Result (DeliveryError E) Text
  unfolding rendered join_url
  resolve_url definition hosts =
      if not (is_empty (or_else definition.url []))
      then rendered (or_else definition.url [])
      else elim (find_host_by_slug hosts (or_else definition.host [])) [
        | none ↦ err no_host
        | some host ↦
            if is_empty (or_else host.destination [])
            then err no_destination
            else (rendered (or_else definition.path [])
                >>= (λ path. ok (join_url (or_else host.destination []) path)))
      ]

  -- the loop over the definition's headers
  unfoldable pub render_each :
      Dict Text Text → Dict Text Text → Result (DeliveryError E) (Dict Text Text)
  unfolding rendered
  render_each [] headers = ok headers
  render_each ((key, value) ∷ entries) headers =
      rendered value >>= (λ text. render_each entries (Dict.set key text headers))

  unfoldable pub render_headers : Callback → Option Text → Result (DeliveryError E) (Dict Text Text)
  unfolding render_each
  render_headers definition body = render_each definition.headers [] >>= (λ headers. ok (
      if is_some body && not (any is_content_type (Dict.keys headers))
      then Dict.set (txt "Content-Type") (txt "application/json") headers
      else headers))

  unfoldable pub render_body : Option Text → Result (DeliveryError E) (Option Text)
  unfolding rendered
  render_body none = ok none
  render_body (some body) = rendered body >>= (λ text. ok (some text))

  -- what `doDeliver` makes of a definition
  unfoldable pub request_of : Callback → List Host → Result (DeliveryError E) Request
  unfolding resolve_url render_body render_headers
  request_of definition hosts = resolve_url definition hosts >>= (λ url.
      render_body definition.body >>= (λ body. render_headers definition body >>= (λ headers.
        ok (record { method = definition.method; url = url; payload = body; headers = headers }))))

-- the part of `doDeliver` before the request
unfoldable pub prepare :
    {A E P : Type 0}
    → (render : PendingCallback P → Option (DataBlocks A) → Text → Result E Text)
    → MockoDefinition A
    → PendingCallback P
    → Result (DeliveryError E) Request
unfolding request_of
prepare render definitions pending =
    elim (find_callback_by_slug definitions.callbacks pending.slug) [
      | none ↦ err no_definition
      | some definition ↦
          request_of (render pending definitions.data_blocks) definition definitions.hosts
    ]

abbrev pub is_success : ℕ → Bool
is_success status = leb 200 status && ltb status 300

-- `deliver`, with the requests it sends. `request` answers with the status, 0 where there is none.
unfoldable pub deliver :
    {A E P : Type 0}
    → (render : PendingCallback P → Option (DataBlocks A) → Text → Result E Text)
    → (request : Request → Result E ℕ) → MockoDefinition A
    → PendingCallback P
    → Outcome E × List Request
unfolding prepare
deliver render request definitions pending = elim (prepare render definitions pending) [
  | err e ↦ (dropped e, [])
  | ok sent ↦ elim (request sent) [
    | err e ↦ (dropped (thrown e), sent ∷ [])
    | ok status ↦
        (if is_success status then delivered status else returned_status status, sent ∷ [])
  ]
]
