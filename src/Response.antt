-- ===== src/Response.antt =====
-- mocko-core/src/helpers/response.ts and mocko-core/src/api/proxy: what a template does to its
-- response, and where a request is proxied.
pub mod Bounds
pub mod Targets
use mocko.Base.{
  ℕ, Text, txt, ℤ, pos, negsuc, parse_int, is_empty, trim, starts_with, ends_with, Bool, true,
  false, not, ◌||◌, Option, none, some, List, [], ◌∷◌, ◌++◌, reverse, tail, ltb, leb, if◌then◌else◌,
  text_eq, or_else, ◌*◌,
}
use mocko.Base.Dict
use mocko.Base.Dict.{Dict}
use mocko.Base.Result.{Result, ok, err, ◌>>=◌, ◌>>◌}
use mocko.Definitions.Data.{Host}
use mocko.Definitions.Hosts.{find_host_by_slug, find_host_by_source}

pub record CallbackTrigger (P : Type 0) : Type 0 where
  pub slug : Text
  pub payload : P
  pub delay : ℕ

-- `BigodonData`. `proxy_to` is the target of a `proxy` helper, beside its label.
pub record ResponseData (P : Type 0) : Type 0 where
  pub status : ℕ
  pub response_headers : Dict Text Text
  pub callbacks : List (CallbackTrigger P)
  pub proxy_to : Option Text
  pub proxy_label : Option Text

pub data HelperError : Type 0 where
  status_not_number status_out_of_range header_not_string : HelperError
  host_not_found host_no_destination : HelperError

-- An argument of a helper.
pub data Value : Type 0 where
  text : Text → Value
  int : ℤ → Value
  other : Value

-- the pos that a status stands for
unfoldable pub status_code : Value → Result HelperError ℤ
status_code (text s) = elim (parse_int s) [ none ↦ err status_not_number | some n ↦ ok n ]
status_code (int n) = ok n
status_code other = err status_not_number

-- `statusCode < 200 || statusCode >= 600`
unfoldable pub checked_status : ℤ → Result HelperError ℕ
checked_status (pos n) = if ltb n 200 || leb 600 n then err status_out_of_range else ok n
checked_status (negsuc n) = err status_out_of_range

module _ {P : Type 0} where
  unfoldable pub set_status : Value → ResponseData P → Result HelperError (ResponseData P)
  unfolding status_code checked_status
  set_status status d = do
    parsed ← status_code status
    code ← checked_status parsed
    ok (record d { status = code })

  unfoldable pub set_header : Value → Value → ResponseData P → Result HelperError (ResponseData P)
  set_header (text key) (text value) d =
      ok (record d { response_headers = Dict.set key value d.response_headers })
  set_header _ _ d = err header_not_string

-- the code of '@'
abbrev pub at_sign : ℕ
at_sign = 64

-- `host?.destination` where it is a text that is not empty
abbrev pub destination_of : Option Host → Option Text
destination_of none = none
destination_of (some host) = elim host.destination [
  | none ↦ none
  | some d ↦ if is_empty d then none else some d
]

abbrev pub label_of : Host → Text
label_of host = at_sign ∷ host.slug

-- the target and the label for a host that may be missing, or else `fallback` with no label
abbrev pub target_or : Text → Option Host → Text × Option Text
target_or fallback none = (fallback, none)
target_or fallback (some host) = elim (destination_of (some host)) [
  | none ↦ (fallback, none)
  | some d ↦ (d, some (label_of host))
]

abbrev pub target_of : Option Host → Result HelperError (Text × Option Text)
target_of none = err host_not_found
target_of (some host) = elim (destination_of (some host)) [
  | none ↦ err host_no_destination
  | some d ↦ ok (d, some (label_of host))
]

-- `getHost`; no `proxyUri` is `none`
unfoldable pub get_host : List Host → Option Text → Text → Result HelperError (Text × Option Text)
get_host hosts none header = ok (target_or [] (find_host_by_source hosts header))
get_host hosts (some uri) header =
    if not (starts_with uri (at_sign ∷ []))
    then ok (target_or uri (find_host_by_slug hosts uri))
    else target_of (find_host_by_slug hosts (tail uri))

-- the `proxy` helper, which then halts the template
unfoldable pub proxy :
    {P : Type 0}
    → List Host
    → Option Text
    → Text
    → ResponseData P
    → Result HelperError (ResponseData P)
unfolding get_host
proxy hosts uri header d = do
  target ← get_host hosts uri header
  ok (record d { proxy_to = some target.0; proxy_label = target.1 })

-- `path.slice(0, -1)`
abbrev drop_last : Text → Text
drop_last s = reverse (tail (reverse s))

-- `baseUriToH2o2Path` of proxy.service.ts
unfoldable pub base_uri_to_h2o2_path : Text → Text
base_uri_to_h2o2_path uri = (if ends_with uri (txt "/") then drop_last uri else uri) ++ txt "{path}"

unfoldable pub is_proxy_enabled : Text → Bool
is_proxy_enabled base_uri = not (is_empty (trim base_uri))

-- `getProxyUri`; an override that is empty is none
unfoldable pub get_proxy_uri : Text → Option Text → Text
unfolding base_uri_to_h2o2_path
get_proxy_uri base_uri none = base_uri_to_h2o2_path base_uri
get_proxy_uri base_uri (some uri) =
    if is_empty uri then base_uri_to_h2o2_path base_uri else base_uri_to_h2o2_path uri

abbrev pub has_override : Option Text → Bool
has_override none = false
has_override (some uri) = not (is_empty uri)

pub data ProxyError : Type 0 where
  proxying_disabled : ProxyError

-- `proxyRequest` of proxy.controller.ts: the URI that the request goes to, and its log label
unfoldable pub proxy_request :
    (base_uri : Text)
    → (url_search : Text) → Option Text
    → Option Text
    → Result ProxyError (Text × Text)
unfolding is_proxy_enabled get_proxy_uri
proxy_request base_uri url_search override_uri log_label =
    if not (is_proxy_enabled base_uri || has_override override_uri)
    then err proxying_disabled
    else ok (
      get_proxy_uri base_uri override_uri ++ url_search,
      elim log_label [ none ↦ txt "proxy" | some l ↦ if is_empty l then txt "proxy" else l ],
    )
