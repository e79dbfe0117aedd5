-- ===== src/Sdk/Transport.antt =====
-- mocko-sdk/src/transport.ts and http.ts: the requests of the client and what it makes of the answers.
-- `send` sends a request to a server in a state; `J` is the type of parsed JSON bodies, none for an empty
-- one. A body that is no JSON, at which http.ts throws, is not among its answers. JSON and
-- `encodeURIComponent` are arguments.
pub mod Serve
pub mod RoundTrip
use mocko.Base.{
  ℕ, Text, txt, Bool, true, false, not, Option, none, some, [], ◌∷◌, ◌++◌, is_empty, starts_with,
  nat_eq, text_eq, if◌then◌else◌, ltb, leb, ◌&&◌, ◌==◌,
}
use mocko.Base.Result.{Result, ok, err, ◌>>=◌}
use mocko.Callbacks.Delivery.{strip_slashes}
use mocko.Deploy.{Header, absent, one}

pub data HttpMethod : Type 0 where
  get post put delete : HttpMethod

pub data Payload : Type 0 where
  no_body : Payload
  set_flag_payload : (value : Text) → (ttl : ℕ) → Payload
  fire_payload : Option Text → (delay : Option ℕ) → Payload

pub record Request : Type 0 where
  pub method : HttpMethod
  pub url : Text
  pub authorization : Header
  pub body : Payload

pub record HttpResponse (J : Type 0) : Type 0 where
  pub status : ℕ
  pub body : Option J

-- `response.ok` of fetch
abbrev pub is_ok : {J : Type 0} → HttpResponse J → Bool
is_ok response = leb 200 response.status && ltb response.status 300

pub data TransportError : Type 0 where
  mocko_error : (action : Text) → (status : ℕ) → TransportError
  cannot_set_undefined : (key : Text) → TransportError
  no_json : TransportError

abbrev pub quoted : Text → Text
quoted t = 34 ∷ (t ++ 34 ∷ [])

unfoldable pub url_of : Text → Text → Text
url_of base_url path =
    strip_slashes base_url ++ (if starts_with path (txt "/") then path else txt "/" ++ path)

-- `if (secret)`
unfoldable pub authorization_of : Option Text → Header
authorization_of none = absent
authorization_of (some secret) = if is_empty secret then absent else one (txt "Bearer " ++ secret)

abbrev pub parsed_or : {V : Type 0} → Option V → Result TransportError (Option V)
parsed_or none = err no_json
parsed_or (some value) = ok (some value)

abbrev pub text_or : TransportError → Option Text → Result TransportError Text
text_or e none = err e
text_or e (some text) = ok text

module _ {S J V : Type 0} (send : Request → S → HttpResponse J × S) (value_of : J → Option Text)
    (stringify : V → Option Text) (parse : Text → Option V) (encode : Text → Text) (base_url : Text)
    (secret : Option Text) where
  abbrev pub request : HttpMethod → Text → Payload → Request
  unfolding url_of authorization_of
  request method path body = record {
    method = method;
    url = url_of base_url path;
    authorization = authorization_of secret;
    body = body;
  }

  unfoldable pub flag_path : Text → Text
  flag_path key = txt "/__mocko__/flags/" ++ encode key

  unfoldable pub pending_path : Text → Text
  pending_path id = txt "/__mocko__/callbacks/pending/" ++ encode id

  unfoldable pub serialize_value : V → Text → Result TransportError Text
  serialize_value value key = text_or (cannot_set_undefined key) (stringify value)

  abbrev pub body_value : Option J → Option Text
  body_value none = none
  body_value (some j) = value_of j

  abbrev pub parsed_body : Option Text → Result TransportError (Option V)
  parsed_body none = err no_json
  parsed_body (some text) = parsed_or (parse text)

  -- what `getFlag` makes of the answer; a body with no value is no JSON to parse
  unfoldable pub read_flag : Text → HttpResponse J → Result TransportError (Option V)
  read_flag key response =
      if response.status == 404
      then ok none
      else if not (is_ok response)
      then err (mocko_error (txt "get flag " ++ quoted key) response.status)
      else parsed_body (body_value response.body)

  unfoldable pub done_or : Text → HttpResponse J → Result TransportError (Unit {0})
  done_or action response =
      if is_ok response then ok tt else err (mocko_error action response.status)

  unfoldable pub body_or : Text → HttpResponse J → Result TransportError (Option J)
  body_or action response =
      if is_ok response then ok response.body else err (mocko_error action response.status)

  unfoldable pub get_flag : Text → S → Result TransportError (Option V) × S
  unfolding request flag_path read_flag
  get_flag key s =
      let (response, s') = send (request get (flag_path key) no_body) s in
      (read_flag key response, s')

  abbrev pub send_value :
      Text → (ttl : ℕ) → S → Result TransportError Text → Result TransportError (Unit {0}) × S
  unfolding request flag_path done_or
  send_value key ttl s (err e) = (err e, s)
  send_value key ttl s (ok text) =
      let (response, s') = send (request put (flag_path key) (set_flag_payload text ttl)) s in
      (done_or (txt "set flag " ++ quoted key) response, s')

  unfoldable pub set_flag : Text → V → (ttl : ℕ) → S → Result TransportError (Unit {0}) × S
  unfolding request flag_path serialize_value done_or
  set_flag key value ttl s = send_value key ttl s (serialize_value value key)

  unfoldable pub delete_flag : Text → S → Result TransportError (Unit {0}) × S
  unfolding request flag_path done_or
  delete_flag key s =
      let (response, s') = send (request delete (flag_path key) no_body) s in
      (done_or (txt "delete flag " ++ quoted key) response, s')

  unfoldable pub fire_callback :
      Text → Option Text → Option ℕ → S → Result TransportError (Option J) × S
  unfolding request body_or
  fire_callback slug payload delay s =
      let (response, s') =
        send
          (request post (txt "/__mocko__/callbacks/" ++ (encode slug ++ txt "/fire"))
            (fire_payload payload delay))
          s in
      (body_or (txt "fire callback " ++ quoted slug) response, s')

  unfoldable pub list_pending_callbacks : S → Result TransportError (Option J) × S
  unfolding request body_or
  list_pending_callbacks s =
      let (response, s') = send (request get (txt "/__mocko__/callbacks/pending") no_body) s in
      (body_or (txt "list pending callbacks") response, s')

  unfoldable pub fire_pending_callback : Text → S → Result TransportError (Unit {0}) × S
  unfolding request pending_path done_or
  fire_pending_callback id s =
      let (response, s') = send (request post (pending_path id ++ txt "/fire") no_body) s in
      (done_or (txt "fire pending callback " ++ quoted id) response, s')

  unfoldable pub cancel_pending_callback : Text → S → Result TransportError (Unit {0}) × S
  unfolding request pending_path done_or
  cancel_pending_callback id s =
      let (response, s') = send (request delete (pending_path id) no_body) s in
      (done_or (txt "cancel pending callback " ++ quoted id) response, s')

  unfoldable pub clear_pending_callbacks : S → Result TransportError (Unit {0}) × S
  unfolding request done_or
  clear_pending_callbacks s =
      let (response, s') = send (request delete (txt "/__mocko__/callbacks/pending") no_body) s in
      (done_or (txt "clear pending callbacks") response, s')
