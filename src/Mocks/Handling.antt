-- ===== src/Mocks/Handling.antt =====
-- The answers of a mock.
use mocko.Base.{◌≡◌, ℕ, refl, Text, true, Option, none, some, List, [], arith}
use mocko.Base.Result.{Result, ok, err}
use mocko.Definitions.Data.{Mock, Host}
use mocko.Response.{ResponseData, CallbackTrigger, HelperError}
use mocko.Response.Bounds.{HelperCall, call_all, IsStatus, call_all-IsStatus}
use mocko.Mocks.{Headers, Format, response, initial_headers, respond, handle}

-- A template that makes some calls of the helpers and renders to a text that depends on them.
abbrev pub run_calls :
    {P : Type 0}
    → List Host
    → Text
    → List HelperCall
    → (ResponseData P → Text)
    → ResponseData P
    → Option (Text × ResponseData P)
run_calls hosts header calls render d = elim (call_all hosts header calls d) [
  | ok d' ↦ some (render d', d')
  | err e ↦ none
]

module _ {P : Type 0} (pretty : Text → Option Text) (base_uri url_search : Text) (hosts : List Host)
    (header : Text) (calls : List HelperCall) (render : ResponseData P → Text) where
  respond-status :
      (body : Text) (d : ResponseData P) (n : ℕ) (headers : Headers) (sent : Text)
      (callbacks : List (CallbackTrigger P))
      → respond pretty base_uri url_search body d ≡ response n headers sent callbacks
      → n ≡ d.status
  unfolding respond
  respond-status body d n headers sent callbacks h = ground arith

  -- A mock whose own status lies from 200 to 599 answers with a status in that range, whatever its
  -- template does to the response.
  pub handle-IsStatus :
      (mock : Mock) (format : Option Format) (n : ℕ) (headers : Headers) (sent : Text)
      (callbacks : List (CallbackTrigger P))
      → IsStatus mock.response.code
      → handle pretty base_uri url_search true (run_calls hosts header calls render) mock format
        ≡ response n headers sent callbacks
      → IsStatus n
  unfolding handle
  handle-IsStatus mock format n headers sent callbacks s h =
      ended (call_all hosts header calls start) refl
    where
      start : ResponseData P
      start = record {
        status = mock.response.code;
        response_headers = initial_headers format mock.response.headers;
        callbacks = [];
        proxy_to = none;
        proxy_label = none;
      }

      ended :
          (r : Result HelperError (ResponseData P))
          → call_all hosts header calls start ≡ r
          → IsStatus n
      ended (err e) failed = ground arith
      ended (ok d) ran =
          let answered : respond pretty base_uri url_search (render d) d
              ≡ response n headers sent callbacks =
            ground arith in
          let same = respond-status (render d) d n headers sent callbacks answered in
          let bounds = call_all-IsStatus hosts header calls start d ran s in omega arith
