-- ===== src/Tests/Requests.antt =====
-- The theorems on the deploy service, the template helpers and the mock handler, at one host, one
-- mock and one request.
use native.Mathlib.Decide.{ℕ_discrete}
use mocko.Base.{
  ℕ, ◌+◌, ◌≤◌, ◌<◌, ◌≡◌, ◌≢◌, ◌↔◌, ◌⊎◌, refl, inl, inr, Text, txt, Bool, true, false, Option, none,
  some, List, [], ◌∷◌, ◌++◌, arith, is_some, or_else, text_eq, if◌then◌else◌, pos,
}
use mocko.Definitions.Data.{Host, Mock}
use mocko.Deploy.{Config, Header, one, deploy}
use mocko.Response.{ResponseData, Value, text, int, get_host}
use mocko.Response.Bounds.{
  HelperCall, call_set_status, call_set_header, call_all, IsStatus, call_all-IsStatus,
}
use mocko.Mocks.{Headers, get_effective_header, handle}
use mocko.Response.Bounds
use mocko.Mocks.Handling.{handle-IsStatus}

abbrev config : Config
config = record { endpoint_enabled = none; secret = none; mode = deploy }

abbrev header : Header
header = one (txt "Bearer s")

abbrev host : Host
host = record {
  id = none;
  slug = txt "api";
  name = none;
  source = txt "api.test";
  destination = some (txt "http://up.test/");
  file_path = none;
}

abbrev start : ResponseData ℕ
start = record {
  status = 200;
  response_headers = [];
  callbacks = [];
  proxy_to = none;
  proxy_label = none;
}

abbrev calls : List HelperCall
calls = call_set_status (int (pos 404)) ∷ call_set_header (text (txt "X-A")) (text (txt "b")) ∷ []

-- a printer for which "1 " is the only body that is JSON
abbrev pretty : Text → Option Text
pretty body = elim (text_eq.dec body (txt "1 ")) [ yes e ↦ some (txt "1") | no n ↦ none ]

abbrev json_headers : Headers
json_headers = (txt "content-type", txt "application/json") ∷ []

abbrev mock : Mock
mock = record {
  id = none;
  name = none;
  source = none;
  file_path = none;
  is_enabled = true;
  method = txt "GET";
  path = txt "/";
  parse = true;
  format = none;
  host = none;
  labels = [];
  response = record { code = 200; delay = none; body = txt "hi"; headers = [] };
}

handle-IsStatus_example : IsStatus 404
unfolding handle call_all Bounds.call mocko.Response.set_status mocko.Response.set_header
    get_effective_header mocko.Base.find_last mocko.Base.Dict.set text_eq ℕ_discrete mocko.Base.trim
handle-IsStatus_example =
    handle-IsStatus pretty [] [] (host ∷ []) (txt "api.test") calls
      (λ (d : ResponseData ℕ). txt "hi") mock none 404
      ((txt "X-A", txt "b") ∷ (txt "Content-Type", txt "text/plain") ∷ []) (txt "hi") []
      (omega arith, omega arith) refl
