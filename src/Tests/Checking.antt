-- ===== src/Tests/Checking.antt =====
-- The theorems on the validation and the routes of the core, at two mocks with one route; and those on
-- the ids of files, the keys of the SDK and the positions in a template.
use mocko.Base.{
  ℕ, ◌≡◌, ◌≤◌, ◌↔◌, ◌⊎◌, refl, Text, txt, Bool, true, Option, none, some, List, [], ◌∷◌, ◌++◌,
  contains, filter, Elem, All, length, take, arith, text_eq, nat_eq, if◌then◌else◌,
}
use native.Mathlib.Decide.{ℕ_discrete}
use mocko.Base.Result.{Result, ok, err}
use mocko.Definitions.Data.{Mock, MockoDefinition}
use mocko.Diagnostics.{DiagnosticsCollector}
use mocko.Routes.{ServerRoute, mock_to_route, get_mock_routes, register_routes}
use mocko.Routes.Served.{IsServed, IsAccounted, register_routes-IsAccounted}
use mocko.Validation.{validate}
use mocko.Validation.Clean.{IsClean, validate_lem}
use mocko.Definitions.Files.{slug_ids, disambiguate_seeds}
use mocko.Definitions.Files.Seeds.{AreDistinct, slug_ids-AreDistinct}
use mocko.Sdk.FlagDefs.{string, key_from_args, segments, rendered}
use mocko.Sdk.FlagDefs.Sections.{IsAccepted, braced}
use mocko.Sdk.FlagDefs.Keys.{key_from_args-IsAccepted}

abbrev a_mock : Text → Mock
a_mock file = record {
  id = none;
  name = none;
  source = none;
  file_path = some file;
  is_enabled = true;
  method = txt "GET";
  path = txt "/a";
  parse = true;
  format = none;
  host = none;
  labels = [];
  response = record { code = 200; delay = none; body = []; headers = [] };
}

abbrev definitions : MockoDefinition ℕ
definitions = record {
  mocks = a_mock (txt "a.hcl") ∷ a_mock (txt "b.hcl") ∷ [];
  hosts = [];
  callbacks = [];
  data_blocks = none;
}

-- a server that takes every path without a '?'
abbrev Server : Type 0
Server = List ServerRoute

abbrev add : ServerRoute → Server → Result Text Server
add route server = if contains route.path 63 then err (txt "no '?'") else ok (server ++ route ∷ [])

add-appends : (route : ServerRoute) (s t : Server) → add route s ≡ ok t → t ≡ s ++ route ∷ []
add-appends route s t h = ground arith

abbrev template_error : Text → Option Text
template_error body = if contains body 123 then some (txt "unclosed") else none

abbrev collector : DiagnosticsCollector
collector = record { enabled = true; items = [] }

validate_lem_example :
    ((validate add template_error (txt "mocks") [] definitions definitions collector).diagnostics
      ≡ [])
    ↔ ((collector.items ≡ []) × IsClean add template_error [] definitions definitions)
validate_lem_example =
    validate_lem add template_error (txt "mocks") [] definitions definitions collector refl

register_routes-IsAccounted_example :
    ((mock : Mock)
      → Elem mock definitions.mocks
      → IsServed mock
      → IsAccounted add
          (λ s. s)
          add-appends
          (mock_to_route [] mock)
          (register_routes add (get_mock_routes definitions) ([], collector)))
    × ((route : ServerRoute)
        → Elem route (register_routes add (get_mock_routes definitions) ([], collector)).0
        → Elem route []
          ⊎ ((mock : Mock) × ((Elem mock definitions.mocks × IsServed mock)
                × (route ≡ mock_to_route [] mock))))
register_routes-IsAccounted_example =
    register_routes-IsAccounted add (λ s. s) add-appends definitions [] collector refl

abbrev show : ℕ → Text
show n = n ∷ []

show-injective : (m n : ℕ) → show m ≡ show n → m ≡ n
show-injective m n e = cc

abbrev digest : Text → Text
digest t = 45 ∷ t

digest-injective : (a b : Text) → digest a ≡ digest b → a ≡ b
digest-injective a b e = cc

slug_ids-AreDistinct_example :
    AreDistinct (slug_ids show digest (txt "host") (txt "a.hcl") (txt "x" ∷ txt "x" ∷ []))
    × AreDistinct (disambiguate_seeds show (txt "x" ∷ txt "y" ∷ txt "x" ∷ []))
unfolding nat_eq ℕ_discrete
slug_ids-AreDistinct_example =
    slug_ids-AreDistinct show show-injective digest digest-injective (txt "host") (txt "a.hcl")
      (txt "x" ∷ txt "x" ∷ []) (txt "x" ∷ txt "y" ∷ txt "x" ∷ []) (refl, (refl, tt))
      (refl, (refl, (refl, tt)))

key_from_args-IsAccepted_example :
    IsAccepted (txt "users:7:new")
    × (rendered braced (segments (txt "users:{id}:new")) ≡ txt "users:{id}:new")
unfolding key_from_args nat_eq mocko.Sdk.FlagDefs.validate_pattern mocko.Base.trim
    mocko.Base.starts_with mocko.Base.ends_with mocko.Base.includes mocko.Base.Dict.get text_eq
    ℕ_discrete
key_from_args-IsAccepted_example =
    key_from_args-IsAccepted (txt "users:{id}:new") (string (txt "7") ∷ []) (txt "users:7:new") refl
      ((λ (e : txt "7" ≡ []). cc, refl), tt) refl
