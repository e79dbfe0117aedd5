-- ===== src/Serving/Expected.antt =====
-- The routes of deployed mocks that mocko-core/src/api/mock/mock.service.ts makes, and what the panel
-- expects of them.
use mocko.Base.{
  ◌≡◌, refl, Bool, true, false, not, ◌&&◌, Option, none, some, List, [], ◌∷◌, ◌++◌, map, filter,
  All, arith, text_eq, or_else,
}
use mocko.Definitions.Data.{Mock, Host, Source, file, deployed}
use mocko.Definitions.Hosts.{resolve_vhost}
use mocko.Definitions.Merge.{with_source}
use mocko.Routes.{ServerRoute, is_reserved_path, mock_to_route}
use mocko.Control.Mocks
use mocko.Control.Mocks.{DeployMock, MockAnnotation, mock_id, deployed_mock, to_deploy_definition}

abbrev pub is_deployed_source : Option Source → Bool
is_deployed_source none = false
is_deployed_source (some file) = false
is_deployed_source (some deployed) = true

-- The route is that of a mock that was deployed.
abbrev pub is_deployed : ServerRoute → Bool
is_deployed route = is_deployed_source route.handler.source

-- One holds of the items at each place.
abbrev pub Zip : {X Y : Type 0} → (X → Y → Type 0) → List X → List Y → Type 0
Zip P [] [] = Unit {0}
Zip P [] (y ∷ ys) = true ≡ false
Zip P (x ∷ xs) [] = true ≡ false
Zip P (x ∷ xs) (y ∷ ys) = P x y × Zip P xs ys

-- The schema keeps what the panel deploys of a mock, and a mock that it gives is enabled.
pub record Keeps (stored : DeployMock) (mock : Mock) : Type 0 where
  pub id : mock.id ≡ some stored.id
  pub source : mock.source ≡ none
  pub is_enabled : mock.is_enabled ≡ true
  pub method : mock.method ≡ stored.method
  pub path : mock.path ≡ stored.path
  pub host : mock.host ≡ stored.host
  pub body : mock.response.body ≡ stored.body
  pub code : mock.response.code ≡ stored.code

-- The route answers for the own mock.
pub record Serves (hosts : List Host) (own : Mocks.Mock) (route : ServerRoute) : Type 0 where
  pub id : route.handler.id ≡ some own.id
  pub method : route.method ≡ own.method
  pub path : route.path ≡ own.path
  pub vhost : route.vhost ≡ resolve_vhost own.host hosts
  pub code : route.handler.response.code ≡ own.response.code
  pub body : route.handler.response.body ≡ or_else own.response.body []

-- what the panel expects the core to serve
abbrev pub to_serve : Mocks.Mock → Bool
to_serve own = own.is_enabled && not (is_reserved_path own.path)

-- the deployed routes among those of mocks
unfoldable pub routes_of : List Host → List Mock → List ServerRoute
routes_of hosts mocks = filter is_deployed (
    map (mock_to_route hosts)
      (filter (λ mock. not (is_reserved_path mock.path)) (filter (λ mock. mock.is_enabled) mocks)))

pub routes_of-append :
    (hosts : List Host) (xs ys : List Mock)
    → routes_of hosts (xs ++ ys) ≡ routes_of hosts xs ++ routes_of hosts ys
unfolding routes_of mock_to_route
routes_of-append hosts [] ys = refl
routes_of-append hosts (x ∷ xs) ys = ground (arith, routes_of-append hosts xs ys)

pub routes_of-files :
    (hosts : List Host) (mocks : List Mock)
    → All (λ mock. mock.source ≡ some file) mocks
    → routes_of hosts (with_source mocks file) ≡ []
unfolding routes_of mock_to_route with_source
routes_of-files hosts [] h = refl
routes_of-files hosts (mock ∷ mocks) h = ground (arith, routes_of-files hosts mocks h.1)
