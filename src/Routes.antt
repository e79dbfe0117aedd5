-- ===== src/Routes.antt =====
-- The routes of the mocks: getMockRoutes of mocko-core/src/api/mock/mock.service.ts, and how
-- mocko-core/src/route-registrar.ts maps them on the server of Hapi, which is an argument: `add` throws
-- a message or returns the server with the route.
pub mod Served
use mocko.Base.{
  ℕ, Text, txt, Bool, true, false, not, ◌&&◌, ◌||◌, Option, none, some, List, [], ◌∷◌, ◌++◌, map,
  filter, starts_with, ends_with, includes, is_empty, ◌==◌, nat_eq, text_eq, if◌then◌else◌,
}
use mocko.Base.Result.{Result, ok, err}
use mocko.Definitions.Data.{Mock, Host, MockoDefinition}
use mocko.Definitions.Hosts.{resolve_vhost}
use mocko.Diagnostics.{Diagnostic, error, warning, DiagnosticsCollector, push}

unfoldable pub is_reserved_path : Text → Bool
is_reserved_path path = path == txt "/__mocko__" || starts_with path (txt "/__mocko__/")

-- `streams` is `config.payload`: the body is handed on as a stream, not parsed.
pub record ServerRoute : Type 0 where
  pub method : Text
  pub path : Text
  pub vhost : Option Text
  pub streams : Bool
  pub handler : Mock

unfoldable pub mock_to_route : List Host → Mock → ServerRoute
unfolding resolve_vhost
mock_to_route hosts mock = record {
  method = mock.method;
  path = mock.path;
  vhost = resolve_vhost mock.host hosts;
  streams = not mock.parse;
  handler = mock;
}

unfoldable pub get_mock_routes : {A : Type 0} → MockoDefinition A → List ServerRoute
unfolding is_reserved_path mock_to_route
get_mock_routes options = map (mock_to_route options.hosts) (
    filter (λ mock. not (is_reserved_path mock.path))
      (filter (λ mock. mock.is_enabled) options.mocks))

abbrev pub route_name : ServerRoute → Text
route_name route = route.method ++ (txt " " ++ route.path)

-- `path.match(/\/\*($|\/)/)`
unfoldable pub has_wildcard : Text → Bool
has_wildcard path = ends_with path (txt "/*") || includes path (txt "/*/")

-- what `.` does not match
abbrev pub is_line_end : ℕ → Bool
is_line_end c = c == 10 || c == 13 || c == 8232 || c == 8233

-- the rest of a match of `/\/:./` behind the slash
abbrev pub is_param_at : Text → Bool
is_param_at (c ∷ d ∷ cs) = c == b':' && not (is_line_end d)
is_param_at cs = false

-- `path.match(/\/:./)`
unfoldable pub has_colon_param : Text → Bool
unfolding nat_eq
has_colon_param [] = false
has_colon_param (c ∷ cs) = (c == b'/' && is_param_at cs) || has_colon_param cs

-- `\w`
abbrev pub is_word : ℕ → Bool
is_word c =
    includes (txt "abcdefghijklmnopqrstuvwxyzABCDEFGHIJKLMNOPQRSTUVWXYZ0123456789_") (c ∷ [])

-- the rest of a match of `/\/\$\{\w*\}/` behind the brace
unfoldable pub is_closed_word : Text → Bool
unfolding nat_eq includes
is_closed_word [] = false
is_closed_word (c ∷ cs) = c == b'}' || (is_word c && is_closed_word cs)

abbrev pub is_dollar_at : Text → Bool
is_dollar_at (c ∷ d ∷ cs) = c == b'$' && d == b'{' && is_closed_word cs
is_dollar_at cs = false

-- `path.match(/\/\$\{\w*\}/)`
unfoldable pub has_dollar_param : Text → Bool
unfolding nat_eq is_closed_word
has_dollar_param [] = false
has_dollar_param (c ∷ cs) = (c == b'/' && is_dollar_at cs) || has_dollar_param cs

abbrev pub suspicious_path : ServerRoute → Text → Diagnostic
suspicious_path route message = record {
  code = txt "suspicious-path";
  severity = warning;
  message = message;
  file = none;
  mock = some (route_name route);
}

abbrev pub push_if : Bool → Diagnostic → DiagnosticsCollector → DiagnosticsCollector
push_if test diagnostic collector = if test then push diagnostic collector else collector

unfoldable pub validate_route_path : ServerRoute → DiagnosticsCollector → DiagnosticsCollector
unfolding has_wildcard has_colon_param has_dollar_param push
validate_route_path route collector =
    push_if (has_dollar_param route.path)
      (suspicious_path route (txt "the path contains a parameter defined with '${param}'"))
      (push_if (has_colon_param route.path)
        (suspicious_path route (txt "the path contains an Express-style ':param' parameter"))
        (push_if (has_wildcard route.path)
          (suspicious_path route (txt "the path contains a '*' wildcard")) collector))

abbrev pub mapping_failure : ServerRoute → Text → Diagnostic
mapping_failure route message =
    let is_query_in_path = includes route.path (txt "?") in
    record {
      code = if is_query_in_path then txt "query-in-path" else txt "route-mapping-failed";
      severity = error;
      message =
          if is_query_in_path
          then txt "query parameters can't be part of the path"
          else txt "failed to map the route: " ++ message;
      file = none;
      mock = some (route_name route);
    }

module _ {Server : Type 0} (add : ServerRoute → Server → Result Text Server) where
  -- what follows the call of the server, the handler of its error included
  abbrev pub registered :
      ServerRoute
      → Server
      → DiagnosticsCollector
      → Result Text Server
      → Server × DiagnosticsCollector
  registered route server collector (ok server') = (server', validate_route_path route collector)
  registered route server collector (err message) =
      (server, push (mapping_failure route message) collector)

  unfoldable pub register :
      ServerRoute → Server × DiagnosticsCollector → Server × DiagnosticsCollector
  unfolding validate_route_path push
  register route (server, collector) = registered route server collector (add route server)

  -- `routes.forEach(route => registrar.register(app, route))`
  unfoldable pub register_routes :
      List ServerRoute → Server × DiagnosticsCollector → Server × DiagnosticsCollector
  unfolding register
  register_routes [] s = s
  register_routes (route ∷ routes) s = register_routes routes (register route s)
