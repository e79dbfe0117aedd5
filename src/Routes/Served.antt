-- ===== src/Routes/Served.antt =====
-- What becomes of the mocks of a definition when their routes are mapped.
use mocko.Base.{
  ◌≡◌, ◌↔◌, ◌⊎◌, refl, sym, subst, Text, txt, Bool, true, false, not, List, [], ◌∷◌, ◌++◌, filter,
  Elem, Elem-append, Elem-map, Elem-filter, arith, inl, inr,
}
use mocko.Base.Result.{Result, ok, err}
use mocko.Definitions.Data.{Mock, MockoDefinition}
use mocko.Diagnostics.{Diagnostic, DiagnosticsCollector, push}
use mocko.Routes.{
  ServerRoute, is_reserved_path, mock_to_route, get_mock_routes, push_if, has_wildcard,
  has_colon_param, has_dollar_param, suspicious_path, validate_route_path, mapping_failure,
  register, registered, register_routes,
}

-- A mock is served: it is enabled, and its path is not reserved.
abbrev pub IsServed : Mock → Type 0
IsServed mock = (mock.is_enabled ≡ true) × (is_reserved_path mock.path ≡ false)

pub Elem-get_mock_routes :
    {A : Type 0} (options : MockoDefinition A) (route : ServerRoute)
    → Elem route (get_mock_routes options) ↔ (
        (mock : Mock) × ((Elem mock options.mocks × IsServed mock)
          × (route ≡ mock_to_route options.hosts mock)))
unfolding get_mock_routes
Elem-get_mock_routes options route =
    let is_open : Mock → Bool = λ mock. not (is_reserved_path mock.path) in
    let enabled = filter (λ (mock : Mock). mock.is_enabled) options.mocks in
    (
      λ m.
          let (mock, there, e) =
            (Elem-map (mock_to_route options.hosts) route (filter is_open enabled)).0 m in
          let (in_enabled, open_path) = (Elem-filter is_open mock enabled).0 there in
          let (listed, on) =
            (Elem-filter (λ (q : Mock). q.is_enabled) mock options.mocks).0 in_enabled in
          (mock, ((listed, (on, ground arith)), e)),
      λ (mock, ((listed, (on, free)), e)).
          (Elem-map (mock_to_route options.hosts) route (filter is_open enabled)).1 (
            mock,
            (Elem-filter is_open mock enabled).1 (
              (Elem-filter (λ (q : Mock). q.is_enabled) mock options.mocks).1 (listed, on),
              ground arith,
            ),
            e,
          ),
    )

-- An enabled collector that keeps what it had.
abbrev Keeps : (c after : DiagnosticsCollector) → Type 0
Keeps c after = (after.enabled ≡ true) × ((d : Diagnostic) → Elem d c.items → Elem d after.items)

push-Keeps :
    (d : Diagnostic) (c : DiagnosticsCollector)
    → c.enabled ≡ true
    → Keeps c (push d c) × Elem d (push d c).items
unfolding push
push-Keeps d c on =
    let all : (push d c).items ≡ c.items ++ d ∷ [] = ground arith in
    (
      (ground arith, λ e m. subst (Elem e) (sym all) ((Elem-append e c.items (d ∷ [])).1 (inl m))),
      subst (Elem d) (sym all) ((Elem-append d c.items (d ∷ [])).1 (inr (inl refl))),
    )

push_if-Keeps :
    (b : Bool) (d : Diagnostic) (c : DiagnosticsCollector)
    → c.enabled ≡ true
    → Keeps c (push_if b d c)
push_if-Keeps false d c on = (on, λ e m. m)
push_if-Keeps true d c on = (push-Keeps d c on).0

Keeps-trans : (a b c : DiagnosticsCollector) → Keeps a b → Keeps b c → Keeps a c
Keeps-trans a b c p q = (q.0, λ d m. q.1 d (p.1 d m))

three-Keeps :
    (p q r : Bool) (d e f : Diagnostic) (c : DiagnosticsCollector)
    → c.enabled ≡ true
    → Keeps c (push_if r f (push_if q e (push_if p d c)))
three-Keeps p q r d e f c on =
    let one_c = push_if p d c in
    let two_c = push_if q e one_c in
    let one = push_if-Keeps p d c on in
    let two = push_if-Keeps q e one_c one.0 in
    let three = push_if-Keeps r f two_c two.0 in
    Keeps-trans c one_c (push_if r f two_c) one
      (Keeps-trans one_c two_c (push_if r f two_c) two three)

validate_route_path-Keeps :
    (route : ServerRoute) (c : DiagnosticsCollector)
    → c.enabled ≡ true
    → Keeps c (validate_route_path route c)
unfolding validate_route_path
validate_route_path-Keeps route =
    three-Keeps (has_wildcard route.path) (has_colon_param route.path) (has_dollar_param route.path)
      (suspicious_path route (txt "the path contains a '*' wildcard"))
      (suspicious_path route (txt "the path contains an Express-style ':param' parameter"))
      (suspicious_path route (txt "the path contains a parameter defined with '${param}'"))

module _ {Server : Type 0} (add : ServerRoute → Server → Result Text Server)
    (routes_of : Server → List ServerRoute)
    (added : (route : ServerRoute) (s t : Server)
      → add route s ≡ ok t
      → routes_of t ≡ routes_of s ++ route ∷ []) where
  -- The server took the route, or the collector has its failure.
  abbrev pub IsAccounted : ServerRoute → Server × DiagnosticsCollector → Type 0
  IsAccounted route (server, c) =
      Elem route (routes_of server)
      ⊎ ((message : Text) × Elem (mapping_failure route message) c.items)

  abbrev Extends : (s t : Server × DiagnosticsCollector) → Type 0
  Extends s t =
      Keeps s.1 t.1
      × ((route : ServerRoute) → Elem route (routes_of s.0) → Elem route (routes_of t.0))

  registered-IsAccounted :
      (route : ServerRoute) (server : Server) (c : DiagnosticsCollector) (r : Result Text Server)
      → add route server ≡ r
      → c.enabled ≡ true
      → Extends (server, c) (registered add route server c r)
        × (IsAccounted route (registered add route server c r)
            × ((other : ServerRoute)
                → Elem other (routes_of (registered add route server c r).0)
                → Elem other (routes_of server) ⊎ (other ≡ route)))
  registered-IsAccounted route server c (err message) e on =
      let (keeps, there) = push-Keeps (mapping_failure route message) c on in
      ((keeps, λ q m. m), (inr (message, there), λ other m. inl m))
  registered-IsAccounted route server c (ok server') e on =
      let all = added route server server' e in
      (
        (
          validate_route_path-Keeps route c on,
          λ q m.
              subst (Elem q) (sym all) ((Elem-append q (routes_of server) (route ∷ [])).1 (inl m)),
        ),
        (
          inl (
              subst (Elem route) (sym all)
                ((Elem-append route (routes_of server) (route ∷ [])).1 (inr (inl refl)))),
          λ other m.
              elim ((Elem-append other (routes_of server) (route ∷ [])).0
                (subst (Elem other) all m)) [
                  | inl n ↦ inl n
                  | inr (inl same) ↦ inr same
                  | inr (inr n) ↦ elim n [ ]
                ],
        ),
      )

  kept-IsAccounted :
      (route : ServerRoute) (s t : Server × DiagnosticsCollector)
      → Extends s t
      → IsAccounted route s
      → IsAccounted route t
  kept-IsAccounted route s t x (inl m) = inl (x.1 route m)
  kept-IsAccounted route s t x (inr (message, m)) =
      inr (message, x.0.1 (mapping_failure route message) m)

  register_routes-Extends :
      (routes : List ServerRoute) (server : Server) (c : DiagnosticsCollector)
      → c.enabled ≡ true
      → Extends (server, c) (register_routes add routes (server, c))
        × (((route : ServerRoute)
              → Elem route routes
              → IsAccounted route (register_routes add routes (server, c)))
            × ((other : ServerRoute)
                → Elem other (routes_of (register_routes add routes (server, c)).0)
                → Elem other (routes_of server) ⊎ Elem other routes))
  unfolding register_routes register
  register_routes-Extends [] server c on =
      (((on, λ d m. m), λ q m. m), (λ route m. elim m [ ], λ other m. inl m))
  register_routes-Extends (route ∷ routes) server c on =
      let next = registered add route server c (add route server) in
      let (x, (here, only)) = registered-IsAccounted route server c (add route server) refl on in
      let (y, (rest, all)) = register_routes-Extends routes next.0 next.1 x.0.0 in
      (
        (Keeps-trans c next.1 (register_routes add routes next).1 x.0 y.0, λ q m. y.1 q (x.1 q m)),
        (
          λ q m. elim m [
            | inl same ↦
                subst (λ r. IsAccounted r (register_routes add routes next)) (sym same)
                  (kept-IsAccounted route next (register_routes add routes next) y here)
            | inr n ↦ rest q n
          ],
          λ q m. elim (all q m) [
            | inl n ↦ elim (only q n) [ inl k ↦ inl k | inr same ↦ inr (inl same) ]
            | inr n ↦ inr (inr n)
          ],
        ),
      )

  -- With an enabled collector and a server that adds the routes it takes: after the routes of a
  -- definition are mapped, each enabled mock whose path is not reserved has its route on the server, or
  -- its failure is reported; and each route that the server then has, it had before, or it is that of
  -- such a mock. No mock gets a path of Mocko's own API.
  pub register_routes-IsAccounted :
      {A : Type 0} (options : MockoDefinition A) (server : Server) (c : DiagnosticsCollector)
      → c.enabled ≡ true
      → ((mock : Mock)
          → Elem mock options.mocks
          → IsServed mock
          → IsAccounted
              (mock_to_route options.hosts mock)
              (register_routes add (get_mock_routes options) (server, c)))
        × ((route : ServerRoute)
            → Elem route (routes_of (register_routes add (get_mock_routes options) (server, c)).0)
            → Elem route (routes_of server)
              ⊎ ((mock : Mock) × ((Elem mock options.mocks × IsServed mock)
                    × (route ≡ mock_to_route options.hosts mock))))
  register_routes-IsAccounted options server c on =
      let (_, (accounted, all)) = register_routes-Extends (get_mock_routes options) server c on in
      (
        λ mock m s. accounted (mock_to_route options.hosts mock) (
            (Elem-get_mock_routes options (mock_to_route options.hosts mock)).1
              (mock, ((m, s), refl))),
        λ route m. elim (all route m) [
          | inl before ↦ inl before
          | inr n ↦ inr ((Elem-get_mock_routes options route).0 n)
        ],
      )
