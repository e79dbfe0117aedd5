-- ===== src/Validation/Mapping.antt =====
-- When route-registrar.ts reports nothing.
use mocko.Base.{◌≡◌, refl, subst, Text, Bool, true, false, List, [], ◌∷◌, text_eq}
use mocko.Base.Result.{Result, ok, err}
use mocko.Diagnostics.{Diagnostic, push}
use mocko.Routes.{
  ServerRoute, register, register_routes, registered, mapping_failure, push_if, has_wildcard,
  has_colon_param, has_dollar_param, validate_route_path,
}
use mocko.Validation.Silence.{Silent, silent_then, silent_iff, silent_skip, Silent-push}

Silent-push_if : (test : Bool) (d : Diagnostic) → Silent (push_if test d) (test ≡ false)
Silent-push_if false d = silent_skip (false ≡ false) refl
Silent-push_if true d = Silent-push d (true ≡ false) (λ e. cc)

-- Its path holds nothing that looks like a parameter of another router.
abbrev pub IsPlain : ServerRoute → Type 0
IsPlain route =
    (has_wildcard route.path ≡ false)
    × ((has_colon_param route.path ≡ false) × (has_dollar_param route.path ≡ false))

Silent-validate_route_path :
    (route : ServerRoute) → Silent (validate_route_path route) (IsPlain route)
unfolding validate_route_path
Silent-validate_route_path route =
    silent_iff (validate_route_path route) _ (IsPlain route)
      (silent_then _ _ _ _
        (silent_then _ _ _ _ (Silent-push_if (has_wildcard route.path) _)
          (Silent-push_if (has_colon_param route.path) _))
        (Silent-push_if (has_dollar_param route.path) _))
      (λ ((a, b), c). (a, (b, c)), λ (a, (b, c)). ((a, b), c))

module _ {Server : Type 0} (add : ServerRoute → Server → Result Text Server) where
  -- The server takes the routes one after the other, and each is plain.
  abbrev pub AreMapped : List ServerRoute → Server → Type 0
  AreMapped [] server = Unit
  AreMapped (route ∷ routes) server =
      (server' : Server) × ((add route server ≡ ok server')
        × (IsPlain route × AreMapped routes server'))

  Silent-registered :
      (route : ServerRoute) (routes : List ServerRoute) (server : Server)
      (rest : (s : Server)
        → Silent (λ c. (register_routes add routes (s, c)).1) (AreMapped routes s))
      (r : Result Text Server)
      → add route server ≡ r
      → Silent
          (λ c. (register_routes add routes (registered add route server c r)).1)
          (AreMapped (route ∷ routes) server)
  Silent-registered route routes server rest (err message) e =
      silent_iff _ _ _
        (silent_then (push (mapping_failure route message))
          (λ c. (register_routes add routes (server, c)).1) ⊥ (AreMapped routes server)
          (Silent-push _ ⊥ (λ h. h)) (rest server))
        (λ (h, _). absurd h, λ (s, (f, _)). cc)
  Silent-registered route routes server rest (ok server') e =
      silent_iff _ _ _
        (silent_then (validate_route_path route) (λ c. (register_routes add routes (server', c)).1)
          (IsPlain route) (AreMapped routes server') (Silent-validate_route_path route)
          (rest server'))
        (
          λ (p, m). (server', (e, (p, m))),
          λ (s, (f, (p, m))).
              let same : s ≡ server' = cc in (p, subst (λ t. AreMapped routes t) same m),
        )

  pub Silent-register_routes :
      (routes : List ServerRoute) (server : Server)
      → Silent (λ c. (register_routes add routes (server, c)).1) (AreMapped routes server)
  unfolding register_routes register
  Silent-register_routes [] server = silent_skip Unit tt
  Silent-register_routes (route ∷ routes) server =
      Silent-registered route routes server (λ s. Silent-register_routes routes s)
        (add route server) refl
