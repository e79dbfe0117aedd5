-- ===== src/Sdk/Transport/Serve.antt =====
-- mocko-core/src/api/flag/flag.router.ts: the routes of single flags, as the core answers the client.
-- Hapi decodes the key in a path, once.
use mocko.Base.{
  ℕ, ◌≡◌, refl, Text, txt, Option, none, some, [], ◌∷◌, ◌++◌, arith, ◌==◌, nat_eq, text_eq,
  if◌then◌else◌,
}
use mocko.Base.Result.{Result, ok, err}
use mocko.Callbacks.Delivery.{strip_slashes}
use mocko.Deploy.{Config, Header}
use mocko.Flags.MemoryRepository.{Flags}
use mocko.Flags.RedisRepository.{sdk}
use mocko.Flags.Api.{
  ApiError, not_authorized, malformed_key, bad_key, bad_payload, not_json, flag_not_found, put_flag,
  get_flag, delete_flag,
}
use mocko.Sdk.Transport.{
  HttpMethod, get, post, put, delete, Payload, no_body, set_flag_payload, fire_payload, Request,
  HttpResponse,
}

abbrev pub strip_prefix : Text → Text → Option Text
strip_prefix [] t = some t
strip_prefix (p ∷ ps) [] = none
strip_prefix (p ∷ ps) (c ∷ cs) = if p == c then strip_prefix ps cs else none

pub strip_prefix-append : (p t : Text) → strip_prefix p (p ++ t) ≡ some t
strip_prefix-append [] t = refl
strip_prefix-append (c ∷ p) t = ground (arith, strip_prefix-append p t)

-- the status that Hapi answers for an error; a throw that is no Boom is a 500
abbrev pub status_of : ApiError → ℕ
status_of (not_authorized e) = 401
status_of malformed_key = 500
status_of (bad_key e) = 400
status_of bad_payload = 400
status_of not_json = 400
status_of flag_not_found = 404

abbrev pub answer : Result ApiError (Option Text) → HttpResponse (Option Text)
answer (ok value) = record { status = 200; body = some value }
answer (err e) = record { status = status_of e; body = none }

abbrev pub answer_none : Result ApiError (Unit {0}) → HttpResponse (Option Text)
answer_none (ok u) = record { status = 204; body = none }
answer_none (err e) = record { status = status_of e; body = none }

module _ {V : Type 0} (stringify : V → Option Text) (parse : Text → Option V)
    (decode : Text → Option Text) (c : Config) (base_url : Text) where
  abbrev pub not_found : HttpResponse (Option Text)
  not_found = record { status = 404; body = none }

  unfoldable pub serve_key :
      ℕ → Header → Text → HttpMethod → Payload → Flags V → HttpResponse (Option Text) × Flags V
  unfolding put_flag get_flag delete_flag
  serve_key now header param get body flags =
      let (result, flags') = get_flag stringify parse decode c now header param flags in
      (answer result, flags')
  serve_key now header param delete body flags =
      let (result, flags') = delete_flag stringify parse decode c header param flags in
      (answer_none result, flags')
  serve_key now header param put (set_flag_payload value ttl) flags =
      let (result, flags') =
        put_flag stringify parse decode c now header param
          (record { value = value; source = sdk; ttl = some ttl }) flags in
      (answer result, flags')
  serve_key now header param put no_body flags = (answer (err bad_payload), flags)
  serve_key now header param put (fire_payload p d) flags = (answer (err bad_payload), flags)
  serve_key now header param post body flags = (not_found, flags)

  unfoldable pub serve_param :
      ℕ → Request → Option Text → Flags V → HttpResponse (Option Text) × Flags V
  unfolding put_flag get_flag delete_flag
  serve_param now r none flags = (record { status = 400; body = none }, flags)
  serve_param now r (some param) flags = serve_key now r.authorization param r.method r.body flags

  unfoldable pub serve_segment :
      ℕ → Request → Option Text → Flags V → HttpResponse (Option Text) × Flags V
  unfolding put_flag get_flag delete_flag
  serve_segment now r none flags = (not_found, flags)
  serve_segment now r (some segment) flags = serve_param now r (decode segment) flags

  -- the core at a time
  unfoldable pub serve : ℕ → Request → Flags V → HttpResponse (Option Text) × Flags V
  unfolding put_flag get_flag delete_flag strip_slashes
  serve now r flags =
      serve_segment now r (strip_prefix (strip_slashes base_url ++ txt "/__mocko__/flags/") r.url)
        flags
