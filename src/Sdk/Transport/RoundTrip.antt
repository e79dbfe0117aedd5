-- ===== src/Sdk/Transport/RoundTrip.antt =====
-- The client of mocko-sdk/src/transport.ts at the flags of mocko-core/src/api/flag.
use native.Mathlib.Decide.{ℕ_discrete}
use mocko.Base.{
  append_assoc, ℕ, zero, suc, ◌+◌, ◌*◌, ◌≤◌, ◌<◌, ◌≡◌, refl, sym, ap, ◌∙◌, Text, txt, Bool, true,
  false, is_empty, Option, none, some, ◌++◌, arith, ltb, nat_eq, text_eq, if◌then◌else◌,
  starts_with,
}
use mocko.Base.Result.{Result, ok}
use mocko.Callbacks.Delivery.{strip_slashes}
use mocko.Deploy.{Config, authorize_flags}
use mocko.Flags.MemoryRepository
use mocko.Flags.MemoryRepository.{Flags}
use mocko.Flags.MemoryRepository.Expiry.{get-set_ttl}
use mocko.Flags.RedisRepository.{sdk}
use mocko.Flags.Keys.{assert_valid_key}
use mocko.Flags.Api.{
  key_of_request, parsed_put, put_flag, get_flag, dto_or_missing, store_put, read_key,
  parse_set_payload, parse_api_ttl_millis,
}
use mocko.Sdk.Transport
use mocko.Sdk.Transport.{
  HttpMethod, get, post, put, delete, Payload, no_body, set_flag_payload, fire_payload, Request,
  HttpResponse, TransportError, authorization_of, url_of, read_flag, done_or,
}
use mocko.Sdk.Transport.Serve.{
  strip_prefix-append, answer, serve_key, serve_param, serve_segment, serve,
}

module _ {V : Type 0} (stringify : V → Option Text) (parse : Text → Option V)
    (decode : Text → Option Text) (c : Config) (base_url : Text) where
  at_flag :
      (encode : Text → Text) (key : Text)
      → url_of base_url (txt "/__mocko__/flags/" ++ encode key)
        ≡ (strip_slashes base_url ++ txt "/__mocko__/flags/") ++ encode key
  unfolding url_of starts_with nat_eq ℕ_discrete
  at_flag encode key =
      sym (append_assoc (strip_slashes base_url) (txt "/__mocko__/flags/") (encode key))

  module _ (encode : Text → Text) (secret : Option Text) (key : Text) (value : V) (text : Text)
      (decode-encode : decode (encode key) ≡ some key) (plain : decode key ≡ some key)
      (valid : assert_valid_key key ≡ ok tt)
      (authorized : authorize_flags c (authorization_of secret) ≡ ok tt)
      (stringified : stringify value ≡ some text) (parsed : parse text ≡ some value)
      (some_text : is_empty text ≡ false) where
    served :
        (now : ℕ) (method : HttpMethod) (body : Payload) (flags : Flags V)
        → serve stringify parse decode c base_url now
            (record {
              method = method;
              url = url_of base_url (txt "/__mocko__/flags/" ++ encode key);
              authorization = authorization_of secret;
              body = body;
            })
            flags
          ≡ serve_key stringify parse decode c base_url now
              (authorization_of secret)
              key
              method
              body
              flags
    unfolding serve serve_segment serve_key serve_param
    served now method body flags = rw (at_flag encode key) (
        rw (strip_prefix-append (strip_slashes base_url ++ txt "/__mocko__/flags/") (encode key))
          (rw decode-encode refl))

    put_parsed :
        (ttl : ℕ)
        → 0 < ttl
        → parsed_put stringify parse decode c
            (authorization_of secret)
            key
            (record { value = text; source = sdk; ttl = some ttl })
          ≡ ok (key, value, text, some (ttl * 1000))
    unfolding parsed_put parse_set_payload parse_api_ttl_millis
    put_parsed zero pos = absurd (omega arith)
    put_parsed (suc ttl) pos = rw authorized (rw plain (rw valid (rw some_text (rw parsed refl))))

    key_requested : key_of_request stringify parse decode c (authorization_of secret) key ≡ ok key
    key_requested = rw authorized (rw plain refl)

    put_served :
        (now ttl : ℕ) (flags : Flags V)
        → 0 < ttl
        → serve_key stringify parse decode c base_url now
            (authorization_of secret)
            key
            put
            (set_flag_payload text ttl)
            flags
          ≡ (answer (ok (some text)), MemoryRepository.set now key value (some (ttl * 1000)) flags)
    unfolding put_flag serve_key
    put_served now ttl flags pos =
        ap
          (λ p.
            let (result, flags') = store_put stringify parse decode c now flags p in
            (answer result, flags'))
          (put_parsed ttl pos)

    got_served :
        (now : ℕ) (flags : Flags V)
        → serve_key stringify parse decode c base_url now
            (authorization_of secret)
            key
            get
            no_body
            flags
          ≡ (
            answer (dto_or_missing stringify parse decode c (MemoryRepository.get now key flags).0),
            (MemoryRepository.get now key flags).1,
          )
    unfolding get_flag serve_key
    got_served now flags =
        ap
          (λ k.
            let (result, flags') = read_key stringify parse decode c now flags k in
            (answer result, flags'))
          key_requested

    set_sends :
        (now ttl : ℕ) (flags : Flags V)
        → 0 < ttl
        → Transport.set_flag
            (serve stringify parse decode c base_url now)
            (λ j. j)
            stringify
            parse
            encode
            base_url
            secret
            key
            value
            ttl
            flags
          ≡ (ok tt, MemoryRepository.set now key value (some (ttl * 1000)) flags)
    unfolding Transport.set_flag Transport.serialize_value Transport.flag_path Transport.done_or
    set_sends now ttl flags pos =
        ap
          (λ r.
            Transport.send_value (serve stringify parse decode c base_url now) (λ j. j) stringify
              parse encode base_url secret key ttl flags
              (Transport.text_or (Transport.cannot_set_undefined key) r))
          stringified
        ∙ ap
            (λ (r : HttpResponse (Option Text) × Flags V). (
              done_or (serve stringify parse decode c base_url now) (λ j. j) stringify parse encode
                  base_url secret (txt "set flag " ++ Transport.quoted key) r.0,
              r.1,
            ))
            (served now put (set_flag_payload text ttl) flags ∙ put_served now ttl flags pos)

    read_value :
        (now : ℕ) (found : Bool)
        → read_flag {S = Flags V} {J = Option Text}
            (serve stringify parse decode c base_url now)
            (λ j. j)
            stringify
            parse
            encode
            base_url
            secret
            key
            (answer (dto_or_missing stringify parse decode c (if found then some value else none)))
          ≡ ok (if found then some value else none)
    unfolding read_flag nat_eq
    read_value now true = rw stringified (rw parsed refl)
    read_value now false = refl

    get_reads :
        (now : ℕ) (flags : Flags V) (found : Bool)
        → (MemoryRepository.get now key flags).0 ≡ (if found then some value else none)
        → (Transport.get_flag
            (serve stringify parse decode c base_url now)
            (λ j. j)
            stringify
            parse
            encode
            base_url
            secret
            key
            flags).0
          ≡ ok (if found then some value else none)
    unfolding Transport.get_flag Transport.flag_path
    get_reads now flags found h =
        ap
          (λ (r : HttpResponse (Option Text) × Flags V).
            read_flag (serve stringify parse decode c base_url now) (λ j. j) stringify parse encode
              base_url secret key r.0)
          (served now get no_body flags ∙ got_served now flags)
        ∙ ap
            (λ v.
              read_flag (serve stringify parse decode c base_url now) (λ j. j) stringify parse
                encode base_url secret key (answer (dto_or_missing stringify parse decode c v)))
            h
        ∙ read_value now found

    -- A value that the client of the SDK sets for a number of seconds, under a key that the core accepts
    -- and that decodes to itself, is read back by the client exactly until they are over, and is then
    -- undefined: where the secret lets it pass, with the flags of the core in memory, and with nothing
    -- else on the way between the two.
    pub get_flag-set_flag :
        (now later ttl : ℕ) (flags : Flags V)
        → now ≤ later
        → 0 < ttl
        → let r =
            Transport.set_flag
              (serve stringify parse decode c base_url now)
              (λ j. j)
              stringify
              parse
              encode
              base_url
              secret
              key
              value
              ttl
              flags in
          (r.0 ≡ ok tt)
          × ((Transport.get_flag
                (serve stringify parse decode c base_url later)
                (λ j. j)
                stringify
                parse
                encode
                base_url
                secret
                key
                r.1).0
              ≡ ok (if ltb later (now + ttl * 1000) then some value else none))
    get_flag-set_flag now later ttl flags le pos =
        let sent = set_sends now ttl flags pos in
        (
          ap (λ (r : Result TransportError (Unit {0}) × Flags V). r.0) sent,
          get_reads later _ (ltb later (now + ttl * 1000)) (
              ap
                (λ (r : Result TransportError (Unit {0}) × Flags V).
                  (MemoryRepository.get later key r.1).0)
                sent
              ∙ (get-set_ttl now later key value (ttl * 1000) flags le (omega arith)).0),
        )
