-- ===== src/Callbacks/Delivery/Sent.antt =====
-- What the request of a delivery holds, by its definition, and why there is none.
use mocko.Base.{
  ◌≡◌, refl, sym, subst, inl, inr, ◌⊎◌, Text, true, false, ◌||◌, Option, none, some, List, [], ◌∷◌,
  any, arith, text_eq, is_empty, is_some, or_else, Option-cases, Bool-cases,
}
use mocko.Base.Result.{Result, err, ok, ◌>>=◌, >>=-eq-ok, >>=-eq-err, Result-cases}
use mocko.Base.Dict
use mocko.Base.Dict.{Dict}
use mocko.Definitions.Data.{Callback, Host}
use mocko.Definitions.Hosts.{find_host_by_slug}
use mocko.Callbacks.Delivery.{
  DeliveryError, no_definition, no_host, no_destination, thrown, Request, rendered, resolve_url,
  render_body, render_each, render_headers, request_of, join_url, is_content_type,
}
use mocko.Callbacks.Delivery.Headers.{render_headers-content_type}

abbrev pub url_of : Callback → Text
url_of definition = or_else definition.url []

module _ {E : Type 0} (render : Text → Result E Text) where
  -- The rendered URL, or the rendered path behind the destination of the host.
  abbrev pub HasUrl : Callback → List Host → Text → Type 0
  HasUrl definition hosts url =
      ((is_empty (url_of definition) ≡ false) × (render (url_of definition) ≡ ok url))
      ⊎ ((is_empty (url_of definition) ≡ true)
          × ((host : Host) × ((find_host_by_slug hosts (or_else definition.host []) ≡ some host)
                × ((is_empty (or_else host.destination []) ≡ false)
                    × ((path : Text) × ((render (or_else definition.path []) ≡ ok path)
                          × (url ≡ join_url (or_else host.destination []) path)))))))

  abbrev pub HasPayload : Option Text → Option Text → Type 0
  HasPayload none payload = payload ≡ none
  HasPayload (some body) payload = (text : Text) × ((render body ≡ ok text) × (payload ≡ some text))

  -- A request made of a definition.
  pub record IsMadeOf (definition : Callback) (hosts : List Host) (sent : Request) : Type 0 where
    pub method : sent.method ≡ definition.method
    pub url : HasUrl definition hosts sent.url
    pub payload : HasPayload definition.body sent.payload
    pub content_type :
        any is_content_type (Dict.keys sent.headers)
        ≡ (is_some sent.payload || any is_content_type (Dict.keys definition.headers))

  -- Why no request can be made of a definition: there is no such host, or it has no destination, or a
  -- template throws.
  abbrev pub Fails : Callback → List Host → DeliveryError E → Type 0
  Fails definition hosts no_definition = true ≡ false
  Fails definition hosts no_host =
      (is_empty (url_of definition) ≡ true)
      × (find_host_by_slug hosts (or_else definition.host []) ≡ none)
  Fails definition hosts no_destination =
      (is_empty (url_of definition) ≡ true)
      × ((host : Host) × ((find_host_by_slug hosts (or_else definition.host []) ≡ some host)
            × (is_empty (or_else host.destination []) ≡ true)))
  Fails definition hosts (thrown t) = (template : Text) × (render template ≡ err t)

  abbrev Throws : DeliveryError E → Type 0
  Throws e = (t : E) × (e ≡ thrown t) × ((template : Text) × (render template ≡ err t))

  Throws-Fails :
      (definition : Callback) (hosts : List Host) (e : DeliveryError E)
      → Throws e
      → Fails definition hosts e
  Throws-Fails definition hosts e (t, same, failed) =
      subst (Fails definition hosts) (sym same) failed

  rendered-ok : (template t : Text) → rendered render template ≡ ok t → render template ≡ ok t
  unfolding rendered
  rendered-ok template t h = elim (Result-cases (render template)) [
    | inl (e, failed) ↦ ground arith
    | inr (text, there) ↦ ground arith
  ]

  rendered-err :
      (template : Text) (e : DeliveryError E) → rendered render template ≡ err e → Throws e
  unfolding rendered
  rendered-err template e h = elim (Result-cases (render template)) [
    | inl (t, failed) ↦ (t, ground arith, (template, failed))
    | inr (text, there) ↦ absurd (ground arith)
  ]

  resolve_url-ok :
      (definition : Callback) (hosts : List Host) (url : Text)
      → resolve_url render definition hosts ≡ ok url
      → HasUrl definition hosts url
  unfolding resolve_url
  resolve_url-ok definition hosts url h = elim (Bool-cases (is_empty (url_of definition))) [
    | inr given ↦ inl (given, rendered-ok (url_of definition) url (ground arith))
    | inl left_out ↦ elim (Option-cases (find_host_by_slug hosts (or_else definition.host []))) [
      | inl n ↦ absurd (ground arith)
      | inr (host, there) ↦ elim (Bool-cases (is_empty (or_else host.destination []))) [
        | inl lacking ↦ absurd (ground arith)
        | inr found ↦
            let chain : (rendered render (or_else definition.path [])
                  >>= (λ path. ok (join_url (or_else host.destination []) path)))
                ≡ ok url =
              ground arith in
            let (path, now, later) =
              >>=-eq-ok (rendered render (or_else definition.path [])) _ chain in
            inr (left_out, (host, (there, (found, (path, (rendered-ok _ path now, cc))))))
      ]
    ]
  ]

  resolve_url-err :
      (definition : Callback) (hosts : List Host) (e : DeliveryError E)
      → resolve_url render definition hosts ≡ err e
      → Fails definition hosts e
  unfolding resolve_url
  resolve_url-err definition hosts e h = elim (Bool-cases (is_empty (url_of definition))) [
    | inr given ↦
        Throws-Fails definition hosts e (rendered-err (url_of definition) e (ground arith))
    | inl left_out ↦ elim (Option-cases (find_host_by_slug hosts (or_else definition.host []))) [
      | inl n ↦
          let same : no_host ≡ e = ground arith in subst (Fails definition hosts) same (left_out, n)
      | inr (host, there) ↦ elim (Bool-cases (is_empty (or_else host.destination []))) [
        | inl lacking ↦
            let same : no_destination ≡ e = ground arith in
            subst (Fails definition hosts) same (left_out, (host, (there, lacking)))
        | inr found ↦
            let chain : (rendered render (or_else definition.path [])
                  >>= (λ path. ok (join_url (or_else host.destination []) path)))
                ≡ err e =
              ground arith in
            Throws-Fails definition hosts e
              (elim (>>=-eq-err (rendered render (or_else definition.path [])) _ chain) [
                | inl now ↦ rendered-err _ e now
                | inr (path, now, later) ↦ cc
              ])
      ]
    ]
  ]

  render_body-ok :
      (body payload : Option Text) → render_body render body ≡ ok payload → HasPayload body payload
  unfolding render_body
  render_body-ok none payload h = cc
  render_body-ok (some body) payload h =
      let (text, now, later) = >>=-eq-ok (rendered render body) _ h in
      (text, (rendered-ok body text now, cc))

  render_body-err :
      (body : Option Text) (e : DeliveryError E) → render_body render body ≡ err e → Throws e
  unfolding render_body
  render_body-err none e h = cc
  render_body-err (some body) e h = elim (>>=-eq-err (rendered render body) _ h) [
    | inl now ↦ rendered-err body e now
    | inr (text, now, later) ↦ cc
  ]

  render_each-err :
      (entries headers : Dict Text Text) (e : DeliveryError E)
      → render_each render entries headers ≡ err e
      → Throws e
  unfolding render_each
  render_each-err [] headers e h = cc
  render_each-err ((key, value) ∷ entries) headers e h =
      elim (>>=-eq-err (rendered render value) _ h) [
        | inl now ↦ rendered-err value e now
        | inr (text, now, later) ↦ render_each-err entries (Dict.set key text headers) e later
      ]

  render_headers-err :
      (definition : Callback) (body : Option Text) (e : DeliveryError E)
      → render_headers render definition body ≡ err e
      → Throws e
  unfolding render_headers
  render_headers-err definition body e h =
      elim (>>=-eq-err (render_each render definition.headers []) _ h) [
        | inl now ↦ render_each-err definition.headers [] e now
        | inr (headers, now, later) ↦ cc
      ]

  pub request_of-ok :
      (definition : Callback) (hosts : List Host) (sent : Request)
      → request_of render definition hosts ≡ ok sent
      → IsMadeOf definition hosts sent
  unfolding request_of
  request_of-ok definition hosts sent h =
      let (url, u, h) = >>=-eq-ok (resolve_url render definition hosts) _ h in
      let (body, b, h) = >>=-eq-ok (render_body render definition.body) _ h in
      let (headers, s, h) = >>=-eq-ok (render_headers render definition body) _ h in
      let made : Request = record {
        method = definition.method;
        url = url;
        payload = body;
        headers = headers;
      } in
      let same : made ≡ sent = cc in
      subst (IsMadeOf definition hosts) same (record {
        method = refl;
        url = resolve_url-ok definition hosts url u;
        payload = render_body-ok definition.body body b;
        content_type = (render_headers-content_type render definition body headers s).0;
      })

  pub request_of-err :
      (definition : Callback) (hosts : List Host) (e : DeliveryError E)
      → request_of render definition hosts ≡ err e
      → Fails definition hosts e
  unfolding request_of
  request_of-err definition hosts e h =
      elim (>>=-eq-err (resolve_url render definition hosts) _ h) [
        | inl now ↦ resolve_url-err definition hosts e now
        | inr (url, u, h) ↦
            Throws-Fails definition hosts e
              (elim (>>=-eq-err (render_body render definition.body) _ h) [
                | inl now ↦ render_body-err definition.body e now
                | inr (body, b, h) ↦ elim (>>=-eq-err (render_headers render definition body) _ h) [
                  | inl now ↦ render_headers-err definition body e now
                  | inr (headers, s, h) ↦ cc
                ]
              ])
      ]
