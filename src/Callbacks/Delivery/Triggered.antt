-- ===== src/Callbacks/Delivery/Triggered.antt =====
-- A callback that callback.service.ts lets be triggered has all that its delivery looks up.
use mocko.Base.{
  ◌≡◌, refl, ap, ◌∙◌, sym, subst, inl, inr, ◌⊎◌, Text, true, false, Option, none, some, [], ◌∷◌,
  arith, text_eq, is_empty, or_else, Option-cases, Bool-cases,
}
use mocko.Base.Result.{Result, err, ok, ◌>>=◌}
use mocko.Base.Dict
use mocko.Base.Dict.{Dict}
use mocko.Definitions.Data.{Callback, Host, MockoDefinition, DataBlocks}
use mocko.Definitions.Hosts.{find_host_by_slug, find_callback_by_slug}
use mocko.Callbacks.Pending.{PendingCallback}
use mocko.Callbacks.Service.{Boom, assert_host, assert_triggerable}
use mocko.Callbacks.Delivery.{
  DeliveryError, thrown, rendered, resolve_url, render_body, render_each, render_headers, prepare,
  request_of, join_url,
}

-- What fails in a call is a call of the renderer.
abbrev pub OnlyThrows : {E A : Type 0} → Result (DeliveryError E) A → Type 0
OnlyThrows {E} (err e) = (t : E) × (e ≡ thrown t)
OnlyThrows (ok a) = Unit

OnlyThrows-bind :
    {E A B : Type 0} (r : Result (DeliveryError E) A) (rest : A → Result (DeliveryError E) B)
    → OnlyThrows r
    → ((a : A) → OnlyThrows (rest a))
    → OnlyThrows (r >>= rest)
OnlyThrows-bind (err e) rest h k = h
OnlyThrows-bind (ok a) rest h k = k a

-- The validation's rule: a URL, or a host.
abbrev pub HasTarget : Callback → Type 0
HasTarget definition =
    (is_empty (or_else definition.url []) ≡ false)
    ⊎ ((name : Text) × (definition.host ≡ some name) × (is_empty name ≡ false))

module _ {E : Type 0} (render : Text → Result E Text) where
  rendered-OnlyThrows : (template : Text) → OnlyThrows (rendered render template)
  unfolding rendered
  rendered-OnlyThrows template =
      elim (render template)
        as (λ r.
          OnlyThrows {E = E} {A = Text} (elim r [ err e ↦ err (thrown e) | ok text ↦ ok text ])) [
            | err e ↦ (e, refl)
            | ok text ↦ tt
          ]

  render_each-OnlyThrows :
      (entries headers : Dict Text Text) → OnlyThrows (render_each render entries headers)
  unfolding render_each
  render_each-OnlyThrows [] headers = tt
  render_each-OnlyThrows ((key, value) ∷ entries) headers =
      OnlyThrows-bind (rendered render value) _ (rendered-OnlyThrows value)
        (λ text. render_each-OnlyThrows entries (Dict.set key text headers))

  render_headers-OnlyThrows :
      (definition : Callback) (body : Option Text)
      → OnlyThrows (render_headers render definition body)
  unfolding render_headers
  render_headers-OnlyThrows definition body =
      OnlyThrows-bind (render_each render definition.headers []) _
        (render_each-OnlyThrows definition.headers []) (λ headers. tt)

  render_body-OnlyThrows : (body : Option Text) → OnlyThrows (render_body render body)
  unfolding render_body
  render_body-OnlyThrows none = tt
  render_body-OnlyThrows (some body) =
      OnlyThrows-bind (rendered render body) _ (rendered-OnlyThrows body) (λ text. tt)

  module _ {A : Type 0} (definitions : MockoDefinition A) (definition : Callback) where
    host_found :
        (name : Text)
        → is_empty name ≡ false
        → assert_host definitions (some name) ≡ ok tt
        → (host : Host) × (find_host_by_slug definitions.hosts name ≡ some host)
          × (is_empty (or_else host.destination []) ≡ false)
    unfolding assert_host
    host_found name full passed = elim (Option-cases (find_host_by_slug definitions.hosts name)) [
      | inl n ↦ absurd (ground arith)
      | inr (host, e) ↦ (host, e, ground arith)
    ]

    host_url :
        (name : Text) (host : Host)
        → is_empty (or_else definition.url []) ≡ true
        → definition.host ≡ some name
        → find_host_by_slug definitions.hosts name ≡ some host
        → is_empty (or_else host.destination []) ≡ false
        → resolve_url render definition definitions.hosts ≡ (
            rendered render (or_else definition.path [])
            >>= (λ path. ok (join_url (or_else host.destination []) path)))
    unfolding resolve_url
    host_url name host no_url named found destination =
        let found' : find_host_by_slug definitions.hosts (or_else definition.host []) ≡ some host =
          ap (λ o. find_host_by_slug definitions.hosts (or_else o [])) named ∙ found in
        ground arith

    resolve_url-OnlyThrows :
        HasTarget definition
        → assert_host definitions definition.host ≡ ok tt
        → OnlyThrows (resolve_url render definition definitions.hosts)
    resolve_url-OnlyThrows target passed =
        elim (Bool-cases (is_empty (or_else definition.url []))) [
          | inr url ↦
              let eq : resolve_url render definition definitions.hosts
                  ≡ rendered render (or_else definition.url []) =
                unfold resolve_url in ground arith in
              subst OnlyThrows (sym eq) (rendered-OnlyThrows (or_else definition.url []))
          | inl no_url ↦ elim target [
            | inl url ↦ absurd (ground arith)
            | inr (name, named, full) ↦
                let passed' : assert_host definitions (some name) ≡ ok tt =
                  ap (assert_host definitions) (sym named) ∙ passed in
                let (host, found, destination) = host_found name full passed' in
                subst OnlyThrows (sym (host_url name host no_url named found destination)) (
                  OnlyThrows-bind (rendered render (or_else definition.path [])) _
                    (rendered-OnlyThrows (or_else definition.path [])) (λ path. tt))
          ]
        ]

    request_of-OnlyThrows :
        HasTarget definition
        → assert_host definitions definition.host ≡ ok tt
        → OnlyThrows (request_of render definition definitions.hosts)
    unfolding request_of
    request_of-OnlyThrows target passed =
        OnlyThrows-bind (resolve_url render definition definitions.hosts) _
          (resolve_url-OnlyThrows target passed)
          (λ url.
            OnlyThrows-bind (render_body render definition.body) _
              (render_body-OnlyThrows definition.body)
              (λ body.
                OnlyThrows-bind (render_headers render definition body) _
                  (render_headers-OnlyThrows definition body) (λ headers. tt)))

-- A callback with a target whose definition passes the check for triggering, from the same definitions,
-- is dropped before its request only where the rendering of a template throws.
pub prepare-OnlyThrows :
    {A E P : Type 0} (render : PendingCallback P → Option (DataBlocks A) → Text → Result E Text)
    (definitions : MockoDefinition A) (pending : PendingCallback P) (definition : Callback)
    (missing : Boom)
    → find_callback_by_slug definitions.callbacks pending.slug ≡ some definition
    → HasTarget definition
    → assert_triggerable definitions pending.slug missing ≡ ok tt
    → OnlyThrows (prepare render definitions pending)
unfolding assert_triggerable prepare
prepare-OnlyThrows render definitions pending definition missing found target passed =
    let render_here = render pending definitions.data_blocks in
    let eq : prepare render definitions pending
        ≡ request_of render_here definition definitions.hosts =
      ground arith in
    subst OnlyThrows (sym eq)
      (request_of-OnlyThrows render_here definitions definition target (ground arith))
