-- ===== src/Callbacks/Delivery/Headers.antt =====
-- The headers of a delivery.
use mocko.Base.{
  ◌≡◌, refl, ap, ◌∙◌, sym, Text, txt, Bool, true, false, not, ◌&&◌, ◌||◌, Option, some, [], ◌∷◌,
  any, arith, is_some, to_lower_case, text_eq, if◌then◌else◌,
}
use native.Mathlib.Decide.{ℕ_discrete}
use mocko.Base.Result.{Result, ok, >>=-eq-ok}
use mocko.Base.Dict
use mocko.Base.Dict.{Dict, get-set_self}
use mocko.Definitions.Data.{Callback}
use mocko.Callbacks.Delivery.{is_content_type, rendered, render_each, render_headers}

any-set :
    (test : Text → Bool) (key value : Text) (d : Dict Text Text)
    → any test (Dict.keys (Dict.set key value d)) ≡ (test key || any test (Dict.keys d))
unfolding Dict.set
any-set test key value [] = ground arith
any-set test key value ((j, w) ∷ d) = ground (arith, any-set test key value d)

ok_inj : {E A : Type 0} {a c : A} → Path (Result E A) (ok a) (ok c) → a ≡ c
ok_inj e = cc

is_content_type_added : is_content_type (txt "Content-Type") ≡ true
unfolding to_lower_case text_eq ℕ_discrete
is_content_type_added = refl

abbrev with_default : Option Text → Dict Text Text → Dict Text Text
with_default body headers =
    if is_some body && not (any is_content_type (Dict.keys headers))
    then Dict.set (txt "Content-Type") (txt "application/json") headers
    else headers

content_type_after :
    (body : Option Text) (headers : Dict Text Text)
    → any is_content_type (Dict.keys (with_default body headers))
      ≡ (is_some body || any is_content_type (Dict.keys headers))
content_type_after body headers = ground (
  arith,
  is_content_type_added,
  any-set is_content_type (txt "Content-Type") (txt "application/json") headers,
)

get_added :
    (body : Option Text) (headers : Dict Text Text)
    → any is_content_type (Dict.keys headers) ≡ false
    → is_some body ≡ true
    → Dict.get (txt "Content-Type") (with_default body headers) ≡ some (txt "application/json")
get_added body headers unset some_body =
    ground (arith, get-set_self (txt "Content-Type") (txt "application/json") headers)

module _ {E : Type 0} (render : Text → Result E Text) where
  render_each-any :
      (test : Text → Bool) (entries headers out : Dict Text Text)
      → render_each render entries headers ≡ ok out
      → any test (Dict.keys out) ≡ (any test (Dict.keys headers) || any test (Dict.keys entries))
  unfolding render_each
  render_each-any test [] headers out h = ground arith
  render_each-any test ((key, value) ∷ entries) headers out h =
      let (text, now, later) = >>=-eq-ok (rendered render value) _ h in
      render_each-any test entries (Dict.set key text headers) out later
      ∙ ground (arith, any-set test key text headers)

  -- Headers that are rendered have a content type exactly if the callback sets one, in any case of
  -- letters, or there is a body; with a body and none set it is JSON.
  pub render_headers-content_type :
      (definition : Callback) (body : Option Text) (out : Dict Text Text)
      → render_headers render definition body ≡ ok out
      → (any is_content_type (Dict.keys out)
          ≡ (is_some body || any is_content_type (Dict.keys definition.headers)))
        × (any is_content_type (Dict.keys definition.headers) ≡ false
            → is_some body ≡ true
            → Dict.get (txt "Content-Type") out ≡ some (txt "application/json"))
  unfolding render_headers
  render_headers-content_type definition body out h =
      let (headers, each, end) = >>=-eq-ok (render_each render definition.headers []) _ h in
      let set_already : any is_content_type (Dict.keys headers)
          ≡ any is_content_type (Dict.keys definition.headers) =
        render_each-any is_content_type definition.headers [] headers each in
      let final : (if is_some body && not (any is_content_type (Dict.keys headers))
            then Dict.set (txt "Content-Type") (txt "application/json") headers
            else headers)
          ≡ out =
        ok_inj end in
      (
        ap (λ d. any is_content_type (Dict.keys d)) (sym final)
            ∙ content_type_after body headers
            ∙ ap (λ x. is_some body || x) set_already,
        λ unset some_body.
            ap (Dict.get (txt "Content-Type")) (sym final)
            ∙ get_added body headers (set_already ∙ unset) some_body,
      )
