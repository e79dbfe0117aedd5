-- ===== src/Definitions/Config/Checked.antt =====
-- What the checks of mocko-core/src/definitions/data let through, and what their errors tell.
use mocko.Base.{
  ◌≢◌, refl, true, is_empty, or_else, to_lower_case, any, ◌==◌, Text, ◌≡◌, ◌⊎◌, subst, false,
  Option, none, some, [], ◌∷◌, All, arith, text_eq, inl, inr, Bool-cases, Option-cases, txt,
}
use mocko.Base.Dict
use mocko.Base.Dict.{Dict}
use mocko.Base.Result.{Result, ok, err, >>=-eq-ok, >>-eq-ok, Result-cases}
use mocko.Definitions.Data.{Value, Mock, Host, Callback}
use mocko.Definitions.Stanzas.{
  Attribute, missing, null, text, no_entries, number, boolean, other, ConfigError, on_mock,
  on_callback, name_not_text, MockCandidate, HostCandidate, CallbackCandidate, located,
  format_conflicts, trimmed_name,
}
use mocko.Definitions.Config.{
  mock_from_config, callback_from_config, validate_mock, validate_callback, assert_template_parses,
  assert_headers_parse,
}

located-ok :
    {A : Type 0} (on : Text → ConfigError) (r : Result Text A) (a : A)
    → located on r ≡ ok a
    → r ≡ ok a
located-ok on (ok b) a h = cc
located-ok on (err message) a h = cc

located-err :
    {A : Type 0} (on : Text → ConfigError) (r : Result Text A) (e : ConfigError)
    → located on r ≡ err e
    → (message : Text) × (e ≡ on message)
located-err on (ok b) e h = cc
located-err on (err message) e h = (message, cc)

trimmed_name-err :
    {A : Type 0} (req : Text) (name : Attribute A) (e : ConfigError)
    → trimmed_name req name ≡ err e
    → e ≡ name_not_text req
unfolding trimmed_name
trimmed_name-err req missing e h = cc
trimmed_name-err req null e h = cc
trimmed_name-err req (text t) e h = cc
trimmed_name-err req no_entries e h = cc
trimmed_name-err req (number n) e h = cc
trimmed_name-err req (boolean b) e h = cc
trimmed_name-err req (other a) e h = cc

-- A mock has no format, or none of its headers is Content-Type, in any case of letters.
abbrev pub HasOneType : Mock → Type 0
HasOneType mock =
    (is_empty (or_else mock.format []) ≡ true)
    ⊎ All (λ (header : Text × Text). to_lower_case header.0 ≢ txt "content-type")
        mock.response.headers

free_of :
    (headers : Dict Text Text)
    → any (λ key. to_lower_case key == txt "content-type") (Dict.keys headers) ≡ false
    → All (λ (header : Text × Text). to_lower_case header.0 ≢ txt "content-type") headers
free_of [] h = tt
free_of ((key, value) ∷ headers) h = (λ same. ground arith, free_of headers (ground arith))

format_conflicts-HasOneType : (mock : Mock) → format_conflicts mock ≡ false → HasOneType mock
unfolding format_conflicts
format_conflicts-HasOneType mock h = elim (Option-cases mock.format) [
  | inl n ↦ inl (rw n refl)
  | inr (format, e) ↦ elim (Bool-cases (is_empty format)) [
    | inl empty ↦ inl (rw e empty)
    | inr given ↦ inr (free_of mock.response.headers (ground arith))
  ]
]

module _ {A : Type 0} (attribute : A → Text → Attribute A)
    (mock_schema : MockCandidate A → Result Text Mock)
    (host_schema : HostCandidate A → Result Text Host)
    (callback_schema : CallbackCandidate A → Result Text Callback)
    (parse_template : Text → Option Text) where
  abbrev pub Parses : Option Text → Type 0
  Parses none = Unit {0}
  Parses (some template) = parse_template template ≡ none

  pub record IsTemplated (callback : Callback) : Type 0 where
    pub path : Parses callback.path
    pub url : Parses callback.url
    pub body : Parses callback.body
    pub headers : All (λ (header : Text × Text). parse_template header.1 ≡ none) callback.headers

  abbrev template_parses : Text → Option Text → Result Text (Unit {0})
  unfolding assert_template_parses
  template_parses =
      assert_template_parses attribute mock_schema host_schema callback_schema parse_template

  assert_template-Parses :
      (field : Text) (t : Option Text) (u : Unit {0}) → template_parses field t ≡ ok u → Parses t
  unfolding assert_template_parses
  assert_template-Parses field none u h = tt
  assert_template-Parses field (some template) u h = ground arith

  abbrev headers_parse : Dict Text Text → Result Text (Unit {0})
  unfolding assert_headers_parse
  headers_parse =
      assert_headers_parse attribute mock_schema host_schema callback_schema parse_template

  assert_headers-Parse :
      (headers : Dict Text Text) (u : Unit {0})
      → assert_headers_parse attribute mock_schema host_schema callback_schema parse_template
          headers
        ≡ ok u
      → All (λ (header : Text × Text). parse_template header.1 ≡ none) headers
  unfolding assert_headers_parse
  assert_headers-Parse [] u h = tt
  assert_headers-Parse ((key, value) ∷ headers) u h = elim (Option-cases (parse_template value)) [
    | inl n ↦ (n, assert_headers-Parse headers u (ground arith))
    | inr (message, e) ↦ absurd (ground arith)
  ]

  callback-IsTemplated :
      (candidate : CallbackCandidate A) (callback : Callback)
      → validate_callback attribute mock_schema host_schema callback_schema parse_template candidate
        ≡ ok callback
      → IsTemplated callback
  unfolding validate_callback
  callback-IsTemplated candidate callback h =
      let (value, schema, checked) = >>=-eq-ok (callback_schema candidate) _ h in
      let (path, read_path) = >>-eq-ok (template_parses (txt "path") value.path) _ checked in
      let (url, read_url) = >>-eq-ok (template_parses (txt "url") value.url) _ read_path in
      let (body, read_body) = >>-eq-ok (template_parses (txt "body") value.body) _ read_url in
      let (headers, returned) = >>-eq-ok (headers_parse value.headers) _ read_body in
      let same : value ≡ callback = cc in
      subst IsTemplated same (record {
        path = assert_template-Parses (txt "path") value.path tt path;
        url = assert_template-Parses (txt "url") value.url tt url;
        body = assert_template-Parses (txt "body") value.body tt body;
        headers = assert_headers-Parse value.headers tt headers;
      })

  pub callback-Checked :
      (block : Text × Value A) (callback : Callback)
      → callback_from_config attribute mock_schema host_schema callback_schema parse_template block
        ≡ ok callback
      → IsTemplated callback
  unfolding callback_from_config
  callback-Checked (slug, data_value) callback h =
      callback-IsTemplated _ callback (located-ok (on_callback slug) _ callback h)

  pub mock-HasNoConflict :
      (block : Text × A) (mock : Mock)
      → mock_from_config attribute mock_schema host_schema callback_schema parse_template block
        ≡ ok mock
      → HasOneType mock
  unfolding mock_from_config validate_mock
  mock-HasNoConflict (req, res) mock h =
      let (name, named, validated) =
        >>=-eq-ok (trimmed_name req (attribute res (txt "name"))) _ h in
      let (value, schema, checked) =
        >>=-eq-ok (mock_schema _) _ (located-ok (on_mock req) _ mock validated) in
      elim (Bool-cases (format_conflicts value)) [
        | inl conflict ↦ absurd (ground arith)
        | inr free ↦
            let same : value ≡ mock = ground arith in
            format_conflicts-HasOneType mock (subst (λ m. format_conflicts m ≡ false) same free)
      ]

  -- the error of a block tells its method and path, or that its name is no text
  abbrev pub TellsOf : Text × A → ConfigError → Type 0
  TellsOf (req, res) e = ((message : Text) × (e ≡ on_mock req message)) ⊎ (e ≡ name_not_text req)

  pub mock-Names :
      (block : Text × A) (e : ConfigError)
      → mock_from_config attribute mock_schema host_schema callback_schema parse_template block
        ≡ err e
      → TellsOf block e
  unfolding mock_from_config
  mock-Names (req, res) e h = elim (Result-cases (trimmed_name req (attribute res (txt "name")))) [
    | inl (thrown, failed) ↦
        inr (ground (arith, trimmed_name-err req (attribute res (txt "name")) thrown failed))
    | inr (name, named) ↦ inl (located-err (on_mock req) _ e (rw named at h))
  ]
