-- ===== src/Validation/Silence.antt =====
-- Which steps of validate.ts report nothing: the checks of one mock or callback.
use mocko.Base.{
  ◌≡◌, ◌↔◌, ◌≢◌, refl, Text, Bool, true, false, not, Option, none, some, List, [], ◌∷◌, ◌++◌,
  is_some, All, text_eq, arith,
}
use mocko.Definitions.Data.{Mock, Host, Callback}
use mocko.Definitions.Hosts.{find_host_by_slug, find_host_by_slug_or_source}
use mocko.Diagnostics.{Diagnostic, DiagnosticsCollector, push}
use mocko.Routes.{is_reserved_path}
use mocko.Diagnostics.Reports.{
  named, push_when, push_unknown, push_thrown, validate_reserved_path, validate_host_reference,
  validate_callback_host_reference,
}
use mocko.Validation.{validate_template, validate_mocks, validate_callbacks}

-- A step on an enabled collector, which keeps what it has, and adds nothing exactly if `P`.
abbrev pub Silent : (DiagnosticsCollector → DiagnosticsCollector) → Type 0 → Type 0
Silent step P =
    (c : DiagnosticsCollector)
    → c.enabled ≡ true
    → ((step c).enabled ≡ true) × (((step c).items ≡ []) ↔ ((c.items ≡ []) × P))

pub silent_then :
    (f g : DiagnosticsCollector → DiagnosticsCollector) (P Q : Type 0)
    → Silent f P
    → Silent g Q
    → Silent (λ c. g (f c)) (P × Q)
silent_then f g P Q hf hg c on =
    let (on_f, iff_f) = hf c on in
    let (on_g, iff_g) = hg (f c) on_f in
    (
      on_g,
      (
        λ e. let (e_f, q) = iff_g.0 e in let (e_c, p) = iff_f.0 e_f in (e_c, (p, q)),
        λ (e_c, (p, q)). iff_g.1 (iff_f.1 (e_c, p), q),
      ),
    )

pub silent_iff :
    (f : DiagnosticsCollector → DiagnosticsCollector) (P Q : Type 0)
    → Silent f P
    → P ↔ Q
    → Silent f Q
silent_iff f P Q h e c on =
    let (on_f, iff) = h c on in
    (on_f, (λ n. let (n_c, p) = iff.0 n in (n_c, e.0 p), λ (n_c, q). iff.1 (n_c, e.1 q)))

pub silent_skip : (P : Type 0) → P → Silent (λ c. c) P
silent_skip P p c on = (on, (λ e. (e, p), λ (e, _). e))

append-ne-nil : (ds : List Diagnostic) (d : Diagnostic) → ds ++ d ∷ [] ≢ []
append-ne-nil [] d e = cc
append-ne-nil (x ∷ ds) d e = cc

pub Silent-push : (d : Diagnostic) (P : Type 0) → (P → ⊥) → Silent (push d) P
unfolding push
Silent-push d P never c on = (
  ground arith,
  (λ e. absurd (append-ne-nil c.items d (ground arith)), λ (e, p). absurd (never p)),
)

pub Silent-push_when : (test : Bool) (d : Diagnostic) → Silent (push_when test d) (test ≡ false)
Silent-push_when false d = silent_skip (false ≡ false) refl
Silent-push_when true d = Silent-push d (true ≡ false) (λ e. cc)

Silent-push_thrown :
    (mock : Mock) (thrown : Option Text) → Silent (push_thrown mock thrown) (thrown ≡ none)
Silent-push_thrown mock none = silent_skip (none ≡ none) refl
Silent-push_thrown mock (some message) = Silent-push _ (some message ≡ none) (λ e. cc)

-- A reference names a host that is known, or there is none.
abbrev pub IsKnown : (Text → Bool) → Option Text → Type 0
IsKnown is_known none = Unit
IsKnown is_known (some host) = is_known host ≡ true

Silent-push_unknown :
    (is_known : Text → Bool) (report : Text → Diagnostic) (reference : Option Text)
    → Silent (push_unknown is_known report reference) (IsKnown is_known reference)
Silent-push_unknown is_known report none = silent_skip Unit tt
Silent-push_unknown is_known report (some host) =
    silent_iff (push_when (not (is_known host)) (report host)) (not (is_known host) ≡ false)
      (is_known host ≡ true) (Silent-push_when (not (is_known host)) (report host)) (ground arith)

module _ (parse_template : Text → Option Text) (hosts : List Host) where
  -- Its path is not reserved, its body is a template, and its host is known.
  abbrev pub IsFine : Mock → Type 0
  IsFine mock =
      (is_reserved_path mock.path ≡ false)
      × ((parse_template mock.response.body ≡ none)
          × IsKnown (λ host. is_some (find_host_by_slug_or_source hosts host)) (named mock.host))

  pub Silent-validate_mocks :
      (mocks : List Mock) → Silent (validate_mocks parse_template mocks hosts) (All IsFine mocks)
  unfolding validate_mocks validate_reserved_path validate_template validate_host_reference
  Silent-validate_mocks [] = silent_skip Unit tt
  Silent-validate_mocks (mock ∷ mocks) =
      let host = validate_host_reference mock hosts in
      let template = validate_template parse_template mock in
      silent_then (λ c. host (template (validate_reserved_path mock c)))
        (validate_mocks parse_template mocks hosts) (IsFine mock) (All IsFine mocks)
        (silent_iff (λ c. host (template (validate_reserved_path mock c))) _ (IsFine mock)
          (silent_then (λ c. template (validate_reserved_path mock c)) host _ _
            (silent_then (validate_reserved_path mock) template _ _
              (Silent-push_when (is_reserved_path mock.path) _)
              (Silent-push_thrown mock (parse_template mock.response.body)))
            (Silent-push_unknown _ _ (named mock.host)))
          (λ ((a, b), c). (a, (b, c)), λ (a, (b, c)). ((a, b), c)))
        (Silent-validate_mocks mocks)

  abbrev pub HasKnownHost : Callback → Type 0
  HasKnownHost callback =
      IsKnown (λ host. is_some (find_host_by_slug hosts host)) (named callback.host)

  pub Silent-validate_callbacks :
      (callbacks : List Callback)
      → Silent (validate_callbacks callbacks hosts) (All HasKnownHost callbacks)
  unfolding validate_callbacks validate_callback_host_reference
  Silent-validate_callbacks [] = silent_skip Unit tt
  Silent-validate_callbacks (callback ∷ callbacks) =
      silent_then (validate_callback_host_reference callback hosts)
        (validate_callbacks callbacks hosts) (HasKnownHost callback) (All HasKnownHost callbacks)
        (Silent-push_unknown _ _ (named callback.host)) (Silent-validate_callbacks callbacks)
