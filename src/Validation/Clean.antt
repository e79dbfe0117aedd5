-- ===== src/Validation/Clean.antt =====
-- When `validate` of mocko-core/src/validate.ts reports nothing.
use mocko.Base.{
  ◌≡◌, ◌↔◌, refl, ap, ◌∙◌, Text, txt, Bool, true, false, not, Option, none, some, List, [], ◌∷◌,
  map, filter, is_empty, All, Elem, ◌==◌, text_eq, arith, Elem-filter, inl, inr,
}
use mocko.Base.Result.{Result}
use mocko.Definitions.Data.{Mock, MockoDefinition}
use mocko.Diagnostics.{Diagnostic, DiagnosticsCollector}
use mocko.Routes.{ServerRoute, get_mock_routes}
use mocko.Diagnostics.Reports.{
  report_duplicate_slugs, report_conflicts, duplicate_slug, slug_key, route_conflict, route_key,
  is_routed,
}
use mocko.Validation.{
  slugs_of_hosts, slugs_of_callbacks, is_conflict, has_mock, is_redundant,
  without_redundant_conflicts, attach_files, collect_diagnostics, validate,
}
use mocko.Validation.Silence.{
  Silent, silent_then, silent_iff, Silent-push_when, IsFine, Silent-validate_mocks, HasKnownHost,
  Silent-validate_callbacks,
}
use mocko.Validation.Unique.{nil_of_none, HasUniqueKeys, Silent-report_groups}
use mocko.Validation.Mapping.{AreMapped, Silent-register_routes}

attach_files-nil :
    (ds : List Diagnostic) (mocks : List Mock) → (attach_files ds mocks ≡ []) ↔ (ds ≡ [])
unfolding attach_files
attach_files-nil [] mocks = (λ e. refl, λ e. refl)
attach_files-nil (d ∷ ds) mocks = (λ e. cc, λ e. cc)

filter-false :
    (p : Diagnostic → Bool) (ds : List Diagnostic)
    → filter p ds ≡ []
    → (d : Diagnostic) → Elem d ds
    → p d ≡ false
filter-false p [] h d m = elim m [ ]
filter-false p (x ∷ ds) h d (inl e) = rw e (ground arith)
filter-false p (x ∷ ds) h d (inr m) = filter-false p ds (ground arith) d m

other_code : (txt "route-conflict" == txt "route-mapping-failed") ≡ false
unfolding text_eq native.Mathlib.Decide.ℕ_discrete
other_code = refl

conflict_stays :
    (ms : List (Option Text)) (d : Diagnostic) → is_conflict d ≡ true → is_redundant ms d ≡ false
conflict_stays ms d h =
    let code : d.code ≡ txt "route-conflict" = ground arith in
    let other : (d.code == txt "route-mapping-failed") ≡ false = rw code other_code in rw other refl

has_mock-nil : (m : Option Text) → has_mock m [] ≡ false
has_mock-nil none = refl
has_mock-nil (some mock) = refl

none_redundant : (d : Diagnostic) → is_redundant [] d ≡ false
none_redundant d = ground (arith, has_mock-nil d.mock)

without_redundant_conflicts-nil :
    (ds : List Diagnostic) → (without_redundant_conflicts ds ≡ []) ↔ (ds ≡ [])
unfolding without_redundant_conflicts
without_redundant_conflicts-nil ds = (
  λ e.
      let ms = map (λ (d : Diagnostic). d.mock) (filter is_conflict ds) in
      let all_redundant = filter-false (λ d. not (is_redundant ms d)) ds e in
      let no_conflict : filter is_conflict ds ≡ [] = nil_of_none (filter is_conflict ds) (λ d m.
        let (there, h) = (Elem-filter is_conflict d ds).0 m in
        let gone = all_redundant d there in let stays = conflict_stays ms d h in cc) in
      let no_mocks : ms ≡ [] = ap (map (λ (d : Diagnostic). d.mock)) no_conflict in
      nil_of_none ds (λ d m.
        let gone = all_redundant d m in
        let stays : is_redundant ms d ≡ false =
          ap (λ l. is_redundant l d) no_mocks ∙ none_redundant d in
        cc),
  λ e. rw e refl,
)

module _ {Server : Type 0} (add : ServerRoute → Server → Result Text Server)
    (parse_template : Text → Option Text) {A : Type 0} where
  -- There are mocks. Each has a path that is not reserved, a body that is a template and a host that is
  -- known, if it names one; the callbacks of files name hosts that are known; no two enabled mocks have
  -- one route, no two hosts or callbacks of files one slug; and the server takes the routes, whose paths
  -- hold nothing that looks like a parameter of another router.
  pub record IsClean (app : Server) (loaded file : MockoDefinition A) : Type 0 where
    pub some_mocks : is_empty loaded.mocks ≡ false
    pub fine : All (IsFine parse_template loaded.hosts) loaded.mocks
    pub hosts_known : All (HasKnownHost parse_template loaded.hosts) file.callbacks
    pub unique_routes :
        HasUniqueKeys route_conflict (route_key loaded.hosts) (filter is_routed loaded.mocks)
    pub unique_hosts :
        HasUniqueKeys (duplicate_slug (txt "host")) slug_key (slugs_of_hosts file.hosts)
    pub unique_callbacks :
        HasUniqueKeys (duplicate_slug (txt "callback")) slug_key (slugs_of_callbacks file.callbacks)
    pub mapped : AreMapped add (get_mock_routes loaded) app

  Silent-collect :
      (folder : Text) (app : Server) (loaded file : MockoDefinition A)
      → Silent
          (collect_diagnostics add parse_template folder app loaded file)
          (IsClean app loaded file)
  unfolding collect_diagnostics report_conflicts report_duplicate_slugs
  Silent-collect folder app loaded file =
      silent_iff (collect_diagnostics add parse_template folder app loaded file) _
        (IsClean app loaded file)
        (silent_then _ _ _ _
          (silent_then _ _ _ _
            (silent_then _ _ _ _
              (silent_then _ _ _ _
                (silent_then _ _ _ _
                  (silent_then _ _ _ _ (Silent-push_when (is_empty loaded.mocks) _)
                    (Silent-validate_mocks parse_template loaded.hosts loaded.mocks))
                  (Silent-validate_callbacks parse_template loaded.hosts file.callbacks))
                (Silent-report_groups route_conflict (route_key loaded.hosts)
                  (filter is_routed loaded.mocks)))
              (Silent-report_groups (duplicate_slug (txt "host")) slug_key
                (slugs_of_hosts file.hosts)))
            (Silent-report_groups (duplicate_slug (txt "callback")) slug_key
              (slugs_of_callbacks file.callbacks)))
          (Silent-register_routes add (get_mock_routes loaded) app))
        (
          λ ((((((a, b), c), d), e), f), g). record {
            some_mocks = a;
            fine = b;
            hosts_known = c;
            unique_routes = d;
            unique_hosts = e;
            unique_callbacks = f;
            mapped = g;
          },
          λ h. (
            (
              (((((h.some_mocks, h.fine), h.hosts_known), h.unique_routes), h.unique_hosts)),
              h.unique_callbacks,
            ),
            h.mapped,
          ),
        )

  -- With an enabled collector, `validate` answers no diagnostics exactly if the loading reported none
  -- and the definitions are clean: taking out what conflicts already tell hides no problem.
  pub validate_lem :
      (folder : Text) (app : Server) (loaded file : MockoDefinition A) (c : DiagnosticsCollector)
      → c.enabled ≡ true
      → ((validate add parse_template folder app loaded file c).diagnostics ≡ [])
        ↔ ((c.items ≡ []) × IsClean app loaded file)
  unfolding validate
  validate_lem folder app loaded file c on =
      let collected = collect_diagnostics add parse_template folder app loaded file c in
      let (_, iff) = Silent-collect folder app loaded file c on in
      let kept = without_redundant_conflicts-nil collected.items in
      let shown = attach_files-nil (without_redundant_conflicts collected.items) loaded.mocks in
      (λ e. iff.0 (kept.0 (shown.0 e)), λ h. shown.1 (kept.1 (iff.1 h)))
