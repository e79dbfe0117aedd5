-- ===== src/Validation.antt =====
-- mocko-core/src/validate.ts, `mocko validate`: the checks of the loaded definitions and what is
-- reported. The parser of templates (its message, if it throws) and the server of Hapi are arguments.
pub mod Conflicts
pub mod Silence
pub mod Unique
pub mod Mapping
pub mod Clean
use mocko.Base.{
  ℕ, Text, txt, Bool, true, false, not, ◌&&◌, ◌||◌, Option, none, some, List, [], ◌∷◌, ◌++◌, map,
  filter, any, length, is_empty, is_some, includes, contains, to_lower_case, or_else, ◌==◌, text_eq,
  if◌then◌else◌,
}
use mocko.Base.Dict
use mocko.Base.Dict.{Dict}
use mocko.Base.Grouping.{group_items}
use mocko.Base.Result.{Result}
use mocko.Definitions.Data.{Mock, Host, Callback, MockoDefinition}
use mocko.Definitions.Hosts.{find_host_by_slug, find_host_by_slug_or_source, resolve_vhost}
use mocko.Diagnostics.{Diagnostic, error, warning, DiagnosticsCollector, push, push_all}
use mocko.Diagnostics.Reports.{
  SlugDefinition, mock_name, named, push_thrown, push_when, report_conflicts,
  report_duplicate_slugs, validate_callback_host_reference, validate_host_reference,
  validate_reserved_path,
}
use mocko.Routes.{ServerRoute, is_reserved_path, get_mock_routes, register_routes}

abbrev pub is_conflict : Diagnostic → Bool
is_conflict d = d.code == txt "route-conflict"

-- `Set.has(d.mock)`: a missing mock is a value like any other
abbrev pub has_mock : Option Text → List (Option Text) → Bool
has_mock m [] = false
has_mock none (none ∷ ms) = true
has_mock none (some n ∷ ms) = has_mock none ms
has_mock (some m) (none ∷ ms) = has_mock (some m) ms
has_mock (some m) (some n ∷ ms) = n == m || has_mock (some m) ms

abbrev pub is_redundant : List (Option Text) → Diagnostic → Bool
is_redundant conflict_mocks d =
    d.code == txt "route-mapping-failed"
    && (includes d.message (txt "conflicts with existing") && has_mock d.mock conflict_mocks)

unfoldable pub without_redundant_conflicts : List Diagnostic → List Diagnostic
without_redundant_conflicts diagnostics =
    let conflict_mocks = map (λ (d : Diagnostic). d.mock) (filter is_conflict diagnostics) in
    filter (λ d. not (is_redundant conflict_mocks d)) diagnostics

-- the `files` of attachFiles: the first file with a mock of the name
unfoldable pub collect_files : List Mock → Dict Text Text → Dict Text Text
collect_files [] files = files
collect_files (mock ∷ mocks) files = collect_files mocks (elim (named mock.file_path) [
  | none ↦ files
  | some path ↦
      if is_some (Dict.get (mock_name mock) files)
      then files
      else Dict.set (mock_name mock) path files
])

unfoldable pub attach_file : Dict Text Text → Diagnostic → Diagnostic
attach_file files d = elim (named d.file) [
  | some file ↦ d
  | none ↦ elim (named d.mock) [ none ↦ d | some mock ↦ record d { file = Dict.get mock files } ]
]

unfoldable pub attach_files : List Diagnostic → List Mock → List Diagnostic
unfolding collect_files attach_file
attach_files diagnostics mocks =
    let files = collect_files mocks [] in map (attach_file files) diagnostics

-- adds to a `Set`, if there is a path
abbrev pub add_file : Option Text → List Text → List Text
add_file path files = elim (named path) [
  | none ↦ files
  | some file ↦ if contains files file then files else files ++ file ∷ []
]

unfoldable pub add_files : List (Option Text) → List Text → List Text
add_files [] files = files
add_files (path ∷ paths) files = add_files paths (add_file path files)

unfoldable pub count_files : List Diagnostic → List Mock → List Callback → ℕ
unfolding add_files
count_files diagnostics mocks callbacks = length (
    add_files (map (λ (d : Diagnostic). d.file) diagnostics) (
      add_files (map (λ (callback : Callback). callback.file_path) callbacks)
        (add_files (map (λ (mock : Mock). mock.file_path) mocks) [])))

pub record ValidationResult : Type 0 where
  pub diagnostics : List Diagnostic
  pub mock_count : ℕ
  pub file_count : ℕ

abbrev pub slugs_of_hosts : List Host → List SlugDefinition
slugs_of_hosts = map (λ (h : Host). record { slug = h.slug; file_path = h.file_path })

abbrev pub slugs_of_callbacks : List Callback → List SlugDefinition
slugs_of_callbacks = map (λ (c : Callback). record { slug = c.slug; file_path = c.file_path })

module _ (parse_template : Text → Option Text) where
  unfoldable pub validate_template : Mock → DiagnosticsCollector → DiagnosticsCollector
  validate_template mock = push_thrown mock (parse_template mock.response.body)

  unfoldable pub validate_mocks :
      List Mock → List Host → DiagnosticsCollector → DiagnosticsCollector
  unfolding validate_template validate_reserved_path validate_host_reference
  validate_mocks [] hosts collector = collector
  validate_mocks (mock ∷ mocks) hosts collector = validate_mocks mocks hosts (
      validate_host_reference mock hosts
        (validate_template mock (validate_reserved_path mock collector)))

unfoldable pub validate_callbacks :
    List Callback → List Host → DiagnosticsCollector → DiagnosticsCollector
unfolding validate_callback_host_reference
validate_callbacks [] hosts collector = collector
validate_callbacks (callback ∷ callbacks) hosts collector =
    validate_callbacks callbacks hosts (validate_callback_host_reference callback hosts collector)

abbrev pub no_mocks : Text → Diagnostic
no_mocks folder = record {
  code = txt "no-mocks";
  severity = error;
  message = txt "no mocks found in '" ++ (folder ++ txt "'");
  file = none;
  mock = none;
}

module _ {Server : Type 0} (add : ServerRoute → Server → Result Text Server)
    (parse_template : Text → Option Text) {A : Type 0} where
  -- what is collected: `loaded` are the merged definitions, `collector` has what their loading reported
  unfoldable pub collect_diagnostics :
      (folder : Text) (app : Server) (loaded file : MockoDefinition A)
      → DiagnosticsCollector
      → DiagnosticsCollector
  unfolding validate_mocks validate_callbacks report_conflicts report_duplicate_slugs
      register_routes get_mock_routes
  collect_diagnostics folder app loaded file collector =
      let with_mocks = push_when (is_empty loaded.mocks) (no_mocks folder) collector in
      let with_hosts =
        validate_callbacks file.callbacks loaded.hosts
          (validate_mocks parse_template loaded.mocks loaded.hosts with_mocks) in
      let with_slugs = report_duplicate_slugs (txt "callback") (slugs_of_callbacks file.callbacks) (
        report_duplicate_slugs (txt "host") (slugs_of_hosts file.hosts)
          (report_conflicts loaded.mocks loaded.hosts with_hosts)) in
      (register_routes add (get_mock_routes loaded) (app, with_slugs)).1

  unfoldable pub validate :
      (folder : Text) (app : Server) (loaded file : MockoDefinition A)
      → DiagnosticsCollector
      → ValidationResult
  unfolding collect_diagnostics without_redundant_conflicts attach_files count_files
  validate folder app loaded file collector =
      let collected = collect_diagnostics folder app loaded file collector in
      let diagnostics = attach_files (without_redundant_conflicts collected.items) loaded.mocks in
      record {
        diagnostics = diagnostics;
        mock_count = length loaded.mocks;
        file_count = count_files diagnostics loaded.mocks file.callbacks;
      }
