-- ===== src/Diagnostics/Reports.antt =====
-- The checks of mocko-core/src/validate.ts on the mocks, the hosts and the callbacks, and what each of
-- them reports.
use mocko.Base.{
  Text, txt, Bool, true, false, not, ◌&&◌, Option, none, some, List, [], ◌∷◌, ◌++◌, map, filter,
  is_empty, is_some, to_lower_case, ◌==◌, text_eq, if◌then◌else◌,
}
use mocko.Base.Dict.{Dict}
use mocko.Base.Grouping.{group_items}
use mocko.Definitions.Data.{Mock, Host, Callback}
use mocko.Definitions.Hosts.{find_host_by_slug, find_host_by_slug_or_source, resolve_vhost}
use mocko.Diagnostics.{Diagnostic, error, warning, DiagnosticsCollector, push, push_all}
use mocko.Routes.{is_reserved_path}

-- a path in a template literal
abbrev pub shown : Option Text → Text
shown none = txt "undefined"
shown (some t) = t

-- `duplicate.filePath === first.filePath`
abbrev pub same_path : Option Text → Option Text → Bool
same_path none none = true
same_path none (some q) = false
same_path (some p) none = false
same_path (some p) (some q) = p == q

abbrev pub mock_name : Mock → Text
mock_name mock = mock.method ++ (txt " " ++ mock.path)

abbrev pub push_when : Bool → Diagnostic → DiagnosticsCollector → DiagnosticsCollector
push_when test diagnostic collector = if test then push diagnostic collector else collector

abbrev pub reserved_path : Mock → Diagnostic
reserved_path mock = record {
  code = txt "reserved-path";
  severity = error;
  message = txt "the path '/__mocko__' is reserved for Mocko's internal endpoints";
  file = mock.file_path;
  mock = some (mock_name mock);
}

unfoldable pub validate_reserved_path : Mock → DiagnosticsCollector → DiagnosticsCollector
validate_reserved_path mock = push_when (is_reserved_path mock.path) (reserved_path mock)

abbrev pub template_error : Mock → Text → Diagnostic
template_error mock message = record {
  code = txt "template-parse-error";
  severity = error;
  message = txt "invalid template body: " ++ message;
  file = mock.file_path;
  mock = some (mock_name mock);
}

abbrev pub push_thrown : Mock → Option Text → DiagnosticsCollector → DiagnosticsCollector
push_thrown mock none collector = collector
push_thrown mock (some message) collector = push (template_error mock message) collector

abbrev pub host_not_found : Mock → Text → Diagnostic
host_not_found mock host = record {
  code = txt "host-not-found";
  severity = warning;
  message =
      txt "references host '"
      ++ (host
          ++ (txt "' but no host block with that name or source exists, '"
              ++ (host ++ txt "' will be matched as a literal hostname")));
  file = mock.file_path;
  mock = some (mock_name mock);
}

-- `!host`: missing or empty
abbrev pub named : Option Text → Option Text
named none = none
named (some name) = if is_empty name then none else some name

-- the check of a reference to a host, if there is one
abbrev pub push_unknown :
    (Text → Bool) → (Text → Diagnostic) → Option Text → DiagnosticsCollector → DiagnosticsCollector
push_unknown is_known report none collector = collector
push_unknown is_known report (some host) collector =
    push_when (not (is_known host)) (report host) collector

unfoldable pub validate_host_reference :
    Mock → List Host → DiagnosticsCollector → DiagnosticsCollector
validate_host_reference mock hosts =
    push_unknown (λ host. is_some (find_host_by_slug_or_source hosts host)) (host_not_found mock)
      (named mock.host)

abbrev pub callback_host_not_found : Callback → Text → Diagnostic
callback_host_not_found callback host = record {
  code = txt "host-not-found";
  severity = warning;
  message =
      txt "callback '"
      ++ (callback.slug
          ++ (txt "' references host '"
              ++ (host
                  ++ txt
                      "' but no host block with that slug exists, triggering it will fail unless the host is defined in the UI")));
  file = callback.file_path;
  mock = none;
}

unfoldable pub validate_callback_host_reference :
    Callback → List Host → DiagnosticsCollector → DiagnosticsCollector
validate_callback_host_reference callback hosts =
    push_unknown (λ host. is_some (find_host_by_slug hosts host)) (callback_host_not_found callback)
      (named callback.host)

-- The reports of a group: each but the first, against the first.
module _ {T : Type 0} (report : (first duplicate : T) → Diagnostic) where
  abbrev pub duplicates : List T → List Diagnostic
  duplicates [] = []
  duplicates (first ∷ rest) = map (report first) rest

  unfoldable pub report_groups : Dict Text (List T) → DiagnosticsCollector → DiagnosticsCollector
  report_groups [] collector = collector
  report_groups ((key, group) ∷ groups) collector =
      report_groups groups (push_all (duplicates group) collector)

pub record SlugDefinition : Type 0 where
  pub slug : Text
  pub file_path : Option Text

-- `kind` is 'host' or 'callback'
abbrev pub duplicate_slug : Text → (first duplicate : SlugDefinition) → Diagnostic
duplicate_slug kind first duplicate = record {
  code = txt "duplicate-" ++ kind;
  severity = error;
  message =
      if same_path duplicate.file_path first.file_path
      then kind
        ++ (txt " '"
            ++ (duplicate.slug
                ++ (txt "' is defined more than once in '"
                    ++ (shown first.file_path ++ txt "', the first definition wins"))))
      else kind
        ++ (txt " '"
            ++ (duplicate.slug
                ++ (txt "' is also defined in '"
                    ++ (shown first.file_path ++ txt "', the first definition wins"))));
  file = duplicate.file_path;
  mock = none;
}

abbrev pub slug_key : SlugDefinition → Text
slug_key definition = to_lower_case definition.slug

unfoldable pub report_duplicate_slugs :
    Text → List SlugDefinition → DiagnosticsCollector → DiagnosticsCollector
unfolding report_groups group_items
report_duplicate_slugs kind definitions =
    report_groups (duplicate_slug kind) (group_items slug_key definitions [])

abbrev pub route_conflict : (first duplicate : Mock) → Diagnostic
route_conflict first duplicate = record {
  code = txt "route-conflict";
  severity = error;
  message =
      if same_path duplicate.file_path first.file_path
      then txt "is defined more than once in '" ++ (shown first.file_path ++ txt "'")
      else txt "conflicts with mock '"
        ++ (mock_name first ++ (txt "' in '" ++ (shown first.file_path ++ txt "'")));
  file = duplicate.file_path;
  mock = some (mock_name duplicate);
}

-- `vhost ? ` @${vhost}` : ''`
abbrev pub vhost_suffix : Option Text → Text
vhost_suffix none = []
vhost_suffix (some vhost) = if is_empty vhost then [] else txt " @" ++ vhost

unfoldable pub route_key : List Host → Mock → Text
unfolding resolve_vhost
route_key hosts mock =
    mock.method ++ (txt " " ++ (mock.path ++ vhost_suffix (resolve_vhost mock.host hosts)))

abbrev pub is_routed : Mock → Bool
is_routed mock = mock.is_enabled && not (is_reserved_path mock.path)

unfoldable pub report_conflicts :
    List Mock → List Host → DiagnosticsCollector → DiagnosticsCollector
unfolding report_groups group_items route_key is_reserved_path
report_conflicts mocks hosts =
    report_groups route_conflict (group_items (route_key hosts) (filter is_routed mocks) [])
