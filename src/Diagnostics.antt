-- ===== src/Diagnostics.antt =====
-- mocko-core/src/definitions/diagnostics.ts: the collector that the loading and the mapping of mocks
-- push on, which keeps nothing unless it is enabled.
pub mod Reports
use mocko.Base.{Text, Bool, true, Option, List, [], ◌∷◌, ◌++◌, if◌then◌else◌}

pub data DiagnosticSeverity : Type 0 where
  error warning : DiagnosticSeverity

pub record Diagnostic : Type 0 where
  pub code : Text
  pub severity : DiagnosticSeverity
  pub message : Text
  pub file : Option Text
  pub mock : Option Text

pub record DiagnosticsCollector : Type 0 where
  pub enabled : Bool
  pub items : List Diagnostic

unfoldable pub enable : DiagnosticsCollector → DiagnosticsCollector
enable collector = record collector { enabled = true }

unfoldable pub push : Diagnostic → DiagnosticsCollector → DiagnosticsCollector
push diagnostic collector =
    if collector.enabled
    then record collector { items = collector.items ++ diagnostic ∷ [] }
    else collector

unfoldable pub push_all : List Diagnostic → DiagnosticsCollector → DiagnosticsCollector
unfolding push
push_all [] collector = collector
push_all (d ∷ ds) collector = push_all ds (push d collector)
