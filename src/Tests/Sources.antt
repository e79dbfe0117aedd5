-- ===== src/Tests/Sources.antt =====
-- The theorem on the purge of a V1 database, at one with a flag, a failure and the definitions.
use mocko.Base.{
  ℕ, ◌+◌, ◌≡◌, refl, Text, txt, Bool, true, false, not, ◌&&◌, some, List, [], ◌∷◌, ◌++◌, arith,
  length, contains, text_eq, ◌==◌,
}
use native.Mathlib.Decide.{ℕ_discrete}
use mocko.Base.{nat_eq}
use mocko.Redis.Reference.{keyspace}
use mocko.Control.Scan.{Iteration, last}
use mocko.Control.FlagList.Agreement.{join}
use mocko.Control.V1Purge.{definition_keys, count_existing, scan_v1_purge, execute_v1_purge}
use mocko.Control.V1Purge.Deleted.{execute_v1_purge_lem}

abbrev flags : List (List Text)
flags = (txt "m:flags:a" ∷ []) ∷ []

abbrev failures : List (List Text)
failures = (txt "m:mock_failure:1" ∷ []) ∷ []

abbrev page_of : Bool → List Text
page_of true = txt "m:flags:a" ∷ []
page_of false = txt "m:mock_failure:1" ∷ []

abbrev scan : Text → ℕ → Text → Text × List Text
scan prefix call cursor = (txt "0", page_of (length prefix == 6))

abbrev source : List Text
source = txt "m:workspace_mocks" ∷ txt "m:flags:a" ∷ txt "m:mock_failure:1" ∷ txt "other" ∷ []

flags-Iteration : Iteration (scan (txt "flags:")) 0 (txt "0") flags
unfolding nat_eq ℕ_discrete
flags-Iteration = last refl

failures-Iteration : Iteration (scan (txt "mock_failure:")) 0 (txt "0") failures
unfolding nat_eq ℕ_discrete
failures-Iteration = last refl

execute_v1_purge_lem_example :
    (m : ℕ) × (s' : List Text) × (execute_v1_purge keyspace scan 1 (txt "m:") source ≡ some (m, s'))
    × ((k : Text)
        → keyspace.exists k s' ≡ (
            keyspace.exists k source
            && not (contains (definition_keys (txt "m:") ++ (join flags ++ join failures)) k)))
    × (m + keyspace.size s' ≡ keyspace.size source)
    × (scan_v1_purge keyspace scan 1 (txt "m:") source
        ≡ some (
            count_existing keyspace (definition_keys (txt "m:")) source
            + length (join flags)
            + length (join failures)))
execute_v1_purge_lem_example =
    execute_v1_purge_lem keyspace scan 1 (txt "m:") flags failures source flags-Iteration
      failures-Iteration (omega arith) (omega arith)
