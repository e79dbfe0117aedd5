-- ===== src/Tests/Panel.antt =====
-- The theorems on mocko-control/lib, at a panel with one own host, a file's host with its slug, and
-- two management operations.
use native.Mathlib.Decide.{ℕ_discrete}
use mocko.Base.{◌≡◌, refl, txt, Bool, true, false, none, some, List, [], ◌∷◌, text_eq}
use mocko.Control.Store.Agreement.{Call, answers, memory_empty, redis_empty, memory-redis_agree}
use mocko.Control.Store.Memory.{memory_store}
use mocko.Control.Store.Redis.{redis_store}
use mocko.Control.Hosts.{
  Annotation, temporary, read_only, Host, CreateHostInput, PatchHostInput, unset, host_id,
  HostError, host_not_found, host_read_only, host_slug, new_host, Panel, get_host,
  is_file_definition,
}
use mocko.Control.Hosts.Invariant.{
  create, update, own_hosts, handle, IsConsistent, handle-IsConsistent,
}
use mocko.Control.Hosts.Answers.{refusal, handle-refused}
use mocko.Control.Operations.{
  Operation, v1_migration, stale_flags, done, ready, Management, StoreConfig, v1_purge, scanning,
}

abbrev own : Host
own = record {
  id = txt "1";
  slug = txt "API";
  name = none;
  source = txt "api.test";
  destination = none;
  file_path = none;
  annotations = temporary ∷ [];
}

abbrev of_file : Host
of_file = record {
  id = txt "2";
  slug = txt "api";
  name = none;
  source = txt "file.test";
  destination = none;
  file_path = some (txt "a.hcl");
  annotations = read_only ∷ [];
}

abbrev input : CreateHostInput
input = record { slug = txt "web"; name = none; source = txt "web.test"; destination = none }

abbrev change : PatchHostInput
change = record { name = some (txt "n"); source = none; destination = unset }

abbrev panel : Panel (redis_store host_id) [] (of_file ∷ [])
unfolding redis_store
panel = record { own = own ∷ []; deployed = []; gets_through = true }

panel-IsConsistent : IsConsistent (redis_store host_id) [] (of_file ∷ []) panel
unfolding redis_store
panel-IsConsistent = record { valid = tt; ui = (refl, tt); unique = (refl, tt) }

handle-IsConsistent_example :
    IsConsistent
      (redis_store host_id)
      []
      (of_file ∷ [])
      (handle (redis_store host_id) [] (of_file ∷ []) (create (txt "3") input) panel)
unfolding redis_store text_eq ℕ_discrete
handle-IsConsistent_example =
    handle-IsConsistent (redis_store host_id) [] (of_file ∷ []) refl (refl, tt)
      (create (txt "3") input) panel panel-IsConsistent refl

handle-refused_example :
    (own_hosts
        (redis_store host_id)
        []
        (of_file ∷ [])
        (handle (redis_store host_id) [] (of_file ∷ []) (update (txt "2") change) panel)
      ≡ own_hosts (redis_store host_id) [] (of_file ∷ []) panel)
    × ((handle (redis_store host_id) [] (of_file ∷ []) (update (txt "2") change) panel).deployed
        ≡ [])
unfolding redis_store refusal mocko.Control.Hosts.update_host text_eq ℕ_discrete
handle-refused_example =
    handle-refused (redis_store host_id) [] (of_file ∷ []) (update (txt "2") change) panel
      (host_read_only (txt "2")) tt refl

abbrev is_ui : Host → Bool
is_ui host = elim (is_file_definition host) [ true ↦ false | false ↦ true ]

abbrev config : StoreConfig
config = record {
  is_management_supported = true;
  v1_migration_enabled = true;
  redis_prefix = txt "mocko:v2:";
}

abbrev migration : Operation
migration = record {
  id = txt "m";
  type_data = v1_migration (txt "mocko:");
  status = done;
  created_at = 1;
  completed_at = some 2;
}

abbrev stale : Operation
stale = record {
  id = txt "s";
  type_data = stale_flags 60;
  status = ready;
  created_at = 3;
  completed_at = none;
}

abbrev management : Management
management = record { operations = stale ∷ migration ∷ []; jobs = [] }

abbrev purge : Operation
purge = record {
  id = txt "p";
  type_data = v1_purge (txt "mocko:") (some 2);
  status = scanning;
  created_at = 9;
  completed_at = none;
}

abbrev calls : List (Call Host)
calls = Call.save own ∷ Call.save of_file ∷ Call.save own ∷ Call.delete (txt "2") ∷ Call.list ∷ []

memory-redis_agree_example :
    answers host_id (memory_store host_id) calls (memory_empty host_id)
    ≡ answers host_id (redis_store host_id) calls (redis_empty host_id)
memory-redis_agree_example = memory-redis_agree host_id calls
