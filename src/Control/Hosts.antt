-- ===== src/Control/Hosts.antt =====
-- mocko-control/lib/host/host.service.ts, with listHosts and getHost of mocko-control/lib/store/store.ts.
pub mod Slugs
pub mod Invariant
pub mod Answers
use mocko.Base.{
  ◌≡◌, Text, Bool, true, false, not, ◌&&◌, Option, none, some, List, [], ◌∷◌, ◌++◌, any, find,
  contains, Eq, ◌==◌, text_eq, if◌then◌else◌, to_lower_case, or_else, first,
}
use mocko.Base.Result.{Result, ok, err}
use mocko.Control.Store.{has_id, OwnStore}

pub data Annotation : Type 0 where
  temporary : Annotation
  read_only : Annotation

pub record Host : Type 0 where
  pub id : Text
  pub slug : Text
  pub name : Option Text
  pub source : Text
  pub destination : Option Text
  pub file_path : Option Text
  pub annotations : List Annotation

pub record CreateHostInput : Type 0 where
  pub slug : Text
  pub name : Option Text
  pub source : Text
  pub destination : Option Text

-- A field of a patch body: left out, null, or a value.
pub data Patched : Type 0 where
  unset : Patched
  null : Patched
  value : Text → Patched

pub record PatchHostInput : Type 0 where
  pub name : Option Text
  pub source : Option Text
  pub destination : Patched

pub data HostError : Type 0 where
  host_not_found : Text → HostError
  host_read_only : Text → HostError
  host_slug_conflict : Text → HostError

abbrev pub is_read_only : Annotation → Bool
is_read_only temporary = false
is_read_only read_only = true

-- isFileDefinition of mocko-control/lib/conflict/conflicts.ts
abbrev pub is_file_definition : Host → Bool
is_file_definition host = any is_read_only host.annotations

abbrev pub has_ui_slug : Text → Host → Bool
has_ui_slug slug host = not (is_file_definition host) && to_lower_case host.slug == slug

abbrev pub host_id : Host → Text
host_id host = host.id

abbrev pub host_slug : Host → Text
host_slug host = host.slug

-- `if (data.destination !== undefined) destination = data.destination ?? undefined`
abbrev pub patch : Patched → Option Text → Option Text
patch unset old = old
patch null old = none
patch (value new) old = some new

abbrev pub updated : PatchHostInput → Host → Host
updated input host = record {
  id = host.id;
  slug = host.slug;
  name = first input.name host.name;
  source = or_else input.source host.source;
  destination = patch input.destination host.destination;
  file_path = host.file_path;
  annotations = host.annotations;
}

-- The store of own hosts, what it writes on a host it creates, and the hosts of files that the core
-- answers with.
module _ (store : OwnStore host_id) (created : List Annotation) (file_hosts : List Host) where
  -- The own hosts, and the hosts of the last definition handed to the core. `deploy` of the store only
  -- logs an error: `gets_through` says whether it has none.
  pub record Panel : Type 0 where
    pub own : store.State
    pub deployed : List Host
    pub gets_through : Bool

  unfoldable pub list_hosts : Panel → List Host
  list_hosts panel = store.list panel.own ++ file_hosts

  unfoldable pub get_host : Text → Panel → Option Host
  get_host id panel = elim (store.get id panel.own) [
    | some host ↦ some host
    | none ↦ find (has_id host_id id) file_hosts
  ]

  -- an own state that is stored and deployed
  abbrev pub deployed_as : store.State → Panel → Panel
  deployed_as own panel = record panel {
    own = own;
    deployed = if panel.gets_through then store.list own else panel.deployed;
  }

  abbrev pub save_and_deploy : Host → Panel → Panel
  save_and_deploy host panel = deployed_as (store.save host panel.own) panel

  abbrev pub new_host : Text → CreateHostInput → Host
  new_host uuid input = record {
    id = uuid;
    slug = input.slug;
    name = input.name;
    source = input.source;
    destination = input.destination;
    file_path = none;
    annotations = created;
  }

  unfoldable pub create_host : Text → CreateHostInput → Panel → Result HostError Host × Panel
  unfolding list_hosts
  create_host uuid input panel =
      if any (has_ui_slug (to_lower_case input.slug)) (list_hosts panel)
      then (err (host_slug_conflict input.slug), panel)
      else (ok (new_host uuid input), save_and_deploy (new_host uuid input) panel)

  unfoldable pub update_host : Text → PatchHostInput → Panel → Result HostError Host × Panel
  unfolding get_host
  update_host id input panel = elim (get_host id panel) [
    | none ↦ (err (host_not_found id), panel)
    | some host ↦
        if is_file_definition host
        then (err (host_read_only id), panel)
        else (ok (updated input host), save_and_deploy (updated input host) panel)
  ]

  abbrev pub undeletable : Text → Option Host → HostError
  undeletable id none = host_not_found id
  undeletable id (some host) =
      if is_file_definition host then host_read_only id else host_not_found id

  unfoldable pub delete_host : Text → Panel → Result HostError (Unit {0}) × Panel
  unfolding get_host
  delete_host id panel =
      let after : store.State = (store.delete id panel.own).1 in
      if (store.delete id panel.own).0 then (ok tt, deployed_as after panel) else (
        err (undeletable id (get_host id (record panel { own = after }))),
        record panel { own = after },
      )
