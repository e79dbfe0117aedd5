-- ===== src/Control/Conflicts/Display.antt =====
-- mocko-control/lib/conflict/conflicts.ts: what the client is shown of a conflict; with
-- callback/callback-conflicts.ts and the summaries of host/host-conflicts.ts.
use mocko.Base.{
  Text, Bool, Option, none, some, List, [], ◌∷◌, ◌++◌, map, to_lower_case, text_eq, if◌then◌else◌,
}
use mocko.Base.Dict
use mocko.Base.Dict.{Dict}
use mocko.Control.Hosts.{Host}
use mocko.Control.Callbacks.{Callback, callback_id, callback_slug}
use mocko.Control.Hosts
use mocko.Control.Callbacks
use mocko.Control.Conflicts.{ConflictRole, active, shadowed, conflict, Conflict, compute_conflicts}

pub data ConflictOrigin : Type 0 where
  file ui : ConflictOrigin

abbrev pub origin_of {ℓ} : {T : Type ℓ} → (T → Bool) → T → ConflictOrigin
origin_of is_file item = if is_file item then file else ui

pub record ConflictDto (S : Type 0) : Type 0 where
  pub role : ConflictRole
  pub related : List S

module _ {T S : Type 0} (id_of : T → Text) (to_summary : T → S) where
  -- `new Map(items.map((item) => [item.id, item]))`
  unfoldable pub by_id : List T → Dict Text T → Dict Text T
  by_id [] found = found
  by_id (item ∷ items) found = by_id items (Dict.set (id_of item) item found)

  abbrev pub summary_before : Option T → List S → List S
  summary_before none rest = rest
  summary_before (some item) rest = to_summary item ∷ rest

  -- the related ids that are found, as summaries
  unfoldable pub summaries : Dict Text T → List Text → List S
  summaries found [] = []
  summaries found (id ∷ ids) = summary_before (Dict.get id found) (summaries found ids)

  abbrev pub resolved_with : List T → Option Conflict → Option (ConflictDto S)
  resolved_with items none = none
  resolved_with items (some c) =
      some (record { role = c.role; related = summaries (by_id items []) c.related })

  unfoldable pub resolve_conflict : Text → Dict Text Conflict → List T → Option (ConflictDto S)
  resolve_conflict id conflicts items = resolved_with items (Dict.get id conflicts)

pub data DisplayAnnotation (A : Type 0) : Type 0 where
  stored : A → DisplayAnnotation A
  is_shadowed : DisplayAnnotation A
  in_conflict : DisplayAnnotation A

abbrev pub role_annotation : {A : Type 0} → Option ConflictRole → List (DisplayAnnotation A)
role_annotation none = []
role_annotation (some active) = []
role_annotation (some shadowed) = is_shadowed ∷ []
role_annotation (some conflict) = in_conflict ∷ []

unfoldable pub annotations_with_conflict :
    {A : Type 0} → List A → Option ConflictRole → List (DisplayAnnotation A)
annotations_with_conflict annotations role = map stored annotations ++ role_annotation role

unfoldable pub compute_callback_conflicts : List Callback → Dict Text Conflict
unfolding compute_conflicts
compute_callback_conflicts callbacks =
    compute_conflicts callback_id Callbacks.is_file_definition
      (λ callback. to_lower_case (callback_slug callback)) callbacks

pub record CallbackSummaryDto : Type 0 where
  pub id : Text
  pub slug : Text
  pub name : Option Text
  pub method : Text
  pub file_path : Option Text
  pub origin : ConflictOrigin

abbrev pub to_callback_summary : Callback → CallbackSummaryDto
to_callback_summary callback = record {
  id = callback.id;
  slug = callback.slug;
  name = callback.name;
  method = callback.method;
  file_path = callback.file_path;
  origin = origin_of Callbacks.is_file_definition callback;
}

pub record HostSummaryDto : Type 0 where
  pub id : Text
  pub slug : Text
  pub name : Option Text
  pub source : Text
  pub destination : Option Text
  pub file_path : Option Text
  pub origin : ConflictOrigin

abbrev pub to_host_summary : Host → HostSummaryDto
to_host_summary host = record {
  id = host.id;
  slug = host.slug;
  name = host.name;
  source = host.source;
  destination = host.destination;
  file_path = host.file_path;
  origin = origin_of Hosts.is_file_definition host;
}

unfoldable pub resolve_callback_conflict :
    Text → Dict Text Conflict → List Callback → Option (ConflictDto CallbackSummaryDto)
unfolding resolve_conflict
resolve_callback_conflict callback_id conflicts callbacks =
    resolve_conflict Callbacks.callback_id to_callback_summary callback_id conflicts callbacks

unfoldable pub resolve_host_conflict :
    Text → Dict Text Conflict → List Host → Option (ConflictDto HostSummaryDto)
unfolding resolve_conflict
resolve_host_conflict host_id conflicts hosts =
    resolve_conflict (λ (host : Host). host.id) to_host_summary host_id conflicts hosts
