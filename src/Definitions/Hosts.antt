-- ===== src/Definitions/Hosts.antt =====
-- The lookups of data/host.ts and data/callback.ts.
use mocko.Base.{
  ◌||◌, Text, to_lower_case, is_empty, Option, none, some, List, find, ◌==◌, text_eq, if◌then◌else◌,
}
use mocko.Definitions.Data.{Host, Callback}

unfoldable pub find_host_by_slug : List Host → Text → Option Host
find_host_by_slug hosts slug =
    let target = to_lower_case slug in find (λ host. to_lower_case host.slug == target) hosts

unfoldable pub find_host_by_source : List Host → Text → Option Host
find_host_by_source hosts source =
    let target = to_lower_case source in find (λ host. to_lower_case host.source == target) hosts

unfoldable pub find_host_by_slug_or_source : List Host → Text → Option Host
find_host_by_slug_or_source hosts name =
    let target = to_lower_case name in
    find (λ host. to_lower_case host.slug == target || to_lower_case host.source == target) hosts

unfoldable pub find_callback_by_slug : List Callback → Text → Option Callback
find_callback_by_slug callbacks slug =
    let target = to_lower_case slug in
    find (λ callback. to_lower_case callback.slug == target) callbacks

-- `host?.source || hostName`
abbrev source_or : Option Host → Text → Text
source_or none name = name
source_or (some host) name = if is_empty host.source then name else host.source

unfoldable pub resolve_vhost : Option Text → List Host → Option Text
unfolding find_host_by_slug_or_source
resolve_vhost none hosts = none
resolve_vhost (some name) hosts =
    if is_empty name
    then none
    else some (to_lower_case (source_or (find_host_by_slug_or_source hosts name) name))
