-- ===== src/Serving/Own.antt =====
-- The own mocks of the panel and the routes that the core makes of them.
use mocko.Base.{
  ℕ, Text, ◌≡◌, sym, subst, ap, ◌∙◌, true, Option, none, some, List, [], ◌∷◌, ◌++◌, filter,
  append-nil, All, arith, if◌then◌else◌, text_eq, or_else, inl, inr, Bool-cases,
}
use mocko.Base.Result.{Result, ok, >>=-eq-ok}
use mocko.Definitions.Data.{Mock, Host, file, deployed, MockoDefinition}
use mocko.Definitions.Stanzas.{format_conflicts}
use mocko.Definitions.Hosts.{resolve_vhost}
use mocko.Definitions.Merge.{with_source, merge_definitions}
use mocko.Routes.{ServerRoute, is_reserved_path, mock_to_route, get_mock_routes}
use mocko.Control.Store.{OwnStore}
use mocko.Control.Mocks
use mocko.Control.Mocks.{DeployMock, MockAnnotation, mock_id, deployed_mock, to_deploy_definition}
use mocko.Control.Mocks.Sound.{Request, handle, refusal, IsConsistent, handle_mocks-IsSound}
use mocko.Serving.{Stored, validate_mocks, get_redis_definitions, checked_format}
use mocko.Serving.Expected.{
  is_deployed, Zip, Keeps, Serves, to_serve, routes_of, routes_of-append, routes_of-files,
}

module _ (hosts : List Host) where
  abbrev Served : List Mocks.Mock → List Mock → Type 0
  unfolding routes_of with_source
  Served owns mocks =
      Zip (Serves hosts) (filter to_serve owns) (routes_of hosts (with_source mocks deployed))

  abbrev deployed_route : Mock → ServerRoute
  unfolding mock_to_route
  deployed_route mock =
      mock_to_route hosts (record mock { source = some (or_else mock.source deployed) })

  deployed_route-Serves :
      (own : Mocks.Mock) (mock : Mock)
      → Keeps (deployed_mock own) mock
      → Serves hosts own (deployed_route mock)
  unfolding deployed_route mock_to_route
  deployed_route-Serves own mock k = record {
    id = k.id;
    method = k.method;
    path = k.path;
    vhost = ap (λ host. resolve_vhost host hosts) k.host;
    code = k.code;
    body = k.body;
  }

  Served-step :
      (own : Mocks.Mock) (owns : List Mocks.Mock) (mock : Mock) (rest : List Mock)
      → own.is_enabled ≡ true
      → Keeps (deployed_mock own) mock
      → Served owns rest
      → Served (own ∷ owns) (mock ∷ rest)
  unfolding Served routes_of with_source mock_to_route deployed_route
  Served-step own owns mock rest on k z =
      let path : is_reserved_path mock.path ≡ is_reserved_path own.path =
        ap is_reserved_path k.path in
      let source : or_else mock.source deployed ≡ deployed = ground (arith, k.source) in
      elim (Bool-cases (is_reserved_path own.path)) [
        | inl reserved ↦
            let e : filter to_serve (own ∷ owns) ≡ filter to_serve owns = ground arith in
            let f : routes_of hosts (with_source (mock ∷ rest) deployed)
                ≡ routes_of hosts (with_source rest deployed) =
              ground (arith, k.is_enabled) in
            rw e (rw f z)
        | inr free ↦
            let e : filter to_serve (own ∷ owns) ≡ own ∷ filter to_serve owns = ground arith in
            let f : routes_of hosts (with_source (mock ∷ rest) deployed)
                ≡ deployed_route mock ∷ routes_of hosts (with_source rest deployed) =
              ground (arith, k.is_enabled) in
            rw e (rw f (deployed_route-Serves own mock k, z))
      ]

  module _ (schema : DeployMock → Result Text Mock)
      (schema-Keeps : (stored : DeployMock) (mock : Mock)
        → schema stored ≡ ok mock
        → Keeps stored mock) where
    checked_format-same : (value mock : Mock) → checked_format value ≡ ok mock → value ≡ mock
    unfolding checked_format
    checked_format-same value mock h = elim (Bool-cases (format_conflicts value)) [
      | inl conflict ↦ absurd (ground arith)
      | inr free ↦ ground arith
    ]

    own-Served :
        (owns : List Mocks.Mock) (mocks : List Mock)
        → validate_mocks schema (to_deploy_definition owns) ≡ ok mocks
        → Served owns mocks
    unfolding validate_mocks to_deploy_definition Served routes_of with_source
    own-Served [] mocks h = let none_left : [] ≡ mocks = cc in subst (Served []) none_left tt
    own-Served (own ∷ owns) mocks h = elim (Bool-cases own.is_enabled) [
      | inl on ↦
          let (value, made, h') = >>=-eq-ok (schema (deployed_mock own)) _ (rw on at h) in
          let (mock, kept, h'') = >>=-eq-ok (checked_format value) _ h' in
          let (rest, validated, returned) =
            >>=-eq-ok (validate_mocks schema (to_deploy_definition owns)) _ h'' in
          let same : mocks ≡ mock ∷ rest = cc in
          subst (Served (own ∷ owns)) (sym same) (
            Served-step own owns mock rest on
              (subst (Keeps (deployed_mock own)) (checked_format-same value mock kept)
                (schema-Keeps (deployed_mock own) value made))
              (own-Served owns rest validated))
      | inr off ↦
          let e : filter to_serve (own ∷ owns) ≡ filter to_serve owns = ground arith in
          rw e (own-Served owns mocks (rw off at h))
    ]

merged_routes :
    {A : Type 0} (from_files read : MockoDefinition A)
    → All (λ mock. mock.source ≡ some file) from_files.mocks
    → let merged = merge_definitions from_files (some read) none in
      filter is_deployed (get_mock_routes merged)
      ≡ routes_of merged.hosts (with_source read.mocks deployed)
unfolding merge_definitions get_mock_routes routes_of with_source
merged_routes from_files read files =
    let hosts = (merge_definitions from_files (some read) none).hosts in
    let own = routes_of hosts (with_source read.mocks deployed) in
    routes_of-append hosts (with_source read.mocks deployed) (with_source from_files.mocks file)
    ∙ (ap (λ rest. own ++ rest) (routes_of-files hosts from_files.mocks files) ∙ append-nil own)

read_mocks :
    {A : Type 0} (schema : DeployMock → Result Text Mock) (stored : Stored)
    (read : MockoDefinition A)
    → get_redis_definitions schema (some stored) ≡ ok read
    → validate_mocks schema stored.mocks ≡ ok read.mocks
unfolding get_redis_definitions
read_mocks schema stored read h =
    let (mocks, validated, returned) = >>=-eq-ok (validate_mocks schema stored.mocks) _ h in
    ground arith

-- After a request on the mocks of the panel that is not refused, if the deploy gets through and the
-- core can read what was deployed, then its routes of deployed mocks are those of the own mocks of the panel that are enabled
-- and have no reserved path, one for each and in their order, with its id, method, path, virtual host,
-- status code and body; whatever the files of the core define. The panel's store is valid and its mocks
-- are sound before, mocks of files have the source FILE, and the schema of the core keeps what is deployed.
pub handle-Served :
    {A : Type 0} (parse : Text → Option (Text × ℕ)) (store : OwnStore mock_id)
    (created : List MockAnnotation) (file_mock : Text → Option Mocks.Mock)
    (schema : DeployMock → Result Text Mock)
    (schema-Keeps : (stored : DeployMock) (mock : Mock)
      → schema stored ≡ ok mock
      → Keeps stored mock)
    (request : Request) (panel : Mocks.Panel parse store created file_mock) (stored : Stored)
    (from_files read : MockoDefinition A)
    → IsConsistent parse store created file_mock panel
    → refusal parse store created file_mock request panel ≡ none
    → panel.gets_through ≡ true
    → stored.mocks ≡ (handle parse store created file_mock request panel).deployed
    → get_redis_definitions schema (some stored) ≡ ok read
    → All (λ mock. mock.source ≡ some file) from_files.mocks
    → let merged = merge_definitions from_files (some read) none in
      let own = store.list (handle parse store created file_mock request panel).own in
      Zip (Serves merged.hosts) (filter to_serve own) (filter is_deployed (get_mock_routes merged))
unfolding Served
handle-Served parse store created file_mock schema schema-Keeps request panel stored from_files read
      c taken through e h files =
    let merged = merge_definitions from_files (some read) none in
    let after = handle parse store created file_mock request panel in
    let settled = (handle_mocks-IsSound parse store created file_mock request panel c).0.1 in
    let handed : after.deployed ≡ to_deploy_definition (store.list after.own) =
      (rw taken at settled)
      ∙ ap (λ b. if b then to_deploy_definition (store.list after.own) else panel.deployed)
          through in
    let validated = read_mocks schema stored read h in
    subst (Zip (Serves merged.hosts) (filter to_serve (store.list after.own)))
      (sym (merged_routes from_files read files))
      (own-Served merged.hosts schema schema-Keeps (store.list after.own) read.mocks
        (subst (λ mocks. validate_mocks schema mocks ≡ ok read.mocks) (e ∙ handed) validated))
