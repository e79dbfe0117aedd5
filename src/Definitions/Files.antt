-- ===== src/Definitions/Files.antt =====
-- The ids and files of the definitions that mocko-core/src/definitions/definition.provider.ts loads from
-- one file. The ids of version 5 of a UUID, as a function of their names, and decimal numbers are
-- arguments.
pub mod Seeds
use mocko.Base.{
  ℕ, suc, ◌+◌, Text, txt, Option, none, some, List, [], ◌∷◌, ◌++◌, map, ltb, or_else, is_empty,
  trim, ◌==◌, text_eq, if◌then◌else◌,
}
use mocko.Base.Dict
use mocko.Base.Dict.{Dict}
use mocko.Definitions.Data.{Mock, Host, Callback, Source, file}

-- `mock.host ? … : base`, `mock.id || …`
abbrev pub filled : Option Text → Option Text
filled none = none
filled (some t) = if is_empty t then none else some t

abbrev pub with_host : Text → Option Text → Text
with_host base none = base
with_host base (some host) = base ++ (txt ":" ++ host)

unfoldable pub file_id_seed : Text → Mock → Text
file_id_seed path mock =
    with_host (path ++ (txt ":" ++ (mock.method ++ (txt ":" ++ mock.path)))) (filled mock.host)

unfoldable pub count_seeds : List Text → Dict Text ℕ → Dict Text ℕ
count_seeds [] counts = counts
count_seeds (seed ∷ seeds) counts =
    count_seeds seeds (Dict.set seed (or_else (Dict.get seed counts) 0 + 1) counts)

module _ (show : ℕ → Text) where
  unfoldable pub number_seeds : (counts occurrences : Dict Text ℕ) → List Text → List Text
  number_seeds counts occurrences [] = []
  number_seeds counts occurrences (seed ∷ seeds) =
      let occurrence = or_else (Dict.get seed occurrences) 0 in
      (if ltb 1 (or_else (Dict.get seed counts) 0)
        then seed ++ (txt "#" ++ show occurrence)
        else seed)
      ∷ number_seeds counts (Dict.set seed (occurrence + 1) occurrences) seeds

  unfoldable pub disambiguate_seeds : List Text → List Text
  unfolding count_seeds number_seeds
  disambiguate_seeds seeds = number_seeds (count_seeds seeds []) [] seeds

  module _ (uuidv5 : Text → Text) where
    -- `mock.name?.trim() || normalizedFilePath`
    abbrev pub name_or : Option Text → Text → Text
    name_or none path = path
    name_or (some name) path = if is_empty (trim name) then path else trim name

    abbrev pub mock_of_file : Text → Mock → (seed : Text) → Mock
    mock_of_file path mock seed = record mock {
      id = some (or_else (filled mock.id) (uuidv5 seed));
      name = some (name_or mock.name path);
      file_path = some path;
      source = some file;
    }

    unfoldable pub zip_mocks : Text → List Mock → (seeds : List Text) → List Mock
    zip_mocks path [] seeds = []
    zip_mocks path (mock ∷ mocks) [] = []
    zip_mocks path (mock ∷ mocks) (seed ∷ seeds) =
        mock_of_file path mock seed ∷ zip_mocks path mocks seeds

    unfoldable pub with_file_metadata : Text → List Mock → List Mock
    unfolding file_id_seed disambiguate_seeds zip_mocks
    with_file_metadata path mocks =
        zip_mocks path mocks (disambiguate_seeds (map (file_id_seed path) mocks))

    -- `${kind}\u0000${path}\u0000${slug}`
    abbrev pub slug_seed : (kind path slug : Text) → Text
    slug_seed kind path slug = kind ++ (0 ∷ path ++ (0 ∷ slug))

    unfoldable pub slug_ids : (kind path : Text) → (slugs : List Text) → List Text
    unfolding disambiguate_seeds
    slug_ids kind path slugs = map uuidv5 (disambiguate_seeds (map (slug_seed kind path) slugs))

    unfoldable pub zip_hosts : Text → List Host → (ids : List Text) → List Host
    zip_hosts path [] ids = []
    zip_hosts path (host ∷ hosts) [] = []
    zip_hosts path (host ∷ hosts) (id ∷ ids) =
        record host { id = some id; file_path = some path } ∷ zip_hosts path hosts ids

    unfoldable pub hosts_with_metadata : Text → List Host → List Host
    unfolding slug_ids zip_hosts
    hosts_with_metadata path hosts =
        zip_hosts path hosts (slug_ids (txt "host") path (map (λ (host : Host). host.slug) hosts))

    unfoldable pub zip_callbacks : Text → List Callback → (ids : List Text) → List Callback
    zip_callbacks path [] ids = []
    zip_callbacks path (callback ∷ callbacks) [] = []
    zip_callbacks path (callback ∷ callbacks) (id ∷ ids) =
        record callback { id = some id; file_path = some path; source = some file }
        ∷ zip_callbacks path callbacks ids

    unfoldable pub callbacks_with_metadata : Text → List Callback → List Callback
    unfolding slug_ids zip_callbacks
    callbacks_with_metadata path callbacks =
        zip_callbacks path callbacks
          (slug_ids (txt "callback") path (map (λ (callback : Callback). callback.slug) callbacks))
