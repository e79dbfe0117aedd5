-- ===== src/Definitions/Merge/Precedence.antt =====
-- Which definition stands for a slug after the merge.
use mocko.Base.{
  first, ◌≡◌, ◌∙◌, ap, Bool, Text, to_lower_case, Option, none, some, List, [], ◌∷◌, ◌++◌, arith,
  find, find-append, contains, ◌==◌, text_eq, if◌then◌else◌,
}
use mocko.Definitions.Data.{Host, Callback, MockoDefinition}
use mocko.Definitions.Hosts.{find_host_by_slug, find_callback_by_slug}
use mocko.Definitions.Records.Laws.{
  AreObjects, value_at, combine, combine-none, value_at-merge_data,
}
use mocko.Definitions.Merge.{
  data_of, unique_from, unique_by_slug, with_callback_source, hosts_of, callbacks_of,
  merge_definitions,
}

module _ {T : Type 0} (slug : T → Text) where
  -- the first item whose slug is `t`, in lower case
  abbrev pub find_slug : Text → List T → Option T
  find_slug t items = find (λ item. to_lower_case (slug item) == t) items

  find_slug-unique_from :
      (t : Text) (seen : List Text) (items : List T)
      → find_slug t (unique_from slug seen items)
        ≡ (if contains seen t then none else find_slug t items)
  unfolding unique_from
  find_slug-unique_from t seen [] = ground arith
  find_slug-unique_from t seen (item ∷ items) = ground (
    arith,
    find_slug-unique_from t seen items,
    find_slug-unique_from t (to_lower_case (slug item) ∷ seen) items,
  )

  pub find_slug-unique_by_slug :
      (t : Text) (items : List T) → find_slug t (unique_by_slug slug items) ≡ find_slug t items
  find_slug-unique_by_slug t items = find_slug-unique_from t [] items

  -- No two items have the same slug, whatever the case.
  abbrev pub HasUniqueSlugs : List T → Type 0
  HasUniqueSlugs [] = Unit
  HasUniqueSlugs (item ∷ items) =
      (find_slug (to_lower_case (slug item)) items ≡ none) × HasUniqueSlugs items

  unique_from-HasUniqueSlugs :
      (seen : List Text) (items : List T) → HasUniqueSlugs (unique_from slug seen items)
  unfolding unique_from
  unique_from-HasUniqueSlugs seen [] = tt
  unique_from-HasUniqueSlugs seen (item ∷ items) = ground (
    arith,
    unique_from-HasUniqueSlugs seen items,
    unique_from-HasUniqueSlugs (to_lower_case (slug item) ∷ seen) items,
    find_slug-unique_from (to_lower_case (slug item)) (to_lower_case (slug item) ∷ seen) items,
  )

  unique_by_slug-HasUniqueSlugs : (items : List T) → HasUniqueSlugs (unique_by_slug slug items)
  unique_by_slug-HasUniqueSlugs items = unique_from-HasUniqueSlugs [] items

module _ {A : Type 0} (from_files : MockoDefinition A)
    (from_redis from_deploy : Option (MockoDefinition A)) where
  -- After the merge a slug stands for the host of the deploy, else of Redis, else of the files.
  pub find_host_by_slug-merge_definitions :
      (slug : Text)
      → find_host_by_slug (merge_definitions from_files from_redis from_deploy).hosts slug
        ≡ first (find_host_by_slug (hosts_of from_deploy) slug) (
            first
              (find_host_by_slug (hosts_of from_redis) slug)
              (find_host_by_slug from_files.hosts slug))
  unfolding find_host_by_slug merge_definitions
  find_host_by_slug-merge_definitions slug =
      let p : Host → Bool = λ host. to_lower_case host.slug == to_lower_case slug in
      find_slug-unique_by_slug (λ (host : Host). host.slug) (to_lower_case slug)
        (hosts_of from_deploy ++ (hosts_of from_redis ++ from_files.hosts))
      ∙ ground (
        arith,
        find-append p (hosts_of from_deploy) (hosts_of from_redis ++ from_files.hosts),
        find-append p (hosts_of from_redis) from_files.hosts,
      )

  -- After the merge a slug stands for the callback of the deploy, else of Redis, else of the files.
  pub find_callback_by_slug-merge_definitions :
      (slug : Text)
      → find_callback_by_slug (merge_definitions from_files from_redis from_deploy).callbacks slug
        ≡ first (find_callback_by_slug (with_callback_source (callbacks_of from_deploy)) slug) (
            first
              (find_callback_by_slug (with_callback_source (callbacks_of from_redis)) slug)
              (find_callback_by_slug from_files.callbacks slug))
  unfolding find_callback_by_slug merge_definitions
  find_callback_by_slug-merge_definitions slug =
      let p : Callback → Bool = λ callback. to_lower_case callback.slug == to_lower_case slug in
      let deploys = with_callback_source (callbacks_of from_deploy) in
      let redis = with_callback_source (callbacks_of from_redis) in
      find_slug-unique_by_slug (λ (callback : Callback). callback.slug) (to_lower_case slug)
        (deploys ++ (redis ++ from_files.callbacks))
      ∙ ground (
        arith,
        find-append p deploys (redis ++ from_files.callbacks),
        find-append p redis from_files.callbacks,
      )

  -- In merged definitions no two hosts and no two callbacks have slugs that differ only in case.
  pub merge_definitions-HasUniqueSlugs :
      HasUniqueSlugs
        (λ (host : Host). host.slug)
        (merge_definitions from_files from_redis from_deploy).hosts
      × HasUniqueSlugs
          (λ (callback : Callback). callback.slug)
          (merge_definitions from_files from_redis from_deploy).callbacks
  unfolding merge_definitions
  merge_definitions-HasUniqueSlugs =
      (unique_by_slug-HasUniqueSlugs _ _, unique_by_slug-HasUniqueSlugs _ _)

  -- A value in merged data: arrays of the files, of Redis and of the deploy joined in that order,
  -- and otherwise the value of the deploy, else of Redis, else of the files. Each source is taken
  -- to have each block, and each block each key, once.
  pub value_at-merge_definitions :
      (name key : Text)
      → AreObjects (data_of (some from_files))
      → AreObjects (data_of from_redis)
      → AreObjects (data_of from_deploy)
      → value_at name key (data_of (some (merge_definitions from_files from_redis from_deploy)))
        ≡ combine
            (combine
              (value_at name key (data_of (some from_files)))
              (value_at name key (data_of from_redis)))
            (value_at name key (data_of from_deploy))
  unfolding merge_definitions
  value_at-merge_definitions name key hf hr hd =
      value_at-merge_data name key
        (data_of (some from_files) ∷ data_of from_redis ∷ data_of from_deploy ∷ [])
        (hf, (hr, (hd, tt)))
      ∙ ap
          (λ v.
            combine (combine v (value_at name key (data_of from_redis)))
              (value_at name key (data_of from_deploy)))
          (combine-none (value_at name key (data_of (some from_files))))
