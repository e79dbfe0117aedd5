-- ===== src/Control/Hosts/Invariant.antt =====
-- What the handlers of mocko-control/lib/host/host.service.ts keep true of the panel's hosts.
use mocko.Base.{
  ◌≡◌, refl, sym, ◌∙◌, subst, Text, true, false, some, List, [], ◌∷◌, ◌++◌, arith, any, find, All,
  text_eq, to_lower_case, Bool-cases, Option-cases, inl, inr,
}
use mocko.Definitions.Merge.Precedence.{HasUniqueSlugs}
use mocko.Control.Store.{has_id, put, OwnStore}
use mocko.Control.Hosts.{
  Annotation, Host, CreateHostInput, PatchHostInput, host_id, host_slug, is_read_only,
  is_file_definition, has_ui_slug, updated, new_host, Panel, list_hosts, get_host, create_host,
  update_host, delete_host,
}
use mocko.Control.Hosts.Slugs.{
  IsUi, put-IsUi, without-IsUi, without-HasUniqueSlugs, put_new-HasUniqueSlugs,
  put_same-HasUniqueSlugs, free-slug_in, any_left,
}

pub data Request : Type 0 where
  create : Text → CreateHostInput → Request
  update : Text → PatchHostInput → Request
  delete : Text → Request

module _ (store : OwnStore host_id) (created : List Annotation) (file_hosts : List Host) where
  abbrev pub Hosts : Type 0
  Hosts = Panel store created file_hosts

  abbrev pub own_hosts : Hosts → List Host
  own_hosts panel = store.list panel.own

  unfoldable pub handle : Request → Hosts → Hosts
  handle (create uuid input) panel = (create_host store created file_hosts uuid input panel).1
  handle (update id input) panel = (update_host store created file_hosts id input panel).1
  handle (delete id) panel = (delete_host store created file_hosts id panel).1

  -- A created host gets an id that is not in use.
  abbrev pub IsFresh : Request → Hosts → Type 0
  IsFresh (create uuid input) panel = any (has_id host_id uuid) (own_hosts panel) ≡ false
  IsFresh (update id input) panel = Unit
  IsFresh (delete id) panel = Unit

  pub record IsConsistent (panel : Hosts) : Type 0 where
    pub valid : store.IsValid panel.own
    pub ui : All IsUi (own_hosts panel)
    pub unique : HasUniqueSlugs host_slug (own_hosts panel)

  saved-IsConsistent :
      (host : Host) (panel : Hosts) (deployed : List Host)
      → IsConsistent panel
      → IsUi host
      → HasUniqueSlugs host_slug (put host_id host (own_hosts panel))
      → IsConsistent (record panel { own = store.save host panel.own; deployed = deployed })
  saved-IsConsistent host panel deployed c u h = record {
    valid = store.save-IsValid host panel.own c.valid;
    ui =
        subst (λ hosts. All IsUi hosts) (sym (store.list-save host panel.own c.valid))
          (put-IsUi host (own_hosts panel) u c.ui);
    unique =
        subst (λ hosts. HasUniqueSlugs host_slug hosts)
          (sym (store.list-save host panel.own c.valid)) h;
  }

  removed-IsConsistent :
      (id : Text) (panel : Hosts) (deployed : List Host)
      → IsConsistent panel
      → IsConsistent (record panel { own = (store.delete id panel.own).1; deployed = deployed })
  removed-IsConsistent id panel deployed c = record {
    valid = store.delete-IsValid id panel.own c.valid;
    ui =
        subst (λ hosts. All IsUi hosts) (sym (store.list-delete id panel.own c.valid))
          (without-IsUi id (own_hosts panel) c.ui);
    unique =
        subst (λ hosts. HasUniqueSlugs host_slug hosts)
          (sym (store.list-delete id panel.own c.valid))
          (without-HasUniqueSlugs id (own_hosts panel) c.unique);
  }

  abbrev pub IsFile : Host → Type 0
  IsFile host = is_file_definition host ≡ true

  create-IsConsistent :
      any is_read_only created ≡ false
      → (uuid : Text) (input : CreateHostInput) (panel : Hosts) → IsConsistent panel
      → any (has_id host_id uuid) (own_hosts panel) ≡ false
      → IsConsistent (handle (create uuid input) panel)
  unfolding handle create_host list_hosts
  create-IsConsistent own uuid input panel c fresh =
      let new : Host = new_host store created file_hosts uuid input in
      elim (Bool-cases
        (any (has_ui_slug (to_lower_case input.slug)) (own_hosts panel ++ file_hosts))) [
          | inl taken ↦ rw (taken, handle) c
          | inr free ↦
              rw (free, handle)
                (saved-IsConsistent new panel _ c own (
                  put_new-HasUniqueSlugs new (own_hosts panel)
                    (free-slug_in (to_lower_case input.slug) (own_hosts panel) c.ui (
                      any_left (has_ui_slug (to_lower_case input.slug)) (own_hosts panel) file_hosts
                        free))
                    fresh c.unique))
        ]

  found_file :
      (id : Text) (hosts : List Host) (host : Host)
      → All IsFile hosts
      → find (has_id host_id id) hosts ≡ some host
      → is_file_definition host ≡ true
  found_file id [] host files e = cc
  found_file id (x ∷ xs) host files e = ground (arith, found_file id xs host files.1)

  -- a host of the panel that is not of a file is an own host
  own_host :
      All IsFile file_hosts
      → (id : Text) (panel : Hosts) (host : Host)
      → get_host store created file_hosts id panel ≡ some host
      → is_file_definition host ≡ false
      → store.get id panel.own ≡ some host
  unfolding get_host
  own_host files id panel host e u = elim (Option-cases (store.get id panel.own)) [
    | inl n ↦ ground (arith, found_file id file_hosts host files)
    | inr (own, s) ↦ ground arith
  ]

  found_id :
      (id : Text) (hosts : List Host) (host : Host)
      → find (has_id host_id id) hosts ≡ some host
      → host.id ≡ id
  found_id id [] host e = cc
  found_id id (x ∷ xs) host e = ground (arith, found_id id xs host)

  updated-HasUniqueSlugs :
      (id : Text) (input : PatchHostInput) (panel : Hosts) (host : Host)
      → IsConsistent panel
      → store.get id panel.own ≡ some host
      → HasUniqueSlugs host_slug (put host_id (updated input host) (own_hosts panel))
  updated-HasUniqueSlugs id input panel host c e =
      let there : find (has_id host_id id) (own_hosts panel) ≡ some host =
        sym (store.get-eq-find id panel.own c.valid) ∙ e in
      put_same-HasUniqueSlugs (updated input host) (own_hosts panel) host
        (subst (λ i. find (has_id host_id i) (own_hosts panel) ≡ some host)
          (sym (found_id id (own_hosts panel) host there)) there)
        refl c.unique

  update-IsConsistent :
      All IsFile file_hosts
      → (id : Text) (input : PatchHostInput) (panel : Hosts) → IsConsistent panel
      → IsConsistent (handle (update id input) panel)
  unfolding handle update_host
  update-IsConsistent files id input panel c =
      elim (Option-cases (get_host store created file_hosts id panel)) [
        | inl n ↦ rw (n, handle) c
        | inr (host, e) ↦ elim (Bool-cases (is_file_definition host)) [
          | inl file ↦ rw (e, file, handle) c
          | inr ui ↦
              rw (e, ui, handle)
                (saved-IsConsistent (updated input host) panel _ c ui (
                  updated-HasUniqueSlugs id input panel host c (own_host files id panel host e ui)))
        ]
      ]

  delete-IsConsistent :
      (id : Text) (panel : Hosts) → IsConsistent panel → IsConsistent (handle (delete id) panel)
  unfolding handle delete_host
  delete-IsConsistent id panel c = elim (Bool-cases (store.delete id panel.own).0) [
    | inl gone ↦ rw (gone, handle) (removed-IsConsistent id panel _ c)
    | inr kept ↦ rw (kept, handle) (removed-IsConsistent id panel panel.deployed c)
  ]

  -- With a store that keeps its laws, hosts of files that are all read-only and annotations for
  -- created hosts without READ_ONLY: after a create under an id that no own host has, an update or a
  -- delete, whatever it answers, the store is still valid, every own host is still one of the user
  -- interface, and no two own hosts have the same slug, whatever the case.
  pub handle-IsConsistent :
      any is_read_only created ≡ false
      → All IsFile file_hosts
      → (request : Request) (panel : Hosts) → IsConsistent panel
      → IsFresh request panel
      → IsConsistent (handle request panel)
  handle-IsConsistent own files (create uuid input) panel c fresh =
      create-IsConsistent own uuid input panel c fresh
  handle-IsConsistent own files (update id input) panel c fresh =
      update-IsConsistent files id input panel c
  handle-IsConsistent own files (delete id) panel c fresh = delete-IsConsistent id panel c
