-- ===== src/Control/Hosts/Answers.antt =====
-- What the handlers of mocko-control/lib/host/host.service.ts answer, and what they then have done.
use mocko.Base.{
  ◌≡◌, refl, Text, false, Option, none, some, List, [], ◌∷◌, arith, any, find, text_eq,
  if◌then◌else◌, Option-cases, inl, inr,
}
use mocko.Base.Result.{Result, ok, err}
use mocko.Control.Store.{has_id, put, without, OwnStore}
use mocko.Control.Hosts.{
  Annotation, Host, CreateHostInput, HostError, host_id, new_host, get_host, create_host,
  update_host, delete_host,
}
use mocko.Control.Hosts.Invariant.{Request, create, update, delete, Hosts, own_hosts, handle}

abbrev pub error_of {ℓ} : {A : Type ℓ} → Result HostError A → Option HostError
error_of (ok a) = none
error_of (err e) = some e

find-put :
    (h : Host) (hosts : List Host) → find (has_id host_id h.id) (put host_id h hosts) ≡ some h
unfolding put
find-put h [] = ground arith
find-put h (x ∷ xs) = ground (arith, find-put h xs)

find-without :
    (id : Text) (hosts : List Host) → find (has_id host_id id) (without host_id id hosts) ≡ none
find-without id [] = refl
find-without id (x ∷ xs) = ground (arith, find-without id xs)

without-absent :
    (id : Text) (hosts : List Host)
    → any (has_id host_id id) hosts ≡ false
    → without host_id id hosts ≡ hosts
without-absent id [] e = refl
without-absent id (x ∷ xs) e = ground (arith, without-absent id xs)

module _ (store : OwnStore host_id) (created : List Annotation) (file_hosts : List Host) where
  unfoldable pub refusal : Request → Hosts store created file_hosts → Option HostError
  refusal (create uuid input) panel =
      error_of (create_host store created file_hosts uuid input panel).0
  refusal (update id input) panel = error_of (update_host store created file_hosts id input panel).0
  refusal (delete id) panel = error_of (delete_host store created file_hosts id panel).0

  -- After a request that is answered without an error, the core has the own hosts as they then are if
  -- the deploy gets through, and else those that it had.
  pub handle-deployed :
      (request : Request) (panel : Hosts store created file_hosts)
      → refusal request panel ≡ none
      → (handle store created file_hosts request panel).deployed ≡ (
          if panel.gets_through
          then own_hosts store created file_hosts (handle store created file_hosts request panel)
          else panel.deployed)
  unfolding handle refusal create_host update_host delete_host
  handle-deployed (create uuid input) panel e = ground arith
  handle-deployed (update id input) panel e =
      elim (Option-cases (get_host store created file_hosts id panel)) [
        | inl n ↦ ground arith
        | inr (host, f) ↦ ground arith
      ]
  handle-deployed (delete id) panel e = ground arith

  -- A request that is refused, with a store in a valid state, changes no own host and hands the core
  -- no new definition.
  pub handle-refused :
      (request : Request) (panel : Hosts store created file_hosts) (error : HostError)
      → store.IsValid panel.own
      → refusal request panel ≡ some error
      → (own_hosts store created file_hosts (handle store created file_hosts request panel)
          ≡ own_hosts store created file_hosts panel)
        × ((handle store created file_hosts request panel).deployed ≡ panel.deployed)
  unfolding handle refusal create_host update_host delete_host
  handle-refused (create uuid input) panel error v e = ground arith
  handle-refused (update id input) panel error v e =
      elim (Option-cases (get_host store created file_hosts id panel)) [
        | inl n ↦ ground arith
        | inr (host, f) ↦ ground arith
      ]
  handle-refused (delete id) panel error v e = ground (
    arith,
    store.list-delete id panel.own v,
    store.delete_iff id panel.own v,
    without-absent id (store.list panel.own),
  )

  -- With a store in a valid state, a host that create_host made is what get_host then answers for
  -- its id.
  pub get_host-create_host :
      (uuid : Text) (input : CreateHostInput) (panel : Hosts store created file_hosts)
      → store.IsValid panel.own
      → refusal (create uuid input) panel ≡ none
      → get_host store created file_hosts uuid
          (handle store created file_hosts (create uuid input) panel)
        ≡ some (new_host store created file_hosts uuid input)
  unfolding handle refusal create_host get_host
  get_host-create_host uuid input panel v e =
      let new : Host = new_host store created file_hosts uuid input in
      ground (
        arith,
        store.get-eq-find uuid (store.save new panel.own) (store.save-IsValid new panel.own v),
        store.list-save new panel.own v,
        find-put new (store.list panel.own),
      )
