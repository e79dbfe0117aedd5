-- ===== src/Callbacks/Delivery/Outcomes.antt =====
-- What a delivery sends and how it ends.
use mocko.Base.{
  ℕ, ◌≤◌, ◌<◌, ◌≡◌, refl, sym, subst, inl, inr, ◌⊎◌, Bool-cases, Option-cases, Text, false, Option,
  none, some, List, [], ◌∷◌, arith, if◌then◌else◌, ltb,
}
use mocko.Base.Result.{Result, err, ok, Result-cases}
use mocko.Definitions.Data.{Callback, MockoDefinition, DataBlocks}
use mocko.Definitions.Hosts.{find_callback_by_slug}
use mocko.Callbacks.Pending.{PendingCallback}
use mocko.Callbacks.Delivery.{
  DeliveryError, no_definition, Request, Outcome, dropped, returned_status, delivered, thrown,
  prepare, is_success, deliver,
}
use mocko.Callbacks.Delivery.Sent.{IsMadeOf, Fails, request_of-ok, request_of-err}

no_success : (status : ℕ) → is_success status ≡ false → (status < 200) ⊎ (300 ≤ status)
no_success status other = elim (Bool-cases (ltb status 200)) [
  | inl low ↦ inl (ground arith)
  | inr high ↦ inr (ground arith)
]

module _ {A E P : Type 0}
    (render : PendingCallback P → Option (DataBlocks A) → Text → Result E Text)
    (request : Request → Result E ℕ) (definitions : MockoDefinition A) where
  -- A request was made of the definition that the pending callback names.
  abbrev pub IsPrepared : PendingCallback P → Request → Type 0
  IsPrepared pending sent =
      (definition : Callback) × (find_callback_by_slug definitions.callbacks pending.slug
        ≡ some definition)
      × IsMadeOf (render pending definitions.data_blocks) definition definitions.hosts sent

  -- No request could be made: there is no such definition, or none can be made of it.
  abbrev pub IsUnprepared : PendingCallback P → DeliveryError E → Type 0
  IsUnprepared pending e =
      ((find_callback_by_slug definitions.callbacks pending.slug ≡ none) × (e ≡ no_definition))
      ⊎ ((definition : Callback) × (find_callback_by_slug definitions.callbacks pending.slug
            ≡ some definition)
          × Fails (render pending definitions.data_blocks) definition definitions.hosts e)

  -- How a delivery ended, by what was sent.
  abbrev pub Accounts : PendingCallback P → Outcome E × List Request → Type 0
  Accounts pending (dropped e, []) = IsUnprepared pending e
  Accounts pending (dropped e, sent ∷ []) =
      IsPrepared pending sent × ((t : E) × (e ≡ thrown t) × (request sent ≡ err t))
  Accounts pending (returned_status status, sent ∷ []) =
      IsPrepared pending sent × ((request sent ≡ ok status) × ((status < 200) ⊎ (300 ≤ status)))
  Accounts pending (delivered status, sent ∷ []) =
      IsPrepared pending sent × ((request sent ≡ ok status) × ((200 ≤ status) × (status ≤ 299)))
  Accounts pending _ = ⊥

  prepared :
      (pending : PendingCallback P) (sent : Request)
      → prepare render definitions pending ≡ ok sent
      → IsPrepared pending sent
  unfolding prepare
  prepared pending sent ready =
      elim (Option-cases (find_callback_by_slug definitions.callbacks pending.slug)) [
        | inl n ↦ absurd (ground arith)
        | inr (definition, there) ↦ (
          definition,
          there,
          request_of-ok (render pending definitions.data_blocks) definition definitions.hosts sent
              (ground arith),
        )
      ]

  unprepared :
      (pending : PendingCallback P) (e : DeliveryError E)
      → prepare render definitions pending ≡ err e
      → IsUnprepared pending e
  unfolding prepare
  unprepared pending e failed =
      elim (Option-cases (find_callback_by_slug definitions.callbacks pending.slug)) [
        | inl n ↦ inl (n, ground arith)
        | inr (definition, there) ↦ inr (
          definition,
          there,
          request_of-err (render pending definitions.data_blocks) definition definitions.hosts e
              (ground arith),
        )
      ]

  dropped_early :
      (pending : PendingCallback P) (e : DeliveryError E)
      → prepare render definitions pending ≡ err e
      → deliver render request definitions pending ≡ (dropped e, [])
  unfolding deliver
  dropped_early pending e failed = ground arith

  dropped_late :
      (pending : PendingCallback P) (sent : Request) (t : E)
      → prepare render definitions pending ≡ ok sent
      → request sent ≡ err t
      → deliver render request definitions pending ≡ (dropped (thrown t), sent ∷ [])
  unfolding deliver
  dropped_late pending sent t ready failed = ground arith

  answered_with :
      (pending : PendingCallback P) (sent : Request) (status : ℕ)
      → prepare render definitions pending ≡ ok sent
      → request sent ≡ ok status
      → deliver render request definitions pending
        ≡ (if is_success status then delivered status else returned_status status, sent ∷ [])
  unfolding deliver
  answered_with pending sent status ready answered = ground arith

  pub deliver-Accounts :
      (pending : PendingCallback P) → Accounts pending (deliver render request definitions pending)
  deliver-Accounts pending = elim (Result-cases (prepare render definitions pending)) [
    | inl (e, failed) ↦
        subst (Accounts pending) (sym (dropped_early pending e failed))
          (unprepared pending e failed)
    | inr (sent, ready) ↦ elim (Result-cases (request sent)) [
      | inl (t, failed) ↦
          subst (Accounts pending) (sym (dropped_late pending sent t ready failed))
            (prepared pending sent ready, (t, refl, failed))
      | inr (status, answered) ↦ elim (Bool-cases (is_success status)) [
        | inl success ↦
            subst (Accounts pending) (sym (answered_with pending sent status ready answered))
              (rw success (prepared pending sent ready, (answered, (ground arith, ground arith))))
        | inr other ↦
            subst (Accounts pending) (sym (answered_with pending sent status ready answered))
              (rw other (prepared pending sent ready, (answered, no_success status other)))
      ]
    ]
  ]
