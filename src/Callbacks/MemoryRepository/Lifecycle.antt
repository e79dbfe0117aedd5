-- ===== src/Callbacks/MemoryRepository/Lifecycle.antt =====
-- Any sequence of calls of the repository: how often an id can be handed out for delivery, and what
-- a hold protects.
use mocko.Base.{
  ℕ, ◌+◌, ◌≤◌, ◌≡◌, refl, inl, inr, Bool, true, false, Text, Option, none, some, List, [], ◌∷◌,
  ◌++◌, arith, All, any, filter, sort, insert_sorted, ◌==◌, text_eq, is_some, if◌then◌else◌,
  Option-cases,
}
use mocko.Base.Dict
use mocko.Base.Dict.{get-set, get-delete}
use mocko.Callbacks.Pending.{PendingCallback, count_id}
use mocko.Callbacks.MemoryRepository.{
  Repository, is_held, is_due, due_order, list, schedule, claim_due, claim, hold, cancel, clear,
}
use mocko.Callbacks.MemoryRepository.Valid.{
  IsValid, id_of_get, count_id-values_lem, schedule-IsValid, claim_due-IsValid, claim-IsValid,
  hold-IsValid, cancel-IsValid,
}
use mocko.Callbacks.MemoryRepository.Claims.{has_id, get-claim_due, any_due}

-- The calls that change the repository. `fire` is the `claim` of one id.
pub data Call (P : Type 0) : Type 0 where
  add : PendingCallback P → Call P
  wake : ℕ → Call P
  fire : Text → Call P
  hold_at : Text → ℕ → Call P
  drop : Text → Call P
  drop_all : Call P

module _ {P : Type 0} where
  abbrev pub to_list : Option (PendingCallback P) → List (PendingCallback P)
  to_list none = []
  to_list (some p) = p ∷ []

  -- What a call hands out for delivery, and the repository after it.
  unfoldable pub step : Call P → Repository P → List (PendingCallback P) × Repository P
  step (add p) s = ([], schedule p s)
  step (wake now) s = claim_due now s
  step (fire id) s = (to_list (claim id s).0, (claim id s).1)
  step (hold_at id t) s = ([], (hold id t s).1)
  step (drop id) s = ([], (cancel id s).1)
  step drop_all s = ([], clear s)

  unfoldable pub run : List (Call P) → Repository P → List (PendingCallback P) × Repository P
  run [] s = ([], s)
  run (c ∷ cs) s = ((step c s).0 ++ (run cs (step c s).1).0, (run cs (step c s).1).1)

  abbrev adds : Text → Call P → ℕ
  adds k (add p) = if p.id == k then 1 else 0
  adds k _ = 0

  -- How often the calls schedule an id.
  abbrev pub count_adds : Text → List (Call P) → ℕ
  count_adds k [] = 0
  count_adds k (c ∷ cs) = adds k c + count_adds k cs

  abbrev pub stored : Text → Repository P → ℕ
  stored k s = if is_some (Dict.get k s) then 1 else 0

  count_id-append :
      (k : Text) (ps qs : List (PendingCallback P))
      → count_id k (ps ++ qs) ≡ count_id k ps + count_id k qs
  count_id-append k [] qs = omega arith
  count_id-append k (p ∷ ps) qs = ground (arith, count_id-append k ps qs)

  count_id-insert_sorted :
      (k : Text) (p : PendingCallback P) (ps : List (PendingCallback P))
      → count_id k (insert_sorted due_order p ps) ≡ count_id k (p ∷ ps)
  unfolding insert_sorted
  count_id-insert_sorted k p [] = refl
  count_id-insert_sorted k p (q ∷ ps) = ground (arith, count_id-insert_sorted k p ps)

  count_id-sort :
      (k : Text) (ps : List (PendingCallback P)) → count_id k (sort due_order ps) ≡ count_id k ps
  unfolding sort
  count_id-sort k [] = refl
  count_id-sort k (p ∷ ps) =
      ground (arith, count_id-sort k ps, count_id-insert_sorted k p (sort due_order ps))

  count_id-filter-le :
      (k : Text) (keep : PendingCallback P → Bool) (ps : List (PendingCallback P))
      → count_id k (filter keep ps) ≤ count_id k ps
  count_id-filter-le k keep [] = omega arith
  count_id-filter-le k keep (p ∷ ps) = ground (arith, count_id-filter-le k keep ps)

  count_id_none :
      (k : Text) (ps : List (PendingCallback P)) → any (has_id k) ps ≡ false → count_id k ps ≡ 0
  count_id_none k [] h = refl
  count_id_none k (p ∷ ps) h = ground (arith, count_id_none k ps)

  module _ (k : Text) (s : Repository P) (v : IsValid s) where
    count_id-claim_due-le : (now : ℕ) → count_id k (claim_due now s).0 ≤ stored k s
    unfolding claim_due list
    count_id-claim_due-le now = omega (
      arith,
      count_id-filter-le k (is_due now) (sort due_order (Dict.values s)),
      count_id-sort k (Dict.values s),
      count_id-values_lem k s v,
    )

    stored-claim_due :
        (now : ℕ) → count_id k (claim_due now s).0 + stored k (claim_due now s).1 ≤ stored k s
    stored-claim_due now = elim (Option-cases (Dict.get k s)) [
      | inl e ↦ ground (arith, count_id-claim_due-le now, get-claim_due now s v k)
      | inr (p, e) ↦ ground (
        arith,
        count_id-claim_due-le now,
        get-claim_due now s v k,
        any_due now s v k p e,
        count_id_none k (claim_due now s).0,
      )
    ]

    stored-claim :
        (id : Text) → count_id k (to_list (claim id s).0) + stored k (claim id s).1 ≤ stored k s
    unfolding claim
    stored-claim id = elim (Option-cases (Dict.get id s)) [
      | inl e ↦ ground arith
      | inr (p, e) ↦ ground (arith, get-delete k id s, id_of_get id s p v.keyed e)
    ]

    stored-hold : (id : Text) (t : ℕ) → stored k (hold id t s).1 ≤ stored k s
    unfolding hold
    stored-hold id t = elim (Option-cases (Dict.get id s)) [
      | inl e ↦ ground arith
      | inr (p, e) ↦ ground (arith, get-set k id (record p { held_at = some t }) s)
    ]

    -- One call hands an id out only if it was stored, and then it is stored no more.
    stored-step :
        (c : Call P) → count_id k (step c s).0 + stored k (step c s).1 ≤ adds k c + stored k s
    unfolding step
    stored-step (add p) = unfold schedule in ground (arith, get-set k p.id p s)
    stored-step (wake now) = omega (arith, stored-claim_due now)
    stored-step (fire id) = omega (arith, stored-claim id)
    stored-step (hold_at id t) = omega (arith, stored-hold id t)
    stored-step (drop id) = unfold cancel in ground (arith, get-delete k id s)
    stored-step drop_all = unfold clear Dict.get in ground arith

  pub step-IsValid : (c : Call P) (s : Repository P) → IsValid s → IsValid (step c s).1
  unfolding step
  step-IsValid (add p) s v = schedule-IsValid p s v
  step-IsValid (wake now) s v = claim_due-IsValid now s v
  step-IsValid (fire id) s v = claim-IsValid id s v
  step-IsValid (hold_at id t) s v = hold-IsValid id t s v
  step-IsValid (drop id) s v = cancel-IsValid id s v
  step-IsValid drop_all s v = unfold clear in record { nodup = tt; keyed = tt }

  pub run-IsValid : (cs : List (Call P)) (s : Repository P) → IsValid s → IsValid (run cs s).1
  unfolding run
  run-IsValid [] s v = v
  run-IsValid (c ∷ cs) s v = run-IsValid cs (step c s).1 (step-IsValid c s v)

  -- From a valid repository, over any sequence of calls, an id is handed out for delivery at most as
  -- often as the calls schedule it, and once more if it is stored at the start.
  pub delivered-le-scheduled :
      (k : Text) (cs : List (Call P)) (s : Repository P)
      → IsValid s
      → count_id k (run cs s).0 ≤ count_adds k cs + stored k s
  unfolding run
  delivered-le-scheduled k [] s v = omega arith
  delivered-le-scheduled k (c ∷ cs) s v = omega (
    arith,
    count_id-append k (step c s).0 (run cs (step c s).1).0,
    stored-step k s v c,
    delivered-le-scheduled k cs (step c s).1 (step-IsValid c s v),
  )

  -- The calls that name an id.
  abbrev touches : Text → Call P → Bool
  touches k (add p) = p.id == k
  touches k (wake now) = false
  touches k (fire id) = id == k
  touches k (hold_at id t) = false
  touches k (drop id) = id == k
  touches k drop_all = true

  module _ (k : Text) (p : PendingCallback P) (held : is_held p ≡ true) where
    held_step :
        (c : Call P) (s : Repository P)
        → IsValid s
        → touches k c ≡ false
        → Dict.get k s ≡ some p
        → (Dict.get k (step c s).1 ≡ some p) × (count_id k (step c s).0 ≡ 0)
    unfolding step
    held_step (add q) s v far e = (unfold schedule in ground (arith, get-set k q.id q s), refl)
    held_step (wake now) s v far e = (
      ground (arith, get-claim_due now s v k),
      count_id_none k (claim_due now s).0 (ground (arith, any_due now s v k p e)),
    )
    held_step (fire id) s v far e =
        unfold claim in
        elim (Option-cases (Dict.get id s)) [
          | inl gone ↦ ground arith
          | inr (q, there) ↦ ground (arith, get-delete k id s, id_of_get id s q v.keyed there)
        ]
    held_step (hold_at id t) s v far e =
        unfold hold in
        elim (Option-cases (Dict.get id s)) [
          | inl gone ↦ ground arith
          | inr (q, there) ↦ ground (arith, get-set k id (record q { held_at = some t }) s)
        ]
    held_step (drop id) s v far e = (unfold cancel in ground (arith, get-delete k id s), refl)
    held_step drop_all s v far e = cc

    -- From a valid repository, an entry that is stored and held stays stored as it is, and its id is
    -- not handed out for delivery, over any sequence of calls none of which schedules, fires or cancels
    -- that id or clears the repository.
    pub held_stays :
        (cs : List (Call P)) (s : Repository P)
        → IsValid s
        → All (λ c. touches k c ≡ false) cs
        → Dict.get k s ≡ some p
        → (Dict.get k (run cs s).1 ≡ some p) × (count_id k (run cs s).0 ≡ 0)
    unfolding run
    held_stays [] s v far e = (e, refl)
    held_stays (c ∷ cs) s v far e =
        let (e', here) = held_step c s v far.0 e in
        let (e'', later) = held_stays cs (step c s).1 (step-IsValid c s v) far.1 e' in
        (e'', omega (arith, count_id-append k (step c s).0 (run cs (step c s).1).0))
