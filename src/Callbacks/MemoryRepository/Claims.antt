-- ===== src/Callbacks/MemoryRepository/Claims.antt =====
-- What `claimDue` takes and what it leaves, and the minimum that `nextDueAt` finds.
use mocko.Base.{
  ℕ, ◌≡◌, refl, sym, ◌↔◌, inl, inr, Bool, true, false, Text, Option, none, some, List, [], ◌∷◌,
  arith, Elem, any, filter, sort, Elem-filter, Elem-sort, ◌==◌, text_eq, if◌then◌else◌,
  Option-cases, Bool-cases,
}
use mocko.Base.Dict
use mocko.Base.Dict.{get-delete}
use mocko.Callbacks.Pending.{PendingCallback}
use mocko.Callbacks.MemoryRepository.{Repository, is_due, due_order, list, delete_all, claim_due}
use mocko.Callbacks.MemoryRepository.Valid.{IsValid, Elem-values_iff, id_of_get}

module _ {P : Type 0} where
  abbrev pub has_id : Text → PendingCallback P → Bool
  has_id k p = p.id == k

  any_of_Elem :
      (k : Text) (p : PendingCallback P) (ps : List (PendingCallback P))
      → Elem p ps
      → p.id ≡ k
      → any (has_id k) ps ≡ true
  any_of_Elem k p [] m e = elim m [ ]
  any_of_Elem k p (q ∷ ps) m e = ground (arith, any_of_Elem k p ps)

  Elem-of_any :
      (k : Text) (ps : List (PendingCallback P))
      → any (has_id k) ps ≡ true
      → (p : PendingCallback P) × Elem p ps × (p.id ≡ k)
  Elem-of_any k [] h = cc
  Elem-of_any k (q ∷ ps) h = elim (text_eq.dec q.id k) [
    | yes e ↦ (q, inl refl, e)
    | no n ↦ let (p, m, e) = Elem-of_any k ps (ground arith) in (p, inr m, e)
  ]

  get-delete_all :
      (k : Text) (ps : List (PendingCallback P)) (s : Repository P)
      → Dict.get k (delete_all ps s) ≡ (if any (has_id k) ps then none else Dict.get k s)
  unfolding delete_all
  get-delete_all k [] s = refl
  get-delete_all k (p ∷ ps) s =
      ground (arith, get-delete_all k ps (Dict.delete p.id s), get-delete k p.id s)

  -- An entry as `claimDue` leaves it: gone if it was due.
  abbrev pub waiting : ℕ → Option (PendingCallback P) → Option (PendingCallback P)
  waiting now none = none
  waiting now (some p) = if is_due now p then none else some p

  module _ (now : ℕ) (s : Repository P) (v : IsValid s) where
    -- From a valid repository, the claimed entries are exactly the stored ones that are due and not
    -- held.
    pub Elem-claim_due :
        (p : PendingCallback P)
        → Elem p (claim_due now s).0 ↔ ((Dict.get p.id s ≡ some p) × (is_due now p ≡ true))
    unfolding claim_due list
    Elem-claim_due p = (
      λ m.
          let (stored, due) = (Elem-filter (is_due now) p (sort due_order (Dict.values s))).0 m in
          ((Elem-values_iff p s v).0 ((Elem-sort due_order p (Dict.values s)).0 stored), due),
      λ h.
          (Elem-filter (is_due now) p (sort due_order (Dict.values s))).1
            ((Elem-sort due_order p (Dict.values s)).1 ((Elem-values_iff p s v).1 h.0), h.1),
    )

    pub any_due :
        (k : Text) (p : PendingCallback P)
        → Dict.get k s ≡ some p
        → any (has_id k) (claim_due now s).0 ≡ is_due now p
    any_due k p e = elim (Bool-cases (any (has_id k) (claim_due now s).0)) [
      | inl found ↦
          let (q, m, same) = Elem-of_any k (claim_due now s).0 found in
          let (stored, due) = (Elem-claim_due q).0 m in ground arith
      | inr missing ↦ elim (Bool-cases (is_due now p)) [
        | inl due ↦
            let at_id = id_of_get k s p v.keyed e in
            let here =
              any_of_Elem k p (claim_due now s).0 ((Elem-claim_due p).1 (ground arith, due))
                (sym at_id) in
            cc
        | inr early ↦ cc
      ]
    ]

    any_absent : (k : Text) → Dict.get k s ≡ none → any (has_id k) (claim_due now s).0 ≡ false
    any_absent k e = elim (Bool-cases (any (has_id k) (claim_due now s).0)) [
      | inl found ↦
          let (q, m, same) = Elem-of_any k (claim_due now s).0 found in
          let (stored, due) = (Elem-claim_due q).0 m in ground arith
      | inr missing ↦ missing
    ]

    -- In a valid repository, `claimDue` takes out every entry that is due and not held, and leaves
    -- every other as it was.
    pub get-claim_due : (k : Text) → Dict.get k (claim_due now s).1 ≡ waiting now (Dict.get k s)
    unfolding claim_due
    get-claim_due k = elim (Option-cases (Dict.get k s)) [
      | inl e ↦ ground (arith, get-delete_all k (filter (is_due now) (list s)) s, any_absent k e)
      | inr (p, e) ↦
          ground (arith, get-delete_all k (filter (is_due now) (list s)) s, any_due k p e)
    ]
