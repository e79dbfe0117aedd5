-- ===== src/Callbacks/RedisRepository/Due.antt =====
-- What `claimDue` of callback.redis-repository.ts takes and leaves.
use mocko.Base.{
  ℕ, leb, ◌≡◌, refl, sym, ◌∙◌, ap, subst, ◌↔◌, inl, inr, Text, true, false, List, [], ◌∷◌, map,
  arith, Elem, Elem-map, Elem-filter, filter, Bool-cases,
}
use mocko.Callbacks.Pending.{PendingCallback}
use mocko.Callbacks.MemoryRepository.{is_held, is_due}
use mocko.Callbacks.RedisRepository.{Backend, State, rem_all, claim_due_script, claim_due}
use mocko.Callbacks.RedisRepository.Stored.{IsValid, Stored, Waits, Held, stringify_inj}

module _ {P : Type 0} (b : Backend P) where
  rem_all-IsValid :
      (ms : List Text) (z : b.zset.State) → b.zset.IsValid z → b.zset.IsValid (rem_all b ms z)
  unfolding rem_all
  rem_all-IsValid [] z v = v
  rem_all-IsValid (m ∷ ms) z v = rem_all-IsValid ms (b.zset.rem m z).1 (b.zset.rem-IsValid m z v)

  Elem-rem_all :
      (ms : List Text) (z : b.zset.State) (m : Text) (n : ℕ)
      → b.zset.IsValid z
      → Elem (m, n) (b.zset.range (rem_all b ms z))
        ↔ ((Elem m ms → ⊥) × Elem (m, n) (b.zset.range z))
  unfolding rem_all
  Elem-rem_all [] z m n v = (λ e. (λ a. elim a [ ], e), λ h. h.1)
  Elem-rem_all (x ∷ ms) z m n v =
      let (there, back) = Elem-rem_all ms (b.zset.rem x z).1 m n (b.zset.rem-IsValid x z v) in
      let (out, into) = b.zset.Elem-rem x z m n v in
      (
        λ e.
            let (apart, e') = there e in
            let (ne, old) = out e' in
            (λ a. elim a [ inl same ↦ ne same | inr rest ↦ apart rest ], old),
        λ (apart, old). back (λ a. apart (inr a), into (λ same. apart (inl same), old)),
      )

  module _ (now : ℕ) (s : State b) (v : IsValid b s) where
    abbrev members : List Text
    members = b.zset.range_by_score now s.pending

    member-Waits :
        (m : Text)
        → Elem m members
        → (p : PendingCallback P) × (m ≡ b.stringify p) × Waits b p s × (leb p.due_at now ≡ true)
    member-Waits m k =
        let m' : Elem m (map (λ e. e.0) (filter (λ e. leb e.1 now) (b.zset.range s.pending))) =
          subst (Elem m) (b.zset.range_by_score-range now s.pending v.zset) k in
        let (e, k', same) =
          (Elem-map (λ (e : Text × ℕ). e.0) m
              (filter (λ e. leb e.1 now) (b.zset.range s.pending))).0
            m' in
        let (stored, due) =
          (Elem-filter (λ (e : Text × ℕ). leb e.1 now) e (b.zset.range s.pending)).0 k' in
        let (q, em, en, free) = v.waits e.0 e.1 stored in
        (
          q,
          same ∙ em,
          subst (λ x. Elem (x, q.due_at) (b.zset.range s.pending)) em
              (subst (λ n. Elem (e.0, n) (b.zset.range s.pending)) en stored),
          ap (λ n. leb n now) (sym en) ∙ due,
        )

    Elem-members :
        (p : PendingCallback P)
        → Waits b p s
        → Elem (b.stringify p) members ↔ (leb p.due_at now ≡ true)
    Elem-members p w = (
      λ m.
          let (q, em, w', due) = member-Waits (b.stringify p) m in
          ap (λ (r : PendingCallback P). leb r.due_at now) (stringify_inj b p q em) ∙ due,
      λ due. subst (Elem (b.stringify p)) (sym (b.zset.range_by_score-range now s.pending v.zset)) (
          (Elem-map (λ (e : Text × ℕ). e.0) (b.stringify p)
              (filter (λ e. leb e.1 now) (b.zset.range s.pending))).1
            (
              (b.stringify p, p.due_at),
              (Elem-filter (λ (e : Text × ℕ). leb e.1 now) (b.stringify p, p.due_at)
                    (b.zset.range s.pending)).1
                  (w, due),
              refl,
            )),
    )

    Waits-free : (p : PendingCallback P) → Waits b p s → is_held p ≡ false
    Waits-free p w =
        let (q, em, en, free) = v.waits (b.stringify p) p.due_at w in
        subst (λ r. is_held r ≡ false) (sym (stringify_inj b p q em)) free

    pub is_held_of_Held : (p : PendingCallback P) → Held b p s → is_held p ≡ true
    is_held_of_Held p h =
        let (q, em, id, held) = v.holds p.id (b.stringify p) h in
        subst (λ r. is_held r ≡ true) (sym (stringify_inj b p q em)) held

    -- The claimed entries are the stored ones that are due and not held.
    pub redis_claim_due-Stored :
        (p : PendingCallback P)
        → Elem p (claim_due b now s).0 ↔ (Stored b p.id p s × (is_due now p ≡ true))
    unfolding claim_due claim_due_script
    redis_claim_due-Stored p = (
      λ m.
          let (x, k, e) = (Elem-map b.parse p members).0 m in
          let (q, ex, w, due) = member-Waits x k in
          let same : q ≡ p = sym (b.parse-stringify q) ∙ (sym (ap b.parse ex) ∙ sym e) in
          let wp : Waits b p s = subst (λ r. Waits b r s) same w in
          let due' : leb p.due_at now ≡ true =
            ap (λ (r : PendingCallback P). leb r.due_at now) (sym same) ∙ due in
          let free : is_held p ≡ false = Waits-free p wp in ((refl, inl wp), ground arith),
      λ (st, due). elim st.1 [
        | inl w ↦
            (Elem-map b.parse p members).1
              (b.stringify p, (Elem-members p w).1 (ground arith), sym (b.parse-stringify p))
        | inr h ↦ let held : is_held p ≡ true = is_held_of_Held p h in absurd (ground arith)
      ],
    )

    abbrev left : State b
    left = record s { pending = rem_all b members s.pending }

    Waits-left :
        (p : PendingCallback P) → Waits b p left ↔ (Waits b p s × (leb p.due_at now ≡ false))
    Waits-left p =
        let (out, into) = Elem-rem_all members s.pending (b.stringify p) p.due_at v.zset in
        (
          λ w.
              let (apart, old) = out w in
              (
                old,
                elim (Bool-cases (leb p.due_at now)) [
                  | inl due ↦ absurd (apart ((Elem-members p old).1 due))
                  | inr late ↦ late
                ],
              ),
          λ (w, late). into (
            λ m.
                let due : leb p.due_at now ≡ true = (Elem-members p w).0 m in absurd (ground arith),
            w,
          ),
        )

    left-IsValid : IsValid b left
    left-IsValid = record {
      zset = rem_all-IsValid members s.pending v.zset;
      hash = v.hash;
      waits = λ m n e. v.waits m n ((Elem-rem_all members s.pending m n v.zset).0 e).1;
      holds = v.holds;
      unique = λ p q w w'. v.unique p q ((Waits-left p).0 w).0 ((Waits-left q).0 w').0;
      disjoint = λ p w. v.disjoint p ((Waits-left p).0 w).0;
    }

    -- From a valid state, `claimDue` hands out the stored entries that are due and not held, each other
    -- stays under its id, and the state is valid.
    pub redis_claim_due-left :
        IsValid b (claim_due b now s).1
        × ((k : Text) (p : PendingCallback P)
            → Stored b k p (claim_due b now s).1 ↔ (Stored b k p s × (is_due now p ≡ false)))
    unfolding claim_due claim_due_script
    redis_claim_due-left = (
      left-IsValid,
      λ k p. (
        λ (id, st). elim st [
          | inl w ↦ let (old, late) = (Waits-left p).0 w in ((id, inl old), ground arith)
          | inr h ↦ let held : is_held p ≡ true = is_held_of_Held p h in ((id, inr h), ground arith)
        ],
        λ ((id, st), late). elim st [
          | inl w ↦
              let free : is_held p ≡ false = Waits-free p w in
              (id, inl ((Waits-left p).1 (w, ground arith)))
          | inr h ↦ (id, inr h)
        ],
      ),
    )
