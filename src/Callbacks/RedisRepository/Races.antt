-- ===== src/Callbacks/RedisRepository/Races.antt =====
-- The methods of callback.redis-repository.ts whose `findMember` read an earlier state: what others did
-- in between cannot make them hand out an entry twice.
use mocko.Base.{
  ℕ, ◌≡◌, sym, ◌∙◌, ap, subst, ◌↔◌, ◌⊎◌, inl, inr, Text, Option, none, some, List, [], ◌∷◌, arith,
  Elem, text_eq, nat_eq, Option-cases,
}
use mocko.Callbacks.Pending.{PendingCallback}
use mocko.Callbacks.RedisRepository.{
  Backend, State, find_member, claim_held_script, claim, parse_some,
}
use mocko.Callbacks.RedisRepository.Stored.{IsValid, Stored, Waits, stringify_inj, find_member-some}
use mocko.Callbacks.RedisRepository.Effects.{
  Without, taken, taken-Without, taken-IsValid, Elem-taken, released-Without, released,
}

module _ {P : Type 0} (b : Backend P) where
  abbrev pub SameStored : State b → State b → Type 0
  SameStored s t = (j : Text) (q : PendingCallback P) → Stored b j q t ↔ Stored b j q s

  -- What a claim of an id may do: hand out its entry, which is then not stored any more, or hand out
  -- nothing and leave what is stored.
  abbrev pub AtMostOnce : Text → State b → Option (PendingCallback P) × State b → Type 0
  AtMostOnce k s (none, t) = IsValid b t × SameStored s t
  AtMostOnce k s (some p, t) = Stored b k p s × Without b k s t

  AtMostOnce-trans :
      (k : Text) (s t : State b) (r : Option (PendingCallback P) × State b)
      → SameStored s t
      → AtMostOnce k t r
      → AtMostOnce k s r
  AtMostOnce-trans k s t (none, u) same (valid, after) =
      (valid, λ j q. (λ st. (same j q).0 ((after j q).0 st), λ st. (after j q).1 ((same j q).1 st)))
  AtMostOnce-trans k s t (some p, u) same (st, w) = (
    (same k p).0 st,
    record {
      valid = w.valid;
      stored = λ j q. (
        λ st'. let (other, old) = (w.stored j q).0 st' in (other, (same j q).0 old),
        λ (other, old). (w.stored j q).1 (other, (same j q).1 old),
      );
    },
  )

  abbrev handed : Option Text × State b → Option (PendingCallback P) × State b
  handed (member, s) = (parse_some b member, s)

  member_cases :
      (m : Text) (es : List (Text × ℕ))
      → ((n : ℕ) × Elem (m, n) es) ⊎ ((n : ℕ) → Elem (m, n) es → ⊥)
  member_cases m [] = inr (λ n e. elim e [ ])
  member_cases m ((x, n) ∷ es) = elim (text_eq.dec m x) [
    | yes same ↦ inl (n, inl (ap (λ y. (y, n)) same))
    | no other ↦ elim (member_cases m es) [
      | inl (k, e) ↦ inl (k, inr e)
      | inr gone ↦
          inr (λ k e. elim e [ inl same ↦ other (ap (λ y. y.0) same) | inr rest ↦ gone k rest ])
    ]
  ]

  module _ (k : Text) (s : State b) (v : IsValid b s) where
    held_alone : (w : Text) → b.hash.get k s.held ≡ some w → find_member b k s ≡ none
    held_alone w h = elim (Option-cases (find_member b k s)) [
      | inl n ↦ n
      | inr (m, e) ↦
          let (p, em, waits, id, free) = find_member-some b s v k m e in
          let gone : b.hash.get p.id s.held ≡ none = v.disjoint p waits in absurd (ground arith)
    ]

    claim_held-AtMostOnce : AtMostOnce k s (handed (claim_held_script b k s))
    unfolding claim_held_script
    claim_held-AtMostOnce = elim (Option-cases (b.hash.get k s.held)) [
      | inl n ↦
          let eq : handed (claim_held_script b k s) ≡ (none, s) = ground arith in
          subst (AtMostOnce k s) (sym eq) (v, λ j q. (λ st. st, λ st. st))
      | inr (w, h) ↦
          let (p, ew, id, held) = v.holds k w h in
          let same : b.parse w ≡ p = ap b.parse ew ∙ b.parse-stringify p in
          let st : Stored b k p s =
            (id, inr (ap (λ x. b.hash.get x s.held) id ∙ (h ∙ ap some ew))) in
          let eq : handed (claim_held_script b k s) ≡ (some (b.parse w), released b k s) =
            ground arith in
          subst (AtMostOnce k s) (sym eq)
            (subst (λ q. Stored b k q s) (sym same) st, released-Without b s v k (held_alone w h))
    ]

    absent-SameStored :
        (m : Text)
        → ((n : ℕ) → Elem (m, n) (b.zset.range s.pending) → ⊥)
        → SameStored s (taken b m s)
    absent-SameStored m gone j q = (
      λ (id, st). elim st [
        | inl w ↦ (id, inl ((Elem-taken b s v m (b.stringify q) q.due_at).0 w).1)
        | inr h ↦ (id, inr h)
      ],
      λ (id, st). elim st [
        | inl w ↦ (
          id,
          inl (
              (Elem-taken b s v m (b.stringify q) q.due_at).1 (
                λ e. gone q.due_at (subst (λ x. Elem (x, q.due_at) (b.zset.range s.pending)) e w),
                w,
              )),
        )
        | inr h ↦ (id, inr h)
      ],
    )

  module _ (k : Text) (found_in s : State b) (f : IsValid b found_in) (v : IsValid b s) where
    won :
        (m : Text) (n : ℕ)
        → find_member b k found_in ≡ some m
        → Elem (m, n) (b.zset.range s.pending)
        → AtMostOnce k s (claim b k found_in s)
    unfolding claim
    won m n e there =
        let (p, em, w, id, free) = find_member-some b found_in f k m e in
        let (q, em', en, free') = v.waits m n there in
        let w' : Waits b q s =
          subst (λ x. Elem (x, q.due_at) (b.zset.range s.pending)) em'
            (subst (λ n. Elem (m, n) (b.zset.range s.pending)) en there) in
        let same : b.parse m ≡ p = ap b.parse em ∙ b.parse-stringify p in
        let pq : q ≡ p = stringify_inj b q p (sym em' ∙ em) in
        let wp : Waits b p s = subst (λ r. Waits b r s) pq w' in
        let one : (b.zset.rem m s.pending).0 ≡ 1 = b.zset.rem_some m s.pending n v.zset there in
        let eq : claim b k found_in s ≡ (some (b.parse m), taken b m s) = ground arith in
        subst (AtMostOnce k s) (sym eq) (
          subst (λ r. Stored b k r s) (sym same) (id, inl wp),
          subst (λ x. Without b x s (taken b m s)) id
              (subst (λ x. Without b p.id s (taken b x s)) (sym em) (taken-Without b s v p wp)),
        )

    lost :
        (m : Text)
        → find_member b k found_in ≡ some m
        → ((n : ℕ) → Elem (m, n) (b.zset.range s.pending) → ⊥)
        → AtMostOnce k s (claim b k found_in s)
    unfolding claim
    lost m e gone =
        let none_removed : (b.zset.rem m s.pending).0 ≡ 0 =
          b.zset.rem_none m s.pending v.zset gone in
        let eq : claim b k found_in s ≡ handed (claim_held_script b k (taken b m s)) =
          ground arith in
        subst (AtMostOnce k s) (sym eq) (
          AtMostOnce-trans k s (taken b m s) _ (absent-SameStored k s v m gone)
            (claim_held-AtMostOnce k (taken b m s) (taken-IsValid b s v m)))

    -- Whatever valid state its `findMember` read, and whatever others did since, a `claim` of an id in a
    -- valid state hands out the entry that is stored under the id, which is then stored no more, and
    -- changes no other; or it hands out nothing, and what is stored stays.
    pub claim-AtMostOnce : AtMostOnce k s (claim b k found_in s)
    unfolding claim
    claim-AtMostOnce = elim (Option-cases (find_member b k found_in)) [
      | inl n ↦
          let eq : claim b k found_in s ≡ handed (claim_held_script b k s) = ground arith in
          subst (AtMostOnce k s) (sym eq) (claim_held-AtMostOnce k s v)
      | inr (m, e) ↦ elim (member_cases m (b.zset.range s.pending)) [
        | inl (n, there) ↦ won m n e there
        | inr gone ↦ lost m e gone
      ]
    ]
