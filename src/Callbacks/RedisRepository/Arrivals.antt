-- ===== src/Callbacks/RedisRepository/Arrivals.antt =====
-- What callback.redis-repository.ts stores when it schedules an entry, and when it clears.
use mocko.Base.{
  ℕ, ◌≡◌, sym, ◌∙◌, ap, subst, ◌≢◌, ◌↔◌, ◌⊎◌, inl, inr, Text, true, false, none, some, arith, Elem,
  ◌==◌, text_eq, nat_eq, if◌then◌else◌, Option-cases,
}
use mocko.Callbacks.Pending.{PendingCallback}
use mocko.Callbacks.MemoryRepository.{is_held}
use mocko.Callbacks.RedisRepository.{Backend, State, schedule, find_pending, clear}
use mocko.Callbacks.RedisRepository.Stored.{
  IsValid, Stored, Waits, Held, stringify_inj, find_pending-Stored,
}

module _ {P : Type 0} (b : Backend P) where
  module _ (s : State b) (v : IsValid b s) where
    module _ (p : PendingCallback P) (fresh : find_pending b p.id s ≡ none)
        (free : is_held p ≡ false) where
      nothing_stored : (q : PendingCallback P) → Stored b p.id q s → ⊥
      nothing_stored q st =
          let found : find_pending b p.id s ≡ some q = (find_pending-Stored b s v p.id q).1 st in
          absurd (ground arith)

      nothing_held : b.hash.get p.id s.held ≡ none
      nothing_held = elim (Option-cases (b.hash.get p.id s.held)) [
        | inl n ↦ n
        | inr (w, h) ↦
            let (q, ew, id, held) = v.holds p.id w h in
            absurd (nothing_stored q (id, inr (ground arith)))
      ]

      Elem-schedule :
          (m : Text) (n : ℕ)
          → Elem (m, n) (b.zset.range (schedule b p s).pending) ↔ (
              ((m ≡ b.stringify p) × (n ≡ p.due_at))
              ⊎ ((m ≢ b.stringify p) × Elem (m, n) (b.zset.range s.pending)))
      unfolding schedule
      Elem-schedule m n = b.zset.Elem-add p.due_at (b.stringify p) s.pending m n v.zset

      Waits-schedule : (q : PendingCallback P) → Waits b q (schedule b p s) → (q ≡ p) ⊎ Waits b q s
      Waits-schedule q w = elim ((Elem-schedule (b.stringify q) q.due_at).0 w) [
        | inl (e, n) ↦ inl (stringify_inj b q p e)
        | inr (ne, w') ↦ inr w'
      ]

      id_of : (q : PendingCallback P) → q ≡ p → q.id ≡ p.id
      id_of q e = ap (λ (r : PendingCallback P). r.id) e

      other_id : (q : PendingCallback P) → Waits b q s → q.id ≢ p.id
      other_id q w e = nothing_stored q (e, inl w)

      schedule_unique :
          (q r : PendingCallback P)
          → Waits b q (schedule b p s)
          → Waits b r (schedule b p s)
          → q.id ≡ r.id
          → q ≡ r
      schedule_unique q r w w' e = elim (Waits-schedule q w) [
        | inl same ↦ elim (Waits-schedule r w') [
          | inl same' ↦ same ∙ sym same'
          | inr old ↦ absurd (other_id r old (sym e ∙ id_of q same))
        ]
        | inr old ↦ elim (Waits-schedule r w') [
          | inl same' ↦ absurd (other_id q old (e ∙ id_of r same'))
          | inr old' ↦ v.unique q r old old' e
        ]
      ]

      schedule-IsValid : IsValid b (schedule b p s)
      unfolding schedule
      schedule-IsValid = record {
        zset = b.zset.add-IsValid p.due_at (b.stringify p) s.pending v.zset;
        hash = v.hash;
        waits = λ m n e. elim ((Elem-schedule m n).0 e) [
          | inl (em, en) ↦ (p, em, en, free)
          | inr (ne, w) ↦ v.waits m n w
        ];
        holds = v.holds;
        unique = λ q r w w' e. schedule_unique q r w w' e;
        disjoint = λ q w. elim (Waits-schedule q w) [
          | inl same ↦ subst (λ k. b.hash.get k s.held ≡ none) (sym (id_of q same)) nothing_held
          | inr old ↦ v.disjoint q old
        ];
      }

      -- A scheduled entry that is not held and has a new id is stored besides the others.
      pub schedule-Stored :
          IsValid b (schedule b p s)
          × ((j : Text) (q : PendingCallback P)
              → Stored b j q (schedule b p s) ↔ (((j ≡ p.id) × (q ≡ p)) ⊎ Stored b j q s))
      unfolding schedule
      schedule-Stored = (
        schedule-IsValid,
        λ j q. (
          λ (id, st). elim st [
            | inl w ↦ elim (Waits-schedule q w) [
              | inl same ↦ inl (sym id ∙ id_of q same, same)
              | inr old ↦ inr (id, inl old)
            ]
            | inr h ↦ inr (id, inr h)
          ],
          λ st. elim st [
            | inl (here, same) ↦ (
              id_of q same ∙ sym here,
              inl (
                  (Elem-schedule (b.stringify q) q.due_at).1
                    (inl (ap b.stringify same, ap (λ (r : PendingCallback P). r.due_at) same))),
            )
            | inr (id, inl w) ↦ (
              id,
              inl (
                  (Elem-schedule (b.stringify q) q.due_at).1
                    (inr (λ e. other_id q w (id_of q (stringify_inj b q p e)), w))),
            )
            | inr (id, inr h) ↦ (id, inr h)
          ],
        ),
      )

    -- the hash with one more entry, whose id nothing has
    module _ (p : PendingCallback P) (nothing : (q : PendingCallback P) → Stored b p.id q s → ⊥)
        (held : is_held p ≡ true) where
      abbrev kept : State b
      kept = record s { held = b.hash.set p.id (b.stringify p) s.held }

      get-kept :
          (f : Text)
          → b.hash.get f kept.held
            ≡ (if f == p.id then some (b.stringify p) else b.hash.get f s.held)
      get-kept f = b.hash.get-set p.id (b.stringify p) f s.held v.hash

      pub kept-IsValid : IsValid b kept
      kept-IsValid = record {
        zset = v.zset;
        hash = b.hash.set-IsValid p.id (b.stringify p) s.held v.hash;
        waits = v.waits;
        holds = λ f w e. elim (text_eq.dec f p.id) [
          | yes here ↦ (p, ground (arith, get-kept f), sym here, held)
          | no other ↦ v.holds f w (ground (arith, get-kept f))
        ];
        unique = v.unique;
        disjoint = λ q w.
            let elsewhere : q.id ≢ p.id = λ e. nothing q (e, inl w) in
            let gone : b.hash.get q.id s.held ≡ none = v.disjoint q w in
            ground (arith, get-kept q.id);
      }

      pub kept-Stored :
          (j : Text) (q : PendingCallback P)
          → Stored b j q kept ↔ (((j ≡ p.id) × (q ≡ p)) ⊎ Stored b j q s)
      kept-Stored j q = (
        λ (id, st). elim st [
          | inl w ↦ inr (id, inl w)
          | inr h ↦ elim (text_eq.dec q.id p.id) [
            | yes here ↦ inl (sym id ∙ here, stringify_inj b q p (ground (arith, get-kept q.id)))
            | no other ↦ inr (id, inr (ground (arith, get-kept q.id)))
          ]
        ],
        λ st. elim st [
          | inl (here, same) ↦ (
            ap (λ (r : PendingCallback P). r.id) same ∙ sym here,
            inr (
                subst (λ (r : PendingCallback P). Held b r kept) (sym same)
                  (ground (arith, get-kept p.id))),
          )
          | inr (id, inl w) ↦ (id, inl w)
          | inr (id, inr h) ↦
              let elsewhere : q.id ≢ p.id = λ e. nothing q (e, inr h) in
              (id, inr (ground (arith, get-kept q.id)))
        ],
      )

  pub clear-Stored :
      (s : State b)
      → IsValid b (clear b s) × ((j : Text) (q : PendingCallback P) → Stored b j q (clear b s) → ⊥)
  unfolding clear
  clear-Stored s = (
    record {
      zset = b.zset.empty-IsValid;
      hash = b.hash.empty-IsValid;
      waits = λ m n e. elim (subst (Elem (m, n)) b.zset.range-empty e) [ ];
      holds = λ f w e. absurd (ground (arith, b.hash.get-empty f));
      unique = λ p q e. elim (subst (Elem _) b.zset.range-empty e) [ ];
      disjoint = λ p e. elim (subst (Elem _) b.zset.range-empty e) [ ];
    },
    λ j q (id, st). elim st [
      | inl w ↦ elim (subst (Elem _) b.zset.range-empty w) [ ]
      | inr h ↦ absurd (ground (arith, b.hash.get-empty q.id))
    ],
  )
