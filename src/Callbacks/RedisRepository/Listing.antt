-- ===== src/Callbacks/RedisRepository/Listing.antt =====
-- What `list` and `nextDueAt` of callback.redis-repository.ts answer.
use mocko.Base.{
  ℕ, ◌≤◌, ◌≡◌, refl, sym, ◌∙◌, ap, subst, ◌↔◌, inl, inr, Text, none, some, List, [], ◌∷◌, map,
  arith, Elem, All-Elem, Elem-map, Elem-append, Elem-sort,
}
use mocko.Redis.{ByScore}
use mocko.Callbacks.Pending.{PendingCallback}
use mocko.Callbacks.MemoryRepository.{due_order}
use mocko.Callbacks.MemoryRepository.Next.{IsSortedByDue, sort-IsSortedByDue}
use mocko.Callbacks.RedisRepository.{Backend, State, list, next_due_at}
use mocko.Callbacks.RedisRepository.Stored.{IsValid, Stored, Waits, Held}

module _ {P : Type 0} (b : Backend P) where
  module _ (s : State b) (v : IsValid b s) where
    head-le :
        (es : List (Text × ℕ)) (m : Text) (n : ℕ)
        → ByScore es
        → Elem (m, n) es
        → (t : ℕ) × ((elim es [ [] ↦ none | e ∷ fs ↦ some e.1 ]) ≡ some t) × (t ≤ n)
    head-le [] m n h e = elim e [ ]
    head-le (e ∷ es) m n h (inl same) = (e.1, refl, ground arith)
    head-le (e ∷ es) m n h (inr k) = (e.1, refl, All-Elem (λ f. e.1 ≤ f.1) es (m, n) h.0 k)

    -- In a valid state, no entry that waits is due before the time that `nextDueAt` returns, and it
    -- returns one whenever an entry waits.
    pub redis_next_due_at-le :
        (p : PendingCallback P)
        → Waits b p s
        → (t : ℕ) × (next_due_at b s ≡ some t) × (t ≤ p.due_at)
    unfolding next_due_at
    redis_next_due_at-le p w =
        head-le (b.zset.range s.pending) (b.stringify p) p.due_at
          (b.zset.range-ByScore s.pending v.zset) w

    Elem-waiting :
        (p : PendingCallback P)
        → Elem p (map (λ (e : Text × ℕ). b.parse e.0) (b.zset.range s.pending)) ↔ Waits b p s
    Elem-waiting p = (
      λ m.
          let (e, k, same) =
            (Elem-map (λ (e : Text × ℕ). b.parse e.0) p (b.zset.range s.pending)).0 m in
          let (q, em, en, free) = v.waits e.0 e.1 k in
          let qp : q ≡ p = sym (b.parse-stringify q) ∙ (sym (ap b.parse em) ∙ sym same) in
          subst (λ r. Waits b r s) qp
            (subst (λ x. Elem (x, q.due_at) (b.zset.range s.pending)) em
              (subst (λ n. Elem (e.0, n) (b.zset.range s.pending)) en k)),
      λ w.
          (Elem-map (λ (e : Text × ℕ). b.parse e.0) p (b.zset.range s.pending)).1
            ((b.stringify p, p.due_at), w, sym (b.parse-stringify p)),
    )

    Elem-holding :
        (p : PendingCallback P)
        → Elem p (map (λ (e : Text × Text). b.parse e.1) (b.hash.all s.held)) ↔ Held b p s
    Elem-holding p = (
      λ m.
          let (e, k, same) =
            (Elem-map (λ (e : Text × Text). b.parse e.1) p (b.hash.all s.held)).0 m in
          let at : b.hash.get e.0 s.held ≡ some e.1 = (b.hash.Elem-all e.0 e.1 s.held v.hash).0 k in
          let (q, ew, id, held) = v.holds e.0 e.1 at in
          let qp : q ≡ p = sym (b.parse-stringify q) ∙ (sym (ap b.parse ew) ∙ sym same) in
          subst (λ r. Held b r s) qp (ap (λ x. b.hash.get x s.held) id ∙ (at ∙ ap some ew)),
      λ h. (Elem-map (λ (e : Text × Text). b.parse e.1) p (b.hash.all s.held)).1 (
        (p.id, b.stringify p),
        (b.hash.Elem-all p.id (b.stringify p) s.held v.hash).1 h,
        sym (b.parse-stringify p),
      ),
    )

    -- In a valid state, `list` is in the order of the due times and has exactly the stored entries.
    pub redis_list-Stored :
        IsSortedByDue (list b s) × ((p : PendingCallback P) → Elem p (list b s) ↔ Stored b p.id p s)
    unfolding list
    redis_list-Stored = (
      sort-IsSortedByDue _,
      λ p.
          let waiting : List (PendingCallback P) =
            map (λ (e : Text × ℕ). b.parse e.0) (b.zset.range s.pending) in
          let holding : List (PendingCallback P) =
            map (λ (e : Text × Text). b.parse e.1) (b.hash.all s.held) in
          (
            λ m. (
              refl,
              elim ((Elem-append p waiting holding).0 ((Elem-sort due_order p _).0 m)) [
                | inl w ↦ inl ((Elem-waiting p).0 w)
                | inr h ↦ inr ((Elem-holding p).0 h)
              ],
            ),
            λ (id, st). (Elem-sort due_order p _).1 (
                (Elem-append p waiting holding).1 (elim st [
                  | inl w ↦ inl ((Elem-waiting p).1 w)
                  | inr h ↦ inr ((Elem-holding p).1 h)
                ])),
          ),
    )
