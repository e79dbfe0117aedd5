-- ===== src/Callbacks/RedisRepository/Holds.antt =====
-- What callback.redis-repository.ts stores when it holds an entry.
use mocko.Base.{
  ℕ, ◌≡◌, refl, sym, ◌∙◌, ap, subst, ◌≢◌, ◌↔◌, ◌⊎◌, inl, inr, Text, false, none, some, arith,
  text_eq, nat_eq,
}
use mocko.Callbacks.Pending.{PendingCallback}
use mocko.Callbacks.MemoryRepository.{is_held, with_held_at}
use mocko.Callbacks.RedisRepository.{Backend, State, find_member, hold_script, hold}
use mocko.Callbacks.RedisRepository.Stored.{IsValid, Stored, find_member-some}
use mocko.Callbacks.RedisRepository.Effects.{Without, taken, rem_found, taken_found-Without}
use mocko.Callbacks.RedisRepository.Arrivals.{kept-IsValid, kept-Stored}

module _ {P : Type 0} (b : Backend P) where
  module _ (s : State b) (v : IsValid b s) where
    abbrev held_after : Text → PendingCallback P → State b
    held_after m p = record {
      pending = (b.zset.rem m s.pending).1;
      held = b.hash.set p.id (b.stringify p) s.held;
    }

    hold_found-eq :
        (k m : Text) (t : ℕ) (p : PendingCallback P)
        → find_member b k s ≡ some m
        → b.parse m ≡ p
        → p.id ≡ k
        → hold b k t s s ≡ (some (with_held_at p t), held_after m (with_held_at p t))
    unfolding hold hold_script
    hold_found-eq k m t p e pm id =
        let one : (b.zset.rem m s.pending).0 ≡ 1 = rem_found b s v k m e in ground arith

    moved-Stored :
        (k j : Text) (q p : PendingCallback P) (m : Text) (t : ℕ)
        → p.id ≡ k
        → Without b k s (taken b m s)
        → Stored b j q (held_after m (with_held_at p t))
          ↔ (((j ≡ p.id) × (q ≡ with_held_at p t)) ⊎ Stored b j q (taken b m s))
        → Stored b j q (held_after m (with_held_at p t))
          ↔ (((j ≡ k) × (q ≡ with_held_at p t)) ⊎ ((j ≢ k) × Stored b j q s))
    moved-Stored k j q p m t id gone stored = (
      λ st. elim (stored.0 st) [
        | inl (here, same) ↦ inl (here ∙ id, same)
        | inr old ↦ inr ((gone.stored j q).0 old)
      ],
      λ st. stored.1 (elim st [
        | inl (here, same) ↦ inl (here ∙ sym id, same)
        | inr old ↦ inr ((gone.stored j q).1 old)
      ]),
    )

    -- With nothing in between, an entry that waits is held with the time given, and any other id is as
    -- it was; an id with no such entry gets no answer, and nothing changes.
    pub hold_found :
        (k m : Text) (t : ℕ)
        → find_member b k s ≡ some m
        → (p : PendingCallback P) × Stored b k p s
          × (is_held p ≡ false)
          × ((hold b k t s s).0 ≡ some (with_held_at p t))
          × IsValid b (hold b k t s s).1
          × ((j : Text) (q : PendingCallback P)
              → Stored b j q (hold b k t s s).1
                ↔ (((j ≡ k) × (q ≡ with_held_at p t)) ⊎ ((j ≢ k) × Stored b j q s)))
    hold_found k m t e =
        let (p, em, w, id, free) = find_member-some b s v k m e in
        let moved : PendingCallback P = with_held_at p t in
        let done : hold b k t s s ≡ (some moved, held_after m moved) =
          hold_found-eq k m t p e (ap b.parse em ∙ b.parse-stringify p) id in
        let gone : Without b k s (taken b m s) = taken_found-Without b s v k m e in
        let nothing : (q : PendingCallback P) → Stored b moved.id q (taken b m s) → ⊥ =
          λ q st. absurd (((gone.stored moved.id q).0 st).0 id) in
        (
          p,
          (id, inl w),
          free,
          ap (λ r. r.0) done,
          subst (λ r. IsValid b r) (sym (ap (λ r. r.1) done))
              (kept-IsValid b (taken b m s) gone.valid moved nothing refl),
          λ j q.
              subst (λ r. Stored b j q r ↔ (((j ≡ k) × (q ≡ moved)) ⊎ ((j ≢ k) × Stored b j q s)))
                (sym (ap (λ r. r.1) done))
                (moved-Stored k j q p m t id gone
                  (kept-Stored b (taken b m s) gone.valid moved nothing refl j q)),
        )

    pub hold_missing : (k : Text) (t : ℕ) → find_member b k s ≡ none → hold b k t s s ≡ (none, s)
    unfolding hold
    hold_missing k t n = ground arith
