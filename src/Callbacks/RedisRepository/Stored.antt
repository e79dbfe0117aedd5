-- ===== src/Callbacks/RedisRepository/Stored.antt =====
-- What an entry that callback.redis-repository.ts stores is, and that its `find` answers with it.
use mocko.Base.{
  ℕ, ◌≡◌, sym, ◌∙◌, ap, subst, ◌≢◌, ◌↔◌, ◌⊎◌, inl, inr, Text, Bool, true, false, none, some, List,
  [], ◌∷◌, arith, Elem, find, find-Elem, find_sound, ◌==◌, text_eq, Option-cases,
}
use mocko.Callbacks.Pending.{PendingCallback}
use mocko.Callbacks.MemoryRepository.{is_held}
use mocko.Callbacks.RedisRepository.{Backend, State, find_member, find_pending}

pub find-none-Elem :
    {A : Type 0} (p : A → Bool) (xs : List A) (a : A) → find p xs ≡ none → Elem a xs → p a ≡ false
find-none-Elem p [] a e m = elim m [ ]
find-none-Elem p (x ∷ xs) a e m = ground (arith, find-none-Elem p xs a)

pub some_inj : {A : Type 0} {a c : A} → some a ≡ some c → a ≡ c
some_inj e = cc

module _ {P : Type 0} (b : Backend P) where
  abbrev pub Waits : PendingCallback P → State b → Type 0
  Waits p s = Elem (b.stringify p, p.due_at) (b.zset.range s.pending)

  abbrev pub Held : PendingCallback P → State b → Type 0
  Held p s = b.hash.get p.id s.held ≡ some (b.stringify p)

  -- Each member of the set and each field of the hash is an entry, by its due time or by its id, and no
  -- id has two.
  pub record IsValid (s : State b) : Type 0 where
    pub zset : b.zset.IsValid s.pending
    pub hash : b.hash.IsValid s.held
    pub waits :
        (m : Text) (n : ℕ)
        → Elem (m, n) (b.zset.range s.pending)
        → (p : PendingCallback P) × (m ≡ b.stringify p) × (n ≡ p.due_at) × (is_held p ≡ false)
    pub holds :
        (k v : Text)
        → b.hash.get k s.held ≡ some v
        → (p : PendingCallback P) × (v ≡ b.stringify p) × (p.id ≡ k) × (is_held p ≡ true)
    pub unique : (p q : PendingCallback P) → Waits p s → Waits q s → p.id ≡ q.id → p ≡ q
    pub disjoint : (p : PendingCallback P) → Waits p s → b.hash.get p.id s.held ≡ none

  -- The entry of an id.
  abbrev pub Stored : Text → PendingCallback P → State b → Type 0
  Stored k p s = (p.id ≡ k) × (Waits p s ⊎ Held p s)

  pub stringify_inj : (p q : PendingCallback P) → b.stringify p ≡ b.stringify q → p ≡ q
  stringify_inj p q e = sym (b.parse-stringify p) ∙ (ap b.parse e ∙ b.parse-stringify q)

  module _ (s : State b) (v : IsValid s) (k : Text) where
    abbrev has_k : Text × ℕ → Bool
    has_k entry = (b.parse entry.0).id == k

    pub find_member-some :
        (m : Text)
        → find_member b k s ≡ some m
        → (p : PendingCallback P) × (m ≡ b.stringify p)
          × Waits p s
          × (p.id ≡ k)
          × (is_held p ≡ false)
    unfolding find_member
    find_member-some m e = elim (Option-cases (find has_k (b.zset.range s.pending))) [
      | inl n ↦ ground arith
      | inr (entry, there) ↦
          let mem : Elem entry (b.zset.range s.pending) =
            find-Elem has_k (b.zset.range s.pending) entry there in
          let (p, em, en, free) = v.waits entry.0 entry.1 mem in
          let same : m ≡ entry.0 = ground arith in
          let id : (b.parse entry.0).id ≡ k =
            ground (arith, find_sound has_k (b.zset.range s.pending) entry there) in
          (
            p,
            same ∙ em,
            subst (λ x. Elem (x, p.due_at) (b.zset.range s.pending)) em
                (subst (λ n. Elem (entry.0, n) (b.zset.range s.pending)) en mem),
            ap (λ (q : PendingCallback P). q.id) (sym (ap b.parse em ∙ b.parse-stringify p)) ∙ id,
            free,
          )
    ]

    pub find_member-none : (p : PendingCallback P) → find_member b k s ≡ none → Waits p s → p.id ≢ k
    unfolding find_member
    find_member-none p e w = elim (Option-cases (find has_k (b.zset.range s.pending))) [
      | inl n ↦ ground (
        arith,
        find-none-Elem has_k (b.zset.range s.pending) (b.stringify p, p.due_at) n w,
        b.parse-stringify p,
      )
      | inr (entry, there) ↦ absurd (ground arith)
    ]

    -- the entry of an id that has one, however it is found
    found-Stored :
        (q : PendingCallback P)
        → find_pending b k s ≡ some q
        → Stored k q s
        → ((p : PendingCallback P) → Stored k p s → q ≡ p)
        → (p : PendingCallback P) → (find_pending b k s ≡ some p) ↔ Stored k p s
    found-Stored q found st only p = (
      λ e. let same : q ≡ p = some_inj (sym found ∙ e) in subst (λ x. Stored k x s) same st,
      λ st'. found ∙ ap some (only p st'),
    )

    waits-find_pending :
        (m : Text) (p : PendingCallback P)
        → find_member b k s ≡ some m
        → (find_pending b k s ≡ some p) ↔ Stored k p s
    unfolding find_pending
    waits-find_pending m p e =
        let (q, em, w, id, free) = find_member-some m e in
        found-Stored q (ground (arith, b.parse-stringify q)) (id, inl w)
          (λ p st. elim st.1 [
            | inl w' ↦ v.unique q p w w' (id ∙ sym st.0)
            | inr h ↦
                let gone : b.hash.get q.id s.held ≡ none = v.disjoint q w in
                let same : q.id ≡ p.id = id ∙ sym st.0 in absurd (ground arith)
          ])
          p

    held-find_pending :
        (w : Text) (p : PendingCallback P)
        → find_member b k s ≡ none
        → b.hash.get k s.held ≡ some w
        → (find_pending b k s ≡ some p) ↔ Stored k p s
    unfolding find_pending
    held-find_pending w p n h =
        let (q, ew, id, held) = v.holds k w h in
        found-Stored q (ground (arith, b.parse-stringify q)) (id, inr (ground arith))
          (λ p st. elim st.1 [
            | inl w' ↦ absurd (find_member-none p n w' st.0)
            | inr h' ↦ let same : p.id ≡ k = st.0 in stringify_inj q p (ground arith)
          ])
          p

    -- `find` answers with the entry of an id.
    pub find_pending-Stored : (p : PendingCallback P) → (find_pending b k s ≡ some p) ↔ Stored k p s
    find_pending-Stored p = elim (Option-cases (find_member b k s)) [
      | inl n ↦ elim (Option-cases (b.hash.get k s.held)) [
        | inl m ↦ (
          λ e. absurd (unfold find_pending in ground arith),
          λ st. elim st.1 [
            | inl w ↦ absurd (find_member-none p n w st.0)
            | inr h ↦ let same : p.id ≡ k = st.0 in absurd (ground arith)
          ],
        )
        | inr (w, h) ↦ held-find_pending w p n h
      ]
      | inr (m, e) ↦ waits-find_pending m p e
    ]
