-- ===== src/Callbacks/RedisRepository/Effects.antt =====
-- What the methods of callback.redis-repository.ts on one id do to the entries that are stored.
use mocko.Base.{
  ℕ, ◌≡◌, sym, ◌∙◌, ap, subst, ◌≢◌, ◌↔◌, inl, inr, Text, none, some, arith, Elem, ◌==◌, text_eq,
  nat_eq, if◌then◌else◌, Option-cases, is_some,
}
use mocko.Callbacks.Pending.{PendingCallback}
use mocko.Callbacks.RedisRepository.{
  Backend, State, find_member, find_pending, claim_held_script, claim, cancel,
}
use mocko.Callbacks.RedisRepository.Stored.{
  IsValid, Stored, Waits, Held, stringify_inj, find_member-some, find_member-none,
  find_pending-Stored,
}

module _ {P : Type 0} (b : Backend P) where
  -- The entries of `s` but that of `k` are those of `t`.
  pub record Without (k : Text) (s t : State b) : Type 0 where
    pub valid : IsValid b t
    pub stored : (j : Text) (q : PendingCallback P) → Stored b j q t ↔ ((j ≢ k) × Stored b j q s)

  abbrev pub taken : Text → State b → State b
  taken member s = record s { pending = (b.zset.rem member s.pending).1 }

  abbrev pub released : Text → State b → State b
  released k s = record s { held = (b.hash.del k s.held).1 }

  abbrev scheduled : PendingCallback P → State b → State b
  scheduled p s = record s { pending = b.zset.add p.due_at (b.stringify p) s.pending }

  module _ (s : State b) (v : IsValid b s) where
    pub Elem-taken :
        (member m : Text) (n : ℕ)
        → Elem (m, n) (b.zset.range (taken member s).pending)
          ↔ ((m ≢ member) × Elem (m, n) (b.zset.range s.pending))
    Elem-taken member m n = b.zset.Elem-rem member s.pending m n v.zset

    pub taken-IsValid : (member : Text) → IsValid b (taken member s)
    taken-IsValid member = record {
      zset = b.zset.rem-IsValid member s.pending v.zset;
      hash = v.hash;
      waits = λ m n e. v.waits m n ((Elem-taken member m n).0 e).1;
      holds = v.holds;
      unique = λ p q e f.
          v.unique p q ((Elem-taken member (b.stringify p) p.due_at).0 e).1
            ((Elem-taken member (b.stringify q) q.due_at).0 f).1;
      disjoint = λ p e. v.disjoint p ((Elem-taken member (b.stringify p) p.due_at).0 e).1;
    }

    not_both : (p q : PendingCallback P) → Waits b p s → Held b q s → q.id ≢ p.id
    not_both p q w h e = let gone : b.hash.get p.id s.held ≡ none = v.disjoint p w in ground arith

    pub taken-Without :
        (p : PendingCallback P) → Waits b p s → Without p.id s (taken (b.stringify p) s)
    taken-Without p w = record {
      valid = taken-IsValid (b.stringify p);
      stored = λ j q. (
        λ (id, st). elim st [
          | inl w' ↦
              let (ne, wq) = (Elem-taken (b.stringify p) (b.stringify q) q.due_at).0 w' in
              (λ e. ne (ap b.stringify (v.unique q p wq w (id ∙ e))), (id, inl wq))
          | inr h ↦ (λ e. not_both p q w h (id ∙ e), (id, inr h))
        ],
        λ (other, (id, st)). elim st [
          | inl wq ↦ (
            id,
            inl (
                (Elem-taken (b.stringify p) (b.stringify q) q.due_at).1 (
                  λ e.
                      other (sym id ∙ ap (λ (r : PendingCallback P). r.id) (stringify_inj b q p e)),
                  wq,
                )),
          )
          | inr h ↦ (id, inr h)
        ],
      );
    }

    get-released :
        (k f : Text)
        → b.hash.get f (released k s).held ≡ (if f == k then none else b.hash.get f s.held)
    get-released k f = b.hash.get-del k f s.held v.hash

    pub released-Without : (k : Text) → find_member b k s ≡ none → Without k s (released k s)
    released-Without k n = record {
      valid = record {
        zset = v.zset;
        hash = b.hash.del-IsValid k s.held v.hash;
        waits = v.waits;
        holds = λ f w e. v.holds f w (ground (arith, get-released k f));
        unique = v.unique;
        disjoint = λ p w.
            let gone : b.hash.get p.id s.held ≡ none = v.disjoint p w in
            ground (arith, get-released k p.id);
      };
      stored = λ j q. (
        λ (id, st). elim st [
          | inl w ↦ (λ e. find_member-none b s v k q n w (id ∙ e), (id, inl w))
          | inr h ↦ (
            λ e. let same : q.id ≡ k = id ∙ e in ground (arith, get-released k q.id),
            (id, inr (ground (arith, get-released k q.id))),
          )
        ],
        λ (other, (id, st)). elim st [
          | inl w ↦ (id, inl w)
          | inr h ↦
              let elsewhere : q.id ≢ k = λ e. other (sym id ∙ e) in
              (id, inr (ground (arith, get-released k q.id)))
        ],
      );
    }

    pub absent-Without : (k : Text) → find_pending b k s ≡ none → Without k s s
    absent-Without k n = record {
      valid = v;
      stored = λ j q. (
        λ st. (
          λ e.
              let found : find_pending b k s ≡ some q =
                (find_pending-Stored b s v k q).1 (st.0 ∙ e, st.1) in
              ground arith,
          st,
        ),
        λ h. h.1,
      );
    }

    pub rem_found : (k m : Text) → find_member b k s ≡ some m → (b.zset.rem m s.pending).0 ≡ 1
    rem_found k m e =
        let (p, em, w, id, free) = find_member-some b s v k m e in
        subst (λ x. (b.zset.rem x s.pending).0 ≡ 1) (sym em)
          (b.zset.rem_some (b.stringify p) s.pending p.due_at v.zset w)

    pub taken_found-Without : (k m : Text) → find_member b k s ≡ some m → Without k s (taken m s)
    taken_found-Without k m e =
        let (p, em, w, id, free) = find_member-some b s v k m e in
        subst (λ x. Without x s (taken m s)) id
          (subst (λ x. Without p.id s (taken x s)) (sym em) (taken-Without p w))

    not_held-Without :
        (k : Text) → find_member b k s ≡ none → b.hash.get k s.held ≡ none → Without k s s
    not_held-Without k n h = absent-Without k (unfold find_pending in ground arith)

    -- With nothing in between, `claim` answers what `find` does, and takes the entry out.
    pub claim-Without :
        (k : Text) → ((claim b k s s).0 ≡ find_pending b k s) × Without k s (claim b k s s).1
    unfolding claim claim_held_script find_pending
    claim-Without k = elim (Option-cases (find_member b k s)) [
      | inr (m, e) ↦
          let one : (b.zset.rem m s.pending).0 ≡ 1 = rem_found k m e in
          (ground arith, rw (e, one, claim) (taken_found-Without k m e))
      | inl n ↦ elim (Option-cases (b.hash.get k s.held)) [
        | inr (w, h) ↦ (ground arith, rw (n, h, claim, claim_held_script) (released-Without k n))
        | inl h ↦ (ground arith, rw (n, h, claim, claim_held_script) (not_held-Without k n h))
      ]
    ]

    del_count :
        (k : Text)
        → (b.hash.del k s.held).0 ≡ (elim (b.hash.get k s.held) [ none ↦ 0 | some w ↦ 1 ])
    del_count k = b.hash.del-count k s.held v.hash

    -- With nothing in between, `cancel` answers whether there is an entry, and takes it out.
    pub cancel-Without :
        (k : Text)
        → ((cancel b k s s).0 ≡ is_some (find_pending b k s)) × Without k s (cancel b k s s).1
    unfolding cancel find_pending
    cancel-Without k = elim (Option-cases (find_member b k s)) [
      | inr (m, e) ↦
          let one : (b.zset.rem m s.pending).0 ≡ 1 = rem_found k m e in
          (ground arith, rw (e, one, cancel) (taken_found-Without k m e))
      | inl n ↦ (ground (arith, del_count k), rw (n, cancel) (released-Without k n))
    ]
