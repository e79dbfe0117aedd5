-- ===== src/Control/Operations/Orderly.antt =====
-- What holds of the operations and their background calls in store/redis-store.ts between two steps, and
-- what it means that the status of an operation moves forward.
use mocko.Base.{
  ℕ, Text, ◌≡◌, ◌≢◌, refl, sym, ap, subst, ◌∙◌, true, Option, List, [], ◌∷◌, ◌++◌, arith, ◌==◌,
  text_eq, if◌then◌else◌, inl, inr, Elem, Elem-append, Elem-map,
}
use mocko.Control.Operations.{
  OperationStatus, scanning, ready, executing, done, failed, Operation, Job, scan, execute,
  Management, with_status, is_ready, update_operation,
}
use mocko.Control.Operations.Jobs.{job_id, HasNone, ◌⟶◌, kept}

-- what the status of an operation is while the call is under way
abbrev pub runs_at : Job → OperationStatus
runs_at (scan operation) = scanning
runs_at (execute operation) = executing

pub is_ready-eq : (status : OperationStatus) → is_ready status ≡ true → status ≡ ready
is_ready-eq ready h = refl
is_ready-eq scanning h = cc
is_ready-eq executing h = cc
is_ready-eq done h = cc
is_ready-eq failed h = cc

pub runs_at-not_ready : (job : Job) → runs_at job ≢ ready
runs_at-not_ready (scan operation) e = cc
runs_at-not_ready (execute operation) e = cc

abbrev pub OneEach : List Job → Type 0
OneEach [] = Unit {0}
OneEach (job ∷ jobs) = HasNone (job_id job) jobs × OneEach jobs

-- No two operations have one id; no two background calls are for one operation; and while one is under
-- way for a stored operation, its status says so.
pub record IsOrderly (s : Management) : Type 0 where
  pub unique : (x y : Operation) → Elem x s.operations → Elem y s.operations → x.id ≡ y.id → x ≡ y
  pub one_each : OneEach s.jobs
  pub at_work :
      (x : Operation) (job : Job)
      → Elem x s.operations
      → Elem job s.jobs
      → job_id job ≡ x.id
      → x.status ≡ runs_at job

pub OneEach-without :
    (job : Job) (before after : List Job)
    → OneEach (before ++ job ∷ after)
    → OneEach (before ++ after) × HasNone (job_id job) (before ++ after)
OneEach-without job [] after (none_after, rest) = (rest, none_after)
OneEach-without job (x ∷ before) after (none_x, rest) =
    let (one, free) = OneEach-without job before after rest in
    let x_free : HasNone (job_id x) (before ++ after) = λ y m.
      elim ((Elem-append y before after).0 m) [
        | inl k ↦ none_x y ((Elem-append y before (job ∷ after)).1 (inl k))
        | inr k ↦ none_x y ((Elem-append y before (job ∷ after)).1 (inr (inr k)))
      ] in
    let other : job_id job ≢ job_id x =
      none_x job ((Elem-append job before (job ∷ after)).1 (inr (inl refl))) in
    (
      (x_free, one),
      λ y m. elim m [ inl e ↦ λ same. other (sym same ∙ ap job_id e) | inr k ↦ free y k ],
    )

pub Elem-without :
    (x job : Job) (before after : List Job)
    → Elem x (before ++ after)
    → Elem x (before ++ job ∷ after)
Elem-without x job before after m = elim ((Elem-append x before after).0 m) [
  | inl k ↦ (Elem-append x before (job ∷ after)).1 (inl k)
  | inr k ↦ (Elem-append x before (job ∷ after)).1 (inr (inr k))
]

abbrev pub updated : Text → OperationStatus → Option ℕ → Operation → Operation
updated id status at x = if x.id == id then with_status status at x else x

pub updated-id :
    (id : Text) (status : OperationStatus) (at : Option ℕ) (x : Operation)
    → (updated id status at x).id ≡ x.id
updated-id id status at x = ground arith

pub Elem-update_operation :
    (id : Text) (status : OperationStatus) (at : Option ℕ) (s : Management) (y : Operation)
    → Elem y (update_operation id status at s).operations
    → (x : Operation) × (Elem x s.operations × (y ≡ updated id status at x))
unfolding update_operation
Elem-update_operation id status at s y m =
    let (x, k, e) = (Elem-map (updated id status at) y s.operations).0 m in (x, (k, e))

-- An operation that is stored before and after keeps its status or moves along an edge.
abbrev pub Forward : (s t : Management) → Type 0
Forward s t =
    (x y : Operation)
    → Elem x s.operations
    → Elem y t.operations
    → x.id ≡ y.id
    → x.status ⟶ y.status

pub updated-⟶ :
    (id : Text) (status : OperationStatus) (at : Option ℕ) (x : Operation)
    → (x.id ≡ id → x.status ⟶ status)
    → x.status ⟶ (updated id status at x).status
updated-⟶ id status at x edge = elim (text_eq.dec x.id id) [
  | yes same ↦
      let e : updated id status at x ≡ with_status status at x = ground arith in
      subst (λ (z : Operation). x.status ⟶ z.status) (sym e) (edge same)
  | no other ↦
      let e : updated id status at x ≡ x = ground arith in
      subst (λ (z : Operation). x.status ⟶ z.status) (sym e) kept
]
