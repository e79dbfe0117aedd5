-- ===== src/Control/Operations/Moves.antt =====
-- The changes that store/redis-store.ts makes to the operations keep them in order.
use mocko.Base.{
  ℕ, Text, ◌≡◌, ◌≢◌, ◌⊎◌, refl, sym, ap, subst, ◌∙◌, Option, none, List, ◌∷◌, ◌++◌, arith, leb,
  text_eq, inl, inr, Elem, Elem-append, Elem-insert_sorted, insert_sorted,
}
use mocko.Control.Operations.{
  OperationStatus, scanning, ready, executing, Operation, Job, scan, execute, Management,
  with_status, is_ready, update_operation, store_operation, run_background,
}
use mocko.Control.Operations.Jobs.{job_id, HasNone, IsNew, without, ◌⟶◌, kept, begun}
use mocko.Control.Operations.Orderly.{
  runs_at, runs_at-not_ready, OneEach, IsOrderly, OneEach-without, Elem-without, updated,
  updated-id, Elem-update_operation, Forward, updated-⟶,
}

module _ (s : Management) (c : IsOrderly s) where
  updated_unique :
      (id : Text) (status : OperationStatus) (at : Option ℕ) (jobs : List Job) (x y : Operation)
      → Elem x (update_operation id status at (record s { jobs = jobs })).operations
      → Elem y (update_operation id status at (record s { jobs = jobs })).operations
      → x.id ≡ y.id
      → x ≡ y
  updated_unique id status at jobs x y m n same =
      let (x', (k, e)) = Elem-update_operation id status at (record s { jobs = jobs }) x m in
      let (y', (l, f)) = Elem-update_operation id status at (record s { jobs = jobs }) y n in
      let ids : x'.id ≡ y'.id =
        sym (updated-id id status at x')
        ∙ (sym (ap (λ (z : Operation). z.id) e)
            ∙ (same ∙ (ap (λ (z : Operation). z.id) f ∙ updated-id id status at y'))) in
      e ∙ (ap (updated id status at) (c.unique x' y' k l ids) ∙ sym f)

  updated-Forward :
      (id : Text) (status : OperationStatus) (at : Option ℕ) (jobs : List Job)
      → ((x : Operation) → Elem x s.operations → x.id ≡ id → x.status ⟶ status)
      → Forward s (update_operation id status at (record s { jobs = jobs }))
  updated-Forward id status at jobs edge x y m n same =
      let (x', (k, e)) = Elem-update_operation id status at (record s { jobs = jobs }) y n in
      let ids : x.id ≡ x'.id =
        same ∙ (ap (λ (z : Operation). z.id) e ∙ updated-id id status at x') in
      let one : x ≡ x' = c.unique x x' m k ids in
      subst (λ (z : Operation). x.status ⟶ z.status) (ap (updated id status at) one ∙ sym e)
        (updated-⟶ id status at x (edge x m))

  -- A background call that ends and stores a status to which its own leads.
  pub ended :
      (job : Job) (before after : List Job) (status : OperationStatus) (at : Option ℕ)
      → s.jobs ≡ before ++ job ∷ after
      → runs_at job ⟶ status
      → IsOrderly (update_operation (job_id job) status at (without before after s))
        × Forward s (update_operation (job_id job) status at (without before after s))
  unfolding update_operation
  ended job before after status at e edge =
      let id = job_id job in
      let (one, free) = OneEach-without job before after (subst OneEach e c.one_each) in
      let was : (y : Job) → Elem y (before ++ after) → Elem y s.jobs =
        λ y m. subst (Elem y) (sym e) (Elem-without y job before after m) in
      let it_was : Elem job s.jobs =
        subst (Elem job) (sym e) ((Elem-append job before (job ∷ after)).1 (inr (inl refl))) in
      (
        record {
          unique = updated_unique id status at (before ++ after);
          one_each = one;
          at_work = λ y other m k same.
              let (x, (l, f)) = Elem-update_operation id status at (without before after s) y m in
              let ids : job_id other ≡ x.id =
                same ∙ (ap (λ (z : Operation). z.id) f ∙ updated-id id status at x) in
              let away : x.id ≢ id = λ (h : x.id ≡ id). free other k (ids ∙ h) in
              let left : updated id status at x ≡ x = ground arith in
              ap (λ (z : Operation). z.status) (f ∙ left) ∙ c.at_work x other l (was other k) ids;
        },
        updated-Forward id status at (before ++ after) (λ x m same.
            subst (λ st. st ⟶ status) (sym (c.at_work x job m it_was (sym same))) edge),
      )

  pub forgotten-IsOrderly :
      (job : Job) (before after : List Job)
      → s.jobs ≡ before ++ job ∷ after
      → IsOrderly (without before after s) × Forward s (without before after s)
  forgotten-IsOrderly job before after e = (
    record {
      unique = c.unique;
      one_each = (OneEach-without job before after (subst OneEach e c.one_each)).0;
      at_work = λ x y m k same.
          c.at_work x y m (subst (Elem y) (sym e) (Elem-without y job before after k)) same;
    },
    λ x y m n same. subst (λ (z : Operation). x.status ⟶ z.status) (c.unique x y m n same) kept,
  )

  -- A request that starts the execution of an operation.
  pub begun-IsOrderly :
      (operation : Operation)
      → Elem operation s.operations
      → operation.status ≡ ready
      → IsOrderly
          (run_background (execute operation) (update_operation operation.id executing none s))
        × Forward s
            (run_background (execute operation) (update_operation operation.id executing none s))
  unfolding update_operation
  begun-IsOrderly operation there is_ready =
      let id = operation.id in
      let free : HasNone id s.jobs = λ job m same.
        runs_at-not_ready job (sym (c.at_work operation job there m same) ∙ is_ready) in
      (
        record {
          unique = updated_unique id executing none s.jobs;
          one_each = (free, c.one_each);
          at_work = λ y job m k same.
              let (x, (l, f)) = Elem-update_operation id executing none s y m in
              let ids : job_id job ≡ x.id =
                same ∙ (ap (λ (z : Operation). z.id) f ∙ updated-id id executing none x) in
              elim k [
                | inl e ↦
                    let its : x.id ≡ id = sym ids ∙ ap job_id e in
                    let now : updated id executing none x ≡ with_status executing none x =
                      ground arith in
                    ap (λ (z : Operation). z.status) (f ∙ now) ∙ sym (ap runs_at e)
                | inr old ↦
                    let away : x.id ≢ id = λ (h : x.id ≡ id). free job old (ids ∙ h) in
                    let left : updated id executing none x ≡ x = ground arith in
                    ap (λ (z : Operation). z.status) (f ∙ left) ∙ c.at_work x job l old ids
              ];
        },
        updated-Forward id executing none s.jobs (λ x m same.
            let one : x ≡ operation = c.unique x operation m there same in
            subst (λ st. st ⟶ executing) (sym (ap (λ (z : Operation). z.status) one ∙ is_ready))
              begun),
      )

  -- A request that stores an operation and starts its scan.
  pub added-IsOrderly :
      (operation : Operation)
      → IsNew operation.id s
      → operation.status ≡ scanning
      → IsOrderly (run_background (scan operation) (store_operation operation s))
        × Forward s (run_background (scan operation) (store_operation operation s))
  unfolding store_operation
  added-IsOrderly operation (no_operation, no_job) is_scanning =
      let le = λ (a b : Operation). leb b.created_at a.created_at in
      let split : (y : Operation)
          → Elem y (insert_sorted le operation s.operations)
          → (y ≡ operation) ⊎ Elem y s.operations =
        λ y m. (Elem-insert_sorted le y operation s.operations).0 m in
      (
        record {
          unique = λ x y m n same. elim (split x m) [
            | inl e ↦ elim (split y n) [
              | inl f ↦ e ∙ sym f
              | inr l ↦ absurd (no_operation y l (sym same ∙ ap (λ (z : Operation). z.id) e))
            ]
            | inr k ↦ elim (split y n) [
              | inl f ↦ absurd (no_operation x k (same ∙ ap (λ (z : Operation). z.id) f))
              | inr l ↦ c.unique x y k l same
            ]
          ];
          one_each = (no_job, c.one_each);
          at_work = λ x job m k same. elim (split x m) [
            | inl e ↦ elim k [
              | inl f ↦ ap (λ (z : Operation). z.status) e ∙ (is_scanning ∙ sym (ap runs_at f))
              | inr l ↦ absurd (no_job job l (same ∙ ap (λ (z : Operation). z.id) e))
            ]
            | inr old ↦ elim k [
              | inl f ↦ absurd (no_operation x old (sym same ∙ ap job_id f))
              | inr l ↦ c.at_work x job old l same
            ]
          ];
        },
        λ x y m n same. elim (split y n) [
          | inl f ↦ absurd (no_operation x m (same ∙ ap (λ (z : Operation). z.id) f))
          | inr l ↦ subst (λ (z : Operation). x.status ⟶ z.status) (c.unique x y m l same) kept
        ],
      )

  pub fewer :
      (t : Management)
      → ((x : Operation) → Elem x t.operations → Elem x s.operations)
      → t.jobs ≡ s.jobs
      → IsOrderly t × Forward s t
  fewer t within same_jobs = (
    record {
      unique = λ x y m n same. c.unique x y (within x m) (within y n) same;
      one_each = subst OneEach (sym same_jobs) c.one_each;
      at_work = λ x job m k same. c.at_work x job (within x m) (subst (Elem job) same_jobs k) same;
    },
    λ x y m n same.
        subst (λ (z : Operation). x.status ⟶ z.status) (c.unique x y m (within y n) same) kept,
  )
