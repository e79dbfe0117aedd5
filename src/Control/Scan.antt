-- ===== src/Control/Scan.antt =====
-- The loops of mocko-control/lib/store/redis-store.ts over SCAN: `do { ... } while(cursor !== "0")`.
-- SCAN is an argument, from the number of the call and the cursor to the next cursor and a page of
-- keys: other clients may write between two calls.
use mocko.Base.{
  ℕ, zero, suc, ◌≤◌, ◌≡◌, ◌≢◌, Text, txt, Bool, ◌||◌, Option, none, some, List, [], ◌∷◌, length,
  arith, ◌==◌, text_eq, if◌then◌else◌,
}

module _ (scan : ℕ → Text → Text × List Text) where
  -- The pages that SCAN gives from a call and a cursor on, to the page that comes with the cursor 0.
  pub data Iteration : ℕ → Text → List (List Text) → Type 0 where
    last :
        {call : ℕ} {cursor : Text} {keys : List Text}
        → scan call cursor ≡ (txt "0", keys)
        → Iteration call cursor (keys ∷ [])
    more :
        {call : ℕ} {cursor next : Text} {keys : List Text} {pages : List (List Text)}
        → scan call cursor ≡ (next, keys)
        → next ≢ txt "0"
        → Iteration (suc call) next pages
        → Iteration call cursor (keys ∷ pages)

  module _ {S : Type 0} (body : ℕ → List Text → S → Bool × S) where
    -- The loop, with a body that may end it.
    unfoldable pub do_scan : (fuel call : ℕ) → (cursor : Text) → S → Option S
    do_scan zero call cursor s = none
    do_scan (suc fuel) call cursor s =
        let (next, keys) = scan call cursor in
        let (stop, s') = body call keys s in
        let rest = do_scan fuel (suc call) next s' in
        if stop || next == txt "0" then some s' else rest

    -- The body on page after page.
    abbrev pub over_pages : ℕ → List (List Text) → S → S
    over_pages call [] s = s
    over_pages call (keys ∷ pages) s =
        let rest = over_pages (suc call) pages (body call keys s).1 in
        if (body call keys s).0 then (body call keys s).1 else rest

    -- Where SCAN comes to an end and the fuel is at least the number of its pages, the loop ends, having
    -- run its body on the pages in turn, up to one that ends it.
    pub do_scan-over_pages :
        (fuel call : ℕ) (cursor : Text) (pages : List (List Text)) (s : S)
        → Iteration call cursor pages
        → length pages ≤ fuel
        → do_scan fuel call cursor s ≡ some (over_pages call pages s)
    unfolding do_scan
    do_scan-over_pages fuel call cursor [] s it le = elim it [ ]
    do_scan-over_pages zero call cursor (keys ∷ pages) s it le = absurd (omega arith)
    do_scan-over_pages (suc fuel) call cursor (keys ∷ pages) s (last e) le = rw e (ground arith)
    do_scan-over_pages (suc fuel) call cursor (keys ∷ pages) s (more {next = next} e ne it) le =
        rw e (ground (arith, do_scan-over_pages fuel (suc call) next pages (body call keys s).1 it))
