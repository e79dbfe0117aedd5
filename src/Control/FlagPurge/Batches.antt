-- ===== src/Control/FlagPurge/Batches.antt =====
-- What the scans leave in the list of keys, batch after batch and page after page.
use mocko.Base.{
  ℕ, zero, suc, ◌+◌, ◌≤◌, ◌≡◌, refl, sym, subst, ap, ◌∙◌, Text, txt, Bool, false, Option, none,
  some, List, [], ◌∷◌, ◌++◌, filter, filter-append, length, length-append, length-drop, take, drop,
  take-drop, append_assoc, append-nil, arith, if◌then◌else◌,
}
use mocko.Redis.{Keyspace, ListKey}
use mocko.Control.Operations.{ready}
use mocko.Control.Scan.{Iteration, over_pages, do_scan-over_pages}
use mocko.Control.FlagList.Agreement.{join}
use mocko.Control.FlagPurge.{
  batch_size, Work, Scanning, append_matched_keys, scan_page, scan_for_management,
}

module _ (db : Keyspace) (l : ListKey) where
  append_matched_keys-range :
      (fuel : ℕ) (keys : List Text) (list : l.State)
      → length keys ≤ fuel
      → l.range (append_matched_keys db l fuel keys list) ≡ l.range list ++ keys
  unfolding append_matched_keys
  append_matched_keys-range zero [] list h = sym (append-nil (l.range list))
  append_matched_keys-range zero (key ∷ keys) list h = absurd (omega arith)
  append_matched_keys-range (suc fuel) [] list h = sym (append-nil (l.range list))
  append_matched_keys-range (suc fuel) (key ∷ keys) list h =
      let front = take batch_size (key ∷ keys) in
      let back = drop batch_size (key ∷ keys) in
      append_matched_keys-range fuel back (l.rpush front list)
        (omega (arith, length-drop batch_size (key ∷ keys)))
      ∙ (ap (λ r. r ++ back) (l.range-rpush front list)
          ∙ (append_assoc (l.range list) front back
              ∙ ap (λ r. l.range list ++ r) (take-drop batch_size (key ∷ keys))))

  module _ (keep : Text → Bool) (elapsed : ℕ → Bool) (scan : ℕ → Text → Text × List Text) where
    abbrev scanned : ℕ → List (List Text) → Scanning db l → Scanning db l
    scanned call pages s = over_pages scan (scan_page db l (filter keep) elapsed) call pages s

    -- What the loop adds to its variables.
    record Adds (keys : List Text) (s t : Scanning db l) : Type 0 where
      pub keyspace : t.work.keyspace ≡ s.work.keyspace
      pub range : l.range t.work.flag_keys ≡ l.range s.work.flag_keys ++ filter keep keys
      pub scanned_count : t.scanned_count ≡ s.scanned_count + length keys
      pub found_count : t.found_count ≡ s.found_count + length (filter keep keys)

    scan_page-Adds :
        (call : ℕ) (keys : List Text) (s : Scanning db l)
        → Adds keys s (scan_page db l (filter keep) elapsed call keys s).1
    unfolding scan_page
    scan_page-Adds call [] s = record {
      keyspace = refl;
      range = sym (append-nil (l.range s.work.flag_keys));
      scanned_count = omega arith;
      found_count = omega arith;
    }
    scan_page-Adds call (key ∷ keys) s = record {
      keyspace = refl;
      range =
          let found = filter keep (key ∷ keys) in
          append_matched_keys-range (length found) found s.work.flag_keys (omega arith);
      scanned_count = refl;
      found_count = refl;
    }

    Adds-append :
        (keys more : List Text) (s t u : Scanning db l)
        → Adds keys s t
        → Adds more t u
        → Adds (keys ++ more) s u
    Adds-append keys more s t u a c = record {
      keyspace = c.keyspace ∙ a.keyspace;
      range =
          c.range
          ∙ (ap (λ r. r ++ filter keep more) a.range
              ∙ (append_assoc (l.range s.work.flag_keys) (filter keep keys) (filter keep more)
                  ∙ ap (λ r. l.range s.work.flag_keys ++ r) (sym (filter-append keep keys more))));
      scanned_count = omega (arith, a.scanned_count, c.scanned_count, length-append keys more);
      found_count =
          c.found_count
          ∙ (ap (λ n. n + length (filter keep more)) a.found_count
              ∙ omega (
                arith,
                length-append (filter keep keys) (filter keep more),
                ap length (filter-append keep keys more),
              ));
    }

    scan_page_stop :
        (call : ℕ) (keys : List Text) (s : Scanning db l)
        → (scan_page db l (filter keep) elapsed call keys s).0 ≡ false
    unfolding scan_page
    scan_page_stop call [] s = refl
    scan_page_stop call (key ∷ keys) s = refl

    scanned-Adds :
        (call : ℕ) (pages : List (List Text)) (s : Scanning db l)
        → Adds (join pages) s (scanned call pages s)
    unfolding scan_page
    scanned-Adds call [] s = record {
      keyspace = refl;
      range = sym (append-nil (l.range s.work.flag_keys));
      scanned_count = omega arith;
      found_count = omega arith;
    }
    scanned-Adds call (keys ∷ pages) s =
        let t = (scan_page db l (filter keep) elapsed call keys s).1 in
        let u = scanned (suc call) pages t in
        subst (λ stop. Adds (keys ++ join pages) s (if stop then t else u))
          (sym (scan_page_stop call keys s))
          (Adds-append keys (join pages) s t u (scan_page-Adds call keys s)
            (scanned-Adds (suc call) pages t))

  -- Where SCAN comes to an end and the fuel is at least the number of its pages, a scan ends: the
  -- operation is ready, with the number of the keys of all pages and of those found, and the list has
  -- the ones found, in the order of the pages; no key is changed.
  pub scan_for_management_lem :
      (keep : Text → Bool) (elapsed : ℕ → Bool) (scan : ℕ → Text → Text × List Text) (fuel : ℕ)
      (pages : List (List Text)) (w : Work db l)
      → Iteration scan 0 (txt "0") pages
      → length pages ≤ fuel
      → (w' : Work db l) × (scan_for_management db l (filter keep) elapsed scan fuel w ≡ some w')
        × (l.range w'.flag_keys ≡ filter keep (join pages))
        × (w'.keyspace ≡ w.keyspace)
        × (w'.operation.status ≡ ready)
        × (w'.operation.scanned_count ≡ some (length (join pages)))
        × (w'.operation.found_count ≡ some (length (filter keep (join pages))))
  unfolding scan_for_management
  scan_for_management_lem keep elapsed scan fuel pages w it le =
      let start : Scanning db l = record {
        work = record w { flag_keys = l.empty };
        scanned_count = 0;
        found_count = 0;
      } in
      let s = scanned keep elapsed scan 0 pages start in
      let added = scanned-Adds keep elapsed scan 0 pages start in
      let ended =
        do_scan-over_pages scan (scan_page db l (filter keep) elapsed) fuel 0 (txt "0") pages start
          it le in
      (
        record s.work {
          operation = record s.work.operation {
            status = ready;
            scanned_count = some s.scanned_count;
            found_count = some s.found_count;
          };
        },
        ap
            (λ (o : Option (Scanning db l)). elim o [
              | none ↦ none
              | some s ↦ some (record s.work {
                operation = record s.work.operation {
                  status = ready;
                  scanned_count = some s.scanned_count;
                  found_count = some s.found_count;
                };
              })
            ])
            ended,
        added.range ∙ ap (λ r. r ++ filter keep (join pages)) l.range-empty,
        added.keyspace,
        refl,
        ap some (omega (arith, added.scanned_count)),
        ap some (omega (arith, added.found_count)),
      )
