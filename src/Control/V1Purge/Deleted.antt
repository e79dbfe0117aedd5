-- ===== src/Control/V1Purge/Deleted.antt =====
-- The purge of a V1 database deletes the keys that it scans.
use mocko.Base.{
  ℕ, zero, suc, ◌+◌, ◌≤◌, ◌≡◌, refl, subst, ap, ◌∙◌, Text, txt, not, ◌&&◌, some, List, [], ◌∷◌,
  ◌++◌, length, length-append, length-drop, take, drop, take-drop, contains, arith, text_eq,
}
use mocko.Redis.{Keyspace}
use mocko.Control.Scan.{Iteration, over_pages, do_scan-over_pages}
use mocko.Control.FlagList.Agreement.{join}
use mocko.Control.FlagPurge.{batch_size}
use mocko.Control.FlagPurge.Exact.{contains-append, and-not_or}
use mocko.Control.V1Purge.{
  definition_keys, count_page, count_source_keys, count_existing, count_prefixes, scan_v1_purge,
  delete_page, purge_page, purge_prefixes, execute_v1_purge,
}

counted-over_pages :
    (scan : ℕ → Text → Text × List Text) (call : ℕ) (pages : List (List Text)) (n : ℕ)
    → over_pages scan count_page call pages n ≡ n + length (join pages)
counted-over_pages scan call [] n = omega arith
counted-over_pages scan call (keys ∷ pages) n =
    counted-over_pages scan (suc call) pages (n + length keys)
    ∙ omega (arith, length-append keys (join pages))

count_source_keys_lem :
    (scan : ℕ → Text → Text × List Text) (fuel : ℕ) (pages : List (List Text))
    → Iteration scan 0 (txt "0") pages
    → length pages ≤ fuel
    → count_source_keys scan fuel ≡ some (length (join pages))
unfolding count_source_keys
count_source_keys_lem scan fuel pages it le =
    do_scan-over_pages scan count_page fuel 0 (txt "0") pages 0 it le
    ∙ ap some (counted-over_pages scan 0 pages 0 ∙ omega arith)

module _ (db : Keyspace) where
  -- What deleting keys does to a count and a database.
  pub record Deletes (keys : List Text) (r t : ℕ × db.State) : Type 0 where
    pub exists : (k : Text) → db.exists k t.1 ≡ (db.exists k r.1 && not (contains keys k))
    pub counted : t.0 + db.size t.1 ≡ r.0 + db.size r.1

  none-Deletes : (r : ℕ × db.State) → Deletes [] r r
  none-Deletes r = record { exists = λ k. ground arith; counted = refl }

  Deletes-append :
      (xs ys : List Text) (r t u : ℕ × db.State)
      → Deletes xs r t
      → Deletes ys t u
      → Deletes (xs ++ ys) r u
  Deletes-append xs ys r t u a c = record {
    exists = λ k.
        c.exists k
        ∙ (ap (λ x. x && not (contains ys k)) (a.exists k)
            ∙ and-not_or (db.exists k r.1) (contains xs k) (contains ys k) (contains (xs ++ ys) k)
                (contains-append xs ys k));
    counted = c.counted ∙ a.counted;
  }

  batch-Deletes :
      (keys : List Text) (n : ℕ) (s : db.State)
      → Deletes keys (n, s) (n + (db.del keys s).0, (db.del keys s).1)
  batch-Deletes keys n s = record {
    exists = λ k. db.exists-del keys s k;
    counted = omega (arith, db.del-size keys s);
  }

  delete_page-Deletes :
      (fuel : ℕ) (keys : List Text) (r : ℕ × db.State)
      → length keys ≤ fuel
      → Deletes keys r (delete_page db fuel keys r)
  unfolding delete_page
  delete_page-Deletes zero [] r h = none-Deletes r
  delete_page-Deletes zero (key ∷ keys) r h = absurd (omega arith)
  delete_page-Deletes (suc fuel) [] r h = none-Deletes r
  delete_page-Deletes (suc fuel) (key ∷ keys) (n, s) h =
      let front = take batch_size (key ∷ keys) in
      let back = drop batch_size (key ∷ keys) in
      let t : ℕ × db.State = (n + (db.del front s).0, (db.del front s).1) in
      let u = delete_page db fuel back t in
      subst (λ all. Deletes all (n, s) u) (take-drop batch_size (key ∷ keys))
        (Deletes-append front back (n, s) t u (batch-Deletes front n s)
          (delete_page-Deletes fuel back t (omega (arith, h, length-drop batch_size (key ∷ keys)))))

  abbrev purged : (ℕ → Text → Text × List Text) → ℕ → List (List Text) → ℕ × db.State → ℕ × db.State
  purged scan call pages r = over_pages scan (purge_page db) call pages r

  purged-Deletes :
      (scan : ℕ → Text → Text × List Text) (call : ℕ) (pages : List (List Text)) (r : ℕ × db.State)
      → Deletes (join pages) r (purged scan call pages r)
  unfolding purge_page
  purged-Deletes scan call [] r = none-Deletes r
  purged-Deletes scan call (keys ∷ pages) r =
      let t = delete_page db (length keys) keys r in
      Deletes-append keys (join pages) r t (purged scan (suc call) pages t)
        (delete_page-Deletes (length keys) keys r (omega arith))
        (purged-Deletes scan (suc call) pages t)

  -- Where SCAN comes to an end for each of the two prefixes and the fuel is at least the number of its
  -- pages, the purge ends: the keys of the definitions and of all pages are deleted and no others, and
  -- the purged count is the number of the keys that are gone. The scan before it ends with the number
  -- of the keys of the definitions that exist and of all pages.
  pub execute_v1_purge_lem :
      (scan : Text → ℕ → Text → Text × List Text) (fuel : ℕ) (source_prefix : Text)
      (flags failures : List (List Text)) (s : db.State)
      → Iteration (scan (txt "flags:")) 0 (txt "0") flags
      → Iteration (scan (txt "mock_failure:")) 0 (txt "0") failures
      → length flags ≤ fuel
      → length failures ≤ fuel
      → (m : ℕ) × (s' : db.State) × (execute_v1_purge db scan fuel source_prefix s ≡ some (m, s'))
        × ((k : Text)
            → db.exists k s' ≡ (
                db.exists k s
                && not
                    (contains (definition_keys source_prefix ++ (join flags ++ join failures)) k)))
        × (m + db.size s' ≡ db.size s)
        × (scan_v1_purge db scan fuel source_prefix s
            ≡ some (
                count_existing db (definition_keys source_prefix) s
                + length (join flags)
                + length (join failures)))
  unfolding execute_v1_purge purge_prefixes scan_v1_purge count_prefixes
  execute_v1_purge_lem scan fuel source_prefix flags failures s itf ite lf le =
      let keys = definition_keys source_prefix in
      let r0 : ℕ × db.State = db.del keys s in
      let r1 = purged (scan (txt "flags:")) 0 flags r0 in
      let r2 = purged (scan (txt "mock_failure:")) 0 failures r1 in
      let first_scan =
        do_scan-over_pages (scan (txt "flags:")) (purge_page db) fuel 0 (txt "0") flags r0 itf lf in
      let second_scan =
        do_scan-over_pages (scan (txt "mock_failure:")) (purge_page db) fuel 0 (txt "0") failures r1
          ite le in
      let flags_found = count_source_keys_lem (scan (txt "flags:")) fuel flags itf lf in
      let failures_found =
        count_source_keys_lem (scan (txt "mock_failure:")) fuel failures ite le in
      let start : Deletes keys (0, s) r0 = record {
        exists = λ k. db.exists-del keys s k;
        counted = omega (arith, db.del-size keys s);
      } in
      let all : Deletes (keys ++ (join flags ++ join failures)) (0, s) r2 =
        Deletes-append keys (join flags ++ join failures) (0, s) r0 r2 start
          (Deletes-append (join flags) (join failures) r0 r1 r2
            (purged-Deletes (scan (txt "flags:")) 0 flags r0)
            (purged-Deletes (scan (txt "mock_failure:")) 0 failures r1)) in
      (r2.0, r2.1, ground arith, all.exists, omega (arith, all.counted), ground arith)
