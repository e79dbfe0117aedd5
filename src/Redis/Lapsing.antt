-- ===== src/Redis/Lapsing.antt =====
-- Hashes that may expire, as a list of entries with the times at which they do.
mod Times
use mocko.Base.{
  ℕ, suc, ◌+◌, ◌≤◌, ◌<◌, ◌≡◌, ◌≢◌, refl, sym, ap, ◌∙◌, first, Text, Bool, true, false, Option, none,
  some, List, [], ◌∷◌, ◌++◌, ltb, is_empty, ◌==◌, text_eq, if◌then◌else◌, arith, Option-cases, inl,
  inr,
}
use mocko.Base.Dict
use mocko.Base.Dict.{Dict, get-set, get-delete}
use mocko.Redis.Expiring.{ExpiringHashes}
use mocko.Redis.Lapsing.Times.{
  Entry, is_past, there, fields_of, expiry_of, Entries, get-append, not_past, fresh_fields,
  kept_expiry, there-there, until_then, over_then, after_expire, none-there,
}

unfoldable pub look : ℕ → Text → Entries → Option Entry
look now key s = there now (Dict.get key s)

pub write_fields : ℕ → Text → Dict Text Text → Entries → Entries
unfolding look
write_fields now key fields s =
    Dict.set key (fields ++ fields_of (look now key s), expiry_of (look now key s)) s

abbrev pub expired_at : ℕ → Text → ℕ → Option Entry → Entries → Entries
expired_at now key ttl none s = s
expired_at now key ttl (some (fields, e)) s = Dict.set key (fields, some (now + ttl)) s

pub expire : ℕ → Text → ℕ → Entries → Entries
unfolding look
expire now key ttl s = expired_at now key ttl (look now key s) s

module _ (now later : ℕ) (key : Text) (s : Entries) (le : now ≤ later) where
  pub look-before :
      ((t : ℕ) → expiry_of (look now key s) ≡ some t → later < t)
      → look later key s ≡ look now key s
  unfolding look
  look-before h =
      sym (there-there now later (Dict.get key s) le) ∙ until_then now later (Dict.get key s) h

  pub look-after :
      (t : ℕ) → expiry_of (look now key s) ≡ some t → t < later → look later key s ≡ none
  unfolding look
  look-after t e h =
      sym (there-there now later (Dict.get key s) le) ∙ over_then now later (Dict.get key s) t e h

unfoldable pub field : ℕ → Text → Text → Entries → Option Text
unfolding look
field now key f s = Dict.get f (fields_of (look now key s))

pub field-write_fields :
    (now : ℕ) (key k f : Text) (fields : Dict Text Text) (s : Entries)
    → field now k f (write_fields now key fields s)
      ≡ (if k == key then first (Dict.get f fields) (field now k f s) else field now k f s)
unfolding field look write_fields
field-write_fields now key k f fields s =
    let old = there now (Dict.get key s) in
    ground (
      arith,
      get-set k key (fields ++ fields_of old, expiry_of old) s,
      fresh_fields now (fields ++ fields_of old) (expiry_of old),
      not_past now (Dict.get key s),
      get-append f fields (fields_of old),
    )

pub expiry : ℕ → Text → Entries → Option ℕ
unfolding look
expiry now key s = expiry_of (look now key s)

pub expiry-write_fields :
    (now : ℕ) (key k : Text) (fields : Dict Text Text) (s : Entries)
    → expiry now k (write_fields now key fields s) ≡ expiry now k s
unfolding expiry look write_fields
expiry-write_fields now key k fields s =
    let old = there now (Dict.get key s) in
    ground (
      arith,
      get-set k key (fields ++ fields_of old, expiry_of old) s,
      kept_expiry now fields (Dict.get key s),
    )

look-expire :
    (now : ℕ) (key k : Text) (ttl : ℕ) (s : Entries)
    → look now k (expire now key (suc ttl) s) ≡ (
        if k == key
        then (elim (look now key s) [
          | none ↦ none
          | some (fields, e) ↦ some (fields, some (now + suc ttl))
        ])
        else look now k s)
unfolding look expire
look-expire now key k ttl s = elim (Option-cases (there now (Dict.get key s))) [
  | inl n ↦ ground arith
  | inr ((fields, e), h) ↦
      ground (
        arith,
        get-set k key (fields, some (now + suc ttl)) s,
        after_expire now ttl (Dict.get key s),
      )
]

pub field-expire :
    (now : ℕ) (key k f : Text) (ttl : ℕ) (s : Entries)
    → field now k f (expire now key (suc ttl) s) ≡ field now k f s
unfolding field
field-expire now key k f ttl s = elim (Option-cases (look now key s)) [
  | inl n ↦ ground (arith, look-expire now key k ttl s)
  | inr ((fields, e), h) ↦ ground (arith, look-expire now key k ttl s)
]

pub expiry-expire :
    (now : ℕ) (key k f value : Text) (ttl : ℕ) (s : Entries)
    → field now key f s ≡ some value
    → expiry now k (expire now key (suc ttl) s)
      ≡ (if k == key then some (now + suc ttl) else expiry now k s)
unfolding field expiry Dict.get
expiry-expire now key k f value ttl s there_is = elim (Option-cases (look now key s)) [
  | inl n ↦ ground (arith, look-expire now key k ttl s)
  | inr ((fields, e), h) ↦ ground (arith, look-expire now key k ttl s)
]

pub remove : Text → Entries → Entries
remove key s = Dict.delete key s

pub look-remove :
    (now : ℕ) (key k : Text) (s : Entries)
    → look now k (remove key s) ≡ (if k == key then none else look now k s)
unfolding look remove
look-remove now key k s = ground (arith, get-delete k key s)

pub field-remove :
    (now : ℕ) (key k f : Text) (s : Entries)
    → field now k f (remove key s) ≡ (if k == key then none else field now k f s)
unfolding field Dict.get
field-remove now key k f s = ground (arith, look-remove now key k s)

pub expiry-remove :
    (now : ℕ) (key k : Text) (s : Entries) → k ≢ key → expiry now k (remove key s) ≡ expiry now k s
unfolding expiry
expiry-remove now key k s other = ground (arith, look-remove now key k s)

pub look_until :
    (now later : ℕ) (key : Text) (s : Entries)
    → now ≤ later
    → (t : ℕ) → expiry_of (look now key s) ≡ some t
    → later < t
    → look later key s ≡ look now key s
look_until now later key s le t e before = look-before now later key s le (λ u h. ground arith)

unfoldable pub lapsing_hashes : ExpiringHashes
unfolding field expiry look Dict.get
lapsing_hashes = record {
  State = Entries;
  hget = field;
  hgetall = λ now key s. fields_of (look now key s);
  pexpiretime = expiry;
  hset = write_fields;
  pexpire = expire;
  del = λ now key s. remove key s;
  get-hgetall = λ now key f s. refl;
  pexpiretime_absent = λ now key s h. none-there now (Dict.get key s) h;
  hget_kept = λ now later key f s le e.
      ap (λ o. Dict.get f (fields_of o)) (look-before now later key s le (λ t h. cc));
  hget_before = λ now later key f s t le e before.
      ap (λ o. Dict.get f (fields_of o)) (look_until now later key s le t e before);
  hget_after = λ now later key f s t le e after.
      ap (λ o. Dict.get f (fields_of o)) (look-after now later key s le t e after);
  pexpiretime_kept =
      λ now later key s le e. ap expiry_of (look-before now later key s le (λ t h. cc)) ∙ e;
  pexpiretime_before =
      λ now later key s t le e before. ap expiry_of (look_until now later key s le t e before) ∙ e;
  hget-hset = field-write_fields;
  pexpiretime-hset = expiry-write_fields;
  hget-pexpire = field-expire;
  pexpiretime-pexpire = expiry-expire;
  hget-del = field-remove;
  pexpiretime-del = expiry-remove;
}
