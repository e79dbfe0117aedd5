-- ===== src/Flags/MemoryRepository/Expiry.antt =====
-- The life of a flag.
use mocko.Base.{
  ℕ, zero, suc, ◌+◌, ◌≤◌, ◌<◌, ◌≡◌, ◌≢◌, ap, Text, Option, none, some, arith, ltb, ◌==◌, text_eq,
  is_some, if◌then◌else◌,
}
use mocko.Base.Dict
use mocko.Base.Dict.{get-set, get-delete, dict_laws}
use mocko.Flags.MemoryRepository.{
  MemoryFlag, Flags, is_expired, get_live, expiry_of, set, value_of, get, del, has,
}

module _ {V : Type 0} where
  -- The entry of a key at a time, if it has not expired.
  abbrev pub alive : ℕ → Option (MemoryFlag V) → Option (MemoryFlag V)
  alive now none = none
  alive now (some flag) = if is_expired now flag.expires_at then none else some flag

  unfoldable pub view : ℕ → Text → Flags V → Option (MemoryFlag V)
  view now key flags = alive now (Dict.get key flags)

  pub get_live-eq-view :
      (now : ℕ) (key : Text) (flags : Flags V) → (get_live now key flags).0 ≡ view now key flags
  unfolding get_live view
  get_live-eq-view now key flags = ground arith

  -- looking a flag up drops nothing that is alive then or later
  pub view-get_live :
      (now later : ℕ) (key other : Text) (flags : Flags V)
      → now ≤ later
      → view later other (get_live now key flags).1 ≡ view later other flags
  unfolding get_live view
  view-get_live now later key other flags le = ground (arith, get-delete other key flags)

  -- the expiry that a write gives a flag
  abbrev pub new_expiry : ℕ → Text → Option ℕ → Flags V → Option ℕ
  new_expiry now key none flags = expiry_of (view now key flags)
  new_expiry now key (some zero) flags = expiry_of (view now key flags)
  new_expiry now key (some (suc ttl)) flags = some (now + suc ttl)

  -- What is alive under a key after a flag is written, at that time or later.
  pub view-set :
      (now later : ℕ) (key other : Text) (value : V) (ttl : Option ℕ) (flags : Flags V)
      → now ≤ later
      → view later other (set now key value ttl flags) ≡ (
          if other == key
          then alive later
              (some (record { value = value; expires_at = new_expiry now key ttl flags }))
          else view later other flags)
  unfolding set view get_live
  view-set now later key other value (some (suc ttl)) flags le =
      ground (
        arith,
        get-set other key (record { value = value; expires_at = some (now + suc ttl) }) flags,
      )
  view-set now later key other value (some zero) flags le = ground (
    arith,
    get-set other key (record { value = value; expires_at = expiry_of (get_live now key flags).0 })
        (get_live now key flags).1,
    get-delete other key flags,
  )
  view-set now later key other value none flags le = ground (
    arith,
    get-set other key (record { value = value; expires_at = expiry_of (get_live now key flags).0 })
        (get_live now key flags).1,
    get-delete other key flags,
  )

  pub view-del :
      (now : ℕ) (key other : Text) (flags : Flags V)
      → view now other (del key flags) ≡ (if other == key then none else view now other flags)
  unfolding del view
  view-del now key other flags = ground (arith, get-delete other key flags)

  pub get-eq-view :
      (now : ℕ) (key : Text) (flags : Flags V)
      → (get now key flags).0 ≡ value_of (view now key flags)
  unfolding get
  get-eq-view now key flags = ap value_of (get_live-eq-view now key flags)

  pub has-eq-view :
      (now : ℕ) (key : Text) (flags : Flags V)
      → (has now key flags).0 ≡ is_some (view now key flags)
  unfolding has
  has-eq-view now key flags = ap is_some (get_live-eq-view now key flags)

  -- A flag set with a lifetime is read back, with its value, exactly until the lifetime is over; and
  -- then it is missing. `later` is the time of the reading, at or after the time of the writing.
  pub get-set_ttl :
      (now later : ℕ) (key : Text) (value : V) (ttl : ℕ) (flags : Flags V)
      → now ≤ later
      → 0 < ttl
      → ((get later key (set now key value (some ttl) flags)).0
          ≡ (if ltb later (now + ttl) then some value else none))
        × ((has later key (set now key value (some ttl) flags)).0 ≡ ltb later (now + ttl))
  get-set_ttl now later key value zero flags le pos = absurd (omega arith)
  get-set_ttl now later key value (suc ttl) flags le pos =
      let w = set now key value (some (suc ttl)) flags in
      (
        ground (
          arith,
          get-eq-view later key w,
          view-set now later key key value (some (suc ttl)) flags,
        ),
        ground (
          arith,
          has-eq-view later key w,
          view-set now later key key value (some (suc ttl)) flags,
        ),
      )

  -- A write without a lifetime keeps the expiry of a flag that is alive, and gives none to a flag
  -- that is not: at that time or later it is read back exactly if the flag that it replaced would
  -- be, or if there was no such flag.
  pub get-set_keep :
      (now later : ℕ) (key : Text) (value : V) (flags : Flags V)
      → now ≤ later
      → (get later key (set now key value none flags)).0 ≡ (
          if is_some (view now key flags)
          then (if is_some (view later key flags) then some value else none)
          else some value)
  unfolding view
  get-set_keep now later key value flags le = ground (
    arith,
    get-eq-view later key (set now key value none flags),
    view-set now later key key value none flags,
  )

  -- A flag that has expired stays so until it is written.
  pub view-expired :
      (now later : ℕ) (key : Text) (flags : Flags V)
      → now ≤ later
      → view now key flags ≡ none
      → view later key flags ≡ none
  unfolding view
  view-expired now later key flags le gone = ground arith

  -- Writing or deleting one flag, and reading any, leaves every other flag as it is at that time and
  -- later.
  pub view-other :
      (now later : ℕ) (key other : Text) (value : V) (ttl : Option ℕ) (flags : Flags V)
      → now ≤ later
      → other ≢ key
      → (view later other (set now key value ttl flags) ≡ view later other flags)
        × (view later other (del key flags) ≡ view later other flags)
        × (view later other (get now key flags).1 ≡ view later other flags)
        × (view later other (has now key flags).1 ≡ view later other flags)
  unfolding get has
  view-other now later key other value ttl flags le ne = (
    ground (arith, view-set now later key other value ttl flags),
    ground (arith, view-del later key other flags),
    view-get_live now later key other flags le,
    view-get_live now later key other flags le,
  )
