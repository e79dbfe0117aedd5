-- ===== src/Flags/RedisRepository/Agreement.antt =====
-- When the flags in Redis and those in memory are the same, and that the calls keep it so.
use mocko.Base.{
  ℕ, zero, suc, ◌≤◌, ◌<◌, ◌≡◌, ◌≢◌, refl, ap, subst, ◌∙◌, Text, txt, true, false, Option, none,
  some, leb, text_eq, if◌then◌else◌, arith,
}
use native.Mathlib.Decide.{dec_lt}
use mocko.Base.Dict
use mocko.Base.Dict.{Dict}
use mocko.Redis.Expiring.{ExpiringHashes}
use mocko.Flags.MemoryRepository.{MemoryFlag, Flags, is_expired, expiry_of}
use mocko.Flags.MemoryRepository.Expiry.{alive, view}
use mocko.Flags.RedisRepository.{redis_key}

module _ (h : ExpiringHashes) {V : Type 0} (stringify : V → Text) (parse : Text → Option V)
    (print_time : ℕ → Text) where
  abbrev pub fields_at : ℕ → Text → h.State → Text → Option Text
  fields_at now key s f = h.hget now (redis_key key) f s

  -- An expiry lies ahead.
  abbrev pub IsAhead : ℕ → Option ℕ → Type 0
  IsAhead now none = Unit
  IsAhead now (some t) = now < t

  -- What Redis holds under a key at a time for an entry of the memory that is alive then, or for none.
  abbrev pub Holds : ℕ → Text → h.State → Option (MemoryFlag V) → Type 0
  Holds now key s none = (f : Text) → fields_at now key s f ≡ none
  Holds now key s (some flag) =
      (fields_at now key s (txt "value") ≡ some (stringify flag.value))
      × ((h.pexpiretime now (redis_key key) s ≡ flag.expires_at) × IsAhead now flag.expires_at)

  -- At a time, both hold the same flags, which end at the same times.
  abbrev pub Agree : ℕ → Flags V → h.State → Type 0
  Agree now flags s = (key : Text) → Holds now key s (view now key flags)

  unfoldable pub Lives : ℕ → Text → h.State → V → Option ℕ → Type 0
  Lives now key s value expiry =
      (fields_at now key s (txt "value") ≡ some (stringify value))
      × ((h.pexpiretime now (redis_key key) s ≡ expiry) × IsAhead now expiry)

  Lives-later :
      (now later : ℕ) (key : Text) (s : h.State) (value : V) (expiry : Option ℕ)
      → now ≤ later
      → expiry ≢ some later
      → Lives now key s value expiry
      → Holds later key s (
          if is_expired later expiry
          then none
          else some (record { value = value; expires_at = expiry }))
  unfolding Lives
  Lives-later now later key s value none le tie (there, (end, ahead)) = (
    h.hget_kept now later (redis_key key) (txt "value") s le end ∙ there,
    (h.pexpiretime_kept now later (redis_key key) s le end, tt),
  )
  Lives-later now later key s value (some zero) le tie (there, (end, ahead)) =
      absurd (omega (arith, ahead))
  Lives-later now later key s value (some (suc t)) le tie (there, (end, ahead)) =
      elim (dec_lt later (suc t)) [
        | yes before ↦
            let alive_yet : leb (suc t) later ≡ false = ground arith in
            rw alive_yet (
              h.hget_before now later (redis_key key) (txt "value") s (suc t) le end before ∙ there,
              (h.pexpiretime_before now later (redis_key key) s (suc t) le end before, before),
            )
        | no not_before ↦
            let over : suc t < later = ground (arith, λ (e : suc t ≡ later). tie (ap some e)) in
            let gone : leb (suc t) later ≡ true = ground arith in
            rw gone (λ f. h.hget_after now later (redis_key key) f s (suc t) le end over)
      ]

  Holds-later :
      (now later : ℕ) (key : Text) (s : h.State) (entry : Option (MemoryFlag V))
      → now ≤ later
      → expiry_of entry ≢ some later
      → Holds now key s entry
      → Holds later key s (alive later entry)
  unfolding Lives
  Holds-later now later key s none le tie holds = λ f.
      h.hget_kept now later (redis_key key) f s le
        (h.pexpiretime_absent now (redis_key key) s holds)
      ∙ holds f
  Holds-later now later key s (some flag) le tie holds =
      Lives-later now later key s flag.value flag.expires_at le tie holds

  alive-some :
      (now later : ℕ) (value : V) (expiry : Option ℕ)
      → now ≤ later
      → alive later (alive now (some (record { value = value; expires_at = expiry })))
        ≡ alive later (some (record { value = value; expires_at = expiry }))
  alive-some now later value none le = refl
  alive-some now later value (some zero) le = refl
  alive-some now later value (some (suc t)) le = ground arith

  alive-alive :
      (now later : ℕ) (entry : Option (MemoryFlag V))
      → now ≤ later
      → alive later (alive now entry) ≡ alive later entry
  alive-alive now later none le = refl
  alive-alive now later (some flag) le = alive-some now later flag.value flag.expires_at le

  -- No flag ends at this very time.
  abbrev pub NoneEnds : ℕ → ℕ → Flags V → Type 0
  NoneEnds now later flags = (key : Text) → expiry_of (view now key flags) ≢ some later

  pub Agree-later :
      (now later : ℕ) (flags : Flags V) (s : h.State)
      → now ≤ later
      → NoneEnds now later flags
      → Agree now flags s
      → Agree later flags s
  unfolding view
  Agree-later now later flags s le ties agree key =
      subst (Holds later key s) (alive-alive now later (Dict.get key flags) le)
        (Holds-later now later key s (view now key flags) le (ties key) (agree key))
