-- ===== src/Flags/RedisRepository/Writes.antt =====
-- The calls keep what the flags in Redis and those in memory have in common.
use mocko.Base.{
  ℕ, zero, suc, ◌+◌, ◌≡◌, ◌≢◌, refl, sym, ap, subst, ◌∙◌, first, Text, txt, true, false, Option,
  none, some, leb, ◌==◌, text_eq, if◌then◌else◌, arith,
}
use native.Mathlib.Decide.{dec_lt}
use mocko.Base.Dict
use mocko.Base.Dict.{Dict}
use mocko.Redis.Expiring.{ExpiringHashes}
use mocko.Flags.MemoryRepository
use mocko.Flags.MemoryRepository.{MemoryFlag, Flags, is_expired, expiry_of, value_of}
use mocko.Flags.MemoryRepository.Expiry.{alive, view, new_expiry, view-set, view-del, view-get_live}
use mocko.Flags.RedisRepository.{FlagSource, redis_key, serialize_flag, write, del}
use mocko.Flags.RedisRepository.Agreement.{fields_at, IsAhead, Holds, Agree, Lives}

key_injective : (a b : Text) → (redis_key a == redis_key b) ≡ (a == b)
key_injective a b = ground arith

key_of_redis_key : (a b : Text) → redis_key a ≡ redis_key b → a ≡ b
key_of_redis_key a b e = cc

module _ (h : ExpiringHashes) {V : Type 0} (stringify : V → Text) (parse : Text → Option V)
    (print_time : ℕ → Text) where
  pub Holds-same :
      (now : ℕ) (key : Text) (s t : h.State) (entry : Option (MemoryFlag V))
      → ((f : Text)
          → fields_at h stringify parse print_time now key t f
            ≡ fields_at h stringify parse print_time now key s f)
      → h.pexpiretime now (redis_key key) t ≡ h.pexpiretime now (redis_key key) s
      → Holds h stringify parse print_time now key s entry
      → Holds h stringify parse print_time now key t entry
  Holds-same now key s t none fields end holds = λ f. fields f ∙ holds f
  Holds-same now key s t (some flag) fields end (there, (at, ahead)) =
      (fields (txt "value") ∙ there, (end ∙ at, ahead))

  abbrev payload : ℕ → V → FlagSource → Dict Text Text
  payload now value source = serialize_flag h stringify parse print_time now value source

  abbrev pub written : ℕ → Text → V → FlagSource → Option ℕ → h.State → h.State
  written now key value source ttl s = write h stringify parse print_time now key value source ttl s

  hset_fields :
      (now : ℕ) (key k f : Text) (fields : Dict Text Text) (s : h.State)
      → fields_at h stringify parse print_time now k (h.hset now (redis_key key) fields s) f ≡ (
          if k == key
          then first (Dict.get f fields) (fields_at h stringify parse print_time now k s f)
          else fields_at h stringify parse print_time now k s f)
  hset_fields now key k f fields s =
      h.hget-hset now (redis_key key) (redis_key k) f fields s
      ∙ ap
          (λ b.
            if b
            then first (Dict.get f fields) (fields_at h stringify parse print_time now k s f)
            else fields_at h stringify parse print_time now k s f)
          (key_injective k key)

  written_fields :
      (now : ℕ) (key k f : Text) (value : V) (source : FlagSource) (ttl : Option ℕ) (s : h.State)
      → fields_at h stringify parse print_time now k (written now key value source ttl s) f ≡ (
          if k == key
          then first
              (Dict.get f (payload now value source))
              (fields_at h stringify parse print_time now k s f)
          else fields_at h stringify parse print_time now k s f)
  unfolding write
  written_fields now key k f value source none s =
      hset_fields now key k f (payload now value source) s
  written_fields now key k f value source (some zero) s =
      hset_fields now key k f (payload now value source) s
  written_fields now key k f value source (some (suc ttl)) s =
      h.hget-pexpire now (redis_key key) (redis_key k) f ttl _
      ∙ hset_fields now key k f (payload now value source) s

  value_field :
      (now : ℕ) (value : V) (source : FlagSource)
      → Dict.get (txt "value") (payload now value source) ≡ some (stringify value)
  unfolding Dict.get text_eq native.Mathlib.Decide.ℕ_discrete
  value_field now value source = refl

  other_eq : (k key : Text) → k ≢ key → (k == key) ≡ false
  other_eq k key other = ground arith

  self_eq : (key : Text) → (key == key) ≡ true
  self_eq key = ground arith

  pub written_value :
      (now : ℕ) (key : Text) (value : V) (source : FlagSource) (ttl : Option ℕ) (s : h.State)
      → fields_at h stringify parse print_time now key
          (written now key value source ttl s)
          (txt "value")
        ≡ some (stringify value)
  written_value now key value source ttl s =
      written_fields now key key (txt "value") value source ttl s
      ∙ (ap
            (λ b.
              if b
              then first (Dict.get (txt "value") (payload now value source))
                  (fields_at h stringify parse print_time now key s (txt "value"))
              else fields_at h stringify parse print_time now key s (txt "value"))
            (self_eq key)
          ∙ ap (λ o. first o (fields_at h stringify parse print_time now key s (txt "value")))
              (value_field now value source))

  -- The expiry under a key is that of what it holds.
  expiry_held :
      (now : ℕ) (key : Text) (s : h.State) (entry : Option (MemoryFlag V))
      → Holds h stringify parse print_time now key s entry
      → (h.pexpiretime now (redis_key key) s ≡ expiry_of entry)
        × IsAhead h stringify parse print_time now (expiry_of entry)
  expiry_held now key s none holds = (h.pexpiretime_absent now (redis_key key) s holds, tt)
  expiry_held now key s (some flag) (there, (at, ahead)) = (at, ahead)

  pub written_expiry :
      (now : ℕ) (key : Text) (value : V) (source : FlagSource) (ttl : Option ℕ) (flags : Flags V)
      (s : h.State)
      → Holds h stringify parse print_time now key s (view now key flags)
      → (h.pexpiretime now (redis_key key) (written now key value source ttl s)
          ≡ new_expiry now key ttl flags)
        × IsAhead h stringify parse print_time now (new_expiry now key ttl flags)
  unfolding write
  written_expiry now key value source none flags s holds =
      let (at, ahead) = expiry_held now key s (view now key flags) holds in
      (h.pexpiretime-hset now (redis_key key) (redis_key key) _ s ∙ at, ahead)
  written_expiry now key value source (some zero) flags s holds =
      let (at, ahead) = expiry_held now key s (view now key flags) holds in
      (h.pexpiretime-hset now (redis_key key) (redis_key key) _ s ∙ at, ahead)
  written_expiry now key value source (some (suc ttl)) flags s holds =
      let s' = h.hset now (redis_key key) (payload now value source) s in
      (
        h.pexpiretime-pexpire now (redis_key key) (redis_key key) (txt "value") (stringify value)
              ttl s' (written_value now key value source none s)
            ∙ ap (λ b. if b then some (now + suc ttl) else h.pexpiretime now (redis_key key) s')
                (self_eq (redis_key key)),
        omega arith,
      )

  other_expiry :
      (now : ℕ) (key k : Text) (value : V) (source : FlagSource) (ttl : Option ℕ) (s : h.State)
      → k ≢ key
      → h.pexpiretime now (redis_key k) (written now key value source ttl s)
        ≡ h.pexpiretime now (redis_key k) s
  unfolding write
  other_expiry now key k value source none s other =
      h.pexpiretime-hset now (redis_key key) (redis_key k) _ s
  other_expiry now key k value source (some zero) s other =
      h.pexpiretime-hset now (redis_key key) (redis_key k) _ s
  other_expiry now key k value source (some (suc ttl)) s other =
      let s' = h.hset now (redis_key key) (payload now value source) s in
      h.pexpiretime-pexpire now (redis_key key) (redis_key k) (txt "value") (stringify value) ttl s'
        (written_value now key value source none s)
      ∙ (ap (λ b. if b then some (now + suc ttl) else h.pexpiretime now (redis_key k) s')
            (key_injective k key ∙ other_eq k key other)
          ∙ h.pexpiretime-hset now (redis_key key) (redis_key k) _ s)

  Holds-alive :
      (now : ℕ) (key : Text) (s : h.State) (value : V) (expiry : Option ℕ)
      → Lives h stringify parse print_time now key s value expiry
      → Holds h stringify parse print_time now key s
          (alive now (some (record { value = value; expires_at = expiry })))
  unfolding Lives
  Holds-alive now key s value none l = l
  Holds-alive now key s value (some zero) (there, (at, ahead)) = absurd (omega (arith, ahead))
  Holds-alive now key s value (some (suc t)) (there, (at, ahead)) =
      let yet : leb (suc t) now ≡ false = ground (arith, ahead) in rw yet (there, (at, ahead))

  pub Agree-set :
      (now : ℕ) (key : Text) (value : V) (source : FlagSource) (ttl : Option ℕ) (flags : Flags V)
      (s : h.State)
      → Agree h stringify parse print_time now flags s
      → Agree h stringify parse print_time now
          (MemoryRepository.set now key value ttl flags)
          (written now key value source ttl s)
  unfolding Lives
  Agree-set now key value source ttl flags s agree k =
      let t = written now key value source ttl s in
      let entry =
        alive now (some (record { value = value; expires_at = new_expiry now key ttl flags })) in
      elim (text_eq.dec k key) [
        | yes e ↦
            let shape =
              view-set now now key key value ttl flags (omega arith)
              ∙ ap (λ b. if b then entry else view now key flags) (self_eq key) in
            subst
              (λ j.
                Holds h stringify parse print_time now j t
                  (view now j (MemoryRepository.set now key value ttl flags)))
              (sym e)
              (subst (Holds h stringify parse print_time now key t) (sym shape) (
                Holds-alive now key t value (new_expiry now key ttl flags) (
                  written_value now key value source ttl s,
                  written_expiry now key value source ttl flags s (agree key),
                )))
        | no n ↦
            let shape =
              view-set now now key k value ttl flags (omega arith)
              ∙ ap (λ b. if b then entry else view now k flags) (other_eq k key n) in
            subst (Holds h stringify parse print_time now k t) (sym shape) (
              Holds-same now k s t (view now k flags)
                (λ f.
                  written_fields now key k f value source ttl s
                  ∙ ap
                      (λ b.
                        if b
                        then first (Dict.get f (payload now value source))
                            (fields_at h stringify parse print_time now k s f)
                        else fields_at h stringify parse print_time now k s f)
                      (other_eq k key n))
                (other_expiry now key k value source ttl s n) (agree k))
      ]

  pub Agree-del :
      (now : ℕ) (key : Text) (flags : Flags V) (s : h.State)
      → Agree h stringify parse print_time now flags s
      → Agree h stringify parse print_time now
          (MemoryRepository.del key flags)
          (del h stringify parse print_time now key s)
  unfolding del
  Agree-del now key flags s agree k =
      let t = h.del now (redis_key key) s in
      let gone = λ (f : Text).
        h.hget-del now (redis_key key) (redis_key k) f s
        ∙ ap (λ b. if b then none else fields_at h stringify parse print_time now k s f)
            (key_injective k key) in
      elim (text_eq.dec k key) [
        | yes e ↦
            let same : (k == key) ≡ true = ground arith in
            subst (Holds h stringify parse print_time now k t)
              (sym (view-del now key k flags ∙ ap (λ b. if b then none else view now k flags) same))
              (λ f.
                gone f
                ∙ ap (λ b. if b then none else fields_at h stringify parse print_time now k s f)
                    same)
        | no n ↦
            let differ = other_eq k key n in
            subst (Holds h stringify parse print_time now k t)
              (sym
                (view-del now key k flags ∙ ap (λ b. if b then none else view now k flags) differ))
              (Holds-same now k s t (view now k flags)
                (λ f.
                  gone f
                  ∙ ap (λ b. if b then none else fields_at h stringify parse print_time now k s f)
                      differ)
                (h.pexpiretime-del now (redis_key key) (redis_key k) s
                  (λ e. n (key_of_redis_key k key e)))
                (agree k))
      ]

  -- Looking a flag up in memory forgets nothing that is alive.
  pub Agree-looked :
      (now : ℕ) (key : Text) (flags : Flags V) (s : h.State)
      → Agree h stringify parse print_time now flags s
      → Agree h stringify parse print_time now (MemoryRepository.get_live now key flags).1 s
  Agree-looked now key flags s agree k =
      subst (Holds h stringify parse print_time now k s)
        (sym (view-get_live now now key k flags (omega arith))) (agree k)
