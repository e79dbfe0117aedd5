-- ===== src/Flags/RedisRepository/Refinement.antt =====
-- Over any run of calls, the flags in Redis and those in memory give the same answers.
use mocko.Base.{
  ℕ, ◌≤◌, ◌≡◌, ◌≢◌, refl, sym, ap, ◌∙◌, Text, txt, Bool, Option, none, some, List, [], ◌∷◌, is_some,
  text_eq,
}
use mocko.Base.Dict
use mocko.Base.Dict.{Dict}
use mocko.Base.Result.{Result, ok, err}
use mocko.Redis.Expiring.{ExpiringHashes}
use mocko.Flags.MemoryRepository
use mocko.Flags.MemoryRepository.{MemoryFlag, Flags, expiry_of, value_of}
use mocko.Flags.MemoryRepository.Expiry.{view, get-eq-view, has-eq-view}
use mocko.Flags.RedisRepository.{
  FlagSource, Flag, FlagError, redis_key, deserialize_at, get, read_back, set_result, set, del, has,
}
use mocko.Flags.RedisRepository.Agreement.{Holds, Agree, Agree-later}
use mocko.Flags.RedisRepository.Writes.{Agree-set, Agree-del, Agree-looked, written, written_value}

pub data Call (V : Type 0) : Type 0 where
  setting : Text → V → FlagSource → Option ℕ → Call V
  getting : Text → Call V
  asking : Text → Call V
  deleting : Text → Call V

pub data Answer (V : Type 0) : Type 0 where
  flag : Option V → Answer V
  told : Bool → Answer V
  done : Answer V
  thrown : FlagError → Answer V

module _ {V : Type 0} where
  unfoldable pub memory_call : ℕ → Call V → Flags V → Answer V × Flags V
  memory_call now (setting key value source ttl) flags =
      (flag (some value), MemoryRepository.set now key value ttl flags)
  memory_call now (getting key) flags =
      (flag (MemoryRepository.get now key flags).0, (MemoryRepository.get now key flags).1)
  memory_call now (asking key) flags =
      (told (MemoryRepository.has now key flags).0, (MemoryRepository.has now key flags).1)
  memory_call now (deleting key) flags = (done, MemoryRepository.del key flags)

  abbrev pub set_answer : Result FlagError (Flag V) → Answer V
  set_answer (err e) = thrown e
  set_answer (ok f) = flag (some f.value)

  abbrev pub get_answer : Result FlagError (Option (Flag V)) → Answer V
  get_answer (err e) = thrown e
  get_answer (ok none) = flag none
  get_answer (ok (some f)) = flag (some f.value)

-- The calls of a run, each at its time.
abbrev pub Calls : Type 0 → Type 0
Calls V = List (ℕ × Call V)

module _ {V : Type 0} where
  unfoldable pub memory_run : Calls V → Flags V → List (Answer V)
  unfolding memory_call
  memory_run [] flags = []
  memory_run ((now, call) ∷ calls) flags =
      let (answer, flags') = memory_call now call flags in answer ∷ memory_run calls flags'

  -- Time does not go back, and no call comes at the very time at which a flag ends.
  abbrev pub AreTimely : ℕ → Calls V → Flags V → Type 0
  AreTimely before [] flags = Unit
  AreTimely before ((now, call) ∷ calls) flags =
      (before ≤ now)
      × (((key : Text) → expiry_of (view before key flags) ≢ some now)
          × AreTimely now calls (memory_call now call flags).1)

module _ (h : ExpiringHashes) {V : Type 0} (stringify : V → Text) (parse : Text → Option V)
    (print_time : ℕ → Text) where
  unfoldable pub redis_call : ℕ → Call V → h.State → Answer V × h.State
  redis_call now (setting key value source ttl) s =
      let (result, s') = set h stringify parse print_time now now key value source ttl s in
      (set_answer result, s')
  redis_call now (getting key) s = (get_answer (get h stringify parse print_time now key s), s)
  redis_call now (asking key) s = (told (has h stringify parse print_time now key s), s)
  redis_call now (deleting key) s = (done, del h stringify parse print_time now key s)

  unfoldable pub redis_run : Calls V → h.State → List (Answer V)
  unfolding redis_call
  redis_run [] s = []
  redis_run ((now, call) ∷ calls) s =
      let (answer, s') = redis_call now call s in answer ∷ redis_run calls s'

  module _ (parse-stringify : (value : V) → parse (stringify value) ≡ some value) where
    abbrev pub value_text : Option (MemoryFlag V) → Option Text
    value_text none = none
    value_text (some f) = some (stringify f.value)

    pub deserialized :
        (payload : Text → Option Text) (entry : Option (MemoryFlag V)) (o : Option Text)
        → o ≡ value_text entry
        → get_answer (deserialize_at h stringify parse print_time o payload) ≡ flag (value_of entry)
    deserialized payload none o e = rw e refl
    deserialized payload (some f) o e = rw e (rw (parse-stringify f.value) refl)

    held_text :
        (now : ℕ) (key : Text) (s : h.State) (entry : Option (MemoryFlag V))
        → Holds h stringify parse print_time now key s entry
        → h.hget now (redis_key key) (txt "value") s ≡ value_text entry
    held_text now key s none holds = holds (txt "value")
    held_text now key s (some f) holds = holds.0

    get-Holds :
        (now : ℕ) (key : Text) (s : h.State) (entry : Option (MemoryFlag V))
        → Holds h stringify parse print_time now key s entry
        → get_answer (get h stringify parse print_time now key s) ≡ flag (value_of entry)
    unfolding get
    get-Holds now key s entry holds =
        deserialized (λ f. Dict.get f (h.hgetall now (redis_key key) s)) entry
          (Dict.get (txt "value") (h.hgetall now (redis_key key) s))
          (h.get-hgetall now (redis_key key) (txt "value") s ∙ held_text now key s entry holds)

    get-written :
        (now : ℕ) (key : Text) (value : V) (source : FlagSource) (ttl : Option ℕ) (s : h.State)
        → get_answer (
            get h stringify parse print_time now key
              (written h stringify parse print_time now key value source ttl s))
          ≡ flag (some value)
    unfolding get
    get-written now key value source ttl s =
        let t = written h stringify parse print_time now key value source ttl s in
        deserialized (λ f. Dict.get f (h.hgetall now (redis_key key) t))
          (some (record { value = value; expires_at = none }))
          (Dict.get (txt "value") (h.hgetall now (redis_key key) t))
          (h.get-hgetall now (redis_key key) (txt "value") t
            ∙ written_value h stringify parse print_time now key value source ttl s)

    is_some-value_text :
        (entry : Option (MemoryFlag V)) → is_some (value_text entry) ≡ is_some entry
    is_some-value_text none = refl
    is_some-value_text (some f) = refl

    pub set_of_get :
        (key : Text) (r : Result FlagError (Option (Flag V))) (v : V)
        → get_answer r ≡ flag (some v)
        → set_answer (read_back h stringify parse print_time key r) ≡ flag (some v)
    set_of_get key (err e) v h' = cc
    set_of_get key (ok none) v h' = cc
    set_of_get key (ok (some f)) v h' = h'

    call-Agrees :
        (now : ℕ) (call : Call V) (flags : Flags V) (s : h.State)
        → Agree h stringify parse print_time now flags s
        → ((redis_call now call s).0 ≡ (memory_call now call flags).0)
          × Agree h stringify parse print_time now
              (memory_call now call flags).1
              (redis_call now call s).1
    unfolding redis_call memory_call set set_result del has MemoryRepository.get
        MemoryRepository.has
    call-Agrees now (setting key value source ttl) flags s agree = (
      set_of_get key
          (get h stringify parse print_time now key
            (written h stringify parse print_time now key value source ttl s))
          value (get-written now key value source ttl s),
      Agree-set h stringify parse print_time now key value source ttl flags s agree,
    )
    call-Agrees now (getting key) flags s agree = (
      get-Holds now key s (view now key flags) (agree key)
          ∙ ap flag (sym (get-eq-view now key flags)),
      Agree-looked h stringify parse print_time now key flags s agree,
    )
    call-Agrees now (asking key) flags s agree = (
      ap told (
          ap is_some (held_text now key s (view now key flags) (agree key))
          ∙ (is_some-value_text (view now key flags) ∙ sym (has-eq-view now key flags))),
      Agree-looked h stringify parse print_time now key flags s agree,
    )
    call-Agrees now (deleting key) flags s agree =
        (refl, Agree-del h stringify parse print_time now key flags s agree)

    -- Where both repositories hold the same flags at some time: over any run of calls from that time
    -- on, each with nothing in between its commands and none at the very time at which a flag ends, the
    -- two give the same answers. A write is answered with the flag, and throws nothing.
    pub redis_run-memory_run :
        (before : ℕ) (calls : Calls V) (flags : Flags V) (s : h.State)
        → Agree h stringify parse print_time before flags s
        → AreTimely before calls flags
        → redis_run calls s ≡ memory_run calls flags
    unfolding redis_run memory_run
    redis_run-memory_run before [] flags s agree timely = refl
    redis_run-memory_run before ((now, call) ∷ calls) flags s agree (le, (ties, timely)) =
        let here = Agree-later h stringify parse print_time before now flags s le ties agree in
        let (same, after) = call-Agrees now call flags s here in
        ap (λ a. a ∷ redis_run calls (redis_call now call s).1) same
        ∙ ap (λ rest. (memory_call now call flags).0 ∷ rest)
            (redis_run-memory_run now calls (memory_call now call flags).1 (redis_call now call s).1
              after timely)
