-- ===== src/Flags/RedisRepository/Reads.antt =====
-- What `set` of the flags in Redis answers when time passes between its write and its reading.
use mocko.Base.{ℕ, ◌≤◌, ◌<◌, ◌≡◌, ap, ◌∙◌, Text, txt, Option, none, some, text_eq}
use mocko.Base.Dict
use mocko.Base.Dict.{Dict}
use mocko.Base.Result.{err}
use mocko.Redis.Expiring.{ExpiringHashes}
use mocko.Flags.RedisRepository.{
  FlagSource, not_found_after_write, redis_key, deserialize_at, read_back, get, set_result, set,
}
use mocko.Flags.RedisRepository.Writes.{written, written_value}
use mocko.Flags.RedisRepository.Refinement.{flag, set_answer, deserialized, set_of_get}

module _ (h : ExpiringHashes) {V : Type 0} (stringify : V → Text) (parse : Text → Option V)
    (print_time : ℕ → Text)
    (parse-stringify : (value : V) → parse (stringify value) ≡ some value) where
  answered :
      (later : ℕ) (key : Text) (value : V) (t : h.State)
      → h.hget later (redis_key key) (txt "value") t ≡ some (stringify value)
      → set_answer (set_result h stringify parse print_time later key t) ≡ flag (some value)
  unfolding set_result get
  answered later key value t there =
      let payload = h.hgetall later (redis_key key) t in
      set_of_get h stringify parse print_time parse-stringify key
        (get h stringify parse print_time later key t) value
        (deserialized h stringify parse print_time parse-stringify (λ f. Dict.get f payload)
          (some (record { value = value; expires_at = none })) (Dict.get (txt "value") payload)
          (h.get-hgetall later (redis_key key) (txt "value") t ∙ there))

  missing :
      (later : ℕ) (key : Text) (t : h.State)
      → h.hget later (redis_key key) (txt "value") t ≡ none
      → set_result h stringify parse print_time later key t ≡ err (not_found_after_write key)
  unfolding set_result get
  missing later key t gone =
      let payload = h.hgetall later (redis_key key) t in
      let none_there : Dict.get (txt "value") payload ≡ none =
        h.get-hgetall later (redis_key key) (txt "value") t ∙ gone in
      ap
        (λ o.
          read_back h stringify parse print_time key
            (deserialize_at h stringify parse print_time o (λ f. Dict.get f payload)))
        none_there

  -- With nothing else in between, `set` answers with the value that it wrote if the flag has no expiry
  -- or ends after the reading; and if the flag has ended by then, `set` throws that it was not found,
  -- although it was written.
  pub set_lem :
      (now later : ℕ) (key : Text) (value : V) (source : FlagSource) (ttl : Option ℕ) (s : h.State)
      → now ≤ later
      → (h.pexpiretime now
              (redis_key key)
              (set h stringify parse print_time now later key value source ttl s).1
            ≡ none
          → set_answer (set h stringify parse print_time now later key value source ttl s).0
            ≡ flag (some value))
        × ((end : ℕ)
            → h.pexpiretime now
                (redis_key key)
                (set h stringify parse print_time now later key value source ttl s).1
              ≡ some end
            → (later < end
                → set_answer (set h stringify parse print_time now later key value source ttl s).0
                  ≡ flag (some value))
              × (end < later
                  → (set h stringify parse print_time now later key value source ttl s).0
                    ≡ err (not_found_after_write key)))
  unfolding set
  set_lem now later key value source ttl s le =
      let t = written h stringify parse print_time now key value source ttl s in
      let there = written_value h stringify parse print_time now key value source ttl s in
      let k = redis_key key in
      (
        λ e. answered later key value t (h.hget_kept now later k (txt "value") t le e ∙ there),
        λ end e. (
          λ before.
              answered later key value t
                (h.hget_before now later k (txt "value") t end le e before ∙ there),
          λ after. missing later key t (h.hget_after now later k (txt "value") t end le e after),
        ),
      )
