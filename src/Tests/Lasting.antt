-- ===== src/Tests/Lasting.antt =====
-- The theorems on the flags in Redis, at a run with a flag that ends.
use mocko.Base.{ℕ, ◌≡◌, ◌≢◌, refl, Text, txt, some, [], ◌∷◌, text_eq, arith}
use native.Mathlib.Decide.{ℕ_discrete}
use mocko.Base.Dict
use mocko.Redis.Lapsing.{lapsing_hashes, field, look}
use mocko.Flags.MemoryRepository.{Flags, expiry_of}
use mocko.Flags.MemoryRepository.Expiry.{view}
use mocko.Flags.RedisRepository.{sdk}
use mocko.Flags.RedisRepository.Agreement.{Agree}
use mocko.Flags.RedisRepository.Refinement.{
  Calls, setting, getting, asking, AreTimely, memory_call, memory_run, redis_run,
  redis_run-memory_run,
}

abbrev calls : Calls Text
calls =
    (5, setting (txt "a") (txt "1") sdk (some 10))
    ∷ (7, getting (txt "a"))
    ∷ (20, asking (txt "a"))
    ∷ []

abbrev no_flags : Flags Text
no_flags = []

ends_at_15 :
    (now time : ℕ) (key : Text)
    → time ≢ 15
    → expiry_of
        (view now key ((txt "a", record { value = txt "1"; expires_at = some 15 }) ∷ no_flags))
      ≢ some time
unfolding view Dict.get
ends_at_15 now time key other e = ground arith

calls-AreTimely : AreTimely 0 calls no_flags
unfolding memory_call view Dict.get Dict.set mocko.Flags.MemoryRepository.set
    mocko.Flags.MemoryRepository.get mocko.Flags.MemoryRepository.has text_eq ℕ_discrete
calls-AreTimely = (
  omega arith,
  (
    λ key e. cc,
    (
      omega arith,
      (
        λ key e. ground arith,
        (omega arith, (λ key e. ends_at_15 7 20 key (λ (h : 20 ≡ 15). omega arith) e, tt)),
      ),
    ),
  ),
)

unfoldable nothing_held : lapsing_hashes.State
unfolding lapsing_hashes
nothing_held = []

nothing_held-Agrees : Agree lapsing_hashes (λ t. t) some (λ n. txt "now") 0 no_flags nothing_held
unfolding nothing_held lapsing_hashes view Dict.get field look
nothing_held-Agrees key = λ f. refl

redis_run-memory_run_example :
    redis_run lapsing_hashes (λ t. t) some (λ n. txt "now") calls nothing_held
    ≡ memory_run calls no_flags
redis_run-memory_run_example =
    redis_run-memory_run lapsing_hashes (λ t. t) some (λ n. txt "now") (λ v. refl) 0 calls no_flags
      nothing_held nothing_held-Agrees calls-AreTimely
