-- ===== src/Tests/Flags.antt =====
-- The theorems on mocko-core/src/api/flag, at one flag that expires and one that does not.
use mocko.Base.{
  ℕ, ◌+◌, ◌≡◌, ◌≢◌, Text, txt, none, some, List, [], ◌∷◌, arith, ltb, text_eq, if◌then◌else◌,
}
use mocko.Flags.MemoryRepository.{Flags, set, get, has}
use mocko.Flags.MemoryRepository.Expiry.{get-set_ttl}

abbrev flags : Flags ℕ
flags =
    (txt "a", record { value = 1; expires_at = some 9 })
    ∷ (txt "b", record { value = 2; expires_at = none })
    ∷ []

get-set_ttl_example :
    ((get 8 (txt "a") (set 3 (txt "a") 4 (some 10) flags)).0
      ≡ (if ltb 8 (3 + 10) then some 4 else none))
    × ((has 8 (txt "a") (set 3 (txt "a") 4 (some 10) flags)).0 ≡ ltb 8 (3 + 10))
get-set_ttl_example = get-set_ttl 3 8 (txt "a") 4 10 flags (omega arith) (omega arith)

other_key : txt "b" ≢ txt "a"
other_key e = ground arith

abbrev keys : List Text
keys = txt "app:a" ∷ txt "app:g:x" ∷ txt "app:g:y" ∷ []
