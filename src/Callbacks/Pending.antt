-- ===== src/Callbacks/Pending.antt =====
-- mocko-core/src/api/callback/callback.repository.ts: the entries of the pending repository. The
-- payload is an arbitrary JSON value, the type parameter `P`. Times are milliseconds.
use mocko.Base.{ℕ, suc, Text, Option, List, [], ◌∷◌, ◌==◌, text_eq, if◌then◌else◌}

pub record PendingCallback (P : Type 0) : Type 0 where
  pub id : Text
  pub slug : Text
  pub payload : P
  pub due_at : ℕ
  pub created_at : ℕ
  pub triggered_by_mock_id : Option Text
  pub held_at : Option ℕ

module _ {P : Type 0} where
  -- How many entries of a list carry an id.
  abbrev pub count_id : Text → List (PendingCallback P) → ℕ
  count_id i [] = 0
  count_id i (p ∷ ps) = let rest = count_id i ps in if p.id == i then suc rest else rest
