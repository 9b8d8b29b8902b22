-- ===== src/Ring/Queue.antt =====
-- The abstract view of both ring queues: a bounded first-in-first-out list, oldest first.
use l7_loadbalancer.Base.{ℕ, Bool, true, false, List, [], ◌∷◌, ◌++◌, length, leb, if◌then◌else◌}

-- What `pop` and `peek` give: `false`, or `true` with the value of `item`. `fault` is a read outside
-- the storage, which C++ leaves undefined.
pub data Outcome {ℓ} (A : Type ℓ) : Type ℓ where
  refused fault : Outcome A
  item : A → Outcome A

module _ {ℓ} {A : Type ℓ} where
  -- A queue of at most `cap` entries refuses the entry that does not fit.
  unfoldable pub push : ℕ → List A → A → List A × Bool
  push cap q x = if leb cap (length q) then (q, false) else (q ++ x ∷ [], true)

  unfoldable pub pop : List A → List A × Outcome A
  pop [] = ([], refused)
  pop (x ∷ q) = (q, item x)
