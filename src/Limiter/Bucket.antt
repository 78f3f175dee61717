-- ===== src/Limiter/Bucket.antt =====
-- What the program uses of `rate.Limiter`: a bucket is made with a rate and a burst, either can be
-- changed in place, a token can be asked for, and the balance at a time can be negative.
use yz_agent.Prelude.{ℕ, Bool}

pub record Rate (B : Type 0) : Type 0 where
  pub new_limiter : ℕ → ℕ → B
  pub set_limit : ℕ → B → B
  pub set_burst : ℕ → B → B
  pub allow : ℕ → B → B × Bool
  pub in_debt_at : ℕ → B → Bool

-- `SetLimit` and then `SetBurst`.
abbrev pub retune : {B : Type 0} → Rate B → ℕ → ℕ → B → B
retune r limit burst b = r.set_burst burst (r.set_limit limit b)
