-- ===== src/Limiter/Examples.antt =====
-- Tests of the limiter, and the theorems at concrete inputs.
use yz_agent.Prelude.{ℕ, ◌-◌, ◌≡◌, true, List, [], ◌∷◌, none, lookup, nat_eq, ltb, ◌==◌}
use yz_agent.Limiter.Bucket.{Rate}
use yz_agent.Limiter.Users.{UserSpec, Limiter, new, update_users}
use yz_agent.Limiter.Sync.{buckets-update_users, bucket_of}
use yz_agent.Limiter.Reports.{Call, run, IsConsistent, run-new-IsConsistent}
use yz_agent.Limiter.Speed.{SpeedTracker}

-- A bucket with its rate, its burst and its tokens.
record Tokens : Type 0 where
  per_second : ℕ
  burst : ℕ
  left : ℕ

abbrev tokens : Rate Tokens
tokens = record {
  new_limiter = λ limit burst. record { per_second = limit; burst = burst; left = burst };
  set_limit = λ limit b. record b { per_second = limit };
  set_burst = λ burst b. record b { burst = burst };
  allow = λ now b. (record b { left = b.left - 1 }, ltb 0 b.left);
  in_debt_at = λ now b. b.left == 0;
}

abbrev ann : UserSpec
ann = record {
  id = 1;
  uuid = "ann";
  speed_limit = 8;
  device_limit = 1;
  conn_limit = 2;
  conn_rate_limit = 3;
}

abbrev bob : UserSpec
bob = record {
  id = 2;
  uuid = "bob";
  speed_limit = 0;
  device_limit = 0;
  conn_limit = 0;
  conn_rate_limit = 0;
}

abbrev both : Limiter Tokens
both = (update_users tokens (ann ∷ bob ∷ []) new).0

buckets-update_users_example :
    lookup 1 (update_users tokens (ann ∷ []) both).0.conn_rate_buckets
    ≡ bucket_of tokens
        (lookup 1 both.conn_rate_buckets)
        (lookup 1 (update_users tokens (ann ∷ []) both).0.users)
buckets-update_users_example = buckets-update_users tokens (ann ∷ []) both 1

abbrev speeds : SpeedTracker Tokens
speeds = record {
  temporary = (1, 4) ∷ [];
  buckets = (1, tokens.new_limiter 0 0) ∷ (3, tokens.new_limiter 9 9) ∷ [];
  uuid_map = ("ann", 1) ∷ [];
  has_limits = true;
}

abbrev calls : List (Call Tokens)
calls =
    Call.updated (ann ∷ bob ∷ [])
    ∷ Call.reported 1 "device" 0 2 "10.0.0.1" none
    ∷ Call.reported 1 "device" 0 3 "10.0.0.1" none
    ∷ Call.sampled 7 speeds
    ∷ Call.reported 2 "conn" 1 2 "" none
    ∷ Call.updated (ann ∷ [])
    ∷ []

run-new-IsConsistent_example : IsConsistent (run tokens calls new)
run-new-IsConsistent_example = run-new-IsConsistent tokens calls
