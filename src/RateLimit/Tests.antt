-- ===== src/RateLimit/Tests.antt =====
-- Concrete runs of the rate limiter model, over a bucket that counts down.
use egressdns.Prelude.{List, [], arith, ltb, refl, some, true, ℕ, ◌-◌, ◌∷◌, ◌≡◌}
use egressdns.Net.{IpAddr, v4}
use egressdns.RateLimit.{
  Governor, RateLimitConfig, ClientTable, InboundLimiter, new, tracked_clients,
}
use egressdns.RateLimit.Growth.{run_checks, tracked_clients-unbounded}

abbrev counting : Governor
counting = record { Bucket = ℕ; direct = λ q. q.burst; check = λ left now. (left - 1, ltb 0 left) }

abbrev small : RateLimitConfig
small = record {
  enabled = true;
  per_client_qps = 1;
  per_client_burst = 1;
  global_qps = 5;
  global_burst = 5;
  client_table_size = 2;
}

abbrev table : ClientTable
table = record {
  quota = record { rate = 1; burst = 1 };
  capacity = 2;
  current = (v4 1, 0) ∷ (v4 2, 1) ∷ [];
  previous = (v4 3, 2) ∷ [];
}

abbrev spent : InboundLimiter counting
spent = record {
  enabled = true;
  global = some 5;
  per_client = some table;
  buckets = 0 ∷ 1 ∷ 1 ∷ [];
}

tracked_clients-unbounded_example :
    (clients : List IpAddr) × (tracked_clients (run_checks (new {g = counting} small) 0 clients)
      ≡ 103)
tracked_clients-unbounded_example =
    tracked_clients-unbounded counting small 0 100 refl (omega arith)
