-- ===== src/RateLimit/Growth.antt =====
-- The size of the client table of src/dns/ratelimit.rs.
use egressdns.Prelude.{
  List, [], arith, false, length, max, refl, some, suc, true, zero, ℕ, ◌+◌, ◌<◌, ◌∷◌, ◌≡◌, ◌≤◌,
}
use native.Mathlib.Nat.{zero-add, suc-add}
use egressdns.Net.{IpAddr, v6}
use egressdns.RateLimit.{
  Governor, RateLimitConfig, ClientTable, InboundLimiter, new, check_global, check_client, check,
  tracked_clients,
}
use egressdns.RateLimit.Shape.{
  Shape, below, one_and_below, admit, Covers-ext, Covers-empty, admit_known, admit_new, admit_room,
  admit_full,
}

module _ {g : Governor} where
  -- One check after another at one time, the latest client first.
  unfoldable pub run_checks : InboundLimiter g → ℕ → List IpAddr → InboundLimiter g
  run_checks l now [] = l
  run_checks l now (client ∷ clients) = (check (run_checks l now clients) client now).0

  record Runs (P : ClientTable → Type 0) (l : InboundLimiter g) : Type 0 where
    pub on : l.enabled ≡ true
    pub table : ClientTable
    pub in_use : l.per_client ≡ some table
    pub shape : P table

  Runs-check :
      (P Q : ClientTable → Type 0) (l : InboundLimiter g) (k now : ℕ)
      → ((t : ClientTable) (fresh : ℕ) → P t → Q (admit t k fresh))
      → Runs P l
      → Runs Q (check l (v6 k) now).0
  unfolding check check_client check_global
  Runs-check P Q l k now step r = record {
    on = ground (arith, r.on, r.in_use);
    table = admit r.table k (length l.buckets);
    in_use = ground (arith, r.on, r.in_use);
    shape = step r.table (length l.buckets) r.shape;
  }

  Reaches : InboundLimiter g → ℕ → (ClientTable → Type 0) → Type 0
  Reaches l now P = (clients : List IpAddr) × Runs P (run_checks l now clients)

  Reaches-check :
      (P Q : ClientTable → Type 0) (l : InboundLimiter g) (k now : ℕ)
      → ((t : ClientTable) (fresh : ℕ) → P t → Q (admit t k fresh))
      → Reaches l now P
      → Reaches l now Q
  unfolding Reaches run_checks
  Reaches-check P Q l k now step (clients, r) =
      (v6 k ∷ clients, Runs-check P Q (run_checks l now clients) k now step r)

  module _ (cap now : ℕ) (l : InboundLimiter g)
      (start : Reaches l now (Shape cap (below 0) 0 (λ k. false) 0)) where
    fill : (j : ℕ) → j ≤ cap → Reaches l now (Shape cap (below j) j (λ k. false) 0)
    fill zero h = start
    fill (suc j) h =
        Reaches-check _ _ l j now (λ t fresh. admit_room cap j t fresh (omega arith))
          (fill j (omega arith))

    rotate_first : Reaches l now (Shape cap (one_and_below cap 0) 1 (below cap) cap)
    rotate_first = Reaches-check _ _ l cap now (admit_full cap) (fill cap (omega arith))

    -- Every client of the previous generation comes back once.
    revisit :
        (m j : ℕ)
        → j ≤ m
        → Reaches l now (Shape cap (one_and_below m 0) 1 (below m) m)
        → Reaches l now (Shape cap (one_and_below m j) (j + 1) (below m) m)
    revisit m zero h r = r
    revisit m (suc j) h r =
        Reaches-check _ _ l j now (λ t fresh. admit_known cap j m t fresh (omega arith))
          (revisit m j (omega arith) r)

    rounds :
        (n : ℕ)
        → Reaches l now (Shape cap (one_and_below (n + cap) 0) 1 (below (n + cap)) (n + cap))
    rounds zero = rw zero-add rotate_first
    rounds (suc n) = rw suc-add (
        Reaches-check _ _ l (suc (n + cap)) now
          (λ t fresh. admit_new cap (n + cap) t fresh (omega arith))
          (revisit (n + cap) (n + cap) (omega arith) (rounds n)))

-- The client table has no bound. For every table size and every `n` there are clients whose checks,
-- all at one time, leave `n` more addresses tracked than the table size and one. Clients of the
-- previous generation are copied into the current one without a test of its size, so that each
-- rotation can hand on a larger generation.
pub tracked_clients-unbounded :
    (g : Governor) (cfg : RateLimitConfig) (now n : ℕ)
    → cfg.enabled ≡ true
    → 0 < cfg.per_client_qps
    → (clients : List IpAddr) × (tracked_clients (run_checks (new {g = g} cfg) now clients)
        ≡ max cfg.client_table_size 1 + n + 1)
unfolding new Reaches run_checks tracked_clients
tracked_clients-unbounded g cfg now n on qps =
    let cap = max cfg.client_table_size 1 in
    let start : Runs (Shape cap (below 0) 0 (λ k. false) 0) (new {g = g} cfg) = record {
      on = ground arith;
      table = record {
        quota = record {
          rate = cfg.per_client_qps;
          burst = max cfg.per_client_burst cfg.per_client_qps;
        };
        capacity = cap;
        current = [];
        previous = [];
      };
      in_use = ground arith;
      shape = record {
        now = Covers-ext (λ k. false) (below 0) (λ k. ground arith) Covers-empty;
        before = Covers-empty;
        capacity = refl;
      };
    } in
    let (clients, r) = rounds cap now (new {g = g} cfg) ([], start) n in
    (clients, rw r.in_use (omega (arith, r.shape.now.size, r.shape.before.size)))
