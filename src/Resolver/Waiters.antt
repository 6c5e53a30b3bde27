-- ===== src/Resolver/Waiters.antt =====
-- The two ends of a coalesced lookup of src/dns/resolver.rs: the leader that fetches, and those that wait
-- for what it publishes.
use egressdns.Prelude.{Bool-cases, List, Option, inl, inr, refl, some, ℕ, ◌≡◌}
use egressdns.Flight.{Shared, leader, follower, is_cacheable}
use egressdns.Resolver.{
  FailureReport, ResolveError, Result, flight_detail, from_error, is_transient, ok, err,
}
use egressdns.Resolver.Misses.{followed, leader_value, led, miss_result}

-- The same value, or failures with the same text of which both or neither may be remembered.
pub data Agrees {V : Type 0} : Result V FailureReport → Result V FailureReport → Type 0 where
  both_ok : (v : V) → Agrees (ok v) (ok v)
  both_err :
      (r s : FailureReport) → r.detail ≡ s.detail → r.remember ≡ s.remember → Agrees (err r) (err s)

module _ {V : Type 0} (digits : ℕ → List ℕ) where
  value-Agrees :
      (fetched : Result V ResolveError)
      → Agrees (led digits fetched) (followed (some (leader_value digits fetched)))
  unfolding led followed leader_value from_error flight_detail is_cacheable
  value-Agrees (ok v) = both_ok v
  value-Agrees (err e) = elim (Bool-cases (is_transient e)) [
    | inl p ↦ rw p (both_err _ _ refl refl)
    | inr p ↦ rw p (both_err _ _ refl refl)
  ]

  -- A follower that gets what the leader published ends as the leader does: with the same answer, or with a
  -- failure of the same text, which it may remember exactly where the leader may.
  pub miss_result-Agrees :
      {R : Type 0} (i j : ℕ) (rx : R) (fetched other : Result V ResolveError)
      (waited : Option (Shared V))
      → Agrees
          (miss_result {R = R} digits (leader i) fetched waited)
          (miss_result digits (follower j rx) other (some (leader_value digits fetched)))
  unfolding miss_result
  miss_result-Agrees i j rx fetched other waited = value-Agrees fetched
