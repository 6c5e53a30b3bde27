-- ===== src/RateLimit/Buckets.antt =====
-- Who shares which budget in src/dns/ratelimit.rs.
use egressdns.Prelude.{
  Bool-cases, List, Option-cases, [], arith, dict_get, dict_get-insert, dict_insert, false, if_neg,
  if_pos, inl, inr, leb, length, length-dict_insert-le, none, refl, some, subst, true, ℕ, ◌∙◌, ◌≡◌,
  ◌≢◌, ◌≤◌, ◌⊎◌,
}
use egressdns.Net.{IpAddr, IpAddr-discrete}
use egressdns.RateLimit.{
  Governor, client_limited, ClientTable, InboundLimiter, rotate, limiter_for, check_global,
  check_client, check,
}
use egressdns.RateLimit.Shape.{find, limiter_for-previous, limiter_for-new}

-- A client that is in neither generation never takes the current one above its capacity.
pub limiter_for-fresh_bound :
    (t : ClientTable) (client : IpAddr) (fresh : ℕ)
    → 1 ≤ t.capacity
    → (limiter_for t client fresh).2 ≡ true
    → length (limiter_for t client fresh).0.current ≤ t.capacity
unfolding limiter_for
limiter_for-fresh_bound t client fresh room is_new = ground (
  arith,
  length-dict_insert-le IpAddr-discrete client fresh t.current,
  length-dict_insert-le {V = ℕ} IpAddr-discrete client fresh [],
)

limiter_for-current :
    (t : ClientTable) (client : IpAddr) (fresh : ℕ) {i : ℕ}
    → find client t.current ≡ some i
    → limiter_for t client fresh ≡ (t, i, false)
unfolding limiter_for
limiter_for-current t client fresh h = ground arith

limiter_for-rotated :
    (t : ClientTable) (client : IpAddr) (fresh : ℕ) {i : ℕ}
    → find client t.current ≡ none
    → find client t.previous ≡ some i
    → ((limiter_for t client fresh).1 ≡ i) × ((limiter_for t client fresh).2 ≡ false)
unfolding limiter_for
limiter_for-rotated t client fresh a b = ground arith

find-insert_self :
    (k : IpAddr) (l : ℕ) (d : List (IpAddr × ℕ))
    → find k (dict_insert IpAddr-discrete k l d) ≡ some l
find-insert_self k l d =
    dict_get-insert IpAddr-discrete k k l d ∙ if_pos (IpAddr-discrete k k) refl _ _

find-insert_ne :
    (k j : IpAddr) (l : ℕ) (d : List (IpAddr × ℕ))
    → k ≢ j
    → find k (dict_insert IpAddr-discrete j l d) ≡ find k d
find-insert_ne k j l d ne =
    dict_get-insert IpAddr-discrete k j l d ∙ if_neg (IpAddr-discrete k j) ne _ _

-- After a lookup the client stands in the current generation, with the bucket that was found.
found_after :
    (t : ClientTable) (client : IpAddr) (fresh : ℕ)
    → let r = limiter_for t client fresh in find client r.0.current ≡ some r.1
found_after t client fresh = elim (Option-cases (find client t.current)) [
  | inr (i, here) ↦ rw (limiter_for-current t client fresh here) here
  | inl absent ↦ elim (Option-cases (find client t.previous)) [
    | inr (i, before) ↦
        rw (limiter_for-previous t client fresh absent before) (find-insert_self client i t.current)
    | inl new ↦
        rw (limiter_for-new t client fresh absent new)
          (find-insert_self client fresh (rotate t).current)
  ]
]

-- Another client's lookup leaves it in one of the two generations.
found_later :
    (t : ClientTable) (client other : IpAddr) (fresh i : ℕ)
    → client ≢ other
    → find client t.current ≡ some i
    → let t' = (limiter_for t other fresh).0 in
      (find client t'.current ≡ some i)
      ⊎ ((find client t'.current ≡ none) × (find client t'.previous ≡ some i))
unfolding rotate dict_get
found_later t client other fresh i ne here = elim (Option-cases (find other t.current)) [
  | inr (j, known) ↦ inl (rw (limiter_for-current t other fresh known) here)
  | inl absent ↦ elim (Option-cases (find other t.previous)) [
    | inr (j, before) ↦ inl (
        rw (limiter_for-previous t other fresh absent before)
          (find-insert_ne client other j t.current ne ∙ here))
    | inl new ↦
        rw (limiter_for-new t other fresh absent new)
          (elim (Bool-cases (leb t.capacity (length t.current))) [
            | inl full ↦ rw full (inr (find-insert_ne client other fresh [] ne, here))
            | inr room ↦ rw room (inl (find-insert_ne client other fresh t.current ne ∙ here))
          ])
  ]
]

found_next :
    (t : ClientTable) (client other : IpAddr) (i f f' : ℕ)
    → find client t.current ≡ some i
    → let t' = (limiter_for t other f).0 in
      ((limiter_for t' client f').1 ≡ i) × ((limiter_for t' client f').2 ≡ false)
found_next t client other i f f' here = elim (IpAddr-discrete client other) [
  | yes same ↦
      let kept : find client (limiter_for t other f).0.current ≡ some i =
        rw
          (limiter_for-current t other f {i = i} (subst (λ k. find k t.current ≡ some i) same here))
          here in
      rw (limiter_for-current (limiter_for t other f).0 client f' kept) (refl, refl)
  | no ne ↦ elim (found_later t client other f i ne here) [
    | inl kept ↦ rw (limiter_for-current (limiter_for t other f).0 client f' kept) (refl, refl)
    | inr (gone, kept) ↦ limiter_for-rotated (limiter_for t other f).0 client f' gone kept
  ]
]

-- A client keeps its bucket over the next check of any client, the one that rotates the generations
-- included: its next lookup finds the same bucket and makes no new one.
pub limiter_for-keeps_bucket :
    (t : ClientTable) (client other : IpAddr) (f f' f'' : ℕ)
    → let t' = (limiter_for t client f).0 in
      let t'' = (limiter_for t' other f').0 in
      ((limiter_for t'' client f'').1 ≡ (limiter_for t client f).1)
      × ((limiter_for t'' client f'').2 ≡ false)
limiter_for-keeps_bucket t client other f f' f'' =
    found_next (limiter_for t client f).0 client other _ f' f'' (found_after t client f)

module _ {g : Governor} (l : InboundLimiter g) (client : IpAddr) (now : ℕ) where
  -- A query that its own client's budget refuses takes nothing from the global budget.
  pub global-check_limited :
      (check l client now).1 ≡ client_limited → (check l client now).0.global ≡ l.global
  unfolding check check_client check_global
  global-check_limited h = ground arith
