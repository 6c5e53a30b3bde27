-- ===== src/Deadline.antt =====
-- src/dns/deadline.rs: the deadline of a client request. The task-local that carries it is an argument:
-- `none` outside of any request.
use egressdns.Prelude.{List, Option, [], arith, min, none, some, ℕ, ◌+◌, ◌-◌, ◌∷◌, ◌≤◌}

unfoldable pub remaining_or : Option ℕ → ℕ → ℕ → ℕ
remaining_or current now fallback = elim current [
  | some deadline ↦ min (deadline - now) fallback
  | none ↦ fallback
]

-- When nested operations one after another are over: each wants some time, and is stopped after what
-- `remaining_or` gives it for its own limit when it starts.
unfoldable pub finish : Option ℕ → ℕ → List (ℕ × ℕ) → ℕ
unfolding remaining_or
finish current now [] = now
finish current now ((wanted, limit) ∷ ops) =
    finish current (now + min wanted (remaining_or current now limit)) ops

-- The sum of the operations' own limits.
abbrev pub total : List (ℕ × ℕ) → ℕ
total [] = 0
total ((wanted, limit) ∷ ops) = limit + total ops

-- However many nested operations a request makes and whatever they want, one after another they are
-- over by the request's one deadline, and take no more than the sum of their own limits.
pub finish-le :
    (deadline now : ℕ) (ops : List (ℕ × ℕ))
    → now ≤ deadline
    → (finish (some deadline) now ops ≤ deadline)
      × (finish (some deadline) now ops ≤ now + total ops)
unfolding finish
finish-le deadline now [] h = (h, omega arith)
finish-le deadline now ((wanted, limit) ∷ ops) h =
    let spent = min wanted (min (deadline - now) limit) in
    let (by_deadline, by_limits) = finish-le deadline (now + spent) ops (omega arith) in
    (by_deadline, omega arith)
