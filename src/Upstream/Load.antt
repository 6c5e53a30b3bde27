-- ===== src/Upstream/Load.antt =====
-- How much is left to do for a resolution of src/upstream/scheduler.rs.
use egressdns.Prelude.{
  Bool, List, Option, [], arith, false, if◌then◌else◌, none, refl, replicate, set, some, suc, true,
  zero, ℕ, ◌*◌, ◌+◌, ◌∷◌, ◌≡◌, ◌≤◌,
}
use egressdns.Float.{Floats}
use egressdns.Upstream.Resolve.{Pending, Resolution, fan_out, pick, pushed}

-- An attempt moves on twice at most: it sends, and it completes.
abbrev pub weight : Option Bool → ℕ
weight none = 2
weight (some taken) = 1

abbrev pub weights : List Pending → ℕ
weights [] = 0
weights (p ∷ ps) = weight p.sent + weights ps

-- Two for each position that may still be started.
abbrev pub unstarted : List Bool → ℕ
unstarted [] = 0
unstarted (mark ∷ marks) = (if mark then 0 else 2) + unstarted marks

abbrev pub load : {fl : Floats} → Resolution fl → ℕ
load s = weights s.pending + unstarted s.attempted + (if s.fanned_out then 1 else 2)

pub weights-pick :
    (n : ℕ) (p : Pending) (ps : List Pending)
    → weight (pick n p ps).0.sent + weights (pick n p ps).1 ≡ weight p.sent + weights ps
unfolding pick
weights-pick n p [] = refl
weights-pick zero p (q ∷ ps) = refl
weights-pick (suc n) p (q ∷ ps) = omega (arith, weights-pick n q ps)

pub weights-fan_out :
    (extra pos : ℕ) (marks : List Bool)
    → weights (fan_out extra pos marks).0 + unstarted (fan_out extra pos marks).1 ≡ unstarted marks
unfolding fan_out pushed
weights-fan_out zero pos marks = omega arith
weights-fan_out (suc extra) pos [] = refl
weights-fan_out (suc extra) pos (true ∷ marks) =
    omega (arith, weights-fan_out (suc extra) (pos + 1) marks)
weights-fan_out (suc extra) pos (false ∷ marks) =
    omega (arith, weights-fan_out extra (pos + 1) marks)

pub unstarted-set : (marks : List Bool) (i : ℕ) → unstarted (set marks i true) ≤ unstarted marks
unstarted-set [] i = omega arith
unstarted-set (true ∷ marks) zero = omega arith
unstarted-set (false ∷ marks) zero = omega arith
unstarted-set (mark ∷ marks) (suc i) = omega (arith, unstarted-set marks i)

pub unstarted-replicate : (n : ℕ) → unstarted (replicate n false) ≡ 2 * n
unstarted-replicate zero = refl
unstarted-replicate (suc n) = omega (arith, unstarted-replicate n)
