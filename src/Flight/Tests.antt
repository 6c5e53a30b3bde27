-- ===== src/Flight/Tests.antt =====
-- A run of src/cache/singleflight.rs: a channel holds what was sent, a receiver reads that.
use egressdns.Prelude.{
  List, Option, [], arith, dict_get, dict_insert, dict_remove, false, get_elem?, none, refl, some,
  ℕ, ℕ_discrete, ◌∷◌, ◌≡◌,
}
use egressdns.Flight.{
  Broadcast, Shared, ok, Leader, Step, joins, claims, delivers, new, join, claim, deliver, step,
  run,
}
use egressdns.Flight.Laws.{one_leader}

abbrev mailbox : Broadcast ℕ
mailbox = record {
  Channel = Option (Shared ℕ);
  Receiver = Unit {0};
  channel = none;
  subscribe = λ c. (c, tt);
  send = λ c v. some v;
  recv = λ c r. c;
}

-- The latest step first: key 7 is joined twice, published and joined again.
abbrev steps : List (Step ℕ ℕ)
steps = joins 7 ∷ delivers 0 ∷ claims 0 (ok 5) ∷ joins 7 ∷ joins 7 ∷ []

abbrev second : Leader mailbox ℕ
second = record { key = some 7; tx = none; published = false; pending = none }

second_leads : get_elem? (run {b = mailbox} ℕ_discrete 4 steps).leaders 1 ≡ some second
unfolding run step new join claim deliver dict_get dict_insert dict_remove
second_leads = ground arith

one_leader_example : ◌≡◌ {A = ℕ} 1 1
one_leader_example =
    one_leader {b = mailbox} ℕ_discrete 4 steps 1 1 second second second_leads second_leads refl
      refl refl
