-- ===== src/Hotset/Tests.antt =====
-- Concrete hits on the set of popular keys, over floats that are whole numbers.
use egressdns.Prelude.{[], dict_get, false, length, max, none, some, ℕ, ◌∷◌, ◌≡◌, ◌≤◌}
use egressdns.Cache.Entry.{CacheKey, CacheKey-discrete, plain}
use egressdns.Float.Whole.{whole}
use egressdns.Hotset.{HotSet, bump, decay, new, observe}
use egressdns.Hotset.Keys.{Distinct}
use egressdns.Hotset.Bounds.{Reached, started, observed, reached-bounded}
use egressdns.Hotset.Tracked.{observe-tracked}

abbrev key_of : ℕ → CacheKey
key_of n = record {
  name = n ∷ [];
  qtype = 1;
  qclass = 1;
  view = plain [];
  mode = record { dnssec_ok = false; checking_disabled = false };
}

abbrev first_hit : HotSet whole
first_hit = observe (new {fl = whole} 1 60 4 0) (key_of 1) none 0 0

abbrev both_hit : HotSet whole
both_hit = observe first_hit (key_of 2) (some (key_of 1)) 0 5

abbrev calls : Reached whole 1 60 4 both_hit
calls = observed (key_of 2) (some (key_of 1)) 0 5 (observed (key_of 1) none 0 0 (started 0))

reached-bounded_example :
    (length both_hit.entries ≤ max 1 1)
    × (length both_hit.transitions ≤ 4)
    × Distinct both_hit.entries
reached-bounded_example = reached-bounded whole 1 60 4 calls

observe-tracked_example :
    dict_get CacheKey-discrete
      (key_of 2)
      (observe first_hit (key_of 2) (some (key_of 1)) 0 5).entries
    ≡ some (bump {fl = whole} (dict_get CacheKey-discrete (key_of 2) (decay first_hit 5).entries) 5)
observe-tracked_example = observe-tracked first_hit (key_of 2) (some (key_of 1)) 0 5
