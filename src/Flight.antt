-- ===== src/Flight.antt =====
-- src/cache/singleflight.rs: request coalescing. The calls lock one shard each, so a step of one caller on a
-- shard is atomic, and two keys of different shards have nothing to do with each other: the model is of
-- one shard, with the keys that hash to it. A leader and its channel have the same number.
pub mod Laws
pub mod Bounds
mod Tests
use egressdns.Prelude.{
  Bool, List, Option, [], dict_get, dict_insert, dict_remove, false, get_elem?, if◌then◌else◌, leb,
  length, max, none, set, some, true, ℕ, ◌++◌, ◌∷◌,
}

pub data FlightError : Type 0 where
  leader_gone : FlightError
  failed : List ℕ → FlightError
  transient : List ℕ → FlightError

unfoldable pub is_cacheable : FlightError → Bool
is_cacheable (failed reason) = true
is_cacheable _ = false

-- `Result<V, FlightError>`.
pub data Shared (V : Type 0) : Type 0 where
  ok : V → Shared V
  err : FlightError → Shared V

-- The tokio broadcast channel with room for one message: a receiver is subscribed, a message is sent,
-- and a receiver takes what was sent. A receiver that finds its channel closed has `none`.
pub record Broadcast (V : Type 0) : Type 1 where
  pub Channel : Type 0
  pub Receiver : Type 0
  pub channel : Channel
  pub subscribe : Channel → Channel × Receiver
  pub send : Channel → Shared V → Channel
  pub recv : Channel → Receiver → Option (Shared V)

module _ {V : Type 0} (b : Broadcast V) (K : Type 0) where
  -- A leader with its channel. `pending` is what a `publish` that has given up the key is about to send.
  pub record Leader : Type 0 where
    pub key : Option K
    pub tx : b.Channel
    pub published : Bool
    pub pending : Option (Shared V)

  -- A shard's map gives the number of the leader whose channel it holds.
  pub record Shard : Type 0 where
    pub map : List (K × ℕ)
    pub leaders : List Leader
    pub max_inflight : ℕ

pub data Join (R : Type 0) : Type 0 where
  leader : ℕ → Join R
  follower : ℕ → R → Join R
  saturated : Join R

-- The steps of all callers, in any order: `publish` of any value, the drop of a leader included, is a
-- claim and later its delivery.
pub data Step (V K : Type 0) : Type 0 where
  joins : K → Step V K
  claims : ℕ → Shared V → Step V K
  delivers : ℕ → Step V K

module _ {V : Type 0} {b : Broadcast V} {K : Type 0} (dec : Discrete K) where
  unfoldable pub new : ℕ → Shard b K
  new max_inflight_per_shard = record {
    map = [];
    leaders = [];
    max_inflight = max max_inflight_per_shard 1;
  }

  -- A leader of the map is always there.
  unfoldable pub join : Shard b K → K → Shard b K × Join b.Receiver
  join s key = elim (dict_get dec key s.map) [
    | some i ↦ elim (get_elem? s.leaders i) [
      | none ↦ (s, saturated)
      | some l ↦
          let (tx, rx) = b.subscribe l.tx in
          (record s { leaders = set s.leaders i (record l { tx = tx }) }, follower i rx)
    ]
    | none ↦
        if leb s.max_inflight (length s.map)
        then (s, saturated)
        else let i = length s.leaders in
          let l : Leader b K = record {
            key = some key;
            tx = b.channel;
            published = false;
            pending = none;
          } in
          (record s { map = dict_insert dec key i s.map; leaders = s.leaders ++ l ∷ [] }, leader i)
  ]

  -- `publish` up to the send: nothing if the leader has published, else the key is given up.
  unfoldable pub claim : Shard b K → ℕ → Shared V → Shard b K
  claim s i value = elim (get_elem? s.leaders i) [
    | none ↦ s
    | some l ↦ if l.published then s else record s {
      map = elim l.key [ none ↦ s.map | some key ↦ dict_remove dec key s.map ];
      leaders = set s.leaders i (record l { key = none; published = true; pending = some value });
    }
  ]

  -- The send of `publish`.
  unfoldable pub deliver : Shard b K → ℕ → Shard b K
  deliver s i = elim (get_elem? s.leaders i) [
    | none ↦ s
    | some l ↦ elim l.pending [
      | none ↦ s
      | some value ↦ record s {
        leaders = set s.leaders i (record l { tx = b.send l.tx value; pending = none });
      }
    ]
  ]

  -- `drop` of a leader, which publishes that it is gone unless it has published.
  unfoldable pub drop_leader : Shard b K → ℕ → Shard b K
  unfolding claim
  drop_leader s i = claim s i (err leader_gone)

  unfoldable pub step : Shard b K → Step V K → Shard b K
  step s (joins key) = (join s key).0
  step s (claims i value) = claim s i value
  step s (delivers i) = deliver s i

  unfoldable pub run : ℕ → List (Step V K) → Shard b K
  unfolding step new
  run limit [] = new limit
  run limit (e ∷ es) = step (run limit es) e
