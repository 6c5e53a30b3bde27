-- ===== src/Upstream.antt =====
-- src/upstream/pool.rs: the routes of an upstream group. A route is shared by all that use it, so the group
-- is the store: a function that changes a route's health returns the group's routes.
pub mod Rank
pub mod Attempt
pub mod Resolve
pub mod Loop
pub mod Keys
pub mod Cookies
pub mod Answers
pub mod Complete
pub mod Load
pub mod Outcomes
pub mod Ends
pub mod Opinions
pub mod Independent
mod Tests
pub mod Offers
pub mod Hedge
use egressdns.Prelude.{Bool, List, Option, false, get_elem?, none, set, some, true, ℕ}
use egressdns.Net.{IpAddr}
use egressdns.Cache.Entry.{TransportKind}
use egressdns.Float.{Floats}
use egressdns.Health.{RouteHealth}

unfoldable pub is_stream : TransportKind → Bool
is_stream TransportKind.udp = false
is_stream _ = true

pub data ResolverRole : Type 0 where
  authority local_forwarder : ResolverRole

unfoldable pub is_independent : ResolverRole → Bool
is_independent ResolverRole.authority = true
is_independent local_forwarder = false

pub data EgressPath : Type 0 where
  direct proxy : EgressPath

-- Names and identities are their bytes.
pub record RouteKey : Type 0 where
  pub server : List ℕ
  pub transport : TransportKind
  pub addr : IpAddr
  pub path : List ℕ
  pub role : ResolverRole
  pub authority : List ℕ

pub record CookieState : Type 0 where
  pub client : List ℕ
  pub server : Option (List ℕ)

module _ (fl : Floats) where
  pub record Route : Type 0 where
    pub key : RouteKey
    pub weight : ℕ
    pub cookies_enabled : Bool
    pub trust_ad : Bool
    pub egress : EgressPath
    pub stream_companion : Bool
    pub health : RouteHealth fl
    pub cookie : CookieState

module _ {fl : Floats} where
  -- `with_health` on one route of the group.
  unfoldable pub with_health :
      List (Route fl) → ℕ → (RouteHealth fl → RouteHealth fl) → List (Route fl)
  with_health routes i f = elim (get_elem? routes i) [
    | none ↦ routes
    | some r ↦ set routes i (record r { health = f r.health })
  ]
