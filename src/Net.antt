-- ===== src/Net.antt =====
-- `std::net::IpAddr`: an address is its family and its number.
use egressdns.Prelude.{Bool, arith, false, refl, true, ℕ, ℕ_discrete, ◌==◌, ◌≡◌}

pub data IpAddr : Type 0 where
  v4 : ℕ → IpAddr
  v6 : ℕ → IpAddr

unfoldable pub IpAddr-discrete : Discrete IpAddr
IpAddr-discrete = hlevel ℕ_discrete

-- `==` of addresses.
unfoldable pub same_address : IpAddr → IpAddr → Bool
same_address (v4 a) (v4 b) = a == b
same_address (v6 a) (v6 b) = a == b
same_address (v4 a) (v6 b) = false
same_address (v6 a) (v4 b) = false

pub same_address_comm : (a b : IpAddr) → same_address a b ≡ same_address b a
unfolding same_address
same_address_comm (v4 a) (v4 b) = ground arith
same_address_comm (v6 a) (v6 b) = ground arith
same_address_comm (v4 a) (v6 b) = refl
same_address_comm (v6 a) (v4 b) = refl

pub same_address_self : (a : IpAddr) → same_address a a ≡ true
unfolding same_address
same_address_self (v4 a) = ground arith
same_address_self (v6 a) = ground arith
