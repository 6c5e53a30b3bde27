-- ===== src/Gate.antt =====
-- src/probe/gate.rs: the gate that drops duplicate probe offers. `display` is `IpAddr::to_string`.
pub mod Laws
use egressdns.Prelude.{
  Bool, List, [], dict_get, dict_insert, dict_remove, false, if◌then◌else◌, leb, length, ltb, map,
  none, some, take, true, ℕ, ℕ_discrete, ◌%◌, ◌*◌, ◌++◌, ◌+◌, ◌-◌, ◌/◌, ◌∷◌,
}
use egressdns.Net.{IpAddr}
use egressdns.Util.{fnv1a64, to_be_bytes}

-- `MAX_ENTRIES`.
abbrev pub max_entries : ℕ
max_entries = 8192

pub record OfferKey : Type 0 where
  pub addr : IpAddr
  pub port : ℕ
  pub hostname : List ℕ

unfoldable pub OfferKey-discrete : Discrete OfferKey
OfferKey-discrete = hlevel ℕ_discrete

-- The map behind the gate: when each triple was last offered.
abbrev pub Seen : Type 0
Seen = List (OfferKey × ℕ)

-- `seen.retain(|_, t| now - t < window)`.
unfoldable pub retain_recent : ℕ → ℕ → Seen → Seen
retain_recent now window [] = []
retain_recent now window ((k, t) ∷ seen) =
    let rest = retain_recent now window seen in if ltb (now - t) window then (k, t) ∷ rest else rest

pub insert_by_time : OfferKey × ℕ → Seen → Seen
insert_by_time (k, t) [] = (k, t) ∷ []
insert_by_time (k, t) ((j, s) ∷ rest) =
    if leb t s then (k, t) ∷ (j, s) ∷ rest else (j, s) ∷ insert_by_time (k, t) rest

-- `keys.sort_by_key(|(_, t)| *t)`.
unfoldable pub sort_by_time : Seen → Seen
unfolding insert_by_time
sort_by_time [] = []
sort_by_time (e ∷ seen) = insert_by_time e (sort_by_time seen)

unfoldable pub remove_all : List OfferKey → Seen → Seen
remove_all [] seen = seen
remove_all (k ∷ ks) seen = remove_all ks (dict_remove OfferKey-discrete k seen)

-- The oldest keys, all but a quarter of them.
unfoldable pub oldest : Seen → List OfferKey
oldest seen =
    let n = length seen in map (λ (e : OfferKey × ℕ). e.0) (take (n - n / 4) (sort_by_time seen))

-- What a full map is compacted to before the insertion. `limit` is `MAX_ENTRIES`.
unfoldable pub compact : ℕ → ℕ → ℕ → Seen → Seen
compact limit now window seen =
    if ltb (length seen) limit
    then seen
    else let recent = retain_recent now window seen in
      if ltb (length recent) limit then recent else remove_all (oldest recent) recent

module _ (display : IpAddr → List ℕ) where
  -- 0.8 to 1.2 times the cooldown, by the triple's hash.
  unfoldable pub jittered : ℕ → OfferKey → ℕ
  jittered cooldown key =
      let hash = fnv1a64 (display key.addr ++ (to_be_bytes 2 key.port ++ key.hostname)) in
      cooldown * (8 + hash % 5) / 10

  unfoldable pub allow_within : ℕ → Seen → OfferKey → ℕ → ℕ → Seen × Bool
  allow_within limit seen key cooldown now =
      let window = jittered cooldown key in
      let admitted : Seen = dict_insert OfferKey-discrete key now (compact limit now window seen) in
      elim (dict_get OfferKey-discrete key seen) [
        | none ↦ (admitted, true)
        | some last ↦ if ltb (now - last) window then (seen, false) else (admitted, true)
      ]

  unfoldable pub allow : Seen → OfferKey → ℕ → ℕ → Seen × Bool
  allow = allow_within max_entries
