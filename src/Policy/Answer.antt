-- ===== src/Policy/Answer.antt =====
-- src/policy/answer.rs: the answer policy, step by step and as a whole.
use egressdns.Prelude.{
  Bool, List, Option, [], dict_get, false, get_elem?, if◌then◌else◌, ite, leb, length, map, none,
  not, set, some, suc, true, zero, ℕ, ◌&&◌, ◌++◌, ◌+◌, ◌==◌, ◌>>=◌, ◌||◌, ◌∷◌,
}
use egressdns.Net.{IpAddr, IpAddr-discrete, same_address, v4, v6}
use egressdns.Float.{Floats, lt}
use egressdns.Cache.Entry.{DnssecStatus}
use egressdns.IpClass.{IpnetCrate, classify}
use egressdns.Prefixes.{PrefixSnapshot, contains}
use egressdns.Ttl.{TtlConfig, TtlReason}
use egressdns.Ranking.{OrderDecision, Quality, RankingConfig}
use egressdns.Message.{Hickory, Record, a_data, aaaa_data, minimum, record_type, type_a, type_aaaa}
use egressdns.Policy.{CloudflareMode, Eligibility, FallbackReason}
use mathlib.Core.Option

pub record VerifiedCandidate (fl : Floats) : Type 0 where
  pub addr : IpAddr
  pub successes : ℕ
  pub cost_ms : fl.F
  pub samples : ℕ
  pub fresh : Bool

-- The fields of `AugmentConfig` that the policy reads.
pub record AugmentConfig (fl : Floats) : Type 0 where
  pub max_added : ℕ
  pub min_validations : ℕ
  pub min_advantage : fl.F
  pub min_samples : ℕ

pub record AnswerContext (fl : Floats) : Type 0 where
  pub qtype : ℕ
  pub dnssec : DnssecStatus
  pub cloudflare_enabled : Bool
  pub cloudflare_mode : CloudflareMode
  pub snapshot : Option PrefixSnapshot
  pub domain_excluded : Bool
  pub baseline_validated : Bool
  pub verified : List (VerifiedCandidate fl)
  pub can_validate_ech : Bool
  pub quality : List (IpAddr × Quality fl)
  pub ranking : RankingConfig fl
  pub augment : AugmentConfig fl
  pub ttl : TtlConfig
  pub remaining_authoritative : ℕ
  pub remaining_signature : Option ℕ
  pub is_stale : Bool
  pub recent_network_change : Bool
  pub explore_seed : ℕ

pub record AnswerOutcome : Type 0 where
  pub cloudflare_applied : Eligibility
  pub fallback : Option FallbackReason
  pub order : OrderDecision
  pub added : ℕ
  pub client_ttl : ℕ
  pub ttl_reason : TtlReason
  pub modified : Bool

-- A group is the owner of an RRset and its indices; a record joins the first group of its owner.
unfoldable pub join_group :
    (k : Hickory) → k.Name → ℕ → List (k.Name × List ℕ) → List (k.Name × List ℕ)
join_group k name i [] = (name, i ∷ []) ∷ []
join_group k name i ((n, is) ∷ gs) =
    let rest = join_group k name i gs in
    ite (k.name_discrete n name) ((n, is ++ i ∷ []) ∷ gs) ((n, is) ∷ rest)

module _ {k : Hickory} where
  unfoldable pub record_address : Record k → Option IpAddr
  record_address r = elim r.rdata [ a_data a ↦ some (v4 a) | aaaa_data a ↦ some (v6 a) | _ ↦ none ]

  unfoldable pub addresses_of : List (Record k) → List ℕ → List IpAddr
  unfolding record_address
  addresses_of answers [] = []
  addresses_of answers (i ∷ is) =
      let rest = addresses_of answers is in
      elim (get_elem? answers i >>= record_address) [ some a ↦ a ∷ rest | none ↦ rest ]

  -- The TTLs of the records at the indices; `group_ttl` is their minimum.
  unfoldable pub ttls_at : List (Record k) → List ℕ → List ℕ
  ttls_at answers [] = []
  ttls_at answers (i ∷ is) =
      let rest = ttls_at answers is in
      elim (get_elem? answers i) [ some r ↦ r.ttl ∷ rest | none ↦ rest ]

  unfoldable pub group_ttl : List (Record k) → List ℕ → ℕ
  unfolding ttls_at minimum
  group_ttl answers is = Option.get_or (minimum (ttls_at answers is)) 0

  -- The loop of `rrset_groups` from index `i` on.
  unfoldable pub groups_from :
      ℕ → ℕ → List (Record k) → List (k.Name × List ℕ) → List (k.Name × List ℕ)
  unfolding record_type join_group
  groups_from rtype i [] gs = gs
  groups_from rtype i (r ∷ rs) gs =
      groups_from rtype (i + 1) rs (if record_type r == rtype then join_group k r.name i gs else gs)

  unfoldable pub rrset_groups : List (Record k) → ℕ → List (k.Name × List ℕ)
  unfolding groups_from
  rrset_groups answers rtype = groups_from rtype 0 answers []

  -- A slot that the search has passed.
  unfoldable pub passed :
      Option (Record k)
      → Option (Record k × List (Option (Record k)))
      → Option (Record k × List (Option (Record k)))
  passed slot none = none
  passed slot (some (r, rest)) = some (r, slot ∷ rest)

  -- The first slot that holds a record of the address, and the slots without it.
  unfoldable pub take_slot :
      IpAddr → List (Option (Record k)) → Option (Record k × List (Option (Record k)))
  unfolding record_address same_address passed
  take_slot want [] = none
  take_slot want (none ∷ slots) = passed none (take_slot want slots)
  take_slot want (some r ∷ slots) =
      let later = passed (some r) (take_slot want slots) in
      elim (record_address r) [
        | none ↦ later
        | some a ↦ if same_address a want then some (r, none ∷ slots) else later
      ]

  -- What the slots still hold.
  unfoldable pub remaining : List (Option (Record k)) → List (Record k)
  remaining [] = []
  remaining (none ∷ slots) = remaining slots
  remaining (some r ∷ slots) = r ∷ remaining slots

  unfoldable pub place : List IpAddr → List (Option (Record k)) → List (Record k)
  unfolding take_slot remaining
  place [] slots = remaining slots
  place (want ∷ desired) slots =
      let skipped = place desired slots in
      elim (take_slot want slots) [ none ↦ skipped | some (r, rest) ↦ r ∷ place desired rest ]

  unfoldable pub write_at : List ℕ → List (Record k) → List (Record k) → List (Record k)
  write_at (i ∷ is) (r ∷ placed) answers = write_at is placed (set answers i r)
  write_at _ _ answers = answers

  unfoldable pub reorder_in_place : List (Record k) → List ℕ → List IpAddr → List (Record k)
  unfolding place write_at
  reorder_in_place answers is desired =
      write_at is (place desired (map (get_elem? answers) is)) answers

  -- `Vec::insert`.
  unfoldable pub insert_at : ℕ → Record k → List (Record k) → List (Record k)
  insert_at zero new answers = new ∷ answers
  insert_at (suc i) new [] = new ∷ []
  insert_at (suc i) new (r ∷ answers) = r ∷ insert_at i new answers

  -- The loop of `prepend_addresses` from a position on.
  unfoldable pub insert_from : ℕ → List (Record k) → List (Record k) → List (Record k)
  unfolding insert_at
  insert_from i [] answers = answers
  insert_from i (r ∷ new) answers = insert_from (i + 1) new (insert_at i r answers)

  -- `Record::from_rdata`, whose proof is the crate's default.
  unfoldable pub new_records : k.Name → ℕ → ℕ → List IpAddr → List (Record k)
  new_records owner ttl rtype [] = []
  new_records owner ttl rtype (v4 a ∷ rest) =
      let more = new_records owner ttl rtype rest in
      if rtype == type_a
      then record { name = owner; ttl = ttl; rdata = a_data a; proof = k.default_proof } ∷ more
      else more
  new_records owner ttl rtype (v6 a ∷ rest) =
      let more = new_records owner ttl rtype rest in
      if rtype == type_aaaa
      then record { name = owner; ttl = ttl; rdata = aaaa_data a; proof = k.default_proof } ∷ more
      else more

  unfoldable pub prepend_addresses :
      List (Record k) → List ℕ → k.Name → ℕ → List IpAddr → ℕ → List (Record k)
  unfolding insert_from new_records
  prepend_addresses answers [] owner ttl addrs rtype = answers
  prepend_addresses answers (first ∷ _) owner ttl addrs rtype =
      insert_from first (new_records owner ttl rtype addrs) answers

unfoldable pub holds : List IpAddr → IpAddr → Bool
unfolding same_address
holds [] a = false
holds (b ∷ rest) a = same_address b a || holds rest a

unfoldable pub is_ipv4 : IpAddr → Bool
is_ipv4 (v4 a) = true
is_ipv4 (v6 a) = false

unfoldable pub same : Bool → Bool → Bool
same true b = b
same false b = not b

module _ {fl : Floats} (crate : IpnetCrate) (ctx : AnswerContext fl) where
  -- The least cost among the original addresses with statistics.
  unfoldable pub best_original_cost : fl.F → List IpAddr → fl.F
  best_original_cost best [] = best
  best_original_cost best (a ∷ rest) = elim (dict_get IpAddr-discrete a ctx.quality) [
    | none ↦ best_original_cost best rest
    | some q ↦ best_original_cost (fl.fmin best q.expected_cost) rest
  ]

  unfoldable pub lacks_advantage : fl.F → VerifiedCandidate fl → Bool
  unfolding lt
  lacks_advantage best candidate =
      fl.is_finite best
      && lt fl (fl.div (fl.sub best candidate.cost_ms) (fl.fmax best (fl.lit 1 1)))
          ctx.augment.min_advantage

  unfoldable pub in_snapshot : IpAddr → Bool
  in_snapshot a = elim ctx.snapshot [ none ↦ false | some s ↦ contains s a ]

  unfoldable pub is_special : IpAddr → Bool
  unfolding classify
  is_special a = elim (classify crate a) [ none ↦ false | some class ↦ true ]

  -- The conditions of the loop, one after the other.
  unfoldable pub acceptable : ℕ → List IpAddr → fl.F → List IpAddr → VerifiedCandidate fl → Bool
  unfolding lacks_advantage in_snapshot is_special holds is_ipv4 same
  acceptable rtype existing best to_add c =
      c.fresh
      && (leb ctx.augment.min_validations c.successes
          && (leb ctx.augment.min_samples c.samples
              && (same (is_ipv4 c.addr) (rtype == type_a)
                  && (in_snapshot c.addr
                      && (not (is_special c.addr)
                          && (not (holds existing c.addr || holds to_add c.addr)
                              && not (lacks_advantage best c)))))))

  -- The loop over the verified candidates.
  unfoldable pub choose :
      ℕ → List IpAddr → fl.F → List (VerifiedCandidate fl) → List IpAddr → List IpAddr
  unfolding acceptable
  choose rtype existing best [] to_add = to_add
  choose rtype existing best (c ∷ rest) to_add =
      let taken = choose rtype existing best rest (to_add ++ c.addr ∷ []) in
      let skipped = choose rtype existing best rest to_add in
      if leb ctx.augment.max_added (length to_add)
      then to_add
      else if acceptable rtype existing best to_add c
      then taken
      else skipped

  unfoldable pub has_verified_candidate : List (VerifiedCandidate fl) → Bool
  has_verified_candidate [] = false
  has_verified_candidate (c ∷ rest) =
      (c.fresh && leb ctx.augment.min_validations c.successes) || has_verified_candidate rest
