-- ===== src/Policy/Permitted.antt =====
-- What `apply_answer_policy` of src/policy/answer.rs may do to an answer.
use egressdns.Prelude.{
  List, [], ap, arith, false, get_elem?, inl, inr, length, ltb, map, min, refl, some, suc, sym,
  true, zero, ℕ, ◌++◌, ◌+◌, ◌<◌, ◌==◌, ◌∷◌, ◌≡◌, ◌≤◌, ◌⊎◌,
}
use egressdns.Net.{IpAddr, v4, v6}
use egressdns.Float.{Floats}
use egressdns.IpClass.{IpnetCrate}
use egressdns.Cache.Entry.{DnssecStatus}
use egressdns.Message.{Hickory, Message, Record, record_type, type_a, type_aaaa}
use egressdns.Policy.{CloudflareMode, Eligibility}
use egressdns.Policy.Answer.{
  AnswerContext, AnswerOutcome, holds, insert_at, insert_from, new_records, prepend_addresses,
  record_address, is_ipv4,
}
use egressdns.Policy.Choose.{AllAllowed, NoRepeat}
use mathlib.Core.List.{Perm, perm_middle}
use mathlib.Core.List.Perm

abbrev pub cap_record : {k : Hickory} → ℕ → Record k → Record k
cap_record c r = record r { ttl = min r.ttl c }

-- The conditions under which an answer may be added to.
abbrev pub MayAdd : {fl : Floats} → AnswerContext fl → AnswerOutcome → Type 0
MayAdd ctx o =
    (o.cloudflare_applied ≡ Eligibility.augment)
    × (ctx.cloudflare_mode ≡ CloudflareMode.verified_augment)
    × (ctx.dnssec ≡ DnssecStatus.insecure)
    × ((ctx.qtype ≡ type_a) ⊎ (ctx.qtype ≡ type_aaaa))

-- The list has every address of a record of the type.
abbrev pub HasAll : {k : Hickory} → ℕ → List (Record k) → List IpAddr → Type 0
HasAll {k} rtype xs existing =
    (j : ℕ) (r : Record k) (a : IpAddr)
    → get_elem? xs j ≡ some r
    → record_type r ≡ rtype
    → record_address r ≡ some a
    → holds existing a ≡ true

-- The contract: the answer section is that of the upstream, in another order, with at most `max_added`
-- new records of verified addresses that it did not have, and with TTLs capped; the other sections keep
-- their records and order. Records are new only under the conditions.
pub record Permitted {k : Hickory} {fl : Floats} (crate : IpnetCrate) (ctx : AnswerContext fl)
    (m : Message k) (m' : Message k) (o : AnswerOutcome) : Type 0 where
  pub new : List (Record k)
  pub added : List IpAddr
  pub existing : List IpAddr
  pub answers : Perm m'.answers (map (cap_record o.client_ttl) (new ++ m.answers))
  pub authorities : m'.authorities ≡ map (cap_record o.client_ttl) m.authorities
  pub additionals : m'.additionals ≡ map (cap_record o.client_ttl) m.additionals
  pub carried : map record_address new ≡ map (λ (a : IpAddr). some a) added
  pub counted : o.added ≡ length added
  pub marked : o.modified ≡ ltb 0 (length added)
  pub bounded : length added ≤ ctx.augment.max_added
  pub allowed : AllAllowed crate ctx ctx.qtype existing added
  pub distinct : NoRepeat added
  pub eligible : 0 < length added → MayAdd ctx o
  pub complete : 0 < length added → HasAll ctx.qtype m.answers existing

pub insert_at-Perm :
    {k : Hickory} (i : ℕ) (r : Record k) (xs : List (Record k)) → Perm (insert_at i r xs) (r ∷ xs)
unfolding insert_at
insert_at-Perm zero r xs = Perm.refl _
insert_at-Perm (suc i) r [] = Perm.refl _
insert_at-Perm (suc i) r (x ∷ xs) =
    Perm.trans (Perm.cons x (insert_at-Perm i r xs)) (Perm.swap r x xs)

pub insert_from-Perm :
    {k : Hickory} (i : ℕ) (new xs : List (Record k)) → Perm (insert_from i new xs) (new ++ xs)
unfolding insert_from
insert_from-Perm i [] xs = Perm.refl _
insert_from-Perm i (r ∷ new) xs =
    Perm.trans (insert_from-Perm (i + 1) new (insert_at i r xs))
      (Perm.trans (Perm.append_left new (insert_at-Perm i r xs)) (perm_middle new xs))

pub prepend_addresses-Perm :
    {k : Hickory} (xs : List (Record k)) (is : List ℕ) (owner : k.Name) (ttl : ℕ)
    (as' : List IpAddr) (rtype : ℕ)
    → 0 < length is
    → Perm (prepend_addresses xs is owner ttl as' rtype) (new_records owner ttl rtype as' ++ xs)
unfolding prepend_addresses
prepend_addresses-Perm xs [] owner ttl as' rtype h = absurd (omega (arith, h))
prepend_addresses-Perm xs (i ∷ is) owner ttl as' rtype h = insert_from-Perm i _ xs

pub Eligibility-cases :
    (e : Eligibility)
    → (e ≡ Eligibility.augment) ⊎ ((e ≡ Eligibility.off) ⊎ (e ≡ Eligibility.preserve))
Eligibility-cases Eligibility.augment = inl refl
Eligibility-cases Eligibility.off = inr (inl refl)
Eligibility-cases Eligibility.preserve = inr (inr refl)

-- The new records carry the addresses, each of the family that is asked for.
pub new_records-carried :
    (k : Hickory) {fl : Floats} (crate : IpnetCrate) (ctx : AnswerContext fl) (owner : k.Name)
    (ttl rtype : ℕ) (existing as' : List IpAddr)
    → (rtype ≡ type_a) ⊎ (rtype ≡ type_aaaa)
    → AllAllowed crate ctx rtype existing as'
    → map record_address (new_records {k = k} owner ttl rtype as')
      ≡ map (λ (a : IpAddr). some a) as'
unfolding new_records record_address is_ipv4
new_records-carried k crate ctx owner ttl rtype existing [] q h = refl
new_records-carried k crate ctx owner ttl rtype existing (v4 a ∷ as') q (here, h) =
    let family : (rtype == type_a) ≡ true = sym here.6 in
    let rest = new_records-carried k crate ctx owner ttl rtype existing as' q h in
    rw (family, new_records) (ap (◌∷◌ (some (v4 a))) rest)
new_records-carried k crate ctx owner ttl rtype existing (v6 a ∷ as') q (here, h) =
    let family : (rtype == type_a) ≡ false = sym here.6 in
    let other : (rtype == type_aaaa) ≡ true = ground arith in
    let rest = new_records-carried k crate ctx owner ttl rtype existing as' q h in
    rw (other, new_records) (ap (◌∷◌ (some (v6 a))) rest)
