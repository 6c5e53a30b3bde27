-- ===== src/Guard/Sweep.antt =====
-- What an admission of src/probe/safety.rs, and the sweep after it, leave of the addresses recorded.
use egressdns.Prelude.{
  Bool-cases, List, [], ap, arith, dict_get, dict_insert, if_neg, if_pos, inl, inr, leb, length,
  length-dict_insert-le, ltb, max, none≢some, some, some-injective, sym, true, ℕ, ◌+◌, ◌-◌, ◌<◌,
  ◌∙◌, ◌∷◌, ◌≡◌, ◌≤◌,
}
use egressdns.Net.{IpAddr, IpAddr-discrete}
use egressdns.Guard.{
  GuardLimits, GuardState, is_sweep, max_entries, prune, prune_now, retain_young, truncate_oldest,
}
use egressdns.Guard.Admission.{Probe, record_admission, recorded}

length-retain_young :
    {K : Type 0} (now horizon : ℕ) (seen : List (K × ℕ))
    → length (retain_young now horizon seen) ≤ length seen
unfolding retain_young
length-retain_young now horizon [] = omega arith
length-retain_young now horizon ((key, t) ∷ seen) =
    ground (arith, length-retain_young now horizon seen)

-- A young entry stays.
dict_get-retain_young :
    (now horizon : ℕ) (key : IpAddr) (t : ℕ) (seen : List (IpAddr × ℕ))
    → dict_get IpAddr-discrete key seen ≡ some t
    → now - t < horizon
    → dict_get IpAddr-discrete key (retain_young now horizon seen) ≡ some t
unfolding retain_young dict_get
dict_get-retain_young now horizon key t [] h young = absurd (none≢some h)
dict_get-retain_young now horizon key t ((j, v) ∷ seen) h young = elim (IpAddr-discrete key j) [
  | yes e ↦
      let same : v ≡ t =
        some-injective (
          sym (if_pos (IpAddr-discrete key j) e (some v) (dict_get IpAddr-discrete key seen))
          ∙ h) in
      let kept : ltb (now - v) horizon ≡ true = ground (arith, same) in
      rw kept (if_pos (IpAddr-discrete key j) e (some v) _ ∙ ap (λ x. some x) same)
  | no e ↦
      let later =
        dict_get-retain_young now horizon key t seen
          (sym (if_neg (IpAddr-discrete key j) e (some v) (dict_get IpAddr-discrete key seen)) ∙ h)
          young in
      elim (Bool-cases (ltb (now - v) horizon)) [
        | inl kept ↦ rw kept (if_neg (IpAddr-discrete key j) e (some v) _ ∙ later)
        | inr gone ↦ rw gone later
      ]
]

dict_get-prune_now :
    (now horizon : ℕ) (key : IpAddr) (t : ℕ) (seen : List (IpAddr × ℕ))
    → dict_get IpAddr-discrete key seen ≡ some t
    → now - t < horizon
    → length seen ≤ max_entries
    → dict_get IpAddr-discrete key (prune_now now horizon seen) ≡ some t
unfolding prune_now truncate_oldest
dict_get-prune_now now horizon key t seen h young fits =
    let small : leb (length (retain_young now horizon seen)) max_entries ≡ true =
      ground (arith, length-retain_young now horizon seen, fits) in
    rw small (dict_get-retain_young now horizon key t seen h young)

length-prune_now :
    (now horizon : ℕ) (seen : List (IpAddr × ℕ))
    → length seen ≤ max_entries
    → length (prune_now now horizon seen) ≤ length seen
unfolding prune_now truncate_oldest
length-prune_now now horizon seen fits =
    let fewer = length-retain_young now horizon seen in
    let small : leb (length (retain_young now horizon seen)) max_entries ≡ true = ground arith in
    rw small fewer

-- An address was probed at `at`, and no more than `n` are recorded.
abbrev pub Holds : IpAddr → ℕ → ℕ → GuardState → Type 0
Holds addr at n st = (dict_get IpAddr-discrete addr st.ip_seen ≡ some at) × (length st.ip_seen ≤ n)

-- An admission, and the sweep after it, keep what is young.
pub record_admission-Holds :
    (limits : GuardLimits) (st : GuardState) (p : Probe) (addr : IpAddr) (at n : ℕ)
    → dict_get IpAddr-discrete addr (dict_insert IpAddr-discrete p.addr p.now st.ip_seen) ≡ some at
    → p.now - at < limits.per_ip
    → length st.ip_seen ≤ n
    → n < max_entries
    → Holds addr at (n + 1) (record_admission limits st p)
unfolding record_admission prune recorded
record_admission-Holds limits st p addr at n here young fits room =
    let seen = dict_insert IpAddr-discrete p.addr p.now st.ip_seen in
    let horizon = max limits.per_ip limits.per_domain in
    let grown = length-dict_insert-le IpAddr-discrete p.addr p.now st.ip_seen in
    elim (Bool-cases (is_sweep (recorded st p) p.now)) [
      | inr e ↦ rw e (here, omega arith)
      | inl e ↦
          let kept =
            dict_get-prune_now p.now horizon addr at seen here (omega arith) (omega arith) in
          let small = length-prune_now p.now horizon seen (omega arith) in rw e (kept, omega arith)
    ]
