-- ===== src/Gate/Laws.antt =====
-- What the gate of src/probe/gate.rs promises.
use egressdns.Prelude.{
  Bool-cases, List, [], arith, dict_get, dict_get-insert, dict_insert, dict_remove, if_pos, inl,
  inr, leb, length, length-dict_insert-le, length-dict_remove-le, map, refl, some, suc, take, true,
  zero, ℕ, ◌%◌, ◌*◌, ◌++◌, ◌+◌, ◌-◌, ◌/◌, ◌<◌, ◌∙◌, ◌∷◌, ◌≡◌, ◌≤◌, ◌⊎◌,
}
use egressdns.Net.{IpAddr}
use egressdns.Util.{fnv1a64, to_be_bytes}
use egressdns.Gate.{
  max_entries, OfferKey, OfferKey-discrete, Seen, retain_recent, insert_by_time, sort_by_time,
  remove_all, oldest, compact, jittered, allow_within, allow,
}

length-retain_recent-le :
    (now window : ℕ) (seen : Seen) → length (retain_recent now window seen) ≤ length seen
unfolding retain_recent
length-retain_recent-le now window [] = omega arith
length-retain_recent-le now window (e ∷ seen) =
    ground (arith, length-retain_recent-le now window seen)

length-remove_all-le :
    (ks : List OfferKey) (seen : Seen) → length (remove_all ks seen) ≤ length seen
unfolding remove_all
length-remove_all-le [] seen = omega arith
length-remove_all-le (k ∷ ks) seen = omega (
  arith,
  length-remove_all-le ks (dict_remove OfferKey-discrete k seen),
  length-dict_remove-le OfferKey-discrete k seen,
)

-- A key that stands in the map.
abbrev In : OfferKey → Seen → Type 0
In k [] = ⊥
In k ((j, t) ∷ seen) = (k ≡ j) ⊎ In k seen

length-dict_remove-In :
    (k : OfferKey) (seen : Seen)
    → In k seen
    → length (dict_remove OfferKey-discrete k seen) < length seen
unfolding dict_remove
length-dict_remove-In k [] h = absurd h
length-dict_remove-In k ((j, t) ∷ seen) h =
    ground
      (arith, length-dict_remove-le {V = ℕ} OfferKey-discrete k seen, length-dict_remove-In k seen)

In-insert_by_time :
    (k : OfferKey) (e : OfferKey × ℕ) (seen : Seen)
    → In k (insert_by_time e seen)
    → (k ≡ e.0) ⊎ In k seen
unfolding insert_by_time
In-insert_by_time k (i, s) [] h = h
In-insert_by_time k (i, s) ((j, t) ∷ seen) h = elim (Bool-cases (leb s t)) [
  | inl e ↦ rw e at h
  | inr e ↦
      let here : (k ≡ j) ⊎ In k (insert_by_time (i, s) seen) = rw e at h in
      elim here [
        | inl p ↦ inr (inl p)
        | inr r ↦ elim (In-insert_by_time k (i, s) seen r) [ inl p ↦ inl p | inr q ↦ inr (inr q) ]
      ]
]

In-sort_by_time : (k : OfferKey) (seen : Seen) → In k (sort_by_time seen) → In k seen
unfolding sort_by_time
In-sort_by_time k [] h = h
In-sort_by_time k ((j, t) ∷ seen) h = elim (In-insert_by_time k (j, t) (sort_by_time seen) h) [
  | inl p ↦ inl p
  | inr q ↦ inr (In-sort_by_time k seen q)
]

length-insert_by_time :
    (e : OfferKey × ℕ) (seen : Seen) → length (insert_by_time e seen) ≡ length seen + 1
unfolding insert_by_time
length-insert_by_time (k, t) [] = omega arith
length-insert_by_time (k, t) ((j, s) ∷ seen) = ground (arith, length-insert_by_time (k, t) seen)

length-sort_by_time : (seen : Seen) → length (sort_by_time seen) ≡ length seen
unfolding sort_by_time
length-sort_by_time [] = refl
length-sort_by_time (e ∷ seen) =
    omega (arith, length-insert_by_time e (sort_by_time seen), length-sort_by_time seen)

-- Some key of a map that is not empty is among its oldest.
first_oldest :
    (n : ℕ) (sorted : Seen)
    → 0 < n
    → 0 < length sorted
    → (k : OfferKey) × (ks : List OfferKey) × (map (λ (e : OfferKey × ℕ). e.0) (take n sorted)
        ≡ k ∷ ks)
      × In k sorted
first_oldest n [] p h = absurd (omega arith)
first_oldest zero (e ∷ seen) p h = absurd (omega arith)
first_oldest (suc n) ((k, t) ∷ seen) p h =
    (k, map (λ (e : OfferKey × ℕ). e.0) (take n seen), refl, inl refl)

remove_oldest-lt :
    (seen : Seen) → 0 < length seen → length (remove_all (oldest seen) seen) < length seen
unfolding oldest remove_all
remove_oldest-lt seen h =
    let n = length seen in
    let (k, ks, e, i) =
      first_oldest (n - n / 4) (sort_by_time seen) (omega arith)
        (omega (arith, length-sort_by_time seen)) in
    rw e (
      omega (
        arith,
        length-dict_remove-In k seen (In-sort_by_time k seen i),
        length-remove_all-le ks (dict_remove OfferKey-discrete k seen),
      ))

length-compact-lt :
    (limit now window : ℕ) (seen : Seen)
    → 0 < limit
    → length seen ≤ limit
    → length (compact limit now window seen) < limit
unfolding compact
length-compact-lt limit now window seen positive bound = ground (
  arith,
  remove_oldest-lt (retain_recent now window seen),
  length-retain_recent-le now window seen,
)

times_tenths : (c x : ℕ) → x < 5 → (c * 8 ≤ c * (8 + x)) × (c * (8 + x) ≤ c * 12)
times_tenths c x h = (grind arith, grind arith)

module _ (display : IpAddr → List ℕ) where
  length-allow_within-le :
      (limit : ℕ) (seen : Seen) (key : OfferKey) (cooldown now : ℕ)
      → 0 < limit
      → length seen ≤ limit
      → length (allow_within display limit seen key cooldown now).0 ≤ limit
  unfolding allow_within
  length-allow_within-le limit seen key cooldown now positive bound =
      let window = jittered display cooldown key in
      ground (
        arith,
        length-compact-lt limit now window seen,
        length-dict_insert-le OfferKey-discrete key now (compact limit now window seen),
      )

  -- One offer after another, the latest first.
  unfoldable pub run : List (OfferKey × ℕ × ℕ) → Seen
  run [] = []
  run ((key, cooldown, now) ∷ offers) = (allow display (run offers) key cooldown now).0

  -- However many triples are offered, with whatever cooldowns and at whatever times, the gate never
  -- tracks more than 8192 of them.
  pub length-run-le : (offers : List (OfferKey × ℕ × ℕ)) → length (run offers) ≤ max_entries
  unfolding run allow
  length-run-le [] = omega arith
  length-run-le ((key, cooldown, now) ∷ offers) =
      length-allow_within-le max_entries (run offers) key cooldown now (omega arith)
        (length-run-le offers)

  jittered_bounds :
      (cooldown : ℕ) (key : OfferKey)
      → (cooldown * 8 / 10 ≤ jittered display cooldown key)
        × (jittered display cooldown key ≤ cooldown * 12 / 10)
  unfolding jittered
  jittered_bounds cooldown key =
      let (low, high) =
        times_tenths cooldown
          (fnv1a64 (display key.addr ++ (to_be_bytes 2 key.port ++ key.hostname)) % 5)
          (omega arith) in
      (omega arith, omega arith)

  recorded :
      (seen : Seen) (key : OfferKey) (cooldown now : ℕ)
      → (allow display seen key cooldown now).1 ≡ true
      → dict_get OfferKey-discrete key (allow display seen key cooldown now).0 ≡ some now
  unfolding allow allow_within
  recorded seen key cooldown now passed =
      let window = jittered display cooldown key in
      let kept = compact max_entries now window seen in
      let stored : dict_get OfferKey-discrete key (dict_insert OfferKey-discrete key now kept)
          ≡ some now =
        dict_get-insert OfferKey-discrete key key now kept
        ∙ if_pos (OfferKey-discrete key key) refl (some now)
            (dict_get OfferKey-discrete key kept) in
      ground arith

  refused_or_passed :
      (seen : Seen) (key : OfferKey) (cooldown later last : ℕ)
      → dict_get OfferKey-discrete key seen ≡ some last
      → let window = jittered display cooldown key in
        ((allow display seen key cooldown later).1 ≡ leb window (later - last))
        × (later - last < window → (allow display seen key cooldown later).0 ≡ seen)
  unfolding allow allow_within
  refused_or_passed seen key cooldown later last h = ground arith

  -- After an offer has passed, the next offer of the same triple with the same cooldown passes exactly
  -- when the jittered window has elapsed, which lies between 0.8 and 1.2 times the cooldown; one that
  -- does not pass changes nothing.
  pub allow_again :
      (seen : Seen) (key : OfferKey) (cooldown now later : ℕ)
      → (allow display seen key cooldown now).1 ≡ true
      → let seen' = (allow display seen key cooldown now).0 in
        let window = jittered display cooldown key in
        ((allow display seen' key cooldown later).1 ≡ leb window (later - now))
        × (later - now < window → (allow display seen' key cooldown later).0 ≡ seen')
        × (cooldown * 8 / 10 ≤ window)
        × (window ≤ cooldown * 12 / 10)
  allow_again seen key cooldown now later passed =
      let (low, high) = jittered_bounds cooldown key in
      let (again, same) =
        refused_or_passed (allow display seen key cooldown now).0 key cooldown later now
          (recorded seen key cooldown now passed) in
      (again, same, low, high)
