-- ===== src/RateLimit/Shape.antt =====
-- How one lookup changes the two generations of the client table of src/dns/ratelimit.rs.
use egressdns.Prelude.{
  Bool, List, Option, [], arith, dict_get, dict_get-insert, dict_insert, false, if_neg, if_pos,
  length, length-dict_insert_new, ltb, none, refl, some, subst, suc, sym, true, ℕ, ℕ_discrete, ◌+◌,
  ◌<◌, ◌==◌, ◌||◌, ◌∙◌, ◌≡◌, ◌≢◌, ◌≤◌,
}
use egressdns.Net.{IpAddr, v6, IpAddr-discrete}
use egressdns.RateLimit.{ClientTable, rotate, limiter_for}

abbrev pub find : IpAddr → List (IpAddr × ℕ) → Option ℕ
find = dict_get IpAddr-discrete

-- Exactly the addresses that `P` picks stand in the map, and there are `n` of them.
pub record Covers (P : ℕ → Bool) (n : ℕ) (d : List (IpAddr × ℕ)) : Type 0 where
  pub has : (k : ℕ) → P k ≡ true → (l : ℕ) × (find (v6 k) d ≡ some l)
  pub has_no : (k : ℕ) → P k ≡ false → find (v6 k) d ≡ none
  pub size : length d ≡ n

v6-injective : {a b : ℕ} → v6 a ≡ v6 b → a ≡ b
v6-injective e = cc

find-insert_self :
    (k l : ℕ) (d : List (IpAddr × ℕ))
    → find (v6 k) (dict_insert IpAddr-discrete (v6 k) l d) ≡ some l
find-insert_self k l d =
    dict_get-insert IpAddr-discrete (v6 k) (v6 k) l d
    ∙ if_pos (IpAddr-discrete (v6 k) (v6 k)) refl (some l) (find (v6 k) d)

find-insert_ne :
    (k j l : ℕ) (d : List (IpAddr × ℕ))
    → k ≢ j
    → find (v6 k) (dict_insert IpAddr-discrete (v6 j) l d) ≡ find (v6 k) d
find-insert_ne k j l d ne =
    dict_get-insert IpAddr-discrete (v6 k) (v6 j) l d
    ∙ if_neg (IpAddr-discrete (v6 k) (v6 j)) (λ e. ne (v6-injective e)) (some l) (find (v6 k) d)

Covers-insert :
    (P Q : ℕ → Bool) (n j l : ℕ) (d : List (IpAddr × ℕ))
    → Covers P n d
    → P j ≡ false
    → ((k : ℕ) → Q k ≡ (k == j || P k))
    → Covers Q (n + 1) (dict_insert IpAddr-discrete (v6 j) l d)
Covers-insert P Q n j l d c new_key q = record {
  has = λ k h. elim (ℕ_discrete k j) [
    | yes e ↦ (l, rw e (find-insert_self j l d))
    | no ne ↦ rw (find-insert_ne k j l d ne) (c.has k (ground (arith, q k)))
  ];
  has_no = λ k h. elim (ℕ_discrete k j) [
    | yes e ↦ absurd (ground (arith, q k))
    | no ne ↦ rw (find-insert_ne k j l d ne) (c.has_no k (ground (arith, q k)))
  ];
  size =
      omega (arith, length-dict_insert_new IpAddr-discrete (v6 j) l d (c.has_no j new_key), c.size);
}

-- The clients below `n`.
abbrev pub below : ℕ → ℕ → Bool
below n k = ltb k n

-- Client `m`, and the clients below `j`.
abbrev pub one_and_below : ℕ → ℕ → ℕ → Bool
one_and_below m j k = k == m || ltb k j

-- The current generation holds what it should, and so does the previous one.
pub record Shape (cap : ℕ) (P : ℕ → Bool) (n : ℕ) (Q : ℕ → Bool) (m : ℕ) (t : ClientTable)
    : Type 0 where
  pub now : Covers P n t.current
  pub before : Covers Q m t.previous
  pub capacity : t.capacity ≡ cap

abbrev pub admit : ClientTable → ℕ → ℕ → ClientTable
admit t k fresh = (limiter_for t (v6 k) fresh).0

module _ (t : ClientTable) (client : IpAddr) (fresh : ℕ) where
  pub limiter_for-previous :
      {l : ℕ}
      → find client t.current ≡ none
      → find client t.previous ≡ some l
      → limiter_for t client fresh
        ≡ (record t { current = dict_insert IpAddr-discrete client l t.current }, l, false)
  unfolding limiter_for
  limiter_for-previous a b = ground arith

  pub limiter_for-new :
      find client t.current ≡ none
      → find client t.previous ≡ none
      → limiter_for t client fresh ≡ (
        record (rotate t) { current = dict_insert IpAddr-discrete client fresh (rotate t).current },
        fresh,
        true,
      )
  unfolding limiter_for
  limiter_for-new a b = ground arith

-- A client known only to the previous generation is copied into the current one, full or not.
pub admit_known :
    (cap j m : ℕ) (t : ClientTable) (fresh : ℕ)
    → j < m
    → Shape cap (one_and_below m j) (j + 1) (below m) m t
    → Shape cap (one_and_below m (suc j)) (suc j + 1) (below m) m (admit t j fresh)
admit_known cap j m t fresh h s =
    let absent = s.now.has_no j (ground arith) in
    let (l, known) = s.before.has j (ground arith) in
    subst (λ r. Shape cap (one_and_below m (suc j)) (suc j + 1) (below m) m (r.0))
      (sym (limiter_for-previous t (v6 j) fresh absent known))
      (record {
        now =
            subst
              (λ n.
                Covers (one_and_below m (suc j)) n (dict_insert IpAddr-discrete (v6 j) l t.current))
              (omega arith)
              (Covers-insert (one_and_below m j) (one_and_below m (suc j)) (j + 1) j l t.current
                s.now (ground arith) (λ k. ground arith));
        before = s.before;
        capacity = s.capacity;
      })

pub Covers-ext :
    (P Q : ℕ → Bool) {n : ℕ} {d : List (IpAddr × ℕ)}
    → ((k : ℕ) → P k ≡ Q k)
    → Covers P n d
    → Covers Q n d
Covers-ext P Q e c = record {
  has = λ k h. c.has k (e k ∙ h);
  has_no = λ k h. c.has_no k (e k ∙ h);
  size = c.size;
}

pub Covers-empty : Covers (λ k. false) 0 []
unfolding dict_get
Covers-empty = record { has = λ k h. cc; has_no = λ k h. refl; size = refl }

-- A new client at a full current generation starts the next one.
pub admit_new :
    (cap m : ℕ) (t : ClientTable) (fresh : ℕ)
    → cap ≤ m + 1
    → Shape cap (one_and_below m m) (m + 1) (below m) m t
    → Shape cap (one_and_below (suc m) 0) 1 (below (suc m)) (suc m) (admit t (suc m) fresh)
unfolding rotate
admit_new cap m t fresh full s =
    let rotated : rotate t ≡ record t { previous = t.current; current = [] } =
      ground (arith, s.now.size, s.capacity) in
    subst (λ r. Shape cap (one_and_below (suc m) 0) 1 (below (suc m)) (suc m) (r.0))
      (sym (
        limiter_for-new t (v6 (suc m)) fresh (s.now.has_no (suc m) (ground arith))
          (s.before.has_no (suc m) (ground arith))))
      (rw rotated (record {
        now =
            Covers-insert (λ k. false) (one_and_below (suc m) 0) 0 (suc m) fresh [] Covers-empty
              refl (λ k. ground arith);
        before =
            subst (λ n. Covers (below (suc m)) n t.current) (omega arith)
              (Covers-ext (one_and_below m m) (below (suc m)) (λ k. ground arith) s.now);
        capacity = s.capacity;
      }))

-- A new client while there is room.
pub admit_room :
    (cap j : ℕ) (t : ClientTable) (fresh : ℕ)
    → j < cap
    → Shape cap (below j) j (λ k. false) 0 t
    → Shape cap (below (suc j)) (suc j) (λ k. false) 0 (admit t j fresh)
unfolding rotate
admit_room cap j t fresh room s =
    let same : rotate t ≡ t = ground (arith, s.now.size, s.capacity) in
    subst (λ r. Shape cap (below (suc j)) (suc j) (λ k. false) 0 (r.0))
      (sym
        (limiter_for-new t (v6 j) fresh (s.now.has_no j (ground arith)) (s.before.has_no j refl)))
      (rw same (record {
        now =
            subst
              (λ n. Covers (below (suc j)) n (dict_insert IpAddr-discrete (v6 j) fresh t.current))
              (omega arith)
              (Covers-insert (below j) (below (suc j)) j j fresh t.current s.now (ground arith)
                (λ k. ground arith));
        before = s.before;
        capacity = s.capacity;
      }))

-- The first rotation.
pub admit_full :
    (cap : ℕ) (t : ClientTable) (fresh : ℕ)
    → Shape cap (below cap) cap (λ k. false) 0 t
    → Shape cap (one_and_below cap 0) 1 (below cap) cap (admit t cap fresh)
unfolding rotate
admit_full cap t fresh s =
    let rotated : rotate t ≡ record t { previous = t.current; current = [] } =
      ground (arith, s.now.size, s.capacity) in
    subst (λ r. Shape cap (one_and_below cap 0) 1 (below cap) cap (r.0))
      (sym (
        limiter_for-new t (v6 cap) fresh (s.now.has_no cap (ground arith))
          (s.before.has_no cap refl)))
      (rw rotated (record {
        now =
            Covers-insert (λ k. false) (one_and_below cap 0) 0 cap fresh [] Covers-empty refl
              (λ k. ground arith);
        before = s.now;
        capacity = s.capacity;
      }))
