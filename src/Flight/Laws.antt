-- ===== src/Flight/Laws.antt =====
-- Who leads in src/cache/singleflight.rs, over every order of the callers' steps.
use egressdns.Prelude.{
  Bool-cases, List, Option-cases, [], ap, arith, dict_get, dict_get-insert, dict_get-remove,
  dict_insert, dict_remove, false, get_elem?, get_elem?-append, get_elem?-append_inv,
  get_elem?-append_old, get_elem?-lt, get_elem?-set_inv, get_elem?-set_ne, get_elem?-set_self,
  if_neg, if_pos, inl, inr, leb, length, none, none≢some, refl, set, some, some-injective, sym,
  true, ℕ, ℕ_discrete, ◌++◌, ◌∙◌, ◌∷◌, ◌≡◌, ◌≢◌,
}
use egressdns.Flight.{
  Broadcast, Shared, Leader, Shard, Step, joins, claims, delivers, new, join, claim, deliver, step,
  run,
}

true≢false : true ≢ false
true≢false e = cc

module _ {V : Type 0} {b : Broadcast V} {K : Type 0} (dec : Discrete K) where
  -- The map's entries and the leaders that have not published are the same.
  pub record IsTied (s : Shard b K) : Type 0 where
    pub tied :
        (k : K) (i : ℕ)
        → dict_get dec k s.map ≡ some i
        → (l : Leader b K) × (get_elem? s.leaders i ≡ some l)
          × (l.key ≡ some k)
          × (l.published ≡ false)
    pub owned :
        (i : ℕ) (l : Leader b K)
        → get_elem? s.leaders i ≡ some l
        → l.published ≡ false
        → (k : K) × (l.key ≡ some k) × (dict_get dec k s.map ≡ some i)

  -- A change of a leader's channel alone.
  touch-IsTied :
      (s : Shard b K) (i : ℕ) (l l' : Leader b K)
      → get_elem? s.leaders i ≡ some l
      → l'.key ≡ l.key
      → l'.published ≡ l.published
      → IsTied s
      → IsTied (record s { leaders = set s.leaders i l' })
  touch-IsTied s i l l' at same_key same_flag t = record {
    tied = λ k j found.
        let (f, e, key, flag) = t.tied k j found in
        elim (ℕ_discrete j i) [
          | yes p ↦
              let q : f ≡ l = some-injective (sym e ∙ ap (get_elem? s.leaders) p ∙ at) in
              (
                l',
                rw p (get_elem?-set_self s.leaders i l' (get_elem?-lt s.leaders i at)),
                same_key ∙ ap (λ (x : Leader b K). x.key) (sym q) ∙ key,
                same_flag ∙ ap (λ (x : Leader b K). x.published) (sym q) ∙ flag,
              )
          | no p ↦ (f, get_elem?-set_ne s.leaders l' (λ q. p (sym q)) ∙ e, key, flag)
        ];
    owned = λ j f e flag. elim (get_elem?-set_inv s.leaders i j e) [
      | inl (p, q) ↦
          let (k, key, found) =
            t.owned i l at (sym same_flag ∙ ap (λ (x : Leader b K). x.published) (sym q) ∙ flag) in
          (k, ap (λ (x : Leader b K). x.key) q ∙ same_key ∙ key, found ∙ ap some (sym p))
      | inr (p, e') ↦ t.owned j f e' flag
    ];
  }

  add-IsTied :
      (s : Shard b K) (key : K)
      → dict_get dec key s.map ≡ none
      → IsTied s
      → let l : Leader b K = record {
        key = some key;
        tx = b.channel;
        published = false;
        pending = none;
      } in
        IsTied (record s {
          map = dict_insert dec key (length s.leaders) s.map;
          leaders = s.leaders ++ l ∷ [];
        })
  add-IsTied s key fresh t = record {
    tied = λ k j found.
        let found' = sym (dict_get-insert dec k key (length s.leaders) s.map) ∙ found in
        elim (dec k key) [
          | yes p ↦
              let q : length s.leaders ≡ j = some-injective (
                sym (if_pos (dec k key) p (some (length s.leaders)) (dict_get dec k s.map))
                ∙ found') in
              (
                _,
                ap (get_elem? _) (sym q ∙ omega arith) ∙ get_elem?-append s.leaders (_ ∷ []) 0,
                ap some (sym p),
                refl,
              )
          | no p ↦
              let (f, e, f_key, flag) = t.tied k j (
                sym (if_neg (dec k key) p (some (length s.leaders)) (dict_get dec k s.map))
                ∙ found') in
              (f, get_elem?-append_old s.leaders _ j e, f_key, flag)
        ];
    owned = λ j f e flag. elim (get_elem?-append_inv s.leaders _ j e) [
      | inl e' ↦
          let (k, k_key, found) = t.owned j f e' flag in
          let other : k ≢ key =
            λ p. none≢some (sym fresh ∙ ap (λ x. dict_get dec x s.map) (sym p) ∙ found) in
          (
            k,
            k_key,
            dict_get-insert dec k key (length s.leaders) s.map
                ∙ if_neg (dec k key) other (some (length s.leaders)) (dict_get dec k s.map)
                ∙ found,
          )
      | inr (p, q) ↦ (
        key,
        ap (λ (x : Leader b K). x.key) q,
        dict_get-insert dec key key (length s.leaders) s.map
            ∙ if_pos (dec key key) refl (some (length s.leaders)) (dict_get dec key s.map)
            ∙ ap some (sym p),
      )
    ];
  }

  -- A leader that publishes gives up its key.
  give_up-IsTied :
      (s : Shard b K) (i : ℕ) (l l' : Leader b K) (key : K)
      → get_elem? s.leaders i ≡ some l
      → l.key ≡ some key
      → dict_get dec key s.map ≡ some i
      → l'.published ≡ true
      → IsTied s
      → IsTied (record s { map = dict_remove dec key s.map; leaders = set s.leaders i l' })
  give_up-IsTied s i l l' key at l_key mine flag' t = record {
    tied = λ k j found.
        let found' = sym (dict_get-remove dec k key s.map) ∙ found in
        elim (dec k key) [
          | yes p ↦
              absurd (none≢some (sym (if_pos (dec k key) p none (dict_get dec k s.map)) ∙ found'))
          | no p ↦
              let (f, e, f_key, flag) =
                t.tied k j (sym (if_neg (dec k key) p none (dict_get dec k s.map)) ∙ found') in
              let other : j ≢ i = λ q.
                let same : f ≡ l = some-injective (sym e ∙ ap (get_elem? s.leaders) q ∙ at) in
                p (some-injective (sym f_key ∙ ap (λ (x : Leader b K). x.key) same ∙ l_key)) in
              (f, get_elem?-set_ne s.leaders l' (λ q. other (sym q)) ∙ e, f_key, flag)
        ];
    owned = λ j f e flag. elim (get_elem?-set_inv s.leaders i j e) [
      | inl (p, q) ↦
          absurd (true≢false (sym flag' ∙ ap (λ (x : Leader b K). x.published) (sym q) ∙ flag))
      | inr (p, e') ↦
          let (k, k_key, found) = t.owned j f e' flag in
          let other : k ≢ key =
            λ q. p (some-injective (sym found ∙ ap (λ x. dict_get dec x s.map) q ∙ mine)) in
          (
            k,
            k_key,
            dict_get-remove dec k key s.map
                ∙ if_neg (dec k key) other none (dict_get dec k s.map)
                ∙ found,
          )
    ];
  }

  claim-IsTied :
      (s : Shard b K) (i : ℕ) (value : Shared V) → IsTied s → IsTied (claim dec s i value)
  unfolding claim
  claim-IsTied s i value t = elim (Option-cases (get_elem? s.leaders i)) [
    | inl e ↦ rw (e, claim) t
    | inr (l, e) ↦ elim (Bool-cases l.published) [
      | inl p ↦ rw (e, claim) (simp p t)
      | inr p ↦
          let (key, l_key, found) = t.owned i l e p in
          rw (e, claim) (simp (p, l_key) (give_up-IsTied s i l _ key e l_key found refl t))
    ]
  ]

  join-IsTied : (s : Shard b K) (key : K) → IsTied s → IsTied (join dec s key).0
  unfolding join
  join-IsTied s key t = elim (Option-cases (dict_get dec key s.map)) [
    | inl e ↦ elim (Bool-cases (leb s.max_inflight (length s.map))) [
      | inl full ↦ rw (e, full, join) t
      | inr room ↦ rw (e, room, join) (add-IsTied s key e t)
    ]
    | inr (i, e) ↦
        let (l, at, _, _) = t.tied key i e in rw (e, at, join) (touch-IsTied s i l _ at refl refl t)
  ]

  deliver-IsTied : (s : Shard b K) (i : ℕ) → IsTied s → IsTied (deliver dec s i)
  unfolding deliver
  deliver-IsTied s i t = elim (Option-cases (get_elem? s.leaders i)) [
    | inl e ↦ rw (e, deliver) t
    | inr (l, e) ↦ elim (Option-cases l.pending) [
      | inl p ↦ rw (e, deliver) (simp p t)
      | inr (v, p) ↦ rw (e, deliver) (simp p (touch-IsTied s i l _ e refl refl t))
    ]
  ]

  run-IsTied : (limit : ℕ) (es : List (Step V K)) → IsTied (run {b = b} dec limit es)
  unfolding run step new dict_get
  run-IsTied limit [] = record {
    tied = λ k i found. absurd (none≢some found);
    owned = λ i l e flag. absurd (none≢some e);
  }
  run-IsTied limit (joins key ∷ es) = join-IsTied (run dec limit es) key (run-IsTied limit es)
  run-IsTied limit (claims i v ∷ es) = claim-IsTied (run dec limit es) i v (run-IsTied limit es)
  run-IsTied limit (delivers i ∷ es) = deliver-IsTied (run dec limit es) i (run-IsTied limit es)

  -- In any order of joins, publications and drops, two leaders of one key that have both not published
  -- are the same: concurrent misses of a key make one upstream operation.
  pub one_leader :
      (limit : ℕ) (es : List (Step V K)) (i j : ℕ) (l m : Leader b K)
      → let s = run {b = b} dec limit es in
        get_elem? s.leaders i ≡ some l
        → get_elem? s.leaders j ≡ some m
        → l.published ≡ false
        → m.published ≡ false
        → l.key ≡ m.key
        → i ≡ j
  one_leader limit es i j l m at at' p q same =
      let t = run-IsTied limit es in
      let (k, l_key, found) = t.owned i l at p in
      let (k', m_key, found') = t.owned j m at' q in
      let keys : k ≡ k' = some-injective (sym l_key ∙ same ∙ m_key) in
      some-injective
        (sym found ∙ ap (λ x. dict_get dec x (run {b = b} dec limit es).map) keys ∙ found')
