-- ===== src/Hotset/Evicts.antt =====
-- What decay and eviction leave in the map of src/cache/hotset.rs.
use egressdns.Prelude.{
  Bool-cases, List, arith, dict_get, dict_insert, inl, inr, length, ℕ, ◌-◌, ◌≡◌, ◌≤◌,
}
use egressdns.Cache.Entry.{CacheKey, CacheKey-discrete}
use egressdns.Float.{Floats, lt}
use egressdns.Hotset.{
  HotEntry, HotSet, above, bump, decay, decay_all, decay_row, evict, has_next, hit, map_values,
  retain, scaled, threshold,
}
use egressdns.Hotset.Keys.{
  Distinct, count-drop_others, count-insert, count-map_values, count-retain, length-drop_others,
  length-map_values, length-retain,
}

module _ {fl : Floats} where
  -- Within both capacities, with each key once.
  pub record Fits (c t : ℕ) (h : HotSet fl) : Type 0 where
    pub room : 1 ≤ c
    pub capacity_eq : h.capacity ≡ c
    pub transition_eq : h.transition_capacity ≡ t
    pub entries_le : length h.entries ≤ c
    pub transitions_le : length h.transitions ≤ t
    pub distinct : Distinct h.entries

  decay_all-Fits :
      (c t : ℕ) (h : HotSet fl) (factor : fl.F) (now : ℕ)
      → Fits c t h
      → Fits c t (decay_all h factor now)
  unfolding decay_all
  decay_all-Fits c t h factor now f =
      let keep = λ (k : CacheKey) (e : HotEntry fl). lt fl (fl.lit 1 100) e.score in
      let m = map_values (scaled factor) h.entries in
      let ts = map_values (decay_row fl factor) h.transitions in
      let a = length-retain keep m in
      let b = length-map_values (scaled factor) h.entries in
      let d = length-retain (has_next fl) ts in
      let e = length-map_values (decay_row fl factor) h.transitions in
      let u = f.entries_le in
      let w = f.transitions_le in
      let once : Distinct (retain keep m) = λ k.
        let p = count-retain keep k m in
        let q = count-map_values (scaled factor) k h.entries in
        let r = f.distinct k in omega arith in
      record {
        room = f.room;
        capacity_eq = f.capacity_eq;
        transition_eq = f.transition_eq;
        entries_le = omega arith;
        transitions_le = omega arith;
        distinct = once;
      }

  pub decay-Fits : (c t : ℕ) (h : HotSet fl) (now : ℕ) → Fits c t h → Fits c t (decay h now)
  unfolding decay
  decay-Fits c t h now f =
      let elapsed = fl.as_secs_f64 (now - h.last_decay) in
      let factor = fl.pow (fl.lit 1 2) (fl.div elapsed h.half_life_secs) in
      let all = decay_all-Fits c t h factor now f in
      elim (Bool-cases (lt fl elapsed (fl.lit 1 1))) [
        | inl p ↦ rw p f
        | inr p ↦ elim (Bool-cases (fl.le (fl.lit 999 1000) factor)) [
          | inl q ↦
              rw (p, q)
                (record {
                  room = f.room;
                  capacity_eq = f.capacity_eq;
                  transition_eq = f.transition_eq;
                  entries_le = f.entries_le;
                  transitions_le = f.transitions_le;
                  distinct = f.distinct;
                })
          | inr q ↦ rw (p, q) all
        ]
      ]

  evict-le :
      (c : ℕ) (m : List (CacheKey × HotEntry fl)) (protect : CacheKey)
      → 1 ≤ c
      → Distinct m
      → length (evict c m protect) ≤ c
  unfolding evict
  evict-le c m protect room d =
      let keep = above protect (threshold c m) in
      let kept = retain keep m in
      let a = length-retain keep m in
      let b = length-drop_others (length kept - c) protect kept in
      let e = count-retain keep protect m in let g = d protect in ground arith

  evict-Distinct :
      (c : ℕ) (m : List (CacheKey × HotEntry fl)) (protect : CacheKey)
      → Distinct m
      → Distinct (evict c m protect)
  unfolding evict
  evict-Distinct c m protect d k =
      let keep = above protect (threshold c m) in
      let kept = retain keep m in
      let a = count-retain keep k m in
      let b = count-drop_others (length kept - c) protect k kept in let g = d k in ground arith

  pub hit-le :
      (c t : ℕ) (h : HotSet fl) (key : CacheKey) (now : ℕ) → Fits c t h → length (hit h key now) ≤ c
  unfolding hit
  hit-le c t h key now f =
      let m =
        dict_insert CacheKey-discrete key (bump (dict_get CacheKey-discrete key h.entries) now)
          h.entries in
      let e = f.capacity_eq in
      let r = f.room in
      let room : 1 ≤ h.capacity = omega arith in
      let d =
        count-insert key (bump (dict_get CacheKey-discrete key h.entries) now) h.entries
          f.distinct in
      let a = evict-le h.capacity m key room d in ground arith

  pub hit-Distinct :
      (c t : ℕ) (h : HotSet fl) (key : CacheKey) (now : ℕ) → Fits c t h → Distinct (hit h key now)
  unfolding hit
  hit-Distinct c t h key now f k =
      let m =
        dict_insert CacheKey-discrete key (bump (dict_get CacheKey-discrete key h.entries) now)
          h.entries in
      let d =
        count-insert key (bump (dict_get CacheKey-discrete key h.entries) now) h.entries
          f.distinct in
      let a = d k in let b = evict-Distinct h.capacity m key d k in ground arith
