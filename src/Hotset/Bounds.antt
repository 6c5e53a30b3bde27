-- ===== src/Hotset/Bounds.antt =====
-- What the tables of src/cache/hotset.rs hold, however they are used and in whatever order they are iterated.
use egressdns.Prelude.{
  Bool-cases, List, Option, [], arith, dict_get, dict_insert, drop, inl, inr, length, length-Perm,
  length-append, length-dict_insert-le, length-dict_insert_old, length-drop, length-take, ltb, max,
  min, none, not, refl, some, sym, take, ℕ, ◌&&◌, ◌+◌, ◌-◌, ◌∙◌, ◌∷◌, ◌≡◌, ◌≤◌,
}
use mathlib.Core.List.{Perm}
use mathlib.Core.List.Perm
use mathlib.Core.List
use mathlib.Core.Option
use egressdns.Cache.Entry.{CacheKey, CacheKey-discrete}
use egressdns.Float.{Floats}
use egressdns.Hotset.{
  trim_rows, HotEntry, HotSet, Row, add_successor, add_transition, clear, decay, hit, is_key,
  mark_prefetch, new, note_previous, observe, mark_entry,
}
use egressdns.Hotset.Evicts.{Fits, decay-Fits, hit-le, hit-Distinct}
use egressdns.Hotset.Keys.{Distinct, count, count-insert, one_if}

module _ {V : Type 0} where
  count-foldr :
      (k : CacheKey) (m : List (CacheKey × V))
      → List.foldr (λ (x : CacheKey × V) (n : ℕ). one_if k x.0 + n) 0 m ≡ count k m
  unfolding count
  count-foldr k [] = refl
  count-foldr k ((j, v) ∷ m) = omega (arith, count-foldr k m)

  swap_add :
      (k : CacheKey) (a b : CacheKey × V) (n : ℕ)
      → one_if k a.0 + (one_if k b.0 + n) ≡ one_if k b.0 + (one_if k a.0 + n)
  swap_add k a b n = omega arith

  Distinct-Perm : {m m' : List (CacheKey × V)} → Perm m m' → Distinct m' → Distinct m
  Distinct-Perm {m} {m'} p d k =
      let is_set : IsSet ℕ = hlevel in
      let e =
        sym (count-foldr k m)
        ∙ Perm.foldr-eq is_set (λ (x : CacheKey × V) (n : ℕ). one_if k x.0 + n) (swap_add k) p 0
        ∙ count-foldr k m' in
      rw e (d k)

module _ {V : Type 0} where
  trim_rows-le :
      (t victim : ℕ) (ts : List (CacheKey × V))
      → length ts ≤ t + 1
      → length (trim_rows t victim ts) ≤ t
  unfolding trim_rows
  trim_rows-le t victim ts h =
      let first = min victim (length ts - 1) in
      let a = length-append (take first ts) (drop (first + 1) ts) in
      let b = length-take first ts in let c = length-drop (first + 1) ts in ground arith

add_transition-le :
    (fl : Floats) (t victim : ℕ) (prev key : CacheKey) (ts : List (CacheKey × Row fl))
    → length ts ≤ t
    → length (add_transition fl t victim prev key ts) ≤ t
unfolding add_transition
add_transition-le fl t victim prev key ts h =
    let row = add_successor fl key (Option.get_or (dict_get CacheKey-discrete prev ts) []) in
    let ts' = dict_insert CacheKey-discrete prev row ts in
    let n = length-dict_insert-le CacheKey-discrete prev row ts in
    trim_rows-le t victim ts' (omega arith)

module _ (fl : Floats) (capacity : ℕ) (half_life : fl.F) (transition_capacity : ℕ) where
  -- The states of a set, through any calls. A table may be iterated in another order at any time.
  pub data Reached : HotSet fl → Type 0 where
    started : (now : ℕ) → Reached (new capacity half_life transition_capacity now)
    observed :
        {h : HotSet fl} (key : CacheKey) (previous : Option CacheKey) (victim now : ℕ)
        → Reached h
        → Reached (observe h key previous victim now)
    prefetched :
        {h : HotSet fl} (key : CacheKey) (now : ℕ) → Reached h → Reached (mark_prefetch h key now)
    cleared : {h : HotSet fl} → Reached h → Reached (clear h)
    reordered :
        {h : HotSet fl} (m : List (CacheKey × HotEntry fl)) (ts : List (CacheKey × Row fl))
        → Perm m h.entries
        → Perm ts h.transitions
        → Reached h
        → Reached (record h { entries = m; transitions = ts })

module _ {fl : Floats} where
  note_previous-Fits :
      (c t : ℕ) (h : HotSet fl) (key : CacheKey) (previous : Option CacheKey) (victim : ℕ)
      → Fits c t h
      → Fits c t (note_previous h key previous victim)
  unfolding note_previous
  note_previous-Fits c t h key none victim f = f
  note_previous-Fits c t h key (some prev) victim f =
      elim (Bool-cases (ltb 0 h.transition_capacity && not (is_key prev key))) [
        | inr q ↦ rw q f
        | inl q ↦
            let e = f.transition_eq in
            let u = f.transitions_le in
            let w =
              add_transition-le fl h.transition_capacity victim prev key h.transitions
                (omega arith) in
            rw q (record {
              room = f.room;
              capacity_eq = f.capacity_eq;
              transition_eq = f.transition_eq;
              entries_le = f.entries_le;
              transitions_le = omega arith;
              distinct = f.distinct;
            })
      ]

  observe-Fits :
      (c t : ℕ) (h : HotSet fl) (key : CacheKey) (previous : Option CacheKey) (victim now : ℕ)
      → Fits c t h
      → Fits c t (observe h key previous victim now)
  unfolding observe
  observe-Fits c t h key previous victim now f =
      let g = decay-Fits c t h now f in
      let h' = decay h now in
      note_previous-Fits c t (record h' { entries = hit h' key now }) key previous victim
        (record {
          room = g.room;
          capacity_eq = g.capacity_eq;
          transition_eq = g.transition_eq;
          entries_le = hit-le c t h' key now g;
          transitions_le = g.transitions_le;
          distinct = hit-Distinct c t h' key now g;
        })

  mark_entry-Fits :
      (c t : ℕ) (h : HotSet fl) (key : CacheKey) (now : ℕ) (known : Option (HotEntry fl))
      → dict_get CacheKey-discrete key h.entries ≡ known
      → Fits c t h
      → Fits c t (mark_entry h key now known)
  unfolding mark_entry
  mark_entry-Fits c t h key now none q f = f
  mark_entry-Fits c t h key now (some e) q f =
      let e' : HotEntry fl = record e { last_prefetch = some now } in
      let n = length-dict_insert_old CacheKey-discrete key e' e h.entries q in
      let u = f.entries_le in
      record {
        room = f.room;
        capacity_eq = f.capacity_eq;
        transition_eq = f.transition_eq;
        entries_le = omega arith;
        transitions_le = f.transitions_le;
        distinct = count-insert key e' h.entries f.distinct;
      }

  mark_prefetch-Fits :
      (c t : ℕ) (h : HotSet fl) (key : CacheKey) (now : ℕ)
      → Fits c t h
      → Fits c t (mark_prefetch h key now)
  unfolding mark_prefetch
  mark_prefetch-Fits c t h key now f =
      mark_entry-Fits c t h key now (dict_get CacheKey-discrete key h.entries) refl f

module _ (fl : Floats) (capacity : ℕ) (half_life : fl.F) (transition_capacity : ℕ) where
  reached-Fits :
      {h : HotSet fl}
      → Reached fl capacity half_life transition_capacity h
      → Fits (max capacity 1) transition_capacity h
  unfolding new clear count
  reached-Fits (started now) = record {
    room = omega arith;
    capacity_eq = refl;
    transition_eq = refl;
    entries_le = omega arith;
    transitions_le = omega arith;
    distinct = λ k. omega arith;
  }
  reached-Fits (observed {h} key previous victim now r) =
      observe-Fits (max capacity 1) transition_capacity h key previous victim now (reached-Fits r)
  reached-Fits (prefetched {h} key now r) =
      mark_prefetch-Fits (max capacity 1) transition_capacity h key now (reached-Fits r)
  reached-Fits (cleared {h} r) =
      let f = reached-Fits r in
      record {
        room = f.room;
        capacity_eq = f.capacity_eq;
        transition_eq = f.transition_eq;
        entries_le = omega arith;
        transitions_le = omega arith;
        distinct = λ k. omega arith;
      }
  reached-Fits (reordered {h} m ts p q r) =
      let f = reached-Fits r in
      let u = f.entries_le in
      let w = f.transitions_le in
      let a = length-Perm p in
      let b = length-Perm q in
      record {
        room = f.room;
        capacity_eq = f.capacity_eq;
        transition_eq = f.transition_eq;
        entries_le = omega arith;
        transitions_le = omega arith;
        distinct = Distinct-Perm p f.distinct;
      }

  -- Through any calls on a new set, whatever the floats do and in whatever order its tables are iterated, no
  -- more keys are tracked than its capacity, or one, no more rows of successors are kept than theirs, and no
  -- key is tracked twice.
  pub reached-bounded :
      {h : HotSet fl}
      → Reached fl capacity half_life transition_capacity h
      → (length h.entries ≤ max capacity 1)
        × (length h.transitions ≤ transition_capacity)
        × Distinct h.entries
  reached-bounded r = let f = reached-Fits r in (f.entries_le, f.transitions_le, f.distinct)
