-- ===== src/Hotset.antt =====
-- `HotSet` of src/cache/hotset.rs: which keys are popular, and which follow which. A `HashMap` is a list in the
-- order in which it is iterated.
pub mod Keys
pub mod Evicts
pub mod Bounds
pub mod Tracked
mod Tests
use egressdns.Prelude.{
  Bool, List, Option, [], dict_get, dict_insert, drop, false, get_or, if◌then◌else◌, leb, length,
  ltb, map, max, min, none, not, some, sort, suc, take, true, zero, ℕ, ◌%◌, ◌&&◌, ◌++◌, ◌+◌, ◌-◌,
  ◌/◌, ◌==◌, ◌^◌, ◌||◌, ◌∷◌,
}
use egressdns.Cache.Entry.{CacheKey, CacheKey-discrete}
use egressdns.Float.{Floats, lt}
use mathlib.Core.Option

module _ (fl : Floats) where
  pub record HotEntry : Type 0 where
    pub score : fl.F
    pub hits : ℕ
    pub last_seen : ℕ
    pub last_prefetch : Option ℕ

  abbrev pub Row : Type 0
  Row = List (CacheKey × fl.F)

  -- `HotSet` with its `Inner`.
  pub record HotSet : Type 0 where
    pub entries : List (CacheKey × HotEntry)
    pub last_decay : ℕ
    pub transitions : List (CacheKey × Row)
    pub transition_capacity : ℕ
    pub capacity : ℕ
    pub half_life_secs : fl.F

unfoldable pub is_key : CacheKey → CacheKey → Bool
is_key key other = elim (CacheKey-discrete key other) [ yes p ↦ true | no p ↦ false ]

module _ {V : Type 0} where
  -- `retain`, and `values_mut`.
  unfoldable pub retain : (CacheKey → V → Bool) → List (CacheKey × V) → List (CacheKey × V)
  retain keep [] = []
  retain keep ((k, v) ∷ m) = let rest = retain keep m in if keep k v then (k, v) ∷ rest else rest

  unfoldable pub map_values : (V → V) → List (CacheKey × V) → List (CacheKey × V)
  map_values f [] = []
  map_values f ((k, v) ∷ m) = (k, f v) ∷ map_values f m

  -- The first entries with another key are removed.
  unfoldable pub drop_others : ℕ → CacheKey → List (CacheKey × V) → List (CacheKey × V)
  drop_others zero protect m = m
  drop_others (suc n) protect [] = []
  drop_others (suc n) protect ((k, v) ∷ m) =
      let here = drop_others n protect m in
      let later = drop_others (suc n) protect m in if is_key protect k then (k, v) ∷ later else here

  -- Above its capacity a table loses the row that comes first when it is iterated, wherever it stands.
  unfoldable pub trim_rows : ℕ → ℕ → List (CacheKey × V) → List (CacheKey × V)
  trim_rows capacity victim ts =
      let first = min victim (length ts - 1) in
      if ltb capacity (length ts) then take first ts ++ drop (first + 1) ts else ts

module _ (fl : Floats) where
  unfoldable pub decay_row : fl.F → Row fl → Row fl
  unfolding retain map_values lt
  decay_row factor row =
      retain (λ k w. lt fl (fl.lit 1 100) w) (map_values (λ w. fl.mul w factor) row)

  unfoldable pub has_next : CacheKey → Row fl → Bool
  has_next k [] = false
  has_next k (w ∷ row) = true

  -- `rank` of `evict_locked` is not `Greater`.
  unfoldable pub rank_le : fl.F × ℕ → fl.F × ℕ → Bool
  rank_le a b = fl.total_le a.0 b.0 && (not (fl.total_le b.0 a.0) || leb a.1 b.1)

  -- The stronger first.
  unfoldable pub stronger : CacheKey × fl.F → CacheKey × fl.F → Bool
  stronger a b = fl.total_le b.1 a.1

  unfoldable pub add_successor : CacheKey → Row fl → Row fl
  unfolding stronger
  add_successor key row =
      let weight = Option.get_or (dict_get CacheKey-discrete key row) (fl.lit 0 1) in
      let row' = dict_insert CacheKey-discrete key (fl.add weight (fl.lit 1 1)) row in
      if ltb 8 (length row') then take 8 (sort stronger row') else row'

  unfoldable pub add_transition :
      ℕ → ℕ → CacheKey → CacheKey → List (CacheKey × Row fl) → List (CacheKey × Row fl)
  unfolding add_successor trim_rows
  add_transition capacity victim prev key ts =
      let row = Option.get_or (dict_get CacheKey-discrete prev ts) [] in
      let ts' = dict_insert CacheKey-discrete prev (add_successor key row) ts in
      trim_rows capacity victim ts'

module _ {fl : Floats} where
  unfoldable pub new : ℕ → fl.F → ℕ → ℕ → HotSet fl
  new capacity half_life_secs transition_capacity now = record {
    entries = [];
    last_decay = now;
    transitions = [];
    transition_capacity = transition_capacity;
    capacity = max capacity 1;
    half_life_secs = fl.fmax half_life_secs (fl.lit 1 1);
  }

  unfoldable pub scaled : fl.F → HotEntry fl → HotEntry fl
  scaled factor e = record e { score = fl.mul e.score factor }

  unfoldable pub decay_all : HotSet fl → fl.F → ℕ → HotSet fl
  unfolding retain map_values scaled lt decay_row has_next
  decay_all h factor now = record h {
    entries =
        retain (λ k (e : HotEntry fl). lt fl (fl.lit 1 100) e.score)
          (map_values (scaled factor) h.entries);
    transitions = retain (has_next fl) (map_values (decay_row fl factor) h.transitions);
    last_decay = now;
  }

  unfoldable pub decay : HotSet fl → ℕ → HotSet fl
  unfolding decay_all lt
  decay h now =
      let elapsed = fl.as_secs_f64 (now - h.last_decay) in
      let factor = fl.pow (fl.lit 1 2) (fl.div elapsed h.half_life_secs) in
      if lt fl elapsed (fl.lit 1 1)
      then h
      else if fl.le (fl.lit 999 1000) factor
      then record h { last_decay = now }
      else decay_all h factor now

  unfoldable pub ranks : List (CacheKey × HotEntry fl) → List (fl.F × ℕ)
  ranks [] = []
  ranks ((k, e) ∷ m) = (e.score, e.last_seen) ∷ ranks m

  unfoldable pub threshold : ℕ → List (CacheKey × HotEntry fl) → fl.F × ℕ
  unfolding rank_le ranks
  threshold capacity m =
      let len = length m in
      let batch = max (min (len - capacity + capacity / 10 + 1) (len - 1)) 1 in
      get_or (sort (rank_le fl) (ranks m)) (min batch (len - 1)) (fl.lit 0 1, 0)

  unfoldable pub above : CacheKey → fl.F × ℕ → CacheKey → HotEntry fl → Bool
  unfolding is_key rank_le
  above protect limit k e = is_key protect k || not (rank_le fl (e.score, e.last_seen) limit)

  unfoldable pub evict :
      ℕ → List (CacheKey × HotEntry fl) → CacheKey → List (CacheKey × HotEntry fl)
  unfolding threshold above retain drop_others
  evict capacity m protect =
      let kept = retain (above protect (threshold capacity m)) m in
      if length m - capacity == 0 || ltb (length m) 2
      then m
      else drop_others (length kept - capacity) protect kept

  unfoldable pub bump : Option (HotEntry fl) → ℕ → HotEntry fl
  bump none now = record {
    score = fl.add (fl.lit 0 1) (fl.lit 1 1);
    hits = 1;
    last_seen = now;
    last_prefetch = none;
  }
  bump (some e) now = record e {
    score = fl.add e.score (fl.lit 1 1);
    hits = (e.hits + 1) % 2 ^ 64;
    last_seen = now;
  }

  unfoldable pub note_previous : HotSet fl → CacheKey → Option CacheKey → ℕ → HotSet fl
  unfolding add_transition is_key
  note_previous h key none victim = h
  note_previous h key (some prev) victim =
      if ltb 0 h.transition_capacity && not (is_key prev key)
      then record h {
        transitions = add_transition fl h.transition_capacity victim prev key h.transitions;
      }
      else h

  -- The map after the hit.
  unfoldable pub hit : HotSet fl → CacheKey → ℕ → List (CacheKey × HotEntry fl)
  unfolding bump evict
  hit h key now =
      let entry = bump (dict_get CacheKey-discrete key h.entries) now in
      let m = dict_insert CacheKey-discrete key entry h.entries in
      if ltb h.capacity (length m) then evict h.capacity m key else m

  -- `victim` is the place of the row that comes first.
  unfoldable pub observe : HotSet fl → CacheKey → Option CacheKey → ℕ → ℕ → HotSet fl
  unfolding decay hit note_previous
  observe h key previous victim now =
      let h' = decay h now in
      note_previous (record h' { entries = hit h' key now }) key previous victim

  unfoldable pub mark_entry : HotSet fl → CacheKey → ℕ → Option (HotEntry fl) → HotSet fl
  mark_entry h key now none = h
  mark_entry h key now (some e) = record h {
    entries = dict_insert CacheKey-discrete key (record e { last_prefetch = some now }) h.entries;
  }

  unfoldable pub mark_prefetch : HotSet fl → CacheKey → ℕ → HotSet fl
  unfolding mark_entry
  mark_prefetch h key now = mark_entry h key now (dict_get CacheKey-discrete key h.entries)

  unfoldable pub hotter : CacheKey × HotEntry fl → CacheKey × HotEntry fl → Bool
  hotter a b = fl.total_le b.1.score a.1.score

  unfoldable pub top : HotSet fl → ℕ → List (CacheKey × HotEntry fl)
  unfolding hotter
  top h n = take n (sort hotter h.entries)

  unfoldable pub successors : HotSet fl → CacheKey → ℕ → List CacheKey
  unfolding stronger
  successors h key n = elim (dict_get CacheKey-discrete key h.transitions) [
    | none ↦ []
    | some row ↦ map (λ (p : CacheKey × fl.F). p.0) (take n (sort (stronger fl) row))
  ]

  unfoldable pub clear : HotSet fl → HotSet fl
  clear h = record h { entries = []; transitions = [] }
