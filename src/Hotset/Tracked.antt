-- ===== src/Hotset/Tracked.antt =====
-- The key that src/cache/hotset.rs has just observed.
use egressdns.Prelude.{
  Bool-cases, List, Option, ap, arith, dict_get, dict_get-insert, dict_insert, if_pos, inl, inr,
  length, ltb, none, not, refl, some, true, ℕ, ◌&&◌, ◌-◌, ◌∙◌, ◌≡◌,
}
use egressdns.Cache.Entry.{CacheKey, CacheKey-discrete}
use egressdns.Float.{Floats}
use egressdns.Hotset.{
  HotEntry, HotSet, above, bump, decay, evict, hit, is_key, note_previous, observe, retain,
  threshold,
}
use egressdns.Hotset.Keys.{get-drop_others, get-retain_self}

is_key_refl : (key : CacheKey) → is_key key key ≡ true
unfolding is_key
is_key_refl key = ground arith

module _ {fl : Floats} where
  above_self : (key : CacheKey) (limit : fl.F × ℕ) (e : HotEntry fl) → above key limit key e ≡ true
  unfolding above
  above_self key limit e = rw (is_key_refl key) refl

  get-evict :
      (c : ℕ) (m : List (CacheKey × HotEntry fl)) (key : CacheKey)
      → dict_get CacheKey-discrete key (evict c m key) ≡ dict_get CacheKey-discrete key m
  unfolding evict
  get-evict c m key =
      let keep = above key (threshold c m) in
      let kept = retain keep m in
      let a = get-drop_others (length kept - c) key kept in
      let b = get-retain_self keep key m (above_self key (threshold c m)) in ground arith

  get-hit :
      (h : HotSet fl) (key : CacheKey) (now : ℕ)
      → dict_get CacheKey-discrete key (hit h key now)
        ≡ some (bump (dict_get CacheKey-discrete key h.entries) now)
  unfolding hit
  get-hit h key now =
      let entry = bump (dict_get CacheKey-discrete key h.entries) now in
      let m = dict_insert CacheKey-discrete key entry h.entries in
      let a =
        dict_get-insert CacheKey-discrete key key entry h.entries
        ∙ if_pos (CacheKey-discrete key key) refl _ _ in
      let b = get-evict h.capacity m key in ground arith

  entries-note_previous :
      (h : HotSet fl) (key : CacheKey) (previous : Option CacheKey) (victim : ℕ)
      → (note_previous h key previous victim).entries ≡ h.entries
  unfolding note_previous
  entries-note_previous h key none victim = refl
  entries-note_previous h key (some prev) victim =
      elim (Bool-cases (ltb 0 h.transition_capacity && not (is_key prev key))) [
        | inl q ↦ rw q refl
        | inr q ↦ rw q refl
      ]

  -- A key that is observed is tracked afterwards, with its own statistics after the decay and this hit,
  -- however full the set is and whatever the scores are.
  pub observe-tracked :
      (h : HotSet fl) (key : CacheKey) (previous : Option CacheKey) (victim now : ℕ)
      → dict_get CacheKey-discrete key (observe h key previous victim now).entries
        ≡ some (bump (dict_get CacheKey-discrete key (decay h now).entries) now)
  unfolding observe
  observe-tracked h key previous victim now =
      let h' = decay h now in
      let e = entries-note_previous (record h' { entries = hit h' key now }) key previous victim in
      ap (dict_get CacheKey-discrete key) e ∙ get-hit h' key now
