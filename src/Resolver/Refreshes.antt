-- ===== src/Resolver/Refreshes.antt =====
-- How often `stale_refresh_allowed` of src/dns/resolver.rs lets a refresh through, and what that costs.
use egressdns.Prelude.{
  List, [], ap, arith, dict_get, dict_get-insert, false, if_neg, if_pos, length,
  length-dict_insert-le, lt→ltb, none≢some, refl, some, sym, true, ℕ, ◌-◌, ◌<◌, ◌∙◌, ◌∷◌, ◌≡◌, ◌≢◌,
  ◌≤◌,
}
use egressdns.Cache.Entry.{CacheKey, CacheKey-discrete}
use egressdns.Resolver.Stale.{
  Attempts, max_tracked, note_refresh, retain_attempts, stale_refresh_allowed, swept, tried_lately,
}

pub record Call : Type 0 where
  pub key : CacheKey
  pub interval : ℕ
  pub now : ℕ

unfoldable pub run : Attempts → List Call → Attempts
run table [] = table
run table (c ∷ cs) = run (stale_refresh_allowed table c.key c.interval c.now).0 cs

note-le :
    (table : Attempts) (key : CacheKey) (now : ℕ)
    → length table ≤ max_tracked
    → length (note_refresh table key now) ≤ max_tracked
unfolding note_refresh
note-le table key now h = ground (arith, length-dict_insert-le CacheKey-discrete key now table)

length-retain :
    (interval now : ℕ) (table : Attempts)
    → length (retain_attempts interval now table) ≤ length table
unfolding retain_attempts
length-retain interval now [] = omega arith
length-retain interval now ((key, last) ∷ table) = ground (arith, length-retain interval now table)

swept-le : (table : Attempts) (interval now : ℕ) → length (swept table interval now) ≤ length table
unfolding swept
swept-le table interval now = ground (arith, length-retain interval now table)

call-le :
    (table : Attempts) (key : CacheKey) (interval now : ℕ)
    → length table ≤ max_tracked
    → length (stale_refresh_allowed table key interval now).0 ≤ max_tracked
unfolding stale_refresh_allowed
call-le table key interval now h =
    let s = swept-le table interval now in
    let n = note-le (swept table interval now) key now (omega arith) in ground arith

run-le :
    (table : Attempts) (cs : List Call)
    → length table ≤ max_tracked
    → length (run table cs) ≤ max_tracked
unfolding run
run-le table [] h = h
run-le table (c ∷ cs) h =
    run-le (stale_refresh_allowed table c.key c.interval c.now).0 cs
      (call-le table c.key c.interval c.now h)

-- Whatever names are asked for, at whatever times and with whatever intervals, no more than 8192 attempts
-- are kept.
pub tracked_le : (cs : List Call) → length (run [] cs) ≤ 8192
tracked_le cs = run-le [] cs (omega arith)

-- An attempt younger than the interval survives the sweep.
get-retain :
    (key : CacheKey) (at interval now : ℕ) (table : Attempts)
    → now - at < interval
    → dict_get CacheKey-discrete key table ≡ some at
    → dict_get CacheKey-discrete key (retain_attempts interval now table) ≡ some at
unfolding retain_attempts dict_get
get-retain key at interval now [] h e = absurd (none≢some e)
get-retain key at interval now ((k, last) ∷ table) h e = elim (CacheKey-discrete key k) [
  | yes p ↦
      let same : some last ≡ some at = sym (if_pos (CacheKey-discrete key k) p (some last) _) ∙ e in
      let recent = lt→ltb (now - at) interval h in ground arith
  | no p ↦
      let below : dict_get CacheKey-discrete key table ≡ some at =
        sym (if_neg (CacheKey-discrete key k) p (some last) _) ∙ e in
      let kept = get-retain key at interval now table h below in ground arith
]

get-swept :
    (key : CacheKey) (at interval now : ℕ) (table : Attempts)
    → now - at < interval
    → dict_get CacheKey-discrete key table ≡ some at
    → dict_get CacheKey-discrete key (swept table interval now) ≡ some at
unfolding swept
get-swept key at interval now table h e = ground (arith, get-retain key at interval now table h e)

get-note_ne :
    (key other : CacheKey) (now : ℕ) (table : Attempts)
    → key ≢ other
    → dict_get CacheKey-discrete key (note_refresh table other now)
      ≡ dict_get CacheKey-discrete key table
unfolding note_refresh
get-note_ne key other now table h =
    let g =
      dict_get-insert CacheKey-discrete key other now table
      ∙ if_neg (CacheKey-discrete key other) h _ _ in
    ground arith

module _ (key : CacheKey) (at interval : ℕ) where
  -- The attempt at `at` stays on record through every call of its interval.
  call-keeps :
      (table : Attempts) (other : CacheKey) (now : ℕ)
      → now - at < interval
      → dict_get CacheKey-discrete key table ≡ some at
      → dict_get CacheKey-discrete key (stale_refresh_allowed table other interval now).0 ≡ some at
  unfolding stale_refresh_allowed tried_lately
  call-keeps table other now h e = elim (CacheKey-discrete key other) [
    | yes p ↦
        let t = ap (λ k. dict_get CacheKey-discrete k table) p in
        let recent = lt→ltb (now - at) interval h in ground arith
    | no p ↦
        let s = get-swept key at interval now table h e in
        let n = get-note_ne key other now (swept table interval now) p in ground arith
  ]

  tried-refused :
      (table : Attempts) (now : ℕ)
      → now - at < interval
      → dict_get CacheKey-discrete key table ≡ some at
      → (stale_refresh_allowed table key interval now).1 ≡ false
  unfolding stale_refresh_allowed tried_lately
  tried-refused table now h e = let recent = lt→ltb (now - at) interval h in ground arith

  -- All calls are with this interval, and before it is over.
  pub data Within : List Call → Type 0 where
    none_left : Within []
    one_more :
        (other : CacheKey) (now : ℕ) (cs : List Call)
        → now - at < interval
        → Within cs
        → Within (record { key = other; interval = interval; now = now } ∷ cs)

  run-keeps :
      (table : Attempts) (cs : List Call)
      → Within cs
      → dict_get CacheKey-discrete key table ≡ some at
      → dict_get CacheKey-discrete key (run table cs) ≡ some at
  unfolding run
  run-keeps table _ none_left e = e
  run-keeps table _ (one_more other now cs h w) e =
      run-keeps (stale_refresh_allowed table other interval now).0 cs w
        (call-keeps table other now h e)

  noted :
      (table : Attempts)
      → 0 < interval
      → length (retain_attempts interval at table) < max_tracked
      → (stale_refresh_allowed table key interval at).1 ≡ true
      → dict_get CacheKey-discrete key (stale_refresh_allowed table key interval at).0 ≡ some at
  unfolding stale_refresh_allowed note_refresh swept
  noted table h room allowed =
      let g = λ (t : Attempts).
        dict_get-insert CacheKey-discrete key key at t
        ∙ if_pos (CacheKey-discrete key key) refl _ _ in
      let g1 = g table in let g2 = g (retain_attempts interval at table) in ground arith

  -- Once a refresh was allowed, no other for the same key is until the interval is over, whatever is asked
  -- for in between, provided that fewer than 8192 attempts were younger than the interval.
  pub refresh_once :
      (table : Attempts) (cs : List Call) (now : ℕ)
      → length (retain_attempts interval at table) < 8192
      → (stale_refresh_allowed table key interval at).1 ≡ true
      → Within cs
      → now - at < interval
      → (stale_refresh_allowed
          (run (stale_refresh_allowed table key interval at).0 cs)
          key
          interval
          now).1
        ≡ false
  refresh_once table cs now room allowed w h =
      let table' = (stale_refresh_allowed table key interval at).0 in
      tried-refused (run table' cs) now h
        (run-keeps table' cs w (noted table (omega arith) room allowed))
