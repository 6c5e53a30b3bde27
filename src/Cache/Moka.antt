-- ===== src/Cache/Moka.antt =====
-- What src/cache/mod.rs relies on in `moka::sync::Cache`, a bounded concurrent map with
-- time-based expiry: the type of its contents, the calls made, and their documented behaviour.
-- `moka` may give up any entry when one is written and when its housekeeping runs, and never
-- serves what was not written or was invalidated.
use egressdns.Prelude.{
  Bool, Option, arith, false, inl, inr, ite, none, refl, some, sym, ◌∙◌, ◌≡◌, ◌≢◌, ◌⊎◌,
}

none≢some : {A : Type 0} {a : A} → none ≢ some a
none≢some e = cc

pub record MokaCache (K V : Type 0) (dec : Discrete K) : Type 1 where
  pub Store : Type 0
  pub build : Store
  pub get : Store → K → Option V
  pub insert : K → V → Store → Store
  pub invalidate : K → Store → Store
  pub invalidate_entries_if : (K → Bool) → Store → Store
  pub invalidate_all : Store → Store
  pub run_pending_tasks : Store → Store
  pub get-build : (k : K) → get build k ≡ none
  pub get-insert :
      (k j : K) (v : V) (s : Store)
      → (get (insert j v s) k ≡ none) ⊎ (get (insert j v s) k ≡ ite (dec k j) (some v) (get s k))
  pub get-invalidate :
      (k j : K) (s : Store)
      → (get (invalidate j s) k ≡ none) ⊎ ((get (invalidate j s) k ≡ get s k) × (k ≢ j))
  pub get-invalidate_if :
      (k : K) (p : K → Bool) (s : Store)
      → (get (invalidate_entries_if p s) k ≡ none)
        ⊎ ((get (invalidate_entries_if p s) k ≡ get s k) × (p k ≡ false))
  pub get-invalidate_all : (k : K) (s : Store) → get (invalidate_all s) k ≡ none
  pub get-run_pending_tasks :
      (k : K) (s : Store)
      → (get (run_pending_tasks s) k ≡ none) ⊎ (get (run_pending_tasks s) k ≡ get s k)

module _ {K V : Type 0} {dec : Discrete K} (m : MokaCache K V dec) where
  pub get-invalidate_self : (k : K) (s : m.Store) → m.get (m.invalidate k s) k ≡ none
  get-invalidate_self k s = elim (m.get-invalidate k k s) [
    | inl gone ↦ gone
    | inr (_, other) ↦ absurd (other refl)
  ]

  -- What is read after a write was written, or was there before.
  pub get-insert_some :
      {k j : K} {v w : V} {s : m.Store}
      → m.get (m.insert j v s) k ≡ some w
      → ((k ≡ j) × (w ≡ v)) ⊎ ((k ≢ j) × (m.get s k ≡ some w))
  get-insert_some {k} {j} {v} {w} {s} h = elim (m.get-insert k j v s) [
    | inl gone ↦ absurd (none≢some (sym gone ∙ h))
    | inr e ↦ elim (dec k j) [ yes p ↦ inl (p, ground arith) | no p ↦ inr (p, ground arith) ]
  ]
