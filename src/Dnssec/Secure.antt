-- ===== src/Dnssec/Secure.antt =====
-- When src/policy/dnssec.rs calls an answer authentic, and what it makes of failures.
use egressdns.Prelude.{
  ==_false, ==_iff, Bool, Bool-cases, List, [], ap, arith, false, inl, inr, ltb, ltb→lt, refl, sym,
  tests, true, ◌++◌, ◌==◌, ◌↔◌, ◌∷◌, ◌≡◌, ◌≢◌, ◌≤◌, ◌⊎◌,
}
use mathlib.Core.Bool.{true≢false}
use egressdns.Cache.Entry.{DnssecStatus}
use egressdns.Message.{Hickory, Message, Proof, Record, record_type, type_opt}
use egressdns.Dnssec.{DnssecConfig, dnssec_status, verdict, status_of, strength, weakest}

strength-secure : (p : Proof) → ltb (strength p) 3 ≡ false → p ≡ Proof.secure
unfolding strength
strength-secure Proof.secure h = refl
strength-secure Proof.insecure h = absurd (true≢false h)
strength-secure Proof.bogus h = absurd (true≢false h)
strength-secure Proof.indeterminate h = absurd (true≢false h)

verdict-secure :
    (w : Bool × Proof) → (verdict w ≡ DnssecStatus.secure) ↔ ((w.0 ≡ true) × (w.1 ≡ Proof.secure))
unfolding verdict status_of
verdict-secure (true, Proof.secure) = (λ h. (refl, refl), λ h. refl)
verdict-secure (true, Proof.insecure) = (λ h. absurd cc, λ h. absurd cc)
verdict-secure (true, Proof.bogus) = (λ h. absurd cc, λ h. absurd cc)
verdict-secure (true, Proof.indeterminate) = (λ h. absurd cc, λ h. absurd cc)
verdict-secure (false, p) = (λ h. absurd cc, λ h. absurd (true≢false (sym h.0)))

module _ {k : Hickory} where
  -- Every record but OPT pseudo-records is proven secure.
  abbrev pub AllSecure : List (Record k) → Type 0
  AllSecure [] = Unit
  AllSecure (r ∷ rs) = (record_type r ≢ type_opt → r.proof ≡ Proof.secure) × AllSecure rs

  -- Some record is no OPT pseudo-record.
  abbrev pub SomeReal : List (Record k) → Type 0
  SomeReal [] = ⊥
  SomeReal (r ∷ rs) = (record_type r ≢ type_opt) ⊎ SomeReal rs

  -- The weakest proof is never stronger than the one at the start.
  weakest-le :
      (rs : List (Record k)) (saw : Bool) (worst : Proof)
      → strength (weakest rs saw worst).1 ≤ strength worst
  unfolding weakest
  weakest-le [] saw worst = omega arith
  weakest-le (r ∷ rs) saw worst = elim (Bool-cases (record_type r == type_opt)) [
    | inl e ↦ rw e (weakest-le rs saw worst)
    | inr e ↦ elim (Bool-cases (ltb (strength r.proof) (strength worst))) [
      | inl lower ↦ rw (e, lower) (omega (tests, weakest-le rs true r.proof, lower))
      | inr higher ↦ rw (e, higher) (weakest-le rs true worst)
    ]
  ]

  weakest-secure :
      (rs : List (Record k)) (saw : Bool)
      → (weakest rs saw Proof.secure).1 ≡ Proof.secure
      → AllSecure rs
  unfolding weakest
  weakest-secure [] saw h = tt
  weakest-secure (r ∷ rs) saw h = elim (Bool-cases (record_type r == type_opt)) [
    | inl e ↦ (
      λ ne. absurd (ne ((==_iff (record_type r) type_opt).0 e)),
      weakest-secure rs saw (rw (weakest, e) at h),
    )
    | inr e ↦ elim (Bool-cases (ltb (strength r.proof) 3)) [
      | inl lower ↦
          let h' : (weakest rs true r.proof).1 ≡ Proof.secure = rw (weakest, e, lower) at h in
          let top : strength (weakest rs true r.proof).1 ≡ 3 = ap strength h' in
          absurd (omega (arith, weakest-le rs true r.proof, top, ltb→lt _ _ lower))
      | inr higher ↦ (
        λ ne. strength-secure r.proof higher,
        weakest-secure rs true (rw (weakest, e, higher) at h),
      )
    ]
  ]

  secure-weakest :
      (rs : List (Record k)) (saw : Bool)
      → AllSecure rs
      → (weakest rs saw Proof.secure).1 ≡ Proof.secure
  unfolding weakest
  secure-weakest [] saw h = refl
  secure-weakest (r ∷ rs) saw (here, h) = elim (Bool-cases (record_type r == type_opt)) [
    | inl e ↦ rw e (secure-weakest rs saw h)
    | inr e ↦
        let p = here (==_false (record_type r) type_opt e) in
        let higher : ltb (strength r.proof) 3 ≡ false = ap (λ q. ltb (strength q) 3) p in
        rw (e, higher) (secure-weakest rs true h)
  ]

  weakest-saw :
      (rs : List (Record k)) (saw : Bool) (worst : Proof)
      → ((weakest rs saw worst).0 ≡ true) ↔ ((saw ≡ true) ⊎ SomeReal rs)
  unfolding weakest
  weakest-saw [] saw worst = (λ h. inl h, λ h. elim h [ inl e ↦ e | inr e ↦ elim e [ ] ])
  weakest-saw (r ∷ rs) saw worst = elim (Bool-cases (record_type r == type_opt)) [
    | inl e ↦
        let ih = weakest-saw rs saw worst in
        (
          λ h. elim (ih.0 (rw e at h)) [ inl s ↦ inl s | inr q ↦ inr (inr q) ],
          λ q. rw e (
              ih.1 (elim q [
                | inl s ↦ inl s
                | inr (inl ne) ↦ absurd (ne ((==_iff (record_type r) type_opt).0 e))
                | inr (inr q') ↦ inr q'
              ])),
        )
    | inr e ↦ (
      λ h. inr (inl (==_false (record_type r) type_opt e)),
      λ q. elim (Bool-cases (ltb (strength r.proof) (strength worst))) [
        | inl lower ↦ rw (e, lower) ((weakest-saw rs true r.proof).1 (inl refl))
        | inr higher ↦ rw (e, higher) ((weakest-saw rs true worst).1 (inl refl))
      ],
    )
  ]

  -- With validation on, an answer counts as secure exactly when its answer and authority sections hold
  -- some record besides OPT and every such record is proven secure.
  pub dnssec_status-secure_iff :
      (m : Message k) (cfg : DnssecConfig) (ad : Bool)
      → cfg.off ≡ false
      → (dnssec_status m cfg ad ≡ DnssecStatus.secure)
        ↔ (SomeReal (m.answers ++ m.authorities) × AllSecure (m.answers ++ m.authorities))
  unfolding dnssec_status
  dnssec_status-secure_iff m cfg ad on =
      let rs = m.answers ++ m.authorities in
      let v = verdict-secure (weakest rs false Proof.secure) in
      let saw = weakest-saw rs false Proof.secure in
      (
        λ h.
            let (seen, top) = v.0 (rw (dnssec_status, on) at h) in
            (
              elim (saw.0 seen) [ inl e ↦ absurd (true≢false (sym e)) | inr q ↦ q ],
              weakest-secure rs false top,
            ),
        λ (q, all). rw on (v.1 (saw.1 (inr q), secure-weakest rs false all)),
      )
