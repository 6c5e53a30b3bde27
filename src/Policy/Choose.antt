-- ===== src/Policy/Choose.antt =====
-- The loop of `apply_answer_policy` of src/policy/answer.rs that picks the addresses to add.
use egressdns.Prelude.{
  Bool, Bool-cases, List, [], and_inv, arith, false, inl, inr, leb, leb→le, length, length-append,
  not_inv, or_inv, refl, sym, true, ℕ, ◌++◌, ◌==◌, ◌∙◌, ◌∷◌, ◌≡◌, ◌≤◌, ◌⊎◌,
}
use egressdns.Net.{IpAddr, same_address, same_address_comm}
use egressdns.Float.{Floats}
use egressdns.IpClass.{IpnetCrate}
use egressdns.Message.{type_a}
use egressdns.Policy.Answer.{
  AnswerContext, VerifiedCandidate, acceptable, choose, holds, in_snapshot, is_ipv4, is_special,
  same,
}

-- No address twice.
abbrev pub NoRepeat : List IpAddr → Type 0
NoRepeat [] = Unit
NoRepeat (a ∷ as') = (holds as' a ≡ false) × NoRepeat as'

holds-snoc :
    (as' : List IpAddr) (a b : IpAddr)
    → holds as' b ≡ false
    → same_address a b ≡ false
    → holds (as' ++ a ∷ []) b ≡ false
unfolding holds
holds-snoc [] a b h ne = rw ne refl
holds-snoc (c ∷ as') a b h ne =
    let (first, later) = or_inv (same_address c b) (holds as' b) h in
    rw first (holds-snoc as' a b later ne)

NoRepeat-snoc :
    (as' : List IpAddr) (a : IpAddr) → NoRepeat as' → holds as' a ≡ false → NoRepeat (as' ++ a ∷ [])
unfolding holds
NoRepeat-snoc [] a n h = (refl, tt)
NoRepeat-snoc (b ∷ as') a (first, n) h =
    let (ne, later) = or_inv (same_address b a) (holds as' a) h in
    (holds-snoc as' a b first (same_address_comm a b ∙ ne), NoRepeat-snoc as' a n later)

same_inv : (a b : Bool) → same a b ≡ true → a ≡ b
unfolding same
same_inv true b h = sym h
same_inv false b h = sym (not_inv b h)

module _ {fl : Floats} (crate : IpnetCrate) (ctx : AnswerContext fl) where
  abbrev pub Among : VerifiedCandidate fl → List (VerifiedCandidate fl) → Type 0
  Among c [] = ⊥
  Among c (d ∷ ds) = (c ≡ d) ⊎ Among c ds

  -- What holds of an address that is added: a fresh candidate with the evidence that the configuration
  -- asks for, of the queried family, a Cloudflare address now, of no special class, and not an address
  -- that the RRset has.
  abbrev pub Allowed : ℕ → List IpAddr → IpAddr → Type 0
  Allowed rtype existing a =
      (c : VerifiedCandidate fl) × Among c ctx.verified
      × (c.addr ≡ a)
      × (c.fresh ≡ true)
      × (ctx.augment.min_validations ≤ c.successes)
      × (ctx.augment.min_samples ≤ c.samples)
      × (is_ipv4 a ≡ (rtype == type_a))
      × (in_snapshot crate ctx a ≡ true)
      × (is_special crate ctx a ≡ false)
      × (holds existing a ≡ false)

  abbrev pub AllAllowed : ℕ → List IpAddr → List IpAddr → Type 0
  AllAllowed rtype existing [] = Unit
  AllAllowed rtype existing (a ∷ as') = Allowed rtype existing a × AllAllowed rtype existing as'

  AllAllowed-snoc :
      (rtype : ℕ) (existing as' : List IpAddr) (a : IpAddr)
      → AllAllowed rtype existing as'
      → Allowed rtype existing a
      → AllAllowed rtype existing (as' ++ a ∷ [])
  AllAllowed-snoc rtype existing [] a h here = (here, tt)
  AllAllowed-snoc rtype existing (b ∷ as') a (first, h) here =
      (first, AllAllowed-snoc rtype existing as' a h here)

  acceptable-Allowed :
      (rtype : ℕ) (existing : List IpAddr) (best : fl.F) (to_add : List IpAddr)
      (c : VerifiedCandidate fl)
      → Among c ctx.verified
      → acceptable crate ctx rtype existing best to_add c ≡ true
      → Allowed rtype existing c.addr × (holds to_add c.addr ≡ false)
  unfolding acceptable
  acceptable-Allowed rtype existing best to_add c among h =
      let (is_fresh, h1) = and_inv _ _ h in
      let (validated, h2) = and_inv _ _ h1 in
      let (sampled, h3) = and_inv _ _ h2 in
      let (family, h4) = and_inv _ _ h3 in
      let (inside, h5) = and_inv _ _ h4 in
      let (ordinary, h6) = and_inv _ _ h5 in
      let (fresh_address, h7) = and_inv _ _ h6 in
      let (not_existing, not_chosen) = or_inv _ _ (not_inv _ fresh_address) in
      (
        (
          c,
          among,
          refl,
          is_fresh,
          leb→le _ _ validated,
          leb→le _ _ sampled,
          same_inv _ _ family,
          inside,
          not_inv _ ordinary,
          not_existing,
        ),
        not_chosen,
      )

  -- What the loop returns is allowed, free of repeats and within the bound.
  pub choose_sound :
      (rtype : ℕ) (existing : List IpAddr) (best : fl.F) (cs : List (VerifiedCandidate fl))
      (to_add : List IpAddr)
      → ((c : VerifiedCandidate fl) → Among c cs → Among c ctx.verified)
      → AllAllowed rtype existing to_add
      → NoRepeat to_add
      → length to_add ≤ ctx.augment.max_added
      → AllAllowed rtype existing (choose crate ctx rtype existing best cs to_add)
        × NoRepeat (choose crate ctx rtype existing best cs to_add)
        × (length (choose crate ctx rtype existing best cs to_add) ≤ ctx.augment.max_added)
  unfolding choose
  choose_sound rtype existing best [] to_add sub ok n bound = (ok, n, bound)
  choose_sound rtype existing best (c ∷ cs) to_add sub ok n bound =
      elim (Bool-cases (leb ctx.augment.max_added (length to_add))) [
        | inl full ↦ rw full (ok, n, bound)
        | inr room ↦
            let sub' : (d : VerifiedCandidate fl) → Among d cs → Among d ctx.verified =
              λ d m. sub d (inr m) in
            elim (Bool-cases (acceptable crate ctx rtype existing best to_add c)) [
              | inl good ↦
                  let (allowed, unused) =
                    acceptable-Allowed rtype existing best to_add c (sub c (inl refl)) good in
                  rw (room, good)
                    (choose_sound rtype existing best cs (to_add ++ c.addr ∷ []) sub'
                      (AllAllowed-snoc rtype existing to_add c.addr ok allowed)
                      (NoRepeat-snoc to_add c.addr n unused)
                      (ground (arith, length-append to_add (c.addr ∷ []))))
              | inr bad ↦
                  rw (room, bad) (choose_sound rtype existing best cs to_add sub' ok n bound)
            ]
      ]
