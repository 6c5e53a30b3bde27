-- ===== src/Policy/Compatible.antt =====
-- When src/policy/corroborate.rs lets two answers support each other.
use egressdns.Prelude.{
  List, Option-cases, arith, inl, inr, refl, subst, sym, true, ℕ, ◌↔◌, ◌∙◌, ◌≡◌,
}
use egressdns.Cache.Name.{str_eq}
use egressdns.Cache.Name.Laws.{str_eq_iff}
use mathlib.Core.Bool.{true≢false}
use egressdns.Message.{Hickory, Message}
use egressdns.Policy.Domains.{folded}
use egressdns.Policy.Corroborate.{
  answers_are_compatible, registrable_suffix, same_terminal, terminal,
}
use egressdns.Policy.Suffix.{IsLastTwo, last_two-IsLastTwo, last_two_unique}
use egressdns.Policy.Terminal.{Terminal, terminal_iff}

module _ {k : Hickory} (to_string : k.Name → List ℕ) where
  -- A message without an error whose terminal record has this type, under this suffix.
  pub record Supports (m : Message k) (type : ℕ) (suffix : List ℕ) : Type 0 where
    pub answered : m.response_code ≡ 0
    pub last : k.Name × ℕ
    pub found : Terminal m.answers last
    pub typed : last.1 ≡ type
    pub under : IsLastTwo (folded (to_string last.0)) suffix

  answers_are_compatible-Supports :
      (a b : Message k)
      → answers_are_compatible to_string a b ≡ true
      → (type : ℕ) × (suffix : List ℕ) × Supports a type suffix × Supports b type suffix
  unfolding answers_are_compatible same_terminal registrable_suffix
  answers_are_compatible-Supports a b h = elim (Option-cases (terminal a)) [
    | inl e ↦ absurd (true≢false (sym h ∙ ground arith))
    | inr (ta, e) ↦ elim (Option-cases (terminal b)) [
      | inl f ↦ absurd (true≢false (sym h ∙ ground arith))
      | inr (tb, f) ↦ (
        ta.1,
        registrable_suffix to_string ta.0,
        record {
          answered = ground arith;
          last = ta;
          found = (terminal_iff a ta).0 e;
          typed = refl;
          under = last_two-IsLastTwo (folded (to_string ta.0));
        },
        record {
          answered = ground arith;
          last = tb;
          found = (terminal_iff b tb).0 f;
          typed = ground arith;
          under =
              subst (IsLastTwo (folded (to_string tb.0))) (sym ((str_eq_iff _ _).0 (ground arith)))
                (last_two-IsLastTwo (folded (to_string tb.0)));
        },
      )
    ]
  ]

  -- Two answers are compatible exactly when both are without an error and there are a record type and a
  -- suffix that both support: the answer's last record that is neither a CNAME nor a signature, or its
  -- last CNAME where there is none, has the type, and an owner name whose last two labels, in lower case,
  -- are the suffix (the whole name where it has no more than two).
  pub answers_are_compatible_iff :
      (a b : Message k)
      → (answers_are_compatible to_string a b ≡ true)
        ↔ ((type : ℕ) × (suffix : List ℕ) × Supports a type suffix × Supports b type suffix)
  unfolding registrable_suffix
  answers_are_compatible_iff a b = (answers_are_compatible-Supports a b, complete)
    where
      complete :
          (type : ℕ) × (suffix : List ℕ) × Supports a type suffix × Supports b type suffix
          → answers_are_compatible to_string a b ≡ true
      complete (type, suffix, sa, sb) =
          let last_a = (terminal_iff a sa.last).1 sa.found in
          let last_b = (terminal_iff b sb.last).1 sb.found in
          let same : str_eq (registrable_suffix to_string sa.last.0)
                (registrable_suffix to_string sb.last.0)
              ≡ true =
            (str_eq_iff _ _).1
              (last_two_unique _ suffix sa.under ∙ sym (last_two_unique _ suffix sb.under)) in
          let types : sa.last.1 ≡ sb.last.1 = sa.typed ∙ sym sb.typed in
          let t : same_terminal to_string sa.last sb.last ≡ true =
            unfold same_terminal in ground arith in
          unfold answers_are_compatible in ground (arith, sa.answered, sb.answered, last_a, last_b)
