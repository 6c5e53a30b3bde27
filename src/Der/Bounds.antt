-- ===== src/Der/Bounds.antt =====
-- How far one read of src/util/der.rs gets.
use egressdns.Prelude.{
  List, ap, arith, bind_inv, checked_add, checked_add_inv, drop, drop-drop, drop-take, get_elem?,
  guard, guard_inv, leb, leb→le, length, not, refl, some, some-injective, subst, suc, zero, ℕ, ◌%◌,
  ◌*◌, ◌+◌, ◌-◌, ◌==◌, ◌^◌, ◌≡◌, ◌≤◌,
}
use egressdns.Der.{Reader, Tlv, read_octets, read_length, read_header, read_tlv, slice}

read_octets-pos :
    (buf : List ℕ) (n pos v : ℕ) {p l : ℕ} → read_octets buf n pos v ≡ some (p, l) → p ≡ pos + n
unfolding read_octets
read_octets-pos buf zero pos v h = ground arith
read_octets-pos buf (suc n) pos v h = bind_inv (get_elem? buf pos) h λ b _ h1.
    bind_inv (checked_add pos 1) h1 λ pos' e h2.
      bind_inv (checked_add (v * 256 % 2 ^ 64) b) h2
        λ v' _ h3. omega (arith, read_octets-pos buf n pos' v' h3, checked_add_inv pos 1 e)

read_length-pos :
    (buf : List ℕ) (first pos : ℕ) {p l : ℕ}
    → read_length buf first pos ≡ some (p, l)
    → (pos ≤ p) × (p ≤ pos + 4)
unfolding read_length
read_length-pos buf first pos {p = p} {l = l} h =
    ground (arith, read_octets-pos buf (first % 128) pos 0 {p = p} {l = l})

read_header-pos :
    (r : Reader) {tag start len : ℕ}
    → read_header r ≡ some (tag, start, len)
    → (r.pos + 2 ≤ start) × (start ≤ r.pos + 6)
unfolding read_header
read_header-pos r h = bind_inv (get_elem? r.buf r.pos) h λ tag _ h1.
    bind_inv (checked_add r.pos 1) h1 λ pos1 e1 h2.
      bind_inv (guard (not (tag % 32 == 31))) h2 λ _ _ h3.
        bind_inv (get_elem? r.buf pos1) h3 λ first _ h4.
          bind_inv (checked_add pos1 1) h4 λ pos2 e2 h5.
            bind_inv (read_length r.buf first pos2) h5 λ found l h6.
              let between = read_length-pos r.buf first pos2 l in
              let p1 = checked_add_inv r.pos 1 e1 in
              let p2 = checked_add_inv pos1 1 e2 in
              let start : found.0 ≡ _ = ap (λ (x : ℕ × ℕ × ℕ). x.1) (some-injective h6) in
              (omega arith, omega arith)

slice-drop : (buf : List ℕ) (a b c : ℕ) → a ≤ b → slice buf b c ≡ drop (b - a) (slice buf a c)
unfolding slice
slice-drop buf a b c h =
    let n : c - a - (b - a) ≡ c - b = omega arith in
    let k : a + (b - a) ≡ b = omega arith in
    rw (drop-take (b - a) (c - a) (drop a buf), drop-drop (b - a) a buf, n, k) refl

-- A read that succeeds gets on by at least two bytes, stays within the buffer and leaves it alone. The
-- value that it gives is what ends at the new position, its raw form all that was passed over, and the
-- value is the raw form without a header of two to six bytes.
pub read_tlv-bounds :
    (r : Reader) {t : Tlv} {r' : Reader}
    → read_tlv r ≡ some (t, r')
    → (r'.buf ≡ r.buf)
      × (r.pos + 2 ≤ r'.pos)
      × (r'.pos ≤ length r.buf)
      × (t.raw ≡ slice r.buf r.pos r'.pos)
      × (header : ℕ) × (2 ≤ header)
      × (header ≤ 6)
      × (t.value ≡ drop header t.raw)
unfolding read_tlv
read_tlv-bounds r h = bind_inv (read_header r) h λ header e h1.
    bind_inv (checked_add (header.1) (header.2)) h1 λ stop e' h2.
      bind_inv (guard (leb stop (length r.buf))) h2 λ _ fits h3.
        let within : stop ≤ length r.buf = leb→le _ _ (guard_inv _ fits) in
        let (low, high) = read_header-pos r e in
        subst
          (λ (x : Tlv × Reader).
            (x.1.buf ≡ r.buf)
            × (r.pos + 2 ≤ x.1.pos)
            × (x.1.pos ≤ length r.buf)
            × (x.0.raw ≡ slice r.buf r.pos x.1.pos)
            × (n : ℕ) × (2 ≤ n)
            × (n ≤ 6)
            × (x.0.value ≡ drop n x.0.raw))
          (some-injective h3)
          (
            refl,
            omega (arith, checked_add_inv _ _ e'),
            within,
            refl,
            header.1 - r.pos,
            omega arith,
            omega arith,
            slice-drop r.buf r.pos (header.1) stop (omega arith),
          )
