-- ===== src/Bytes/Order.antt =====
-- `cmp_bits` at the first bit where two blocks differ.
use ebmbtreebench.Prelude.{
  ℕ, ◌≡◌, ◌≢◌, ◌⊎◌, ◌≤◌, ◌<◌, ◌+◌, ◌-◌, ◌*◌, ◌/◌, ◌%◌, ◌^◌, suc, arith, refl, inl, inr, sym, ◌∙◌,
}
use ebmbtreebench.Memory.{pos, negsuc}
use ebmbtreebench.Bytes.{Bytes, get_bit, cmp_bits}
use ebmbtreebench.Bytes.Byte.{get_bit-at, agree_down}
use ebmbtreebench.Fls.Shift.{shift_lt, shift_suc}
use ebmbtreebench.Tree.Valid.{ℕ-cases}
use mathlib.Core.Path.{subst}

-- For blocks of bytes whose bits are equal from the start of a byte up to a bit of it, and differ
-- there, `cmp_bits` gives -1 at that bit where the byte of the first block is lower, and 1 where it
-- is higher.
pub cmp_bits-order :
    (a b : Bytes) (n : ℕ)
    → ((i : ℕ) → a i < 256)
    → ((i : ℕ) → b i < 256)
    → ((i : ℕ) → n / 8 * 8 ≤ i → i < n → get_bit a i ≡ get_bit b i)
    → get_bit a n ≢ get_bit b n
    → ((cmp_bits a b n ≡ negsuc 0) × (a (n / 8) < b (n / 8)))
      ⊎ ((cmp_bits a b n ≡ pos 1) × (b (n / 8) < a (n / 8)))
unfolding cmp_bits get_bit
cmp_bits-order a b n bytes_a bytes_b same differs =
    let p = n / 8 in
    let k = n % 8 in
    let whole : p * 8 + k ≡ n = omega arith in
    let up = agree_down (a p) (b p) k (8 - k) (omega arith) (bytes_a p) (bytes_b p) (λ j l.
      sym (get_bit-at a p j (omega arith))
      ∙ same (p * 8 + j) (omega arith) (omega arith)
      ∙ get_bit-at b p j (omega arith)) in
    let split : suc (7 - k) ≡ 8 - k = omega arith in
    let up' : a p / 2 ^ suc (7 - k) ≡ b p / 2 ^ suc (7 - k) =
      subst (λ z. a p / 2 ^ z ≡ b p / 2 ^ z) (sym split) up in
    let x = a p / 2 ^ (7 - k) in
    let y = b p / 2 ^ (7 - k) in
    let half : x / 2 ≡ y / 2 = sym (shift_suc (a p) (7 - k)) ∙ up' ∙ shift_suc (b p) (7 - k) in
    elim (ℕ-cases (x % 2)) [
      | inl ex ↦
          let ey : y % 2 ≡ 1 = elim (ℕ-cases (y % 2)) [
            | inl e ↦ absurd (differs (ex ∙ sym e))
            | inr i ↦ omega arith
          ] in
          inl (rw (ex, ey) refl, shift_lt (a p) (b p) (7 - k) (omega arith))
      | inr px ↦
          let ex : x % 2 ≡ 1 = omega arith in
          let ey : y % 2 ≡ 0 = elim (ℕ-cases (y % 2)) [
            | inl e ↦ e
            | inr i ↦ absurd (differs (ex ∙ sym (let e : y % 2 ≡ 1 = omega arith in e)))
          ] in
          inr (rw (ex, ey) refl, shift_lt (b p) (a p) (7 - k) (omega arith))
    ]
