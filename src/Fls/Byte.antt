-- ===== src/Fls/Byte.antt =====
-- `flsnz8_generic` on every byte, by evaluation.
use ebmbtreebench.Fls.{flsnz, flsnz8_generic, ℕ}
use ebmbtreebench.Prelude.{
  ℕ, ◌≡◌, Bool, true, ◌<◌, suc, arith, leb, ◌≤◌, refl, ◌&&◌, zero, ◌^◌, ◌-◌, ltb, ◌==◌,
  if◌then◌else◌, false,
}

-- Whether a test holds of the numbers under a bound.
unfoldable pub holds_to : (ℕ → Bool) → ℕ → Bool
holds_to test zero = true
holds_to test (suc bound) = if test bound then holds_to test bound else false

pub holds_to-at :
    (test : ℕ → Bool) (y bound : ℕ) → y < bound → holds_to test bound ≡ true → test y ≡ true
unfolding holds_to
holds_to-at test y zero i all = absurd (omega arith)
holds_to-at test y (suc bound) i all = ground (arith, holds_to-at test y bound)

-- The tests of the table, at `x + 1`.
abbrev is_top_bit : ℕ → Bool
is_top_bit x =
    leb 1 (flsnz8_generic (suc x))
    && (leb (flsnz8_generic (suc x)) 8
        && (leb (2 ^ (flsnz8_generic (suc x) - 1)) (suc x)
            && (ltb (suc x) (2 ^ flsnz8_generic (suc x))
                && (flsnz (suc x) == flsnz8_generic (suc x)))))

table : holds_to is_top_bit 255 ≡ true
unfolding holds_to flsnz8_generic flsnz
table = refl

-- For every byte but 0, `flsnz8_generic` is the position of the highest bit that is set, counted
-- from 1 to 8: the byte is at least 2 to the position less 1, and below 2 to the position. The
-- macro `flsnz` gives the same position.
pub flsnz8_generic_bounds :
    (x : ℕ)
    → 0 < x
    → x < 256
    → (1 ≤ flsnz8_generic x)
      × (flsnz8_generic x ≤ 8)
      × (2 ^ (flsnz8_generic x - 1) ≤ x)
      × (x < 2 ^ flsnz8_generic x)
      × (flsnz x ≡ flsnz8_generic x)
flsnz8_generic_bounds zero i h = absurd (omega arith)
flsnz8_generic_bounds (suc x) i h = split (holds_to-at is_top_bit x 255 (omega arith) table)
  where
    split :
        is_top_bit x ≡ true
        → (1 ≤ flsnz8_generic (suc x))
          × (flsnz8_generic (suc x) ≤ 8)
          × (2 ^ (flsnz8_generic (suc x) - 1) ≤ suc x)
          × (suc x < 2 ^ flsnz8_generic (suc x))
          × (flsnz (suc x) ≡ flsnz8_generic (suc x))
    split e = (ground arith, ground arith, ground arith, ground arith, ground arith)
