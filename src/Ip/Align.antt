-- ===== src/Ip/Align.antt =====
-- Blocks of `2 ^ k` numbers: what clearing `k` low bits says about ranges.
use native.Mathlib.Nat.{div-eq_of_lt-le, le-div_iff_mul-le}
use flannel_rust.Prelude.{ℕ, ◌+◌, ◌-◌, ◌*◌, ◌/◌, ◌^◌, ◌≤◌, ◌<◌, ◌≡◌, sym, ap, ◌↔◌, arith}
use flannel_rust.Prelude.Mask.{align, pow_pos, pow_split}

block_bounds : (d x : ℕ) → 1 ≤ d → (x / d * d ≤ x) × (x < x / d * d + d)
block_bounds d x h = omega arith

pub align_bounds : (k x : ℕ) → (align k x ≤ x) × (x < align k x + 2 ^ k)
align_bounds k x = block_bounds (2 ^ k) x (pow_pos k)

block_unique : (d x q : ℕ) → q * d ≤ x → x < q * d + d → x / d ≡ q
block_unique d x q lo hi = div-eq_of_lt-le d lo (omega arith)

-- A number lies in the block of `x` exactly when clearing its low bits gives the same start.
pub align-eq_iff :
    (k x y : ℕ) → (align k x ≡ align k y) ↔ ((align k x ≤ y) × (y < align k x + 2 ^ k))
align-eq_iff k x y = (
  λ e. omega (arith, align_bounds k y),
  λ h. sym (ap (λ (t : ℕ). t * 2 ^ k) (block_unique (2 ^ k) y (x / 2 ^ k) h.0 h.1)),
)

pub align_idem : (k x : ℕ) → align k (align k x) ≡ align k x
align_idem k x = sym ((align-eq_iff k x (align k x)).1 (omega (arith, pow_pos k)))

mul_mono : (c m d : ℕ) → c ≤ m → c * d ≤ m * d
mul_mono c m d h = grind arith

block_below : (d c x : ℕ) → 1 ≤ d → c * d ≤ x → c * d ≤ x / d * d
block_below d c x pos h = mul_mono c (x / d) d ((le-div_iff_mul-le pos).1 h)

mul_assoc_eq : (a b c d : ℕ) → d ≡ b * c → a * d ≡ a * b * c
mul_assoc_eq a b c d e = rw e (omega arith)

-- The start of a larger block is not above the start of the smaller one around the same number.
pub align_le_align : (j k x : ℕ) → j ≤ k → align k x ≤ align j x
align_le_align j k x h =
    let e = mul_assoc_eq (x / 2 ^ k) (2 ^ (k - j)) (2 ^ j) (2 ^ k) (pow_split j k h) in
    rw e (
      block_below (2 ^ j) (x / 2 ^ k * 2 ^ (k - j)) x (pow_pos j)
        (omega (arith, e, (align_bounds k x).0)))

-- Clearing more bits depends only on what the clearing of fewer leaves.
pub align_coarse : (j k x : ℕ) → j ≤ k → align k (align j x) ≡ align k x
align_coarse j k x h = sym (
    (align-eq_iff k x (align j x)).1
      (align_le_align j k x h, omega (arith, align_bounds j x, align_bounds k x)))
