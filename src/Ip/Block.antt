-- ===== src/Ip/Block.antt =====
-- Blocks of a `w`-bit address space, by the number of their host bits: inclusion and intersection.
use native.Mathlib.Nat.{mod-eq_of_lt, mod-eq-sub-mod}
use native.Mathlib.Omega.{pow_step}
use flannel_rust.Prelude.{
  ℕ, ◌+◌, ◌-◌, ◌*◌, ◌%◌, ◌^◌, ◌≤◌, ◌<◌, ◌≡◌, refl, sym, ◌∙◌, ◌↔◌, inl, inr, ◌||◌, arith, ltb, ◌==◌,
  Bool-cases, ltb-false→le, suc, ap, if◌then◌else◌,
}
use flannel_rust.Prelude.Mask.{align, pow_pos, pow_le, le_of_pow_le, align_fits, shifted_ones}
use flannel_rust.Ip.Align.{align_bounds, align-eq_iff, align_coarse}

-- The bits below a prefix; a prefix of 0 or above `w` masks to 0.
unfoldable pub host_bits_of : ℕ → ℕ → ℕ
host_bits_of w p = if p == 0 || ltb w p then w else w - p

pub host_bits_of-le : (w p : ℕ) → host_bits_of w p ≤ w
unfolding host_bits_of
host_bits_of-le w p = ground arith

pub host_bits_of-proper : (w p : ℕ) → p ≤ w → host_bits_of w p ≡ w - p
unfolding host_bits_of
host_bits_of-proper w p h = ground arith

-- The mask as the code computes it: `MAX << (w - p)`, or 0.
pub masked_ones :
    (w p : ℕ)
    → (if p == 0 || ltb w p then 0 else (2 ^ w - 1) * 2 ^ (w - p) % 2 ^ w)
      ≡ 2 ^ w - 2 ^ host_bits_of w p
unfolding host_bits_of
masked_ones w p = elim (Bool-cases (p == 0 || ltb w p)) [
  | inl zero_mask ↦ rw zero_mask (omega arith)
  | inr proper ↦ rw proper (shifted_ones w (w - p) (omega arith))
]

-- The distance between siblings as the code computes it: `1 << (w - p)`, for a proper prefix.
pub shifted_one :
    (w p : ℕ)
    → 0 < p
    → p ≤ w
    → ((if p == 0 || ltb w p then 0 else 1 * 2 ^ (w - p) % 2 ^ w) ≡ 2 ^ host_bits_of w p)
      × (host_bits_of w p < w)
unfolding host_bits_of
shifted_one w p pos h = elim (Bool-cases (p == 0 || ltb w p)) [
  | inl improper ↦ absurd (ground arith)
  | inr proper ↦
      let below : w - p < w = omega arith in
      let less : 2 ^ (w - p) < 2 ^ w =
        omega (arith, pow_step 2 (w - p), pow_le (suc (w - p)) w below, pow_pos (w - p)) in
      rw proper (ap (λ (t : ℕ). t % 2 ^ w) (one_mul (2 ^ (w - p))) ∙ mod-eq_of_lt less, below)
]
  where
    one_mul : (t : ℕ) → 1 * t ≡ t
    one_mul t = omega arith

-- `x` lies in the block of `a` with `k` host bits.
abbrev pub Inside : ℕ → ℕ → ℕ → Type 0
Inside k a x = align k a ≡ align k x

-- A coarser block of the same address holds all of a finer one.
pub Inside-coarsen : (j k x y : ℕ) → j ≤ k → Inside j x y → Inside k x y
Inside-coarsen j k x y h e = sym (align_coarse j k x h) ∙ rw e (align_coarse j k y h)

pub mask_le_iff : (w j k : ℕ) → j ≤ w → k ≤ w → (2 ^ w - 2 ^ k ≤ 2 ^ w - 2 ^ j) ↔ (j ≤ k)
mask_le_iff w j k hj hk =
    let pj = pow_le j w hj in
    let pk = pow_le k w hk in
    (λ h. le_of_pow_le j k (omega arith), λ h. omega (arith, pow_le j k h))

-- Of two blocks that share an address, the larger holds the start of the smaller.
pub Inside-share : (j k a b x : ℕ) → j ≤ k → Inside k a x → Inside j b x → Inside k a b
Inside-share j k a b x h ea eb = ea ∙ sym (Inside-coarsen j k b x h eb)

module _ (w j k a b : ℕ) (hj : j ≤ w) (ha : a < 2 ^ w) (hb : b < 2 ^ w) where
  -- If both ends of a block lie in another, then it is no larger.
  ends_bound : Inside k a (align j b) → Inside k a (align j b + (2 ^ j - 1)) → j ≤ k
  ends_bound low high =
      le_of_pow_le j k
        (omega (arith, (align-eq_iff k a _).0 low, (align-eq_iff k a _).0 high, pow_pos j))

  -- Inclusion of blocks is the order of their sizes, with the start of the one in the other.
  pub subset_iff : ((j ≤ k) × Inside k a b) ↔ ((x : ℕ) → x < 2 ^ w → Inside j b x → Inside k a x)
  subset_iff = (
    λ h x hx e. h.1 ∙ Inside-coarsen j k b x h.0 e,
    λ subset.
        let fits = align_fits w j b hj hb in
        let low = align_bounds j b in
        let pos = pow_pos j in
        (
          ends_bound (subset (align j b) (omega arith) ((align-eq_iff j b _).1 (omega arith))) (
              subset (align j b + (2 ^ j - 1)) (omega arith)
                ((align-eq_iff j b _).1 (omega arith))),
          subset b hb refl,
        ),
  )

-- A step of `p` modulo `m` moves by at least `p`, where `2 p ≤ m`.
wrap_apart :
    (p m x : ℕ) → 2 * p ≤ m → 1 ≤ p → x < m → ¬ ((x < (x + p) % m + p) × ((x + p) % m < x + p))
wrap_apart p m x h pos lt near = elim (Bool-cases (ltb (x + p) m)) [
  | inl stays ↦ let e : (x + p) % m ≡ x + p = mod-eq_of_lt (ground arith) in omega (arith, e, near)
  | inr wraps ↦
      let e : (x + p) % m ≡ (x + p - m) % m = mod-eq-sub-mod (ground arith) in
      let f : (x + p - m) % m ≡ x + p - m = mod-eq_of_lt (omega arith) in
      omega (arith, e, f, near, ltb-false→le _ _ wraps)
]

-- A block that is not the whole space does not meet the next one.
pub next_apart : (w k x : ℕ) → k < w → x < 2 ^ w → ¬ Inside k ((x + 2 ^ k) % 2 ^ w) x
next_apart w k x h lt e =
    let y = (x + 2 ^ k) % 2 ^ w in
    wrap_apart (2 ^ k) (2 ^ w) x (omega (arith, pow_step 2 k, pow_le (suc k) w h)) (pow_pos k) lt
      (omega (arith, (align-eq_iff k y x).0 e, align_bounds k y, align_bounds k x, e))
