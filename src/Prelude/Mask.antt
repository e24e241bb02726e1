-- ===== src/Prelude/Mask.antt =====
-- Netmasks as arithmetic: `&` with the w - k high bits, and `|` with the k low bits.
use Prim.Native.Nat.{ℕ, zero, suc, ◌+◌, ◌-◌, ◌*◌, ◌/◌, ◌%◌, ◌^◌, ◌≤◌, ◌<◌, bit_and, bit_or}
use mathlib.Core.Path.{◌≡◌, refl, sym, ap, ◌∙◌}
use native.Mathlib.Nat.{div-div-eq-div-mul, one-le-pow, pow-le-pow_right, add-mul-mod_self_left}
use native.Mathlib.Nat.{mod-lt, mul_assoc, div-add-mod, mod-eq_of_lt, div-lt_iff_lt-mul}
use native.Mathlib.Omega.{arith, pow_step}
use mathlib.Core.Logic.{inl, inr}
use flannel_rust.Prelude.Tests.{leb, leb→le, Bool-cases}
use flannel_rust.Prelude.Digits.{zero_and, bit_and-digit, bit_or-digit}

pub pow_pos : (k : ℕ) → 1 ≤ 2 ^ k
pow_pos k = one-le-pow k 2 (omega arith)

mul_twice : (q p s : ℕ) → s ≡ 2 * p → q * s ≡ 2 * (q * p)
mul_twice q p s e = rw e (omega arith)

pred_suc : (a : ℕ) → suc a - 1 ≡ a
pred_suc a = omega arith

mul_less_one : (a p : ℕ) → 1 ≤ a → a * p - p ≡ (a - 1) * p
mul_less_one zero p h = absurd (omega arith)
mul_less_one (suc a) p h = rw (pred_suc a) (omega arith)

less_one_mul : (m p : ℕ) → p ≤ m → 1 ≤ p → (m - 1) * p ≡ (m - p) + m * (p - 1)
less_one_mul m zero h pos = absurd (omega arith)
less_one_mul zero (suc p) h pos = absurd (omega arith)
less_one_mul (suc m) (suc p) h pos = rw (pred_suc m, pred_suc p) (omega arith)

-- `2 ^ k` divides `2 ^ w`, with the quotient written out.
pub pow_split : (k w : ℕ) → k ≤ w → 2 ^ w ≡ 2 ^ (w - k) * 2 ^ k
pow_split zero w h = let e : w - 0 ≡ w = omega arith in rw e (omega arith)
pow_split (suc k) zero h = absurd (omega arith)
pow_split (suc k) (suc w) h =
    let ih = pow_split k w (omega arith) in
    let e : suc w - suc k ≡ w - k = omega arith in
    rw e
      (omega (arith, pow_step 2 w, mul_twice (2 ^ (w - k)) (2 ^ k) (2 ^ suc k) (pow_step 2 k), ih))

-- `x` with its `k` low bits cleared.
abbrev pub align : ℕ → ℕ → ℕ
align k x = x / 2 ^ k * 2 ^ k

and_all : (j x : ℕ) → x < 2 ^ j → bit_and x (2 ^ j - 1) ≡ x
and_all zero x h = let e : x ≡ 0 = omega arith in rw e refl
and_all (suc j) x h =
    let ih = and_all j (x / 2) (omega (arith, pow_step 2 j)) in
    let half : (2 ^ suc j - 1) / 2 ≡ 2 ^ j - 1 = omega (arith, pow_step 2 j, pow_pos j) in
    let odd : (2 ^ suc j - 1) % 2 ≡ 1 = omega (arith, pow_step 2 j, pow_pos j) in
    bit_and-digit x (2 ^ suc j - 1) ∙ rw (half, odd, ih) (omega arith)

pub and_high : (k j x : ℕ) → x < 2 ^ j * 2 ^ k → bit_and x ((2 ^ j - 1) * 2 ^ k) ≡ align k x
and_high zero j x h =
    let one : (2 ^ j - 1) * 2 ^ 0 ≡ 2 ^ j - 1 = omega arith in
    rw one (and_all j x (omega arith) ∙ omega arith)
and_high (suc k) j x h =
    let p = 2 ^ j in
    let double : p * 2 ^ suc k ≡ 2 * (p * 2 ^ k) = mul_twice p (2 ^ k) (2 ^ suc k) (pow_step 2 k) in
    let mask : (p - 1) * 2 ^ suc k ≡ 2 * ((p - 1) * 2 ^ k) =
      mul_twice (p - 1) (2 ^ k) (2 ^ suc k) (pow_step 2 k) in
    let ih = and_high k j (x / 2) (omega arith) in
    let deep : x / 2 / 2 ^ k ≡ x / 2 ^ suc k =
      div-div-eq-div-mul x 2 (2 ^ k) ∙ ap (λ (t : ℕ). x / t) (sym (pow_step 2 k)) in
    let half : (p - 1) * 2 ^ suc k / 2 ≡ (p - 1) * 2 ^ k = omega arith in
    let even : (p - 1) * 2 ^ suc k % 2 ≡ 0 = omega arith in
    bit_and-digit x ((p - 1) * 2 ^ suc k)
    ∙ rw (half, even, ih, deep)
        (omega (arith, mul_twice (x / 2 ^ suc k) (2 ^ k) (2 ^ suc k) (pow_step 2 k)))

-- `&` with the mask of `w - k` high bits clears the `k` low bits.
pub and_mask : (w k x : ℕ) → k ≤ w → x < 2 ^ w → bit_and x (2 ^ w - 2 ^ k) ≡ align k x
and_mask w k x h lt =
    let split = pow_split k w h in
    let mask : 2 ^ w - 2 ^ k ≡ (2 ^ (w - k) - 1) * 2 ^ k =
      rw split (mul_less_one (2 ^ (w - k)) (2 ^ k) (pow_pos (w - k))) in
    rw mask (and_high k (w - k) x (omega arith))

or_zero : (n a : ℕ) → a ≤ n → bit_or a 0 ≡ a
or_zero zero a h = let e : a ≡ 0 = omega arith in rw e refl
or_zero (suc n) a h = bit_or-digit a 0 ∙ rw (or_zero n (a / 2) (omega arith)) (omega arith)

-- `|` with the `k` low bits sets them all.
pub or_low : (k x : ℕ) → bit_or x (2 ^ k - 1) ≡ align k x + (2 ^ k - 1)
or_low zero x = or_zero x x (omega arith) ∙ omega arith
or_low (suc k) x =
    let ih = or_low k (x / 2) in
    let deep : x / 2 / 2 ^ k ≡ x / 2 ^ suc k =
      div-div-eq-div-mul x 2 (2 ^ k) ∙ ap (λ (t : ℕ). x / t) (sym (pow_step 2 k)) in
    let half : (2 ^ suc k - 1) / 2 ≡ 2 ^ k - 1 = omega (arith, pow_step 2 k, pow_pos k) in
    let odd : (2 ^ suc k - 1) % 2 ≡ 1 = omega (arith, pow_step 2 k, pow_pos k) in
    bit_or-digit x (2 ^ suc k - 1)
    ∙ rw (half, odd, ih, deep)
        (omega (
          arith,
          mul_twice (x / 2 ^ suc k) (2 ^ k) (2 ^ suc k) (pow_step 2 k),
          pow_step 2 k,
          pow_pos k,
        ))

-- `MAX << k` in a `w`-bit word.
pub shifted_ones : (w k : ℕ) → k ≤ w → (2 ^ w - 1) * 2 ^ k % 2 ^ w ≡ 2 ^ w - 2 ^ k
shifted_ones w k h =
    let m = 2 ^ w in
    let p = 2 ^ k in
    let le : p ≤ m = pow-le-pow_right (omega arith) h in
    let parts : (m - 1) * p ≡ (m - p) + m * (p - 1) = less_one_mul m p le (pow_pos k) in
    rw (parts, add-mul-mod_self_left (m - p) m (p - 1)) (mod-eq_of_lt (omega (arith, pow_pos k)))

double_up : (q p r s : ℕ) → s ≡ 2 * p → 2 * (q * p + r) ≡ q * s + 2 * r
double_up q p r s e = rw e (omega arith)

-- `|` of disjoint fields is a sum.
pub or_fields : (k q r : ℕ) → r < 2 ^ k → bit_or (q * 2 ^ k) r ≡ q * 2 ^ k + r
or_fields zero q r h =
    let e : r ≡ 0 = omega arith in
    rw e (or_zero (q * 2 ^ 0) (q * 2 ^ 0) (omega arith) ∙ omega arith)
or_fields (suc k) q r h =
    let s = 2 ^ suc k in
    let twice = mul_twice q (2 ^ k) s (pow_step 2 k) in
    let half : q * s / 2 ≡ q * 2 ^ k = omega arith in
    let even : q * s % 2 ≡ 0 = omega arith in
    let ih = or_fields k q (r / 2) (omega (arith, pow_step 2 k)) in
    bit_or-digit (q * s) r ∙ rw (half, even, ih) (omega arith)

-- A block of `2 ^ k` numbers ends inside the word.
pub align_fits : (w k x : ℕ) → k ≤ w → x < 2 ^ w → align k x + 2 ^ k ≤ 2 ^ w
align_fits w k x h lt =
    let q = 2 ^ (w - k) in
    let e = pow_split k w h in
    fits (2 ^ k) (x / 2 ^ k) q (div_below (2 ^ k) x q (pow_pos k) (rw e at lt)) (2 ^ w) e
  where
    div_below : (d x q : ℕ) → 1 ≤ d → x < q * d → x / d < q
    div_below d x q pos h = (div-lt_iff_lt-mul pos).1 h

    fits : (d c q : ℕ) → c < q → (m : ℕ) → m ≡ q * d → c * d + d ≤ m
    fits d c q h m e = rw e (grind arith)

pub pow_le : (j k : ℕ) → j ≤ k → 2 ^ j ≤ 2 ^ k
pow_le j k h = pow-le-pow_right (omega arith) h

pub le_of_pow_le : (j k : ℕ) → 2 ^ j ≤ 2 ^ k → j ≤ k
le_of_pow_le j k h = elim (Bool-cases (leb j k)) [
  | inl yes_le ↦ leb→le j k yes_le
  | inr no_le ↦ absurd (
      let more : suc k ≤ j = ground arith in
      omega (arith, pow_le (suc k) j more, pow_step 2 k, pow_pos k))
]

and_zero : (n x : ℕ) → x ≤ n → bit_and x 0 ≡ 0
and_zero zero x h = let e : x ≡ 0 = omega arith in rw e refl
and_zero (suc n) x h = bit_and-digit x 0 ∙ rw (and_zero n (x / 2) (omega arith)) (omega arith)

mod_parts : (p q r x : ℕ) → p * q + r ≡ x / 2 → x ≡ (2 * r + x % 2) + 2 * p * q
mod_parts p q r x e =
    let assoc : 2 * p * q ≡ 2 * (p * q) = mul_assoc 2 p q in omega (arith, assoc, e)

mod_double : (p x : ℕ) → 0 < p → x % (2 * p) ≡ 2 * (x / 2 % p) + x % 2
mod_double p x h =
    let q = x / 2 / p in
    let r = x / 2 % p in
    let r_lt : r < p = mod-lt (x / 2) h in
    let parts = mod_parts p q r x (div-add-mod (x / 2) p) in
    let below : 2 * r + x % 2 < 2 * p = omega (arith, r_lt) in
    ap (λ (t : ℕ). t % (2 * p)) parts
    ∙ add-mul-mod_self_left (2 * r + x % 2) (2 * p) q
    ∙ mod-eq_of_lt below

-- `&` with the mask of `j` low bits is the remainder.
pub and_low : (j x : ℕ) → bit_and x (2 ^ j - 1) ≡ x % 2 ^ j
and_low zero x = and_zero x x (omega arith) ∙ omega arith
and_low (suc j) x =
    let ih = and_low j (x / 2) in
    let half : (2 ^ suc j - 1) / 2 ≡ 2 ^ j - 1 = omega (arith, pow_step 2 j, pow_pos j) in
    let odd : (2 ^ suc j - 1) % 2 ≡ 1 = omega (arith, pow_step 2 j, pow_pos j) in
    bit_and-digit x (2 ^ suc j - 1)
    ∙ rw (half, odd, ih, pow_step 2 j, mod_double (2 ^ j) x (pow_pos j)) (omega arith)

pub and_le : (n a b : ℕ) → a ≤ n → bit_and a b ≤ a
and_le zero a b h = let e : a ≡ 0 = omega arith in rw e (omega (arith, zero_and b))
and_le (suc n) a b h = omega (arith, bit_and-digit a b, and_le n (a / 2) (b / 2) (omega arith))

-- `&` of two fields over two fields.
pub and_fields :
    (k q r q' r' : ℕ)
    → r < 2 ^ k
    → r' < 2 ^ k
    → bit_and (q * 2 ^ k + r) (q' * 2 ^ k + r') ≡ bit_and q q' * 2 ^ k + bit_and r r'
and_fields zero q r q' r' h h' =
    let er : r ≡ 0 = omega arith in
    let er' : r' ≡ 0 = omega arith in
    let eq : q * 1 + 0 ≡ q = omega arith in
    let eq' : q' * 1 + 0 ≡ q' = omega arith in rw (er, er', eq, eq', zero_and 0) (omega arith)
and_fields (suc k) q r q' r' h h' =
    let p = 2 ^ k in
    let twice = pow_step 2 k in
    let x = q * 2 ^ suc k + r in
    let y = q' * 2 ^ suc k + r' in
    let mx = mul_twice q p (2 ^ suc k) twice in
    let my = mul_twice q' p (2 ^ suc k) twice in
    let hx : x / 2 ≡ q * p + r / 2 = omega (arith, mx) in
    let hy : y / 2 ≡ q' * p + r' / 2 = omega (arith, my) in
    let ox : x % 2 ≡ r % 2 = omega (arith, mx) in
    let oy : y % 2 ≡ r' % 2 = omega (arith, my) in
    let ih = and_fields k q (r / 2) q' (r' / 2) (omega (arith, twice)) (omega (arith, twice)) in
    bit_and-digit x y
    ∙ rw (hx, hy, ox, oy, ih)
        (omega (arith, bit_and-digit r r', mul_twice (bit_and q q') p (2 ^ suc k) twice))
