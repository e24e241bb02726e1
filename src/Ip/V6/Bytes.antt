-- ===== src/Ip/V6/Bytes.antt =====
-- The sixteen bytes of an IPv6 address and the `u128` that they stand for.
use native.Mathlib.Nat.{
  mul-add-mod_self_right, mul-add-div_right, mod-eq_of_lt, mod-lt, div-eq_of_lt, one-le-pow,
}
use native.Mathlib.Omega.{pow_step}
use flannel_rust.Prelude.{
  ℕ, zero, suc, ◌+◌, ◌*◌, ◌/◌, ◌%◌, ◌^◌, ◌≤◌, ◌<◌, ◌≡◌, refl, sym, ap, ◌∙◌, ◌↔◌, List, [], ◌∷◌,
  true, arith, length, All, ◌==◌, ==_iff, split_and,
}
use flannel_rust.Ip.V6.{Ip6, be_value, be_bytes, ip6_value, ip6_from_value, bytes_eq, ip_eq}

abbrev pub IsByte : ℕ → Type 0
IsByte x = x < 256

-- A value of the type `[u8; 16]`.
pub record IsAddress (ip : Ip6) : Type 0 where
  pub sixteen : length ip.bytes ≡ 16
  pub are_bytes : All IsByte ip.bytes

pow256_pos : (n : ℕ) → 1 ≤ 256 ^ n
pow256_pos n = one-le-pow n 256 (omega arith)

digit_fits : (b p v m : ℕ) → b < 256 → v < p → m ≡ 256 * p → b * p + v < m
digit_fits b p v m hb hv e = rw e (grind arith)

be_value-lt : (bs : List ℕ) → All IsByte bs → be_value bs < 256 ^ length bs
unfolding be_value
be_value-lt [] h = omega arith
be_value-lt (b ∷ bs) h =
    let less : be_value bs < 256 ^ length bs = be_value-lt bs h.1 in
    digit_fits b (256 ^ length bs) (be_value bs) (256 ^ suc (length bs)) h.0 less
      (pow_step 256 (length bs))

length-be_bytes : (n v : ℕ) → length (be_bytes n v) ≡ n
unfolding be_bytes
length-be_bytes zero v = refl
length-be_bytes (suc n) v = ap suc (length-be_bytes n v)

be_bytes-IsByte : (n v : ℕ) → All IsByte (be_bytes n v)
unfolding be_bytes
be_bytes-IsByte zero v = tt
be_bytes-IsByte (suc n) v = (omega arith, be_bytes-IsByte n v)

mod_digit : (p v : ℕ) → 1 ≤ p → v / p % 256 * p + v % p ≡ v % (256 * p)
mod_digit p v pos =
    let q = v / p in
    let low = mod-lt v pos in
    let small : q % 256 * p + v % p < 256 * p =
      digit_fits (q % 256) p (v % p) (256 * p) (omega arith) low refl in
    let whole : v ≡ q / 256 * (256 * p) + (q % 256 * p + v % p) = regroup q p v (omega arith) in
    sym (
      ap (λ (t : ℕ). t % (256 * p)) whole
      ∙ mul-add-mod_self_right (q / 256) (256 * p) (q % 256 * p + v % p)
      ∙ mod-eq_of_lt small)
  where
    regroup_digit : (q a b p : ℕ) → q ≡ a * 256 + b → q * p ≡ a * (256 * p) + b * p
    regroup_digit q a b p e = rw e (omega arith)

    regroup : (q p v : ℕ) → v ≡ q * p + v % p → v ≡ q / 256 * (256 * p) + (q % 256 * p + v % p)
    regroup q p v e = omega (arith, e, regroup_digit q (q / 256) (q % 256) p (omega arith))

pub be_value-be_bytes : (n v : ℕ) → be_value (be_bytes n v) ≡ v % 256 ^ n
unfolding be_value be_bytes
be_value-be_bytes zero v = omega arith
be_value-be_bytes (suc n) v =
    rw (length-be_bytes n v, be_value-be_bytes n v, pow_step 256 n)
      (mod_digit (256 ^ n) v (pow256_pos n))

-- Only the `n` low bytes matter.
be_bytes_add : (n c v : ℕ) → be_bytes n (c * 256 ^ n + v) ≡ be_bytes n v
unfolding be_bytes
be_bytes_add zero c v = refl
be_bytes_add (suc n) c v =
    let e : c * 256 ^ suc n ≡ c * 256 * 256 ^ n =
      regroup c (256 ^ n) (256 ^ suc n) (pow_step 256 n) in
    rw (e, be_bytes_add n (c * 256) v, mul-add-div_right (pow256_pos n) (c * 256) v)
      (ap (λ (t : ℕ). t ∷ be_bytes n v) (omega arith))
  where
    regroup : (c p s : ℕ) → s ≡ 256 * p → c * s ≡ c * 256 * p
    regroup c p s e = rw e (omega arith)

be_bytes-be_value : (bs : List ℕ) → All IsByte bs → be_bytes (length bs) (be_value bs) ≡ bs
unfolding be_bytes be_value
be_bytes-be_value [] h = refl
be_bytes-be_value (b ∷ bs) h =
    let p = 256 ^ length bs in
    let less = be_value-lt bs h.1 in
    let digit : (b * p + be_value bs) / p ≡ b =
      mul-add-div_right (pow256_pos (length bs)) b (be_value bs)
      ∙ rw (div-eq_of_lt less) (omega arith) in
    let byte : b % 256 ≡ b = omega (arith, h.0) in
    rw (digit, byte, be_bytes_add (length bs) b (be_value bs), be_bytes-be_value bs h.1)

pub bytes_eq_iff : (xs ys : List ℕ) → (bytes_eq xs ys ≡ true) ↔ (xs ≡ ys)
bytes_eq_iff [] [] = (λ _. refl, λ _. refl)
bytes_eq_iff [] (y ∷ ys) = (λ e. cc, λ e. cc)
bytes_eq_iff (x ∷ xs) [] = (λ e. cc, λ e. cc)
bytes_eq_iff (x ∷ xs) (y ∷ ys) = (
  λ e.
      let (head, tail) = split_and (x == y) (bytes_eq xs ys) e in
      cc ((==_iff x y).0 head, (bytes_eq_iff xs ys).0 tail),
  λ e.
      let head : x ≡ y = cc in
      let tail : xs ≡ ys = cc in rw ((==_iff x y).1 head) ((bytes_eq_iff xs ys).1 tail),
)

sixteen_bytes : (ip : Ip6) → IsAddress ip → be_bytes 16 (be_value ip.bytes) ≡ ip.bytes
sixteen_bytes ip h = rw h.sixteen at (be_bytes-be_value ip.bytes h.are_bytes)

pub from_value-IsAddress : (v : ℕ) → IsAddress (ip6_from_value v)
unfolding ip6_from_value
from_value-IsAddress v = record { sixteen = length-be_bytes 16 v; are_bytes = be_bytes-IsByte 16 v }

-- The 16 bytes and the 128-bit value are two views of the same address: from a valid address and back is
-- the identity, from a value and back is the value modulo 2 ^ 128, the bytes of any value are a valid address, and valid addresses are equal exactly when
-- their values are.
pub ip6_roundtrip :
    (ip other : Ip6) (v : ℕ)
    → IsAddress ip
    → IsAddress other
    → (ip6_from_value (ip6_value ip) ≡ ip)
      × (ip6_value (ip6_from_value v) ≡ v % 2 ^ 128)
      × IsAddress (ip6_from_value v)
      × (ip6_value ip < 2 ^ 128)
      × ((ip_eq ip other ≡ true) ↔ (ip6_value ip ≡ ip6_value other))
unfolding ip6_value ip6_from_value
ip6_roundtrip ip other v h k =
    let bytes = bytes_eq_iff ip.bytes other.bytes in
    (
      ap (λ (b : List ℕ). record { bytes = b }) (sixteen_bytes ip h),
      be_value-be_bytes 16 v,
      from_value-IsAddress v,
      rw h.sixteen at (be_value-lt ip.bytes h.are_bytes),
      (
        λ e. ap be_value (bytes.0 e),
        λ e. bytes.1 (sym (sixteen_bytes ip h) ∙ ap (be_bytes 16) e ∙ sixteen_bytes other k),
      ),
    )
