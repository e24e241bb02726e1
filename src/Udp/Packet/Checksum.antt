-- ===== src/Udp/Packet/Checksum.antt =====
-- The checksum of RFC 1071, whatever the byte order it is computed in.
use flannel_rust.Prelude.{
  ℕ, zero, suc, ◌+◌, ◌-◌, ◌*◌, ◌/◌, ◌%◌, ◌^◌, ◌≤◌, ◌<◌, ◌≡◌, refl, ◌↔◌, arith, List, [], ◌∷◌, All,
  ◌==◌, length, inl, inr, Bool-cases, ==_iff,
}
use flannel_rust.Udp.Packet.{word_sum, fold, cksum}

abbrev pub IsByte : ℕ → Type 0
IsByte b = b < 256

-- A folding round keeps the residue modulo 65535, and whether the sum is 0.
pub fold_residue : (n s : ℕ) → (fold n s % 65535 ≡ s % 65535) × (0 < s → 0 < fold n s)
unfolding fold
fold_residue zero s = (refl, λ h. h)
fold_residue (suc n) s =
    let (residue, positive) = fold_residue n (s % 2 ^ 16 + s / 2 ^ 16) in
    elim (Bool-cases (s / 2 ^ 16 == 0)) [
      | inl done ↦ rw done (refl, λ h. h)
      | inr more ↦ rw more (omega (arith, residue), λ h. positive (omega arith))
    ]

fold_zero : (n : ℕ) → fold n 0 ≡ 0
unfolding fold
fold_zero zero = refl
fold_zero (suc n) = refl

fold_next : (n s : ℕ) → fold n (s % 2 ^ 16 + s / 2 ^ 16) < 2 ^ 16 → fold (suc n) s < 2 ^ 16
unfolding fold
fold_next n s h = elim (Bool-cases (s / 2 ^ 16 == 0)) [
  | inl done ↦ rw done (ground arith)
  | inr more ↦ rw more h
]

fold_0 : (t : ℕ) → t < 2 ^ 16 → fold 0 t < 2 ^ 16
unfolding fold
fold_0 t h = h

fold_1 : (s : ℕ) → s < 2 ^ 17 - 1 → fold 1 s < 2 ^ 16
fold_1 s h = fold_next 0 s (fold_0 (s % 2 ^ 16 + s / 2 ^ 16) (omega arith))

fold_2 : (s : ℕ) → s < 2 ^ 32 → fold 2 s < 2 ^ 16
fold_2 s h = fold_next 1 s (fold_1 (s % 2 ^ 16 + s / 2 ^ 16) (omega arith))

fold_3 : (s : ℕ) → s < 2 ^ 47 → fold 3 s < 2 ^ 16
fold_3 s h = fold_next 2 s (fold_2 (s % 2 ^ 16 + s / 2 ^ 16) (omega arith))

fold_4 : (s : ℕ) → s < 2 ^ 62 → fold 4 s < 2 ^ 16
fold_4 s h = fold_next 3 s (fold_3 (s % 2 ^ 16 + s / 2 ^ 16) (omega arith))

fold_5 : (s : ℕ) → s < 2 ^ 64 → fold 5 s < 2 ^ 16
fold_5 s h = fold_next 4 s (fold_4 (s % 2 ^ 16 + s / 2 ^ 16) (omega arith))

-- Six rounds are enough for a sum of 64 bits.
pub fold_enough : (s : ℕ) → s < 2 ^ 64 → fold 6 s < 2 ^ 16
fold_enough s h = fold_next 5 s (fold_5 (s % 2 ^ 16 + s / 2 ^ 16) (omega arith))

-- The sum of RFC 1071: the 16-bit words in network order.
abbrev pub be_sum : List ℕ → ℕ
be_sum [] = 0
be_sum (a ∷ []) = a * 256
be_sum (a ∷ b ∷ rest) = a * 256 + b + be_sum rest

-- The two sums agree modulo 65535, up to the order of the bytes.
sums_agree :
    (xs : List ℕ)
    → length xs % 4 ≡ 0
    → (x : ℕ) × (y : ℕ) × (word_sum xs + 65535 * x ≡ 256 * be_sum xs + 65535 * y)
unfolding word_sum
sums_agree [] h = (0, 0, refl)
sums_agree (a ∷ []) h = absurd (omega (arith, h))
sums_agree (a ∷ b ∷ []) h = absurd (omega (arith, h))
sums_agree (a ∷ b ∷ c ∷ []) h = absurd (omega (arith, h))
sums_agree (a ∷ b ∷ c ∷ d ∷ rest) h =
    let (x, y, e) = sums_agree rest (omega (arith, h)) in
    (x + a + c, y + c + 256 * d, omega (arith, e))

word_sum-pos : (xs : List ℕ) → length xs % 4 ≡ 0 → (word_sum xs ≡ 0) ↔ (be_sum xs ≡ 0)
unfolding word_sum
word_sum-pos [] h = (λ e. e, λ e. e)
word_sum-pos (a ∷ []) h = absurd (omega (arith, h))
word_sum-pos (a ∷ b ∷ []) h = absurd (omega (arith, h))
word_sum-pos (a ∷ b ∷ c ∷ []) h = absurd (omega (arith, h))
word_sum-pos (a ∷ b ∷ c ∷ d ∷ rest) h =
    let ih = word_sum-pos rest (omega (arith, h)) in
    (
      λ e. (let z = ih.0 (omega (arith, e)) in omega (arith, e, z)),
      λ e. (let z = ih.1 (omega (arith, e)) in omega (arith, e, z)),
    )

pub word_sum-bound : (xs : List ℕ) → All IsByte xs → word_sum xs ≤ 2 ^ 30 * length xs
unfolding word_sum
word_sum-bound [] h = omega arith
word_sum-bound (a ∷ []) h = omega arith
word_sum-bound (a ∷ b ∷ []) h = omega arith
word_sum-bound (a ∷ b ∷ c ∷ []) h = omega arith
word_sum-bound (a ∷ b ∷ c ∷ d ∷ rest) h =
    let ih = word_sum-bound rest h.1.1.1.1 in omega (arith, ih, h.0, h.1.0, h.1.1.0, h.1.1.1.0)

-- A folded sum passes exactly when it is a positive multiple of 65535.
pub pass_iff : (s : ℕ) → s < 2 ^ 64 → (0xffff - fold 6 s % 2 ^ 16 ≡ 0) ↔ ((0 < s) × (s % 65535 ≡ 0))
pass_iff s h =
    let (residue, positive) = fold_residue 6 s in
    let small = fold_enough s h in
    (
      λ e.
          let full : fold 6 s ≡ 65535 = omega (arith, e) in
          (nonzero (fold_zero 6) full, omega (arith, residue, full)),
      λ r. let f = positive r.0 in omega (arith, residue, small, f, r.1),
    )
  where
    nonzero : fold 6 0 ≡ 0 → fold 6 s ≡ 65535 → 0 < s
    nonzero z full = elim (Bool-cases (s == 0)) [
      | inl e ↦ absurd (let s0 = (==_iff s 0).0 e in omega (arith, rw s0 at full, z))
      | inr n ↦ ground arith
    ]

-- For bytes in a multiple of four, at most 2 ^ 33 of them, the sum of the code passes, with
-- checksum 0, exactly when the sum of RFC 1071 over the 16-bit words in network order is a positive
-- multiple of 65535: the byte order of the machine and the width of the words do not matter.
pub cksum_valid_iff :
    (xs : List ℕ)
    → All IsByte xs
    → length xs % 4 ≡ 0
    → length xs ≤ 2 ^ 33
    → (cksum xs ≡ 0) ↔ ((0 < be_sum xs) × (be_sum xs % 65535 ≡ 0))
unfolding cksum
cksum_valid_iff xs bytes words short =
    let pass = pass_iff (word_sum xs) (omega (arith, word_sum-bound xs bytes)) in
    let (x, y, agree) = sums_agree xs words in
    let (none_be, none_le) = word_sum-pos xs words in
    (
      λ e.
          let (positive, residue) = pass.0 e in
          (positive_of none_le positive, omega (arith, agree, residue)),
      λ r. pass.1 (positive_of none_be r.0, omega (arith, agree, r.1)),
    )
  where
    positive_of : {a b : ℕ} → (a ≡ 0 → b ≡ 0) → 0 < b → 0 < a
    positive_of f p = ground arith

pub cksum_of :
    (xs : List ℕ) → word_sum xs % 65535 ≡ 0 → 0 < word_sum xs → word_sum xs < 2 ^ 64 → cksum xs ≡ 0
unfolding cksum
cksum_of xs residue positive bound = (pass_iff (word_sum xs) bound).1 (positive, residue)

pub word_residue :
    (xs : List ℕ)
    → word_sum xs < 2 ^ 64
    → cksum xs ≡ 0
    → (0 < word_sum xs) × (word_sum xs % 65535 ≡ 0)
unfolding cksum
word_residue xs bound valid = (pass_iff (word_sum xs) bound).0 valid

-- The checksum of a part, added to its sum in the upper half of a word, makes the sum pass.
pub cksum_fill :
    (base filled : List ℕ)
    → 0 < word_sum base
    → word_sum base < 2 ^ 63
    → word_sum filled ≡ word_sum base + 65536 * cksum base
    → cksum filled ≡ 0
unfolding cksum
cksum_fill base filled positive bound e =
    let (residue, _) = fold_residue 6 (word_sum base) in
    let small = fold_enough (word_sum base) (omega (arith, bound)) in
    cksum_of filled (omega (arith, e, residue, small)) (omega (arith, e, positive))
      (omega (arith, e, small, bound))
