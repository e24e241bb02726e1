-- ===== src/Ip/Pool.antt =====
-- The first and last subnets of a network: numbers that are multiples of `2 ^ k` in a block of `2 ^ h`.
use native.Mathlib.Nat.{mul-div_cancel, mod-eq_of_lt, mod-eq-sub-mod, mod_self, mul-sub}
use native.Mathlib.Omega.{pow_step}
use flannel_rust.Prelude.{
  ℕ, suc, ◌+◌, ◌-◌, ◌*◌, ◌/◌, ◌%◌, ◌^◌, ◌≤◌, ◌<◌, ◌≡◌, refl, sym, ap, ◌∙◌, inl, inr, arith, ltb,
  Bool-cases,
}
use flannel_rust.Prelude.Mask.{align, pow_pos, pow_le, pow_split, align_fits}
use flannel_rust.Ip.Align.{align-eq_iff}
use flannel_rust.Ip.Block.{Inside}

-- `x` lies on a boundary of `2 ^ k`.
abbrev pub IsAligned : ℕ → ℕ → Type 0
IsAligned k x = align k x ≡ x

of_multiple : (k c x : ℕ) → x ≡ c * 2 ^ k → IsAligned k x
of_multiple k c x e = rw e (ap (λ (t : ℕ). t * 2 ^ k) (mul-div_cancel c (pow_pos k)))

add_mul : (a b d x y : ℕ) → a * d ≡ x → b * d ≡ y → x + y ≡ (a + b) * d
add_mul a b d x y p q = rw (← p, ← q) (omega arith)

sub_mul : (a b d x y : ℕ) → a * d ≡ x → b * d ≡ y → x - y ≡ (a - b) * d
sub_mul a b d x y p q =
    rw (← p, ← q) (rw (swap a d, swap b d, swap (a - b) d) (sym (mul-sub d a b)))
  where
    swap : (m n : ℕ) → m * n ≡ n * m
    swap m n = omega arith

pub IsAligned-add : (k x y : ℕ) → IsAligned k x → IsAligned k y → IsAligned k (x + y)
IsAligned-add k x y p q =
    of_multiple k (x / 2 ^ k + y / 2 ^ k) (x + y) (add_mul _ _ (2 ^ k) x y p q)

pub IsAligned-sub : (k x y : ℕ) → IsAligned k x → IsAligned k y → IsAligned k (x - y)
IsAligned-sub k x y p q =
    of_multiple k (x / 2 ^ k - y / 2 ^ k) (x - y) (sub_mul _ _ (2 ^ k) x y p q)

pub IsAligned-pow : (j k : ℕ) → j ≤ k → IsAligned j (2 ^ k)
IsAligned-pow j k h = of_multiple j (2 ^ (k - j)) (2 ^ k) (pow_split j k h)

mul_regroup : (a b c d x : ℕ) → a * d ≡ x → d ≡ b * c → x ≡ a * b * c
mul_regroup a b c d x p q = rw (← p, q) (omega arith)

pub IsAligned-finer : (j k x : ℕ) → j ≤ k → IsAligned k x → IsAligned j x
IsAligned-finer j k x h p =
    of_multiple j (x / 2 ^ k * 2 ^ (k - j)) x
      (mul_regroup (x / 2 ^ k) (2 ^ (k - j)) (2 ^ j) (2 ^ k) x p (pow_split j k h))

-- A network of `2 ^ h` addresses at `ip`, in subnets of `2 ^ k`, of which it holds at least four.
module _ (w h k ip : ℕ) (few : k + 2 ≤ h) (fits : h ≤ w) (lt : ip < 2 ^ w)
    (own : IsAligned h ip) where
  four : 4 * 2 ^ k ≤ 2 ^ h
  four = omega (arith, pow_le (k + 2) h few, pow_step 2 k, pow_step 2 (suc k), two_more k)
    where
      two_more : (k : ℕ) → 2 ^ (k + 2) ≡ 2 ^ suc (suc k)
      two_more k = let e : k + 2 ≡ suc (suc k) = omega arith in rw e refl

  whole : ip + 2 ^ h ≤ 2 ^ w
  whole = rw own at (align_fits w h ip fits lt)

  -- The second subnet, where the default range starts.
  pub first_subnet :
      ((ip + 2 ^ k) % 2 ^ w ≡ ip + 2 ^ k) × IsAligned k (ip + 2 ^ k) × Inside h ip (ip + 2 ^ k)
  first_subnet =
      let pos = pow_pos k in
      let room = four in
      let all = whole in
      (
        mod-eq_of_lt (omega arith),
        IsAligned-add k ip (2 ^ k) (IsAligned-finer k h ip (omega arith) own)
            (IsAligned-pow k k (omega arith)),
        (align-eq_iff h ip (ip + 2 ^ k)).1 (omega (arith, own)),
      )

  -- The last subnet, where it ends: from the next network, modulo `2 ^ w`, back by one subnet.
  pub last_subnet :
      (((ip + 2 ^ h) % 2 ^ w + 2 ^ w - 2 ^ k) % 2 ^ w ≡ ip + 2 ^ h - 2 ^ k)
      × IsAligned k (ip + 2 ^ h - 2 ^ k)
      × Inside h ip (ip + 2 ^ h - 2 ^ k)
  last_subnet =
      let pos = pow_pos k in
      let room = four in
      let all = whole in
      (
        back (ip + 2 ^ h) (2 ^ w) (2 ^ k) all (omega arith) pos,
        IsAligned-sub k (ip + 2 ^ h) (2 ^ k)
            (IsAligned-add k ip (2 ^ h) (IsAligned-finer k h ip (omega arith) own)
              (IsAligned-pow k h (omega arith)))
            (IsAligned-pow k k (omega arith)),
        (align-eq_iff h ip (ip + 2 ^ h - 2 ^ k)).1 (omega (arith, own)),
      )
    where
      back : (e m s : ℕ) → e ≤ m → s ≤ e → 1 ≤ s → (e % m + m - s) % m ≡ e - s
      back e m s le small pos = elim (Bool-cases (ltb e m)) [
        | inl inner ↦
            let here : e % m ≡ e = mod-eq_of_lt (ground arith) in
            let wrap : (e + m - s) % m ≡ (e + m - s - m) % m = mod-eq-sub-mod (omega arith) in
            let rest : e + m - s - m ≡ e - s = omega arith in
            let low : (e - s) % m ≡ e - s = mod-eq_of_lt (ground arith) in
            rw here (wrap ∙ rw rest low)
        | inr edge ↦
            let same : e ≡ m = ground arith in
            let zero_rest : e % m ≡ 0 = rw same (mod_self m) in
            let rest : 0 + m - s ≡ e - s = omega arith in
            rw (zero_rest, rest) (mod-eq_of_lt (omega arith))
      ]
