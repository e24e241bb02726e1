-- ===== src/Flags/Numbers.antt =====
-- The texts of numbers: a sign, a radix prefix and digits, what they write, and the scan of from_str_radix.
use Prim.Native.Nat.{◌^◌, ◌-◌}
use Prim.Native.Char.{Char, code}
use Prim.Native.String.{String}
use flannel_rust.Prelude.{
  ℕ, zero, suc, ◌*◌, ◌+◌, ltb-false→le, ◌≤◌, ◌≡◌, ◌≢◌, refl, ◌==◌, arith, true, false, Option, none,
  some, ltb, Bool-cases, Option-cases, inl, inr, if◌then◌else◌,
}
use flannel_rust.Prelude.Int.{ℤ, pos, negsuc}
use flannel_rust.Prelude.Radix.{IntErrorKind, magnitude, to_digit}
use flannel_rust.Prelude.Result.{Result, ok, err}
use flannel_rust.Flags.{Reason, int_range}

abbrev with_digit : ℕ → ℕ → Option ℕ → (ℕ → Option ℕ) → Option ℕ
with_digit radix acc none rest = none
with_digit radix acc (some d) rest = rest (acc * radix + d)

-- The number that digits of a radix write behind a number, of whatever size; none where one is no digit.
abbrev pub number_of : ℕ → ℕ → String → Option ℕ
number_of radix acc String.[] = some acc
number_of radix acc (String.◌∷◌ c s) =
    with_digit radix acc (to_digit radix (code c)) (λ n. number_of radix n s)

-- Each kind of text that parse_int reads, by what stands in front of the digits.
pub data Prefix : Type 0 where
  decimal hex octal old_octal binary : Prefix

abbrev pub prefix_text : Prefix → String
prefix_text decimal = ""
prefix_text hex = "0x"
prefix_text octal = "0o"
prefix_text old_octal = "0"
prefix_text binary = "0b"

abbrev pub radix_of : Prefix → ℕ
radix_of decimal = 10
radix_of hex = 16
radix_of octal = 8
radix_of old_octal = 8
radix_of binary = 2

pub data Sign : Type 0 where
  no_sign plus_sign minus_sign : Sign

abbrev pub sign_text : Sign → String
sign_text no_sign = ""
sign_text plus_sign = "+"
sign_text minus_sign = "-"

-- The number of an i64, or the refusal of one that is past its range.
abbrev pub in_range : String → Sign → ℕ → Result Reason ℤ
in_range s no_sign n = if ltb (2 ^ 63 - 1) n then err (int_range s) else ok (pos n)
in_range s plus_sign n = if ltb (2 ^ 63 - 1) n then err (int_range s) else ok (pos n)
in_range s minus_sign zero = ok (pos 0)
in_range s minus_sign (suc n) = if ltb (2 ^ 63) (suc n) then err (int_range s) else ok (negsuc n)

-- A first digit that does not make a decimal text an octal one.
abbrev pub IsPlain : Prefix → Char → Type 0
IsPlain decimal c = code c ≢ 48
IsPlain hex c = Unit
IsPlain octal c = Unit
IsPlain old_octal c = Unit
IsPlain binary c = Unit

number_of-le : (r acc n : ℕ) (s : String) → number_of (suc r) acc s ≡ some n → acc ≤ n
number_of-le r acc n String.[] h = let same : acc ≡ n = cc in omega (arith, same)
number_of-le r acc n (String.◌∷◌ c s) h = elim (Option-cases (to_digit (suc r) (code c))) [
  | inl bad ↦ let no_number = rw bad at h in cc
  | inr (d, good) ↦
      let later = number_of-le r (acc * suc r + d) n s (rw good at h) in
      omega (arith, later, grows r acc)
]
  where
    grows : (r acc : ℕ) → acc ≤ acc * suc r
    grows r zero = omega arith
    grows r (suc acc) = let rest = grows r acc in omega (arith, rest)

-- The digits within a limit, and the digits past it.
pub magnitude-number_of :
    (limit r acc n : ℕ) (overflow : IntErrorKind) (s : String)
    → number_of (suc r) acc s ≡ some n
    → acc ≤ limit
    → magnitude limit overflow (suc r) acc s ≡ (if ltb limit n then err overflow else ok n)
unfolding magnitude
magnitude-number_of limit r acc n overflow String.[] h bound =
    let same : acc ≡ n = cc in
    let fits : ltb limit n ≡ false = ground (arith, same, bound) in rw (fits, same) refl
magnitude-number_of limit r acc n overflow (String.◌∷◌ c s) h bound =
    elim (Option-cases (to_digit (suc r) (code c))) [
      | inl bad ↦ let no_number = rw bad at h in cc
      | inr (d, good) ↦ elim (Bool-cases (ltb limit (acc * suc r + d))) [
        | inl big ↦
            let over = number_of-le r (acc * suc r + d) n s (rw good at h) in
            let past : ltb limit n ≡ true = ground (arith, big, over) in rw (good, big, past) refl
        | inr fits ↦
            rw (good, fits)
              (magnitude-number_of limit r (acc * suc r + d) n overflow s (rw good at h)
                (ltb-false→le limit (acc * suc r + d) fits))
      ]
    ]

pub not_sign :
    (radix d : ℕ) (c : Char)
    → to_digit radix (code c) ≡ some d
    → ((code c == 43) ≡ false) × ((code c == 45) ≡ false)
not_sign radix d c h = (ground (arith, h), ground (arith, h))

pub first_digit :
    (radix n : ℕ) (c : Char) (s : String)
    → number_of radix 0 (String.◌∷◌ c s) ≡ some n
    → (d : ℕ) × (to_digit radix (code c) ≡ some d)
first_digit radix n c s h = elim (Option-cases (to_digit radix (code c))) [
  | inl bad ↦ let no_number = rw bad at h in cc
  | inr found ↦ found
]
