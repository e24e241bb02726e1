-- ===== src/Flags/Integers.antt =====
-- parse_int of flags.rs: the numbers that it reads, and signs that it accepts behind a radix prefix.
use Prim.Native.Nat.{◌^◌, ◌-◌}
use Prim.Native.Char.{Char, code}
use Prim.Native.String.{String, char_at}
use flannel_rust.Prelude.{
  ℕ, zero, suc, ◌≡◌, refl, ap, ◌∙◌, ◌==◌, ◌||◌, arith, false, some, ltb, Bool-cases, inl, inr,
  if◌then◌else◌,
}
use flannel_rust.Prelude.Int.{ℤ}
use flannel_rust.Prelude.Radix.{
  IntErrorKind, pos_overflow, neg_overflow, to_digit, to_pos, to_neg, negated, i64_from_str_radix,
}
use flannel_rust.Prelude.Result.{Result, ok, err, err≢ok}
use flannel_rust.Flags.{
  parse_int, split_sign, split_radix, int_of_body, int_of_digits, or_int_error, concat, is_nil,
}
use flannel_rust.Flags.Numbers.{
  number_of, Prefix, decimal, hex, octal, old_octal, binary, prefix_text, radix_of, Sign, no_sign,
  plus_sign, minus_sign, sign_text, in_range, IsPlain, magnitude-number_of, not_sign, first_digit,
}

pos_in_range :
    (text : String) (n : ℕ)
    → or_int_error text (to_pos (if ltb (2 ^ 63 - 1) n then err pos_overflow else ok n))
      ≡ in_range text no_sign n
pos_in_range text n = elim (Bool-cases (ltb (2 ^ 63 - 1) n)) [
  | inl past ↦ rw past refl
  | inr fits ↦ rw fits refl
]

neg_in_range :
    (text : String) (n : ℕ)
    → or_int_error text (to_neg (if ltb (2 ^ 63) n then err neg_overflow else ok n))
      ≡ in_range text minus_sign n
unfolding negated
neg_in_range text zero = refl
neg_in_range text (suc n) = elim (Bool-cases (ltb (2 ^ 63) (suc n))) [
  | inl past ↦ rw past refl
  | inr fits ↦ rw fits refl
]

from_digits :
    (r n : ℕ) (text : String) (g : Sign) (c : Char) (s : String)
    → number_of (suc r) 0 (String.◌∷◌ c s) ≡ some n
    → or_int_error text (i64_from_str_radix (suc r) (concat (sign_text g) (String.◌∷◌ c s)))
      ≡ in_range text g n
unfolding i64_from_str_radix
from_digits r n text no_sign c String.[] h =
    let (d, digit) = first_digit (suc r) n c String.[] h in
    let (no_plus, no_minus) = not_sign (suc r) d c digit in
    rw
      (
        no_plus,
        no_minus,
        magnitude-number_of (2 ^ 63 - 1) r 0 n pos_overflow (String.◌∷◌ c String.[]) h
            (omega arith),
      )
      (pos_in_range text n)
from_digits r n text no_sign c (String.◌∷◌ b s) h =
    let (d, digit) = first_digit (suc r) n c (String.◌∷◌ b s) h in
    let (no_plus, no_minus) = not_sign (suc r) d c digit in
    rw
      (
        no_plus,
        no_minus,
        magnitude-number_of (2 ^ 63 - 1) r 0 n pos_overflow (String.◌∷◌ c (String.◌∷◌ b s)) h
            (omega arith),
      )
      (pos_in_range text n)
from_digits r n text plus_sign c s h =
    rw (magnitude-number_of (2 ^ 63 - 1) r 0 n pos_overflow (String.◌∷◌ c s) h (omega arith))
      (pos_in_range text n)
from_digits r n text minus_sign c s h =
    rw (magnitude-number_of (2 ^ 63) r 0 n neg_overflow (String.◌∷◌ c s) h (omega arith))
      (neg_in_range text n)

split_radix-prefix :
    (p : Prefix) (c : Char) (s : String) (d : ℕ)
    → to_digit (radix_of p) (code c) ≡ some d
    → IsPlain p c
    → split_radix (concat (prefix_text p) (String.◌∷◌ c s)) ≡ (String.◌∷◌ c s, radix_of p)
unfolding split_radix
split_radix-prefix decimal c String.[] d digit plain = refl
split_radix-prefix decimal c (String.◌∷◌ b s) d digit plain =
    let no_zero : (code c == 48) ≡ false = ground arith in rw no_zero refl
split_radix-prefix hex c s d digit plain = refl
split_radix-prefix octal c s d digit plain = refl
split_radix-prefix binary c s d digit plain = refl
split_radix-prefix old_octal c s d digit plain =
    let no_x : (code c == 120 || code c == 88) ≡ false = ground (arith, digit) in
    let no_o : (code c == 111 || code c == 79) ≡ false = ground (arith, digit) in
    let no_b : (code c == 98 || code c == 66) ≡ false = ground (arith, digit) in
    rw (no_x, no_o, no_b) refl

split_sign-sign :
    (g : Sign) (p : Prefix) (c : Char) (s : String) (d : ℕ)
    → to_digit (radix_of p) (code c) ≡ some d
    → let body = concat (prefix_text p) (String.◌∷◌ c s) in
      split_sign (concat (sign_text g) body) ≡ (sign_text g, body)
unfolding split_sign
split_sign-sign plus_sign p c s d digit = refl
split_sign-sign minus_sign p c s d digit = refl
split_sign-sign no_sign hex c s d digit = refl
split_sign-sign no_sign octal c s d digit = refl
split_sign-sign no_sign old_octal c s d digit = refl
split_sign-sign no_sign binary c s d digit = refl
split_sign-sign no_sign decimal c s d digit =
    let (no_plus, no_minus) = not_sign 10 d c digit in rw (no_plus, no_minus) refl

in_body :
    (g : Sign) (p : Prefix) (c : Char) (s text : String) (n : ℕ)
    → number_of (radix_of p) 0 (String.◌∷◌ c s) ≡ some n
    → int_of_digits text (sign_text g) (String.◌∷◌ c s, radix_of p) ≡ in_range text g n
in_body g decimal c s text n h = from_digits 9 n text g c s h
in_body g hex c s text n h = from_digits 15 n text g c s h
in_body g octal c s text n h = from_digits 7 n text g c s h
in_body g old_octal c s text n h = from_digits 7 n text g c s h
in_body g binary c s text n h = from_digits 1 n text g c s h

-- The body of a text is not empty.
not_nil :
    (p : Prefix) (c : Char) (s : String) → is_nil (concat (prefix_text p) (String.◌∷◌ c s)) ≡ false
not_nil decimal c s = refl
not_nil hex c s = refl
not_nil octal c s = refl
not_nil old_octal c s = refl
not_nil binary c s = refl

-- A sign or none, a radix prefix (0x, 0o, 0b, a 0 for octal, or none for decimal digits that do not begin
-- with 0), and digits of that radix, at least one: parse_int gives the number that they write, however many
-- they are, negated behind a minus, if it is an i64, and refuses the text as out of range if it is not.
pub parse_int_digits :
    (g : Sign) (p : Prefix) (c : Char) (s : String) (n : ℕ)
    → number_of (radix_of p) 0 (String.◌∷◌ c s) ≡ some n
    → IsPlain p c
    → let text = concat (sign_text g) (concat (prefix_text p) (String.◌∷◌ c s)) in
      parse_int text ≡ in_range text g n
unfolding parse_int
parse_int_digits g p c s n h plain =
    let text = concat (sign_text g) (concat (prefix_text p) (String.◌∷◌ c s)) in
    let (d, digit) = first_digit (radix_of p) n c s h in
    ap (int_of_body text) (split_sign-sign g p c s d digit)
    ∙ rw (not_nil p c s, split_radix-prefix p c s d digit plain) (in_body g p c s text n h)

or_int_error-ok :
    (s : String) (r : Result IntErrorKind ℤ) (z : ℤ) → or_int_error s r ≡ ok z → r ≡ ok z
or_int_error-ok s (err e) z h = absurd (err≢ok _ z h)
or_int_error-ok s (ok y) z h = let same : y ≡ z = cc in ap (λ x. ok x) same

abbrev minus : Char
minus = char_at "-" 0

-- A sign behind a radix prefix is accepted: for every text that is not empty, if parse_int accepts `-0x` and
-- the text, it accepts `0x-` and the text, as the same number.
pub parse_int_inner_sign :
    (c : Char) (s : String) (z : ℤ)
    → parse_int (concat "-0x" (String.◌∷◌ c s)) ≡ ok z
    → parse_int (concat "0x-" (String.◌∷◌ c s)) ≡ ok z
unfolding parse_int split_sign split_radix
parse_int_inner_sign c s z h = ap (or_int_error (concat "0x-" (String.◌∷◌ c s))) (
    or_int_error-ok (concat "-0x" (String.◌∷◌ c s))
      (i64_from_str_radix 16 (String.◌∷◌ minus (String.◌∷◌ c s))) z h)
