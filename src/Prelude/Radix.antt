-- ===== src/Prelude/Radix.antt =====
-- `from_str_radix` of the standard library for u8 and i64, as crates/flannel-core uses it, and the lower-case
-- hexadecimal digits of `{:02x}`.
use Prim.Native.Nat.{ℕ, zero, suc, ◌+◌, ◌-◌, ◌*◌, ◌/◌, ◌%◌, ◌^◌, ◌<◌}
use Prim.Native.Char.{Char, code, len_utf8}
use Prim.Native.String.{String, char_at}
use mathlib.Core.Path.{◌≡◌, refl}
use mathlib.Core.Bool.{false, ◌&&◌, ◌||◌}
use mathlib.Core.Option.{Option, none, some}
use native.Mathlib.Omega.{arith}
use flannel_rust.Prelude.Int.{ℤ, pos, negsuc}
use flannel_rust.Prelude.Result.{Result, ok, err}
use flannel_rust.Prelude.Tests.{ltb, leb, ◌==◌, if◌then◌else◌}

pub data IntErrorKind : Type 0 where
  no_digits invalid_digit pos_overflow neg_overflow : IntErrorKind

-- `char::to_digit`
abbrev pub to_digit : ℕ → ℕ → Option ℕ
to_digit radix c =
    let d =
      if leb 48 c && leb c 57
      then c - 48
      else if leb 97 c && leb c 122
      then c - 87
      else if leb 65 c && leb c 90
      then c - 55
      else radix in
    if ltb d radix then some d else none

abbrev pub next_digit :
    ℕ → IntErrorKind → ℕ → ℕ → Option ℕ → (ℕ → Result IntErrorKind ℕ) → Result IntErrorKind ℕ
next_digit limit overflow radix acc none rest = err invalid_digit
next_digit limit overflow radix acc (some d) rest =
    if ltb limit (acc * radix + d) then err overflow else rest (acc * radix + d)

-- The digits of a magnitude that has a limit; the first bad digit and the first overflow end the scan.
unfoldable pub magnitude : ℕ → IntErrorKind → ℕ → ℕ → String → Result IntErrorKind ℕ
magnitude limit overflow radix acc String.[] = ok acc
magnitude limit overflow radix acc (String.◌∷◌ c s) =
    next_digit limit overflow radix acc (to_digit radix (code c))
      (λ n. magnitude limit overflow radix n s)

unfoldable pub negated : ℕ → ℤ
negated zero = pos 0
negated (suc n) = negsuc n

abbrev pub to_pos : Result IntErrorKind ℕ → Result IntErrorKind ℤ
to_pos (err e) = err e
to_pos (ok n) = ok (pos n)

abbrev pub to_neg : Result IntErrorKind ℕ → Result IntErrorKind ℤ
to_neg (err e) = err e
to_neg (ok n) = ok (negated n)

-- `u8::from_str_radix`
unfoldable pub u8_from_str_radix : ℕ → String → Result IntErrorKind ℕ
u8_from_str_radix radix String.[] = err no_digits
u8_from_str_radix radix (String.◌∷◌ c String.[]) =
    if code c == 43 || code c == 45
    then err invalid_digit
    else magnitude 255 pos_overflow radix 0 (String.◌∷◌ c String.[])
u8_from_str_radix radix (String.◌∷◌ c (String.◌∷◌ d s)) =
    if code c == 43
    then magnitude 255 pos_overflow radix 0 (String.◌∷◌ d s)
    else magnitude 255 pos_overflow radix 0 (String.◌∷◌ c (String.◌∷◌ d s))

-- `i64::from_str_radix`
unfoldable pub i64_from_str_radix : ℕ → String → Result IntErrorKind ℤ
i64_from_str_radix radix String.[] = err no_digits
i64_from_str_radix radix (String.◌∷◌ c String.[]) =
    if code c == 43 || code c == 45
    then err invalid_digit
    else to_pos (magnitude (2 ^ 63 - 1) pos_overflow radix 0 (String.◌∷◌ c String.[]))
i64_from_str_radix radix (String.◌∷◌ c (String.◌∷◌ d s)) =
    if code c == 43
    then to_pos (magnitude (2 ^ 63 - 1) pos_overflow radix 0 (String.◌∷◌ d s))
    else if code c == 45
    then to_neg (magnitude (2 ^ 63) neg_overflow radix 0 (String.◌∷◌ d s))
    else to_pos (magnitude (2 ^ 63 - 1) pos_overflow radix 0 (String.◌∷◌ c (String.◌∷◌ d s)))

abbrev pub hex_char : ℕ → Char
hex_char d = char_at "0123456789abcdef" d

-- `{:02x}` of an octet
unfoldable pub hex_octet : ℕ → String → String
hex_octet n rest = String.◌∷◌ (hex_char (n / 16)) (String.◌∷◌ (hex_char (n % 16)) rest)

abbrev pub IsNibble : ℕ → Type 0
IsNibble d =
    (to_digit 16 (code (hex_char d)) ≡ some d)
    × ((code (hex_char d) == 58) ≡ false)
    × ((code (hex_char d) == 45) ≡ false)
    × ((code (hex_char d) == 43) ≡ false)
    × (len_utf8 (hex_char d) ≡ 1)

pub hex_char-IsNibble : (d : ℕ) → d < 16 → IsNibble d
hex_char-IsNibble zero h = (refl, refl, refl, refl, refl)
hex_char-IsNibble (suc zero) h = (refl, refl, refl, refl, refl)
hex_char-IsNibble (suc (suc zero)) h = (refl, refl, refl, refl, refl)
hex_char-IsNibble (suc (suc (suc zero))) h = (refl, refl, refl, refl, refl)
hex_char-IsNibble (suc (suc (suc (suc zero)))) h = (refl, refl, refl, refl, refl)
hex_char-IsNibble (suc (suc (suc (suc (suc zero))))) h = (refl, refl, refl, refl, refl)
hex_char-IsNibble (suc (suc (suc (suc (suc (suc zero)))))) h = (refl, refl, refl, refl, refl)
hex_char-IsNibble (suc (suc (suc (suc (suc (suc (suc zero))))))) h = (refl, refl, refl, refl, refl)
hex_char-IsNibble (suc (suc (suc (suc (suc (suc (suc (suc zero)))))))) h =
    (refl, refl, refl, refl, refl)
hex_char-IsNibble (suc (suc (suc (suc (suc (suc (suc (suc (suc zero))))))))) h =
    (refl, refl, refl, refl, refl)
hex_char-IsNibble (suc (suc (suc (suc (suc (suc (suc (suc (suc (suc zero)))))))))) h =
    (refl, refl, refl, refl, refl)
hex_char-IsNibble (suc (suc (suc (suc (suc (suc (suc (suc (suc (suc (suc zero))))))))))) h =
    (refl, refl, refl, refl, refl)
hex_char-IsNibble (suc (suc (suc (suc (suc (suc (suc (suc (suc (suc (suc (suc zero)))))))))))) h =
    (refl, refl, refl, refl, refl)
hex_char-IsNibble (suc (suc (suc (suc (suc (suc (suc (suc (suc (suc (suc (suc (suc zero)))))))))))))
      h =
    (refl, refl, refl, refl, refl)
hex_char-IsNibble
      (suc (suc (suc (suc (suc (suc (suc (suc (suc (suc (suc (suc (suc (suc zero)))))))))))))) h =
    (refl, refl, refl, refl, refl)
hex_char-IsNibble
      (suc (suc (suc (suc (suc (suc (suc (suc (suc (suc (suc (suc (suc (suc (suc zero)))))))))))))))
      h =
    (refl, refl, refl, refl, refl)
hex_char-IsNibble
      (suc
        (suc (suc (suc (suc (suc (suc (suc (suc (suc (suc (suc (suc (suc (suc (suc d))))))))))))))))
      h =
    absurd (omega arith)
