-- ===== src/Mac/Spelling.antt =====
-- parse_mac reads what mac_to_string writes.
use Prim.Native.Nat.{◌/◌, ◌%◌}
use Prim.Native.Char.{Char, len_utf8}
use Prim.Native.String.{String, len}
use Prim.Native.String.len
use flannel_rust.Prelude.{ℕ, ◌+◌, ◌*◌, ◌<◌, ◌≡◌, refl, ap, ◌∙◌, arith, [], ◌∷◌, All, map}
use flannel_rust.Prelude.Radix.{
  u8_from_str_radix, magnitude, hex_octet, hex_char, hex_char-IsNibble,
}
use flannel_rust.Prelude.Result.{ok}
use flannel_rust.Mac.{MacAddr, split_mac, mac_octets, parse_mac, mac_to_string, char_colon}

abbrev IsOctet : ℕ → Type 0
IsOctet n = n < 256

two_digits : ℕ → String
two_digits n = String.◌∷◌ (hex_char (n / 16)) (String.◌∷◌ (hex_char (n % 16)) String.[])

split-octet :
    (n : ℕ) (s : String)
    → IsOctet n
    → split_mac (hex_octet n (char_colon s)) ≡ two_digits n ∷ split_mac s
unfolding split_mac hex_octet two_digits
split-octet n s h =
    let high = hex_char-IsNibble (n / 16) (omega arith) in
    let low = hex_char-IsNibble (n % 16) (omega arith) in rw (high.1, high.2, low.1, low.2) refl

split_last : (n : ℕ) → IsOctet n → split_mac (hex_octet n String.[]) ≡ two_digits n ∷ []
unfolding split_mac hex_octet two_digits
split_last n h =
    let high = hex_char-IsNibble (n / 16) (omega arith) in
    let low = hex_char-IsNibble (n % 16) (omega arith) in rw (high.1, high.2, low.1, low.2) refl

len_two : (c d : Char) → len (String.◌∷◌ c (String.◌∷◌ d String.[])) ≡ len_utf8 c + (len_utf8 d + 0)
len_two c d =
    len.cons c (String.◌∷◌ d String.[])
    ∙ ap (λ (k : ℕ). len_utf8 c + k) (len.cons d String.[])
    ∙ ap (λ (k : ℕ). len_utf8 c + (len_utf8 d + k)) len.nil

len-two_digits : (n : ℕ) → IsOctet n → len (two_digits n) ≡ 2
unfolding two_digits
len-two_digits n h =
    let c = hex_char (n / 16) in
    let d = hex_char (n % 16) in
    let high = hex_char-IsNibble (n / 16) (omega arith) in
    let low = hex_char-IsNibble (n % 16) (omega arith) in rw (len_two c d, high.4, low.4) refl

u8-two_digits : (n : ℕ) → IsOctet n → u8_from_str_radix 16 (two_digits n) ≡ ok n
unfolding two_digits u8_from_str_radix magnitude
u8-two_digits n h =
    let high = hex_char-IsNibble (n / 16) (omega arith) in
    let low = hex_char-IsNibble (n % 16) (omega arith) in
    let whole : n / 16 * 16 + n % 16 ≡ n = omega arith in
    rw (high.3, high.0, low.0) (ground (arith, whole))

mac_octets-digits :
    (s : String) (mac : MacAddr) → All IsOctet mac → mac_octets s (map two_digits mac) ≡ ok mac
unfolding mac_octets
mac_octets-digits s [] h = refl
mac_octets-digits s (n ∷ mac) h =
    rw (len-two_digits n h.0, u8-two_digits n h.0, mac_octets-digits s mac h.1) refl

split-mac_to_string :
    (n : ℕ) (mac : MacAddr)
    → All IsOctet (n ∷ mac)
    → split_mac (mac_to_string (n ∷ mac)) ≡ map two_digits (n ∷ mac)
unfolding mac_to_string
split-mac_to_string n [] h = split_last n h.0
split-mac_to_string n (m ∷ mac) h =
    rw (split-octet n (mac_to_string (m ∷ mac)) h.0, split-mac_to_string m mac h.1) refl

-- A MAC address of six octets is read back from its text.
pub parse_mac-mac_to_string :
    (a b c d e f : ℕ)
    → All IsOctet (a ∷ b ∷ c ∷ d ∷ e ∷ f ∷ [])
    → parse_mac (mac_to_string (a ∷ b ∷ c ∷ d ∷ e ∷ f ∷ [])) ≡ ok (a ∷ b ∷ c ∷ d ∷ e ∷ f ∷ [])
unfolding parse_mac
parse_mac-mac_to_string a b c d e f h =
    let mac = a ∷ b ∷ c ∷ d ∷ e ∷ f ∷ [] in
    rw (split-mac_to_string a (b ∷ c ∷ d ∷ e ∷ f ∷ []) h)
      (mac_octets-digits (mac_to_string mac) mac h)
