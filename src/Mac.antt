-- ===== src/Mac.antt =====
-- crates/flannel-core/src/mac.rs, and parse_mac of crates/flannel-core/src/backend/vxlan/mod.rs. The random
-- octets of the uuid crate are an argument of new_hardware_addr.
pub mod Spelling
use Prim.Native.Char.{Char, code}
use Prim.Native.String.{String, len, char_at}
use flannel_rust.Prelude.{
  ℕ, Bool, true, false, not, ◌||◌, List, [], ◌∷◌, ◌==◌, if◌then◌else◌, length, take, bit_and,
  bit_or,
}
use flannel_rust.Prelude.Radix.{IntErrorKind, u8_from_str_radix, hex_octet}
use flannel_rust.Prelude.Result.{Result, ok, err, ◌>>=◌}

-- `[u8; 6]`
abbrev pub MacAddr : Type 0
MacAddr = List ℕ

pub data MacError : Type 0 where
  invalid_mac invalid_hex : String → MacError

abbrev pub push_char : Char → List String → List String
push_char c [] = String.◌∷◌ c String.[] ∷ []
push_char c (p ∷ ps) = String.◌∷◌ c p ∷ ps

-- `s.split([':', '-'])`
unfoldable pub split_mac : String → List String
split_mac String.[] = String.[] ∷ []
split_mac (String.◌∷◌ c s) =
    if code c == 58 || code c == 45 then String.[] ∷ split_mac s else push_char c (split_mac s)

abbrev pub or_hex_error : String → Result IntErrorKind ℕ → Result MacError ℕ
or_hex_error s (err e) = err (invalid_hex s)
or_hex_error s (ok n) = ok n

-- The loop of parse_mac over the parts.
unfoldable pub mac_octets : String → List String → Result MacError MacAddr
mac_octets s [] = ok []
mac_octets s (p ∷ ps) =
    if not (len p == 2)
    then err (invalid_mac s)
    else do n ← or_hex_error s (u8_from_str_radix 16 p); rest ← mac_octets s ps; ok (n ∷ rest)

unfoldable pub parse_mac : String → Result MacError MacAddr
unfolding split_mac mac_octets
parse_mac s =
    if not (length (split_mac s) == 6) then err (invalid_mac s) else mac_octets s (split_mac s)

abbrev pub char_colon : String → String
char_colon s = String.◌∷◌ (char_at ":" 0) s

-- The octets in hexadecimal, joined by colons.
unfoldable pub mac_to_string : MacAddr → String
unfolding hex_octet
mac_to_string [] = String.[]
mac_to_string (n ∷ []) = hex_octet n String.[]
mac_to_string (n ∷ m ∷ rest) = hex_octet n (char_colon (mac_to_string (m ∷ rest)))

-- The first octet, made local and unicast.
abbrev pub local_unicast : ℕ → ℕ
local_unicast n = bit_or (bit_and n 0xfe) 0x02

unfoldable pub new_hardware_addr : List ℕ → MacAddr
new_hardware_addr random = elim (take 6 random) [ [] ↦ [] | n ∷ rest ↦ local_unicast n ∷ rest ]
