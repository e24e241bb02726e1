-- ===== src/Ip/V4/Octets.antt =====
-- The octets of an IPv4 address, and the private ranges.
use flannel_rust.Prelude.{
  ℕ, ◌+◌, ◌*◌, ◌/◌, ◌^◌, ◌%◌, ◌<◌, ◌≡◌, ◌∙◌, ◌↔◌, ◌⊎◌, true, arith, bit_and, bit_or,
}
use flannel_rust.Prelude.Mask.{and_mask, or_fields}
use flannel_rust.Ip.V4.{Ip4, Ip4Net, contains, from_octets, from_bytes, octets, is_private, shl}
use flannel_rust.Ip.V4.Block.{IsWord, host_bits, contains-align}

abbrev IsByte : ℕ → Type 0
IsByte x = x < 256

from_octets-sum :
    (a b c d : ℕ)
    → IsByte a
    → IsByte b
    → IsByte c
    → IsByte d
    → from_octets a b c d ≡ a * 2 ^ 24 + b * 2 ^ 16 + c * 2 ^ 8 + d
unfolding from_octets
from_octets-sum a b c d ha hb hc hd =
    let sa : shl a 24 ≡ a * 2 ^ 24 = omega arith in
    let sb : shl b 16 ≡ b * 2 ^ 16 = omega arith in
    let sc : shl c 8 ≡ c * 2 ^ 8 = omega arith in
    let first : bit_or (a * 2 ^ 24) (b * 2 ^ 16) ≡ (a * 2 ^ 8 + b) * 2 ^ 16 =
      or_fields 24 a (b * 2 ^ 16) (omega arith) ∙ omega arith in
    let second : bit_or ((a * 2 ^ 8 + b) * 2 ^ 16) (c * 2 ^ 8)
        ≡ ((a * 2 ^ 8 + b) * 2 ^ 8 + c) * 2 ^ 8 =
      or_fields 16 (a * 2 ^ 8 + b) (c * 2 ^ 8) (omega arith) ∙ omega arith in
    rw (sa, sb, sc, first, second)
      (or_fields 8 ((a * 2 ^ 8 + b) * 2 ^ 8 + c) d (omega arith) ∙ omega arith)

-- Splitting a 32-bit address into octets and rebuilding it, by shifts or from its bytes, gives the
-- address; four octets, each below 256, rebuilt and split are the four octets.
pub octets_roundtrip :
    (ip : Ip4) (a b c d : ℕ)
    → IsWord ip
    → IsByte a
    → IsByte b
    → IsByte c
    → IsByte d
    → (from_bytes (octets ip) ≡ ip)
      × (from_octets (octets ip).0 (octets ip).1 (octets ip).2 (octets ip).3 ≡ ip)
      × (octets (from_octets a b c d) ≡ (a, b, c, d))
unfolding octets from_bytes
octets_roundtrip ip a b c d h ha hb hc hd = (
  omega arith,
  from_octets-sum _ _ _ _ (omega arith) (omega arith) (omega arith) (omega arith) ∙ omega arith,
  rw (from_octets-sum a b c d ha hb hc hd) (ground arith),
)

abbrev net : ℕ → ℕ → Ip4Net
net ip prefix_len = record { ip = ip; prefix_len = prefix_len }

-- The three blocks of RFC 1918.
abbrev pub ten_slash_8 : Ip4Net
ten_slash_8 = net 0x0a00_0000 8

abbrev pub b172_16_slash_12 : Ip4Net
b172_16_slash_12 = net 0xac10_0000 12

abbrev pub b192_168_slash_16 : Ip4Net
b192_168_slash_16 = net 0xc0a8_0000 16

high_nibble : (b : ℕ) → IsByte b → bit_and b 0xf0 ≡ b / 16 * 16
high_nibble b h = and_mask 8 4 b (omega arith) h

-- A 32-bit address is private exactly when it lies in one of the blocks 10.0.0.0/8, 172.16.0.0/12 and
-- 192.168.0.0/16 of RFC 1918.
pub is_private_iff :
    (ip : Ip4)
    → IsWord ip
    → (is_private ip ≡ true) ↔ (
        (contains ten_slash_8 ip ≡ true)
        ⊎ ((contains b172_16_slash_12 ip ≡ true) ⊎ (contains b192_168_slash_16 ip ≡ true)))
unfolding is_private octets host_bits
is_private_iff ip h =
    rw
      (
        contains-align ten_slash_8 ip (omega arith) h,
        contains-align b172_16_slash_12 ip (omega arith) h,
        contains-align b192_168_slash_16 ip (omega arith) h,
        high_nibble (ip / 2 ^ 16 % 256) (omega arith),
      )
      (ground arith)
