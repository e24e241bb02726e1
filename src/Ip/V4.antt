-- ===== src/Ip/V4.antt =====
-- crates/flannel-core/src/ip/ipnet.rs: IPv4 addresses and networks. An `IP4` is its `u32`; every
-- operation that may leave the 32 bits wraps as the code says.
pub mod Block
pub mod Sets
pub mod Octets
pub mod Range
use flannel_rust.Prelude.{
  ℕ, ◌+◌, ◌-◌, ◌*◌, ◌/◌, ◌%◌, ◌^◌, bit_and, bit_or, Bool, ◌&&◌, ◌||◌, Option, none, some, ltb, leb,
  ◌==◌, if◌then◌else◌,
}

abbrev pub Ip4 : Type 0
Ip4 = ℕ

pub record Ip4Net : Type 0 where
  pub ip : Ip4
  pub prefix_len : ℕ

-- `#[derive(Default)]`
abbrev pub default_net : Ip4Net
default_net = record { ip = 0; prefix_len = 0 }

-- `#[derive(PartialEq)]`
abbrev pub net_eq : Ip4Net → Ip4Net → Bool
net_eq a b = a.ip == b.ip && a.prefix_len == b.prefix_len

abbrev pub u32_max : ℕ
u32_max = 0xffff_ffff

-- `x << k` on a `u32`, for `k < 32`.
abbrev pub shl : ℕ → ℕ → ℕ
shl x k = x * 2 ^ k % 2 ^ 32

abbrev pub wrapping_add : ℕ → ℕ → ℕ
wrapping_add a b = (a + b) % 2 ^ 32

abbrev pub wrapping_sub : ℕ → ℕ → ℕ
wrapping_sub a b = (a + 2 ^ 32 - b) % 2 ^ 32

unfoldable pub from_octets : ℕ → ℕ → ℕ → ℕ → Ip4
from_octets a b c d = bit_or (bit_or (bit_or (shl a 24) (shl b 16)) (shl c 8)) d

-- `u32::from_be_bytes`
unfoldable pub from_bytes : ℕ × ℕ × ℕ × ℕ → Ip4
from_bytes (a, b, c, d) = a * 2 ^ 24 + b * 2 ^ 16 + c * 2 ^ 8 + d

-- `u32::to_be_bytes`
unfoldable pub octets : Ip4 → ℕ × ℕ × ℕ × ℕ
octets ip = (ip / 2 ^ 24 % 256, ip / 2 ^ 16 % 256, ip / 2 ^ 8 % 256, ip % 256)

unfoldable pub is_private : Ip4 → Bool
unfolding octets
is_private ip =
    let (a, b, c, d) = octets ip in
    a == 10 || (a == 172 && bit_and b 0xf0 == 16) || (a == 192 && b == 168)

unfoldable pub subnet_size : ℕ → ℕ
subnet_size prefix_len = if prefix_len == 0 || ltb 32 prefix_len then 0 else shl 1 (32 - prefix_len)

unfoldable pub mask_value : ℕ → ℕ
mask_value bits = if bits == 0 || ltb 32 bits then 0 else shl u32_max (32 - bits)

-- the free function `mask`
unfoldable pub mask : ℕ → Ip4
mask bits = mask_value bits

-- the method `mask`
unfoldable pub net_mask : Ip4Net → ℕ
net_mask n = mask_value n.prefix_len

unfoldable pub network : Ip4Net → Ip4Net
network n = record { ip = bit_and n.ip (net_mask n); prefix_len = n.prefix_len }

unfoldable pub clear_host_bits : Ip4Net → Ip4Net
clear_host_bits n = network n

unfoldable pub next : Ip4Net → Ip4Net
next n = record { ip = wrapping_add n.ip (subnet_size n.prefix_len); prefix_len = n.prefix_len }

-- `+= 1`: an overflow panics (`none`) where the build checks overflows, and wraps where it does not.
unfoldable pub increment_ip : Bool → Ip4Net → Option Ip4Net
increment_ip overflow_checks n =
    if n.ip == u32_max && overflow_checks
    then none
    else some (record n { ip = wrapping_add n.ip 1 })

unfoldable pub overlaps : Ip4Net → Ip4Net → Bool
overlaps n other =
    let m = if ltb n.prefix_len other.prefix_len then net_mask n else net_mask other in
    bit_and n.ip m == bit_and other.ip m

unfoldable pub contains : Ip4Net → Ip4 → Bool
contains n ip = bit_and n.ip (net_mask n) == bit_and ip (net_mask n)

unfoldable pub contains_cidr : Ip4Net → Ip4Net → Bool
contains_cidr n other = leb (net_mask n) (net_mask other) && contains n other.ip

unfoldable pub empty : Ip4Net → Bool
empty n = n.ip == 0 && n.prefix_len == 0

-- `!mask` on a `u32`
unfoldable pub broadcast : Ip4Net → Ip4
broadcast n = bit_or n.ip (u32_max - net_mask n)

unfoldable pub get_subnet_min : Ip4 → ℕ → Ip4
get_subnet_min network size = wrapping_add network size

unfoldable pub get_subnet_max : Ip4 → ℕ → Ip4
get_subnet_max network size = wrapping_sub network size

unfoldable pub check_subnet : Ip4 → Ip4 → Bool
check_subnet subnet mask = bit_and subnet mask == subnet
