-- ===== src/Ip/V6.antt =====
-- crates/flannel-core/src/ip/ip6net.rs: IPv6 addresses and networks. An `IP6` is its 16 bytes, most
-- significant first, as in the code; the arithmetic goes through the `u128` that they stand for.
pub mod Bytes
pub mod Block
pub mod Sets
pub mod Range
use flannel_rust.Prelude.{
  ℕ, zero, suc, ◌+◌, ◌-◌, ◌*◌, ◌/◌, ◌%◌, ◌^◌, bit_and, Bool, true, false, ◌&&◌, ◌||◌, List, [], ◌∷◌,
  ltb, leb, ◌==◌, if◌then◌else◌, length, replicate, get_or,
}

pub record Ip6 : Type 0 where
  pub bytes : List ℕ

-- `==` on `[u8; 16]`
abbrev pub bytes_eq : List ℕ → List ℕ → Bool
bytes_eq [] [] = true
bytes_eq [] (y ∷ ys) = false
bytes_eq (x ∷ xs) [] = false
bytes_eq (x ∷ xs) (y ∷ ys) = x == y && bytes_eq xs ys

abbrev pub ip_eq : Ip6 → Ip6 → Bool
ip_eq a b = bytes_eq a.bytes b.bytes

pub record Ip6Net : Type 0 where
  pub ip : Ip6
  pub prefix_len : ℕ

abbrev pub zero_ip : Ip6
zero_ip = record { bytes = replicate 16 0 }

abbrev pub default_net : Ip6Net
default_net = record { ip = zero_ip; prefix_len = 0 }

abbrev pub net_eq : Ip6Net → Ip6Net → Bool
net_eq a b = ip_eq a.ip b.ip && a.prefix_len == b.prefix_len

-- `from_be_bytes` and `to_be_bytes`, at any width.
unfoldable pub be_value : List ℕ → ℕ
be_value [] = 0
be_value (b ∷ bs) = b * 256 ^ length bs + be_value bs

unfoldable pub be_bytes : ℕ → ℕ → List ℕ
be_bytes zero v = []
be_bytes (suc n) v = (v / 256 ^ n % 256) ∷ be_bytes n v

unfoldable pub ip6_value : Ip6 → ℕ
ip6_value ip = be_value ip.bytes

unfoldable pub ip6_from_value : ℕ → Ip6
ip6_from_value v = record { bytes = be_bytes 16 v }

unfoldable pub is_private : Ip6 → Bool
is_private ip = bit_and (get_or ip.bytes 0 0) 0xfe == 0xfc

unfoldable pub is_empty : Ip6 → Bool
is_empty subnet = ip_eq subnet zero_ip

abbrev pub u128_max : ℕ
u128_max = 0xffff_ffff_ffff_ffff_ffff_ffff_ffff_ffff

abbrev pub shl : ℕ → ℕ → ℕ
shl x k = x * 2 ^ k % 2 ^ 128

abbrev pub wrapping_add : ℕ → ℕ → ℕ
wrapping_add a b = (a + b) % 2 ^ 128

abbrev pub wrapping_sub : ℕ → ℕ → ℕ
wrapping_sub a b = (a + 2 ^ 128 - b) % 2 ^ 128

unfoldable pub get_ipv6_subnet_min : Ip6 → ℕ → Ip6
get_ipv6_subnet_min network_ip size = ip6_from_value (wrapping_add (ip6_value network_ip) size)

unfoldable pub get_ipv6_subnet_max : Ip6 → ℕ → Ip6
get_ipv6_subnet_max network_ip size = ip6_from_value (wrapping_sub (ip6_value network_ip) size)

unfoldable pub check_ipv6_subnet : Ip6 → Ip6 → Bool
check_ipv6_subnet subnet_ip mask =
    let subnet = ip6_value subnet_ip in bit_and subnet (ip6_value mask) == subnet

unfoldable pub mask6 : ℕ → Ip6
mask6 bits =
    if bits == 0 || ltb 128 bits
    then zero_ip
    else record { bytes = be_bytes 16 (shl u128_max (128 - bits)) }

unfoldable pub subnet_size6 : ℕ → ℕ
subnet_size6 prefix_len =
    if prefix_len == 0 || ltb 128 prefix_len then 0 else shl 1 (128 - prefix_len)

unfoldable pub net_mask : Ip6Net → Ip6
net_mask n = mask6 n.prefix_len

unfoldable pub network : Ip6Net → Ip6Net
network n = record {
  ip = ip6_from_value (bit_and (ip6_value n.ip) (ip6_value (net_mask n)));
  prefix_len = n.prefix_len;
}

unfoldable pub clear_host_bits : Ip6Net → Ip6Net
clear_host_bits n = network n

unfoldable pub next : Ip6Net → Ip6Net
next n = record {
  ip = ip6_from_value (wrapping_add (ip6_value n.ip) (subnet_size6 n.prefix_len));
  prefix_len = n.prefix_len;
}

unfoldable pub increment_ip : Ip6Net → Ip6Net
increment_ip n = record n { ip = ip6_from_value (wrapping_add (ip6_value n.ip) 1) }

unfoldable pub overlaps : Ip6Net → Ip6Net → Bool
overlaps n other =
    let m =
      if ltb n.prefix_len other.prefix_len
      then ip6_value (net_mask n)
      else ip6_value (net_mask other) in
    bit_and (ip6_value n.ip) m == bit_and (ip6_value other.ip) m

unfoldable pub contains : Ip6Net → Ip6 → Bool
contains n ip =
    let m = ip6_value (net_mask n) in bit_and (ip6_value n.ip) m == bit_and (ip6_value ip) m

unfoldable pub contains_cidr : Ip6Net → Ip6Net → Bool
contains_cidr n other =
    leb (ip6_value (net_mask n)) (ip6_value (net_mask other)) && contains n other.ip

unfoldable pub empty : Ip6Net → Bool
empty n = is_empty n.ip && n.prefix_len == 0
