-- ===== src/Ip/V6/Range.antt =====
-- The range of subnets that an IPv6 network is divided into.
use native.Mathlib.Nat.{mod-eq_of_lt}
use native.Mathlib.Omega.{pow_step}
use flannel_rust.Prelude.{
  ℕ, suc, ◌+◌, ◌-◌, ◌%◌, ◌^◌, ◌≤◌, ◌<◌, ◌≡◌, sym, ◌∙◌, ◌↔◌, true, arith, ==_iff,
}
use flannel_rust.Prelude.Mask.{and_mask, pow_pos, pow_le}
use flannel_rust.Ip.Block.{shifted_one}
use flannel_rust.Ip.Pool.{IsAligned, first_subnet, last_subnet}
use flannel_rust.Ip.V6.{
  Ip6, Ip6Net, ip6_value, shl, mask6, network, next, contains, check_ipv6_subnet, subnet_size6,
  get_ipv6_subnet_min, get_ipv6_subnet_max,
}
use flannel_rust.Ip.V6.Bytes.{IsAddress, from_value-IsAddress}
use flannel_rust.Ip.V6.Block.{
  host_bits, host_bits-le, value_word, from_value_word, mask6_value, network-align, contains-Inside,
}
use flannel_rust.Ip.V6.Sets.{host_bits-proper}

-- An address is on the boundary of a subnet length exactly when its value is a multiple of the subnet size.
pub check_ipv6_subnet_iff :
    (s : Ip6) (len : ℕ)
    → IsAddress s
    → len ≤ 128
    → (check_ipv6_subnet s (mask6 len) ≡ true) ↔ IsAligned (128 - len) (ip6_value s)
unfolding check_ipv6_subnet
check_ipv6_subnet_iff s len h le =
    let b = host_bits-proper len le in
    let e : host_bits len ≡ 128 - len = omega arith in
    rw
      (
        mask6_value len,
        and_mask 128 (host_bits len) (ip6_value s) (omega arith) (value_word s h),
        e,
      )
      (==_iff _ _)

size_pow : (len : ℕ) → 0 < len → len ≤ 128 → shl 1 (128 - len) ≡ 2 ^ (128 - len)
size_pow len pos le =
    let below : 2 ^ (128 - len) < 2 ^ 128 = omega (
      arith,
      pow_step 2 (128 - len),
      pow_le (suc (128 - len)) 128 (omega arith),
      pow_pos (128 - len),
    ) in
    omega (arith, mod-eq_of_lt below)

subnet_size6-pow :
    (p : ℕ) → 0 < p → p ≤ 128 → (subnet_size6 p ≡ 2 ^ host_bits p) × (host_bits p < 128)
unfolding subnet_size6 host_bits
subnet_size6-pow p pos h = shifted_one 128 p pos h

-- A network as parsed: a valid address that is its network address, and a proper prefix.
pub record IsParsed (n : Ip6Net) : Type 0 where
  pub address : IsAddress n.ip
  pub canonical : ip6_value (network n).ip ≡ ip6_value n.ip
  pub prefix : n.prefix_len ≤ 128

min_value :
    (ip : Ip6) (size : ℕ)
    → ip6_value (get_ipv6_subnet_min ip size) ≡ (ip6_value ip + size) % 2 ^ 128
unfolding get_ipv6_subnet_min
min_value ip size = from_value_word ((ip6_value ip + size) % 2 ^ 128) (omega arith)

max_value :
    (ip : Ip6) (size : ℕ)
    → ip6_value (get_ipv6_subnet_max ip size) ≡ (ip6_value ip + 2 ^ 128 - size) % 2 ^ 128
unfolding get_ipv6_subnet_max
max_value ip size = from_value_word ((ip6_value ip + 2 ^ 128 - size) % 2 ^ 128) (omega arith)

next_value :
    (n : Ip6Net) → ip6_value (next n).ip ≡ (ip6_value n.ip + subnet_size6 n.prefix_len) % 2 ^ 128
unfolding next
next_value n =
    from_value_word ((ip6_value n.ip + subnet_size6 n.prefix_len) % 2 ^ 128) (omega arith)

pub min-IsAddress : (ip : Ip6) (size : ℕ) → IsAddress (get_ipv6_subnet_min ip size)
unfolding get_ipv6_subnet_min
min-IsAddress ip size = from_value-IsAddress _

pub max-IsAddress : (ip : Ip6) (size : ℕ) → IsAddress (get_ipv6_subnet_max ip size)
unfolding get_ipv6_subnet_max
max-IsAddress ip size = from_value-IsAddress _

module _ (n : Ip6Net) (len : ℕ) (h : IsParsed n) (pos : 0 < n.prefix_len)
    (few : n.prefix_len + 2 ≤ len) (le : len ≤ 128) where
  k_few : 128 - len + 2 ≤ host_bits n.prefix_len
  k_few = omega (arith, host_bits-proper n.prefix_len h.prefix)

  own : IsAligned (host_bits n.prefix_len) (ip6_value n.ip)
  own = sym (network-align n h.address) ∙ h.canonical

  abbrev lower : Ip6
  lower = get_ipv6_subnet_min n.ip (shl 1 (128 - len))

  abbrev upper : Ip6
  upper = get_ipv6_subnet_max (next n).ip (shl 1 (128 - len))

  -- The default bounds are the second and the last subnet of the network, for a parsed network with a
  -- prefix that is not 0 and a subnet length up to 128 at least two bits longer: both lie in the network, on a
  -- boundary of the subnet length.
  pub default_range6 :
      (ip6_value (get_ipv6_subnet_min n.ip (shl 1 (128 - len))) ≡ ip6_value n.ip + 2 ^ (128 - len))
      × (ip6_value (get_ipv6_subnet_max (next n).ip (shl 1 (128 - len)))
          ≡ ip6_value n.ip + 2 ^ host_bits n.prefix_len - 2 ^ (128 - len))
      × (contains n (get_ipv6_subnet_min n.ip (shl 1 (128 - len))) ≡ true)
      × (contains n (get_ipv6_subnet_max (next n).ip (shl 1 (128 - len))) ≡ true)
      × (check_ipv6_subnet (get_ipv6_subnet_min n.ip (shl 1 (128 - len))) (mask6 len) ≡ true)
      × (check_ipv6_subnet (get_ipv6_subnet_max (next n).ip (shl 1 (128 - len))) (mask6 len) ≡ true)
  default_range6 =
      let b = host_bits n.prefix_len in
      let word = value_word n.ip h.address in
      let first =
        first_subnet 128 b (128 - len) (ip6_value n.ip) k_few (host_bits-le n.prefix_len) word
          own in
      let last =
        last_subnet 128 b (128 - len) (ip6_value n.ip) k_few (host_bits-le n.prefix_len) word own in
      let size = size_pow len (omega arith) le in
      let whole = (subnet_size6-pow n.prefix_len pos h.prefix).0 in
      let low : ip6_value lower ≡ ip6_value n.ip + 2 ^ (128 - len) =
        min_value n.ip (shl 1 (128 - len)) ∙ rw size first.0 in
      let high : ip6_value upper ≡ ip6_value n.ip + 2 ^ b - 2 ^ (128 - len) =
        max_value (next n).ip (shl 1 (128 - len)) ∙ rw (size, next_value n, whole) last.0 in
      let low_address = min-IsAddress n.ip (shl 1 (128 - len)) in
      let high_address = max-IsAddress (next n).ip (shl 1 (128 - len)) in
      (
        low,
        high,
        (contains-Inside n h.address lower low_address).1 (rw low first.2),
        (contains-Inside n h.address upper high_address).1 (rw high last.2),
        (check_ipv6_subnet_iff lower len low_address le).1 (rw low first.1),
        (check_ipv6_subnet_iff upper len high_address le).1 (rw high last.1),
      )
