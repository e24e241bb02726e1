-- ===== src/Ip/V4/Range.antt =====
-- The range of subnets that an IPv4 network is divided into.
use native.Mathlib.Nat.{mod-eq_of_lt}
use native.Mathlib.Omega.{pow_step}
use flannel_rust.Prelude.{ℕ, suc, ◌+◌, ◌-◌, ◌^◌, ◌≤◌, ◌<◌, ◌≡◌, sym, ◌∙◌, ◌↔◌, true, arith, ==_iff}
use flannel_rust.Prelude.Mask.{and_mask, pow_pos, pow_le}
use flannel_rust.Ip.Pool.{IsAligned, first_subnet, last_subnet}
use flannel_rust.Ip.V4.{
  Ip4Net, shl, mask, network, next, broadcast, contains, check_subnet, get_subnet_min,
  get_subnet_max,
}
use flannel_rust.Ip.V4.Block.{
  IsWord, host_bits, host_bits-le, mask_value-host_bits, network-align, broadcast-align,
}
use flannel_rust.Ip.V4.Sets.{contains-Inside, host_bits-proper, subnet_size-pow}

-- A 32-bit address is on the boundary of a subnet length up to 32 exactly when it is a multiple of the subnet size.
pub check_subnet_iff :
    (s len : ℕ) → IsWord s → len ≤ 32 → (check_subnet s (mask len) ≡ true) ↔ IsAligned (32 - len) s
unfolding check_subnet mask
check_subnet_iff s len h le =
    let b = host_bits-proper len le in
    let e : host_bits len ≡ 32 - len = omega arith in
    rw (mask_value-host_bits len, and_mask 32 (host_bits len) s (omega arith) h, e) (==_iff _ _)

size_pow : (len : ℕ) → 0 < len → len ≤ 32 → shl 1 (32 - len) ≡ 2 ^ (32 - len)
size_pow len pos le =
    let below : 2 ^ (32 - len) < 2 ^ 32 = omega (
      arith,
      pow_step 2 (32 - len),
      pow_le (suc (32 - len)) 32 (omega arith),
      pow_pos (32 - len),
    ) in
    omega (arith, mod-eq_of_lt below)

-- A network as parsed: its address is its network address, and its prefix is proper.
pub record IsParsed (n : Ip4Net) : Type 0 where
  pub word : IsWord n.ip
  pub canonical : (network n).ip ≡ n.ip
  pub prefix : n.prefix_len ≤ 32

module _ (n : Ip4Net) (len : ℕ) (h : IsParsed n) (pos : 0 < n.prefix_len)
    (few : n.prefix_len + 2 ≤ len) (le : len ≤ 32) where
  size : ℕ
  size = 2 ^ (32 - len)

  k_few : 32 - len + 2 ≤ host_bits n.prefix_len
  k_few = omega (arith, host_bits-proper n.prefix_len h.prefix)

  own : IsAligned (host_bits n.prefix_len) n.ip
  own = sym (network-align n h.word) ∙ h.canonical

  -- For a parsed network with a prefix that is not 0, and a subnet length up to 32 at least two bits longer,
  -- the default bounds are the second and the last subnet of the network; both lie in it, on a
  -- boundary of the subnet length.
  pub default_range :
      (get_subnet_min n.ip (shl 1 (32 - len)) ≡ n.ip + 2 ^ (32 - len))
      × (get_subnet_max (next n).ip (shl 1 (32 - len)) ≡ broadcast n + 1 - 2 ^ (32 - len))
      × (contains n (n.ip + 2 ^ (32 - len)) ≡ true)
      × (contains n (broadcast n + 1 - 2 ^ (32 - len)) ≡ true)
      × IsAligned (32 - len) (n.ip + 2 ^ (32 - len))
      × IsAligned (32 - len) (broadcast n + 1 - 2 ^ (32 - len))
  unfolding get_subnet_min get_subnet_max next
  default_range =
      let b = host_bits n.prefix_len in
      let first = first_subnet 32 b (32 - len) n.ip k_few (host_bits-le n.prefix_len) h.word own in
      let last = last_subnet 32 b (32 - len) n.ip k_few (host_bits-le n.prefix_len) h.word own in
      let end : broadcast n + 1 ≡ n.ip + 2 ^ b =
        omega (arith, broadcast-align n h.word, own, pow_pos b) in
      let min_word : IsWord (n.ip + 2 ^ (32 - len)) = omega (arith, first.0) in
      let max_word : IsWord (n.ip + 2 ^ b - 2 ^ (32 - len)) = omega (arith, last.0) in
      rw (size_pow len (omega arith) le, (subnet_size-pow n.prefix_len pos h.prefix).0, end)
        (
          first.0,
          last.0,
          (contains-Inside n _ h.word min_word).1 first.2,
          (contains-Inside n _ h.word max_word).1 last.2,
          first.1,
          last.1,
        )
