-- ===== src/Ip/V6/Block.antt =====
-- An IPv6 network as a block of `2 ^ host_bits` values.
use native.Mathlib.Nat.{mod-eq_of_lt}
use flannel_rust.Prelude.{
  ℕ, ◌+◌, ◌-◌, ◌%◌, ◌^◌, ◌≤◌, ◌<◌, ◌≡◌, refl, ap, ◌∙◌, ◌↔◌, inl, inr, ◌||◌, true, bit_and, arith,
  ltb, ◌==◌, ==_iff, Bool-cases,
}
use flannel_rust.Prelude.Mask.{align, and_mask, shifted_ones, pow_pos}
use flannel_rust.Ip.Align.{align_bounds, align-eq_iff}
use flannel_rust.Ip.Block.{host_bits_of, host_bits_of-le, Inside}
use flannel_rust.Ip.V6.{
  Ip6, Ip6Net, ip6_value, ip6_from_value, be_value, mask6, net_mask, network, contains,
}
use flannel_rust.Ip.V6.Bytes.{IsAddress, be_value-be_bytes, ip6_roundtrip}

unfoldable pub host_bits : ℕ → ℕ
unfolding host_bits_of
host_bits p = host_bits_of 128 p

pub host_bits-le : (p : ℕ) → host_bits p ≤ 128
unfolding host_bits
host_bits-le p = host_bits_of-le 128 p

pub value_word : (ip : Ip6) → IsAddress ip → ip6_value ip < 2 ^ 128
value_word ip h = (ip6_roundtrip ip ip 0 h h).3

pub from_value_word : (v : ℕ) → v < 2 ^ 128 → ip6_value (ip6_from_value v) ≡ v
unfolding ip6_value ip6_from_value
from_value_word v h = be_value-be_bytes 16 v ∙ mod-eq_of_lt h

pub mask6_value : (p : ℕ) → ip6_value (mask6 p) ≡ 2 ^ 128 - 2 ^ host_bits p
unfolding ip6_value mask6 host_bits be_value
mask6_value p = elim (Bool-cases (p == 0 || ltb 128 p)) [
  | inl zero_mask ↦ rw zero_mask refl
  | inr proper ↦
      let high = shifted_ones 128 (128 - p) (omega arith) in
      rw (proper, be_value-be_bytes 16 _)
        (ap (λ (t : ℕ). t % 2 ^ 128) high ∙ mod-eq_of_lt (omega (arith, pow_pos (128 - p))))
]

module _ (n : Ip6Net) (h : IsAddress n.ip) where
  pub and_net_mask :
      (x : ℕ) → x < 2 ^ 128 → bit_and x (ip6_value (net_mask n)) ≡ align (host_bits n.prefix_len) x
  unfolding net_mask
  and_net_mask x lt =
      rw (mask6_value n.prefix_len)
        (and_mask 128 (host_bits n.prefix_len) x (host_bits-le n.prefix_len) lt)

  pub network-align : ip6_value (network n).ip ≡ align (host_bits n.prefix_len) (ip6_value n.ip)
  unfolding network
  network-align =
      let word = value_word n.ip h in
      rw (and_net_mask (ip6_value n.ip) word)
        (from_value_word _ (omega (arith, align_bounds (host_bits n.prefix_len) (ip6_value n.ip))))

  pub contains-Inside :
      (ip : Ip6)
      → IsAddress ip
      → (contains n ip ≡ true) ↔ Inside (host_bits n.prefix_len) (ip6_value n.ip) (ip6_value ip)
  unfolding contains
  contains-Inside ip k =
      rw
        (
          and_net_mask (ip6_value n.ip) (value_word n.ip h),
          and_net_mask (ip6_value ip) (value_word ip k),
        )
        (==_iff _ _)

  -- For addresses of 16 bytes, a network contains exactly the addresses of the `2 ^ host_bits` values from its network address.
  pub contains6_iff :
      (ip : Ip6)
      → IsAddress ip
      → (contains n ip ≡ true) ↔ (
          (ip6_value (network n).ip ≤ ip6_value ip)
          × (ip6_value ip < ip6_value (network n).ip + 2 ^ host_bits n.prefix_len))
  contains6_iff ip k =
      let b = host_bits n.prefix_len in
      let blocks = align-eq_iff b (ip6_value n.ip) (ip6_value ip) in
      rw network-align
        (λ e. blocks.0 ((contains-Inside ip k).0 e), λ r. (contains-Inside ip k).1 (blocks.1 r))
