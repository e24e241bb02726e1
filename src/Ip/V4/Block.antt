-- ===== src/Ip/V4/Block.antt =====
-- An IPv4 network as a block of `2 ^ host_bits` addresses.
use flannel_rust.Prelude.{
  ℕ, ◌+◌, ◌-◌, ◌^◌, ◌≤◌, ◌<◌, ◌≡◌, ap, ◌∙◌, ◌↔◌, true, bit_and, arith, ◌==◌, ==_iff,
}
use flannel_rust.Prelude.Mask.{align, pow_pos, and_mask, or_low, pow_le, align_fits}
use flannel_rust.Ip.Align.{align_bounds, align-eq_iff, align_idem}
use flannel_rust.Ip.Block.{host_bits_of, host_bits_of-le, masked_ones}
use flannel_rust.Ip.V4.{Ip4, Ip4Net, mask_value, net_mask, network, broadcast, contains}

abbrev pub IsWord : ℕ → Type 0
IsWord x = x < 2 ^ 32

-- The bits below the prefix; a prefix of 0 or above 32 masks to 0.
unfoldable pub host_bits : ℕ → ℕ
unfolding host_bits_of
host_bits p = host_bits_of 32 p

pub host_bits-le : (p : ℕ) → host_bits p ≤ 32
unfolding host_bits
host_bits-le p = host_bits_of-le 32 p

pub mask_value-host_bits : (p : ℕ) → mask_value p ≡ 2 ^ 32 - 2 ^ host_bits p
unfolding mask_value host_bits
mask_value-host_bits p = masked_ones 32 p

module _ (n : Ip4Net) where
  bits : ℕ
  bits = host_bits n.prefix_len

  pub and_net_mask : (x : ℕ) → IsWord x → bit_and x (net_mask n) ≡ align (host_bits n.prefix_len) x
  unfolding net_mask
  and_net_mask x h =
      rw (mask_value-host_bits n.prefix_len)
        (and_mask 32 (host_bits n.prefix_len) x (host_bits-le n.prefix_len) h)

  pub network-align : IsWord n.ip → (network n).ip ≡ align (host_bits n.prefix_len) n.ip
  unfolding network
  network-align h = and_net_mask n.ip h

  pub contains-align :
      (ip : ℕ)
      → IsWord n.ip
      → IsWord ip
      → contains n ip ≡ align (host_bits n.prefix_len) n.ip == align (host_bits n.prefix_len) ip
  unfolding contains
  contains-align ip h k = rw (and_net_mask n.ip h, and_net_mask ip k)

  pub broadcast-align :
      IsWord n.ip
      → broadcast n ≡ align (host_bits n.prefix_len) n.ip + (2 ^ host_bits n.prefix_len - 1)
  unfolding broadcast net_mask
  broadcast-align h =
      let b = host_bits n.prefix_len in
      let low : 0xffff_ffff - (2 ^ 32 - 2 ^ b) ≡ 2 ^ b - 1 =
        omega (arith, pow_le b 32 (host_bits-le n.prefix_len), pow_pos b) in
      rw (mask_value-host_bits n.prefix_len, low) (or_low b n.ip)

-- For 32-bit addresses, a network contains exactly the addresses from its network address to its broadcast address.
pub contains_iff :
    (n : Ip4Net) (ip : Ip4)
    → IsWord n.ip
    → IsWord ip
    → (contains n ip ≡ true) ↔ (((network n).ip ≤ ip) × (ip ≤ broadcast n))
contains_iff n ip h k =
    let b = host_bits n.prefix_len in
    rw (contains-align n ip h k, network-align n h, broadcast-align n h)
      (
        λ e. omega (arith, (align-eq_iff b n.ip ip).0 ((==_iff _ _).0 e)),
        λ r. (==_iff _ _).1 ((align-eq_iff b n.ip ip).1 (omega (arith, r, pow_pos b))),
      )

network_idem : (n : Ip4Net) → IsWord n.ip → network (network n) ≡ network n
unfolding network net_mask
network_idem n h =
    let b = host_bits n.prefix_len in
    let once = and_net_mask n n.ip h in
    let again : bit_and (align b n.ip) (net_mask n) ≡ align b n.ip =
      and_net_mask n (align b n.ip) (omega (arith, align_bounds b n.ip)) ∙ align_idem b n.ip in
    ap (λ (t : ℕ). record { ip = t; prefix_len = n.prefix_len }) (rw once again)

-- For a 32-bit address, taking the network address twice is taking it once; the network address and the broadcast address
-- belong to the network; the block ends `2 ^ host_bits` above its start, inside the 32 bits.
pub network_canonical :
    (n : Ip4Net)
    → IsWord n.ip
    → (network (network n) ≡ network n)
      × (contains n (network n).ip ≡ true)
      × (contains n (broadcast n) ≡ true)
      × (broadcast n + 1 ≡ (network n).ip + 2 ^ host_bits n.prefix_len)
      × IsWord (broadcast n)
network_canonical n h =
    let b = host_bits n.prefix_len in
    let start = network-align n h in
    let end = broadcast-align n h in
    let fits = align_fits 32 b n.ip (host_bits-le n.prefix_len) h in
    let low = pow_pos b in
    let inside = align_bounds b n.ip in
    (
      network_idem n h,
      (contains_iff n (network n).ip h (omega arith)).1 (omega arith),
      (contains_iff n (broadcast n) h (omega arith)).1 (omega arith),
      omega arith,
      omega arith,
    )
