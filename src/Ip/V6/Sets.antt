-- ===== src/Ip/V6/Sets.antt =====
-- What the tests on pairs of IPv6 networks say of the sets of their addresses.
use flannel_rust.Prelude.{
  ℕ, ◌+◌, ◌^◌, ◌≤◌, ◌<◌, ◌≡◌, refl, ◌↔◌, inl, inr, true, arith, ltb, leb, ==_comm, leb→le, le→leb,
  split_and, Bool-cases, if◌then◌else◌,
}
use flannel_rust.Ip.Block.{host_bits_of-proper, Inside, Inside-share, subset_iff, mask_le_iff}
use flannel_rust.Ip.V6.{
  Ip6, Ip6Net, ip6_value, ip6_from_value, net_mask, contains, contains_cidr, overlaps,
}
use flannel_rust.Ip.V6.Bytes.{IsAddress, from_value-IsAddress}
use flannel_rust.Ip.V6.Block.{
  host_bits, host_bits-le, value_word, from_value_word, mask6_value, contains-Inside,
}

net_mask_le_iff :
    (n m : Ip6Net)
    → (ip6_value (net_mask n) ≤ ip6_value (net_mask m))
      ↔ (host_bits m.prefix_len ≤ host_bits n.prefix_len)
unfolding net_mask
net_mask_le_iff n m =
    rw (mask6_value n.prefix_len, mask6_value m.prefix_len)
      (mask_le_iff 128 (host_bits m.prefix_len) (host_bits n.prefix_len) (host_bits-le m.prefix_len)
        (host_bits-le n.prefix_len))

module _ (n m : Ip6Net) (hn : IsAddress n.ip) (hm : IsAddress m.ip) where
  -- Inclusion over all addresses is inclusion over all 128-bit values.
  subset_values :
      ((ip : Ip6) → IsAddress ip → contains m ip ≡ true → contains n ip ≡ true)
      → (x : ℕ) → x < 2 ^ 128
      → Inside (host_bits m.prefix_len) (ip6_value m.ip) x
      → Inside (host_bits n.prefix_len) (ip6_value n.ip) x
  subset_values subset x hx member =
      let ip = ip6_from_value x in
      let valid = from_value-IsAddress x in
      let same = from_value_word x hx in
      let inside = (contains-Inside m hm ip valid).1 (rw same member) in
      rw same at ((contains-Inside n hn ip valid).0 (subset ip valid inside))

  -- For networks with addresses of 16 bytes, `contains_cidr n m` holds exactly when every address of `m`
  -- is an address of `n`.
  pub contains_cidr6_iff :
      (contains_cidr n m ≡ true)
      ↔ ((ip : Ip6) → IsAddress ip → contains m ip ≡ true → contains n ip ≡ true)
  unfolding contains_cidr
  contains_cidr6_iff =
      let blocks =
        subset_iff 128 (host_bits m.prefix_len) (host_bits n.prefix_len) (ip6_value n.ip)
          (ip6_value m.ip) (host_bits-le m.prefix_len) (value_word n.ip hn) (value_word m.ip hm) in
      (
        λ e.
            let (le, inside) =
              split_and (leb (ip6_value (net_mask n)) (ip6_value (net_mask m))) (contains n m.ip)
                e in
            let subset =
              blocks.0 (
                (net_mask_le_iff n m).0 (leb→le _ _ le),
                (contains-Inside n hn m.ip hm).0 inside,
              ) in
            λ ip hi member.
              (contains-Inside n hn ip hi).1
                (subset (ip6_value ip) (value_word ip hi) ((contains-Inside m hm ip hi).0 member)),
        λ subset.
            let (le, inside) = blocks.1 (subset_values subset) in
            rw (le→leb _ _ ((net_mask_le_iff n m).1 le)) ((contains-Inside n hn m.ip hm).1 inside),
      )

  overlaps-contains :
      overlaps n m ≡ (if ltb n.prefix_len m.prefix_len then contains n m.ip else contains m n.ip)
  unfolding overlaps contains
  overlaps-contains = elim (Bool-cases (ltb n.prefix_len m.prefix_len)) [
    | inl wider ↦ rw wider refl
    | inr narrower ↦ rw narrower (==_comm _ _)
  ]

holds_own : (n : Ip6Net) → IsAddress n.ip → contains n n.ip ≡ true
holds_own n h = (contains-Inside n h n.ip h).1 refl

share_holds :
    (n m : Ip6Net)
    → IsAddress n.ip
    → IsAddress m.ip
    → host_bits m.prefix_len ≤ host_bits n.prefix_len
    → (ip : Ip6) → IsAddress ip
    → contains n ip ≡ true
    → contains m ip ≡ true
    → contains n m.ip ≡ true
share_holds n m hn hm le ip hi en em = (contains-Inside n hn m.ip hm).1 (
    Inside-share (host_bits m.prefix_len) (host_bits n.prefix_len) (ip6_value n.ip) (ip6_value m.ip)
      (ip6_value ip) le ((contains-Inside n hn ip hi).0 en) ((contains-Inside m hm ip hi).0 em))

pub host_bits-proper : (p : ℕ) → p ≤ 128 → host_bits p + p ≡ 128
unfolding host_bits
host_bits-proper p h = omega (arith, host_bits_of-proper 128 p h)

-- For addresses of 16 bytes and prefixes up to 128, two networks overlap exactly when some address is in both.
pub overlaps6_iff :
    (n m : Ip6Net)
    → IsAddress n.ip
    → IsAddress m.ip
    → n.prefix_len ≤ 128
    → m.prefix_len ≤ 128
    → (overlaps n m ≡ true)
      ↔ ((ip : Ip6) × IsAddress ip × (contains n ip ≡ true) × (contains m ip ≡ true))
overlaps6_iff n m hn hm pn pm =
    let bn = host_bits-proper n.prefix_len pn in
    let bm = host_bits-proper m.prefix_len pm in
    elim (Bool-cases (ltb n.prefix_len m.prefix_len)) [
      | inl wider ↦
          rw (overlaps-contains n m hn hm, wider)
            (
              λ e. (m.ip, hm, e, holds_own m hm),
              λ w. share_holds n m hn hm (ground arith) w.0 w.1 w.2 w.3,
            )
      | inr narrower ↦
          rw (overlaps-contains n m hn hm, narrower)
            (
              λ e. (n.ip, hn, holds_own n hn, e),
              λ w. share_holds m n hm hn (ground arith) w.0 w.1 w.3 w.2,
            )
    ]
