-- ===== src/Ip/V4/Sets.antt =====
-- What the tests on pairs of IPv4 networks say of the sets of their addresses.
use flannel_rust.Prelude.{
  ℕ, ◌+◌, ◌^◌, ◌%◌, ◌≤◌, ◌<◌, ◌≡◌, refl, sym, ◌∙◌, ◌↔◌, inl, inr, true, false, arith, ltb, leb,
  ==_iff, ==_comm, leb→le, le→leb, split_and, Bool-cases, if◌then◌else◌,
}
use flannel_rust.Ip.Block.{
  host_bits_of-proper, Inside, Inside-share, subset_iff, mask_le_iff, shifted_one, next_apart,
}
use flannel_rust.Ip.V4.{
  Ip4, Ip4Net, net_mask, network, broadcast, contains, contains_cidr, overlaps, next, subnet_size,
}
use flannel_rust.Ip.V4.Block.{
  IsWord, host_bits, host_bits-le, mask_value-host_bits, contains-align, network_canonical,
}

-- `contains` in terms of blocks.
pub contains-Inside :
    (n : Ip4Net) (ip : Ip4)
    → IsWord n.ip
    → IsWord ip
    → (contains n ip ≡ true) ↔ Inside (host_bits n.prefix_len) n.ip ip
contains-Inside n ip h k = rw (contains-align n ip h k) (==_iff _ _)

net_mask_le_iff :
    (n m : Ip4Net) → (net_mask n ≤ net_mask m) ↔ (host_bits m.prefix_len ≤ host_bits n.prefix_len)
unfolding net_mask
net_mask_le_iff n m =
    rw (mask_value-host_bits n.prefix_len, mask_value-host_bits m.prefix_len)
      (mask_le_iff 32 (host_bits m.prefix_len) (host_bits n.prefix_len) (host_bits-le m.prefix_len)
        (host_bits-le n.prefix_len))

module _ (n m : Ip4Net) (hn : IsWord n.ip) (hm : IsWord m.ip) where
  -- For networks with 32-bit addresses, `contains_cidr n m` holds exactly when every 32-bit address of
  -- `m` is an address of `n`.
  pub contains_cidr_iff :
      (contains_cidr n m ≡ true)
      ↔ ((ip : Ip4) → IsWord ip → contains m ip ≡ true → contains n ip ≡ true)
  unfolding contains_cidr
  contains_cidr_iff =
      let blocks =
        subset_iff 32 (host_bits m.prefix_len) (host_bits n.prefix_len) n.ip m.ip
          (host_bits-le m.prefix_len) hn hm in
      (
        λ e.
            let (le, inside) = split_and (leb (net_mask n) (net_mask m)) (contains n m.ip) e in
            let subset =
              blocks.0 (
                (net_mask_le_iff n m).0 (leb→le _ _ le),
                (contains-Inside n m.ip hn hm).0 inside,
              ) in
            λ ip hi member.
              (contains-Inside n ip hn hi).1 (subset ip hi ((contains-Inside m ip hm hi).0 member)),
        λ subset.
            let (le, inside) = blocks.1 (λ ip hi member.
              (contains-Inside n ip hn hi).0
                (subset ip hi ((contains-Inside m ip hm hi).1 member))) in
            rw (le→leb _ _ ((net_mask_le_iff n m).1 le)) ((contains-Inside n m.ip hn hm).1 inside),
      )

  overlaps-contains :
      overlaps n m ≡ (if ltb n.prefix_len m.prefix_len then contains n m.ip else contains m n.ip)
  unfolding overlaps contains
  overlaps-contains = elim (Bool-cases (ltb n.prefix_len m.prefix_len)) [
    | inl wider ↦ rw wider refl
    | inr narrower ↦ rw narrower (==_comm _ _)
  ]

holds_own : (n : Ip4Net) → IsWord n.ip → contains n n.ip ≡ true
holds_own n h = (contains-Inside n n.ip h h).1 refl

-- Two blocks that share an address: the larger holds the start of the smaller.
share_holds :
    (n m : Ip4Net)
    → IsWord n.ip
    → IsWord m.ip
    → host_bits m.prefix_len ≤ host_bits n.prefix_len
    → (ip : Ip4) → IsWord ip
    → contains n ip ≡ true
    → contains m ip ≡ true
    → contains n m.ip ≡ true
share_holds n m hn hm le ip hi en em = (contains-Inside n m.ip hn hm).1 (
    Inside-share (host_bits m.prefix_len) (host_bits n.prefix_len) n.ip m.ip ip le
      ((contains-Inside n ip hn hi).0 en) ((contains-Inside m ip hm hi).0 em))

pub host_bits-proper : (p : ℕ) → p ≤ 32 → host_bits p + p ≡ 32
unfolding host_bits
host_bits-proper p h = omega (arith, host_bits_of-proper 32 p h)

-- For 32-bit addresses and prefixes up to 32, two networks overlap exactly when some 32-bit address is in both.
pub overlaps_iff :
    (n m : Ip4Net)
    → IsWord n.ip
    → IsWord m.ip
    → n.prefix_len ≤ 32
    → m.prefix_len ≤ 32
    → (overlaps n m ≡ true)
      ↔ ((ip : Ip4) × IsWord ip × (contains n ip ≡ true) × (contains m ip ≡ true))
overlaps_iff n m hn hm pn pm =
    let bn = host_bits-proper n.prefix_len pn in
    let bm = host_bits-proper m.prefix_len pm in
    elim (Bool-cases (ltb n.prefix_len m.prefix_len)) [
      | inl wider ↦
          rw (overlaps-contains n m hn hm, wider)
            (
              λ e. (m.ip, hm, e, holds_own m hm),
              λ w. share_holds n m hn hm (ground arith) w.0 w.1 w.2 w.3,
            )
      | inr narrower ↦
          rw (overlaps-contains n m hn hm, narrower)
            (
              λ e. (n.ip, hn, holds_own n hn, e),
              λ w. share_holds m n hm hn (ground arith) w.0 w.1 w.3 w.2,
            )
    ]

pub subnet_size-pow :
    (p : ℕ) → 0 < p → p ≤ 32 → (subnet_size p ≡ 2 ^ host_bits p) × (host_bits p < 32)
unfolding subnet_size host_bits
subnet_size-pow p pos h = shifted_one 32 p pos h

-- For a 32-bit address and a prefix from 1 to 32, the sibling network starts right after the broadcast address, modulo 2 ^ 32,
-- has the same prefix, and shares no address with the network.
pub next_sibling :
    (n : Ip4Net)
    → IsWord n.ip
    → 0 < n.prefix_len
    → n.prefix_len ≤ 32
    → ((next (network n)).ip ≡ (broadcast n + 1) % 2 ^ 32)
      × ((next n).prefix_len ≡ n.prefix_len)
      × (overlaps n (next n) ≡ false)
unfolding next network
next_sibling n h pos le =
    let (size, small) = subnet_size-pow n.prefix_len pos le in
    let word : IsWord (next n).ip = omega arith in
    (
      rw ((network_canonical n h).3, size) refl,
      refl,
      elim (Bool-cases (overlaps n (next n))) [
        | inl meets ↦ absurd (
            let (ip, hi, inside, inside') = (overlaps_iff n (next n) h word le le).0 meets in
            let same =
              (contains-Inside (next n) ip word hi).0 inside'
              ∙ sym ((contains-Inside n ip h hi).0 inside) in
            next_apart 32 (host_bits n.prefix_len) n.ip small h (rw size at same))
        | inr apart ↦ apart
      ],
    )
