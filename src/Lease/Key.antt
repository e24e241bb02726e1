-- ===== src/Lease/Key.antt =====
-- `same_subnet` as equality of a key that the enable flags choose.
use flannel_rust.Prelude.{◌≡◌, refl, sym, ◌∙◌, ◌↔◌, Bool, true, false, arith, inl, inr, Bool-cases}
use flannel_rust.Ip.V4
use flannel_rust.Ip.V4.{Ip4Net}
use flannel_rust.Ip.V6
use flannel_rust.Ip.V6.{Ip6Net}
use flannel_rust.Ip.V6.Bytes.{bytes_eq_iff}
use flannel_rust.Lease.{Lease, same_subnet, stored_match, own_match}

net4_eq_iff : (a b : Ip4Net) → (V4.net_eq a b ≡ true) ↔ (a ≡ b)
net4_eq_iff a b = ground arith

net6_eq_iff : (a b : Ip6Net) → (V6.net_eq a b ≡ true) ↔ (a ≡ b)
net6_eq_iff a b = ground (arith, bytes_eq_iff a.ip.bytes b.ip.bytes)

-- The subnets that count under the flags; the others are replaced by a fixed one.
abbrev pub key : Bool → Bool → Lease → Ip4Net × Ip6Net
key true true l = (l.subnet, l.ipv6_subnet)
key true false l = (l.subnet, V6.default_net)
key false true l = (V4.default_net, l.ipv6_subnet)
key false false l = (l.subnet, V6.default_net)

-- Two leases have the same subnet under the flags given exactly when they agree on the subnets
-- that the flags make count: the IPv4 one, the IPv6 one, or both, and the IPv4 one if neither
-- family is enabled.
pub same_subnet_iff :
    (v4 v6 : Bool) (a b : Lease) → (same_subnet v4 v6 a b ≡ true) ↔ (key v4 v6 a ≡ key v4 v6 b)
unfolding same_subnet
same_subnet_iff true true a b =
    ground (arith, net4_eq_iff a.subnet b.subnet, net6_eq_iff a.ipv6_subnet b.ipv6_subnet)
same_subnet_iff true false a b =
    ground (arith, net4_eq_iff a.subnet b.subnet, net6_eq_iff a.ipv6_subnet b.ipv6_subnet)
same_subnet_iff false true a b =
    ground (arith, net4_eq_iff a.subnet b.subnet, net6_eq_iff a.ipv6_subnet b.ipv6_subnet)
same_subnet_iff false false a b =
    ground (arith, net4_eq_iff a.subnet b.subnet, net6_eq_iff a.ipv6_subnet b.ipv6_subnet)

-- The leases of one cluster carry one set of flags.
abbrev pub IsUniform : Bool → Bool → Lease → Type 0
IsUniform v4 v6 l = (l.enable_ipv4 ≡ v4) × (l.enable_ipv6 ≡ v6)

module _ (v4 v6 : Bool) where
  abbrev pub same : Lease → Lease → Bool
  same = same_subnet v4 v6

  pub stored_match-same : (a b : Lease) → IsUniform v4 v6 a → stored_match a b ≡ same a b
  stored_match-same a b h = rw (h.0, h.1) refl

  pub own_match-same : (own a : Lease) → IsUniform v4 v6 a → own_match own a ≡ same own a
  own_match-same own a h = rw (h.0, h.1) refl

  pub same_comm : (a b : Lease) → same a b ≡ same b a
  same_comm a b =
      let ab = same_subnet_iff v4 v6 a b in
      let ba = same_subnet_iff v4 v6 b a in
      elim (Bool-cases (same a b)) [
        | inl e ↦ rw (e, ba.1 (sym (ab.0 e))) refl
        | inr n ↦ elim (Bool-cases (same b a)) [
          | inl e ↦ absurd (let back = ab.1 (sym (ba.0 e)) in cc)
          | inr m ↦ rw (n, m) refl
        ]
      ]

  pub same_refl : (a : Lease) → same a a ≡ true
  same_refl a = (same_subnet_iff v4 v6 a a).1 refl

  -- Leases with the same key match the same leases.
  pub same_congr : (a b c : Lease) → same a b ≡ true → same a c ≡ same b c
  same_congr a b c e =
      let ab = (same_subnet_iff v4 v6 a b).0 e in
      let ac = same_subnet_iff v4 v6 a c in
      let bc = same_subnet_iff v4 v6 b c in
      elim (Bool-cases (same a c)) [
        | inl x ↦ rw (x, bc.1 (sym ab ∙ ac.0 x)) refl
        | inr n ↦ elim (Bool-cases (same b c)) [
          | inl x ↦ absurd (let back = ac.1 (ab ∙ bc.0 x) in cc)
          | inr m ↦ rw (n, m) refl
        ]
      ]
