-- ===== src/Config/Ipv6.antt =====
-- What a successful check says of the IPv6 part of the configuration.
use flannel_rust.Prelude.{
  ℕ, ◌+◌, ◌-◌, ◌/◌, ◌*◌, ◌^◌, ◌≤◌, ◌<◌, ◌≡◌, refl, sym, ap, ◌∙◌, ◌⊎◌, inl, inr, true, false, Option,
  none, some, arith, ◌==◌, ==_iff, Bool-cases, Option-cases,
}
use flannel_rust.Ip.Pool.{IsAligned}
use flannel_rust.Ip.V6
use flannel_rust.Ip.V6.{Ip6, Ip6Net, ip6_value}
use flannel_rust.Ip.V6.Bytes.{IsAddress, ip6_roundtrip}
use flannel_rust.Ip.V6.Block.{value_word, host_bits, network-align}
use flannel_rust.Ip.V6.Range.{
  IsParsed, check_ipv6_subnet_iff, default_range6, min-IsAddress, max-IsAddress,
}
use flannel_rust.Config.{
  Config, ConfigError, Checked, ◌and_then◌, given, fix_len6, size_of6, fix_min6, fix_max6,
  check_bounds6, check_ipv6, with_address,
}

fix_len6_ok :
    (c d : Config)
    → fix_len6 c ≡ (d, none)
    → (d.ipv6_network.prefix_len + 2 ≤ d.ipv6_subnet_len)
      × (d.ipv6_subnet_len ≤ 126)
      × (d ≡ record c { ipv6_subnet_len = d.ipv6_subnet_len })
unfolding fix_len6
fix_len6_ok c d h = ground arith

given-some : (o : Option Ip6) (ip : Ip6) → given o ≡ some ip → o ≡ some ip
unfolding given
given-some o ip h = ground arith

-- A bound: the one given, which the network contains, or the default one, which is written back.
abbrev BoundFor : Ip6Net → Option Ip6 → Option Ip6 → Ip6 → Ip6 → Type 0
BoundFor n before after default ip =
    (after ≡ some ip) × ((ip ≡ default) ⊎ ((before ≡ some ip) × (V6.contains n ip ≡ true)))

fix_min6_ok :
    (c d : Config) (m : Ip6)
    → fix_min6 c ≡ (d, none, m)
    → BoundFor c.ipv6_network c.ipv6_subnet_min d.ipv6_subnet_min
        (V6.get_ipv6_subnet_min c.ipv6_network.ip (size_of6 c))
        m
      × (d ≡ record c { ipv6_subnet_min = d.ipv6_subnet_min })
unfolding fix_min6
fix_min6_ok c d m h = elim (Option-cases (given c.ipv6_subnet_min)) [
  | inl open_bound ↦ let run = rw (fix_min6, open_bound) at h in ground arith
  | inr (ip, found) ↦
      let kept = given-some c.ipv6_subnet_min ip found in
      let run = rw (fix_min6, found) at h in ground arith
]

fix_max6_ok :
    (c d : Config) (x : Ip6)
    → fix_max6 c ≡ (d, none, x)
    → BoundFor c.ipv6_network c.ipv6_subnet_max d.ipv6_subnet_max
        (V6.get_ipv6_subnet_max (V6.next c.ipv6_network).ip (size_of6 c))
        x
      × (d ≡ record c { ipv6_subnet_max = d.ipv6_subnet_max })
unfolding fix_max6
fix_max6_ok c d x h = elim (Option-cases (given c.ipv6_subnet_max)) [
  | inl open_bound ↦ let run = rw (fix_max6, open_bound) at h in ground arith
  | inr (ip, found) ↦
      let kept = given-some c.ipv6_subnet_max ip found in
      let run = rw (fix_max6, found) at h in ground arith
]

check_bounds6_ok :
    (min max : Ip6) (c d : Config)
    → check_bounds6 min max c ≡ (d, none)
    → (V6.check_ipv6_subnet min (V6.mask6 c.ipv6_subnet_len) ≡ true)
      × (V6.check_ipv6_subnet max (V6.mask6 c.ipv6_subnet_len) ≡ true)
      × (d ≡ c)
unfolding check_bounds6
check_bounds6_ok min max c d h = ground arith

with_address_ok :
    (r : Config × Option ConfigError × Ip6) (f : Ip6 → Config → Checked) (d : Config)
    → with_address r f ≡ (d, none)
    → (c : Config) × (ip : Ip6) × (r ≡ (c, none, ip)) × (f ip c ≡ (d, none))
with_address_ok (c, some e, ip) f d h = cc
with_address_ok (c, none, ip) f d h = (c, ip, refl, h)

and_then6_ok :
    (r : Checked) (f : Config → Checked) (d : Config)
    → (r and_then f) ≡ (d, none)
    → (c : Config) × (r ≡ (c, none)) × (f c ≡ (d, none))
and_then6_ok (c, some e) f d h = cc
and_then6_ok (c, none) f d h = (c, refl, h)

abbrev IsGivenAddress : Option Ip6 → Type 0
IsGivenAddress none = Unit
IsGivenAddress (some ip) = IsAddress ip

-- What the parser guarantees of the IPv6 fields: 16 bytes, and a masked network.
pub record IsDecoded6 (c : Config) : Type 0 where
  pub parsed : IsParsed c.ipv6_network
  pub min_address : IsGivenAddress c.ipv6_subnet_min
  pub max_address : IsGivenAddress c.ipv6_subnet_max

-- A coherent division of the network into subnets between two bounds.
pub record IsCoherent6 (c : Config) (min max : Ip6) : Type 0 where
  pub lower : c.ipv6_subnet_min ≡ some min
  pub upper : c.ipv6_subnet_max ≡ some max
  pub at_least_four : c.ipv6_network.prefix_len + 2 ≤ c.ipv6_subnet_len
  pub room_for_hosts : c.ipv6_subnet_len ≤ 126
  pub min_inside : V6.contains c.ipv6_network min ≡ true
  pub max_inside : V6.contains c.ipv6_network max ≡ true
  pub min_aligned : IsAligned (128 - c.ipv6_subnet_len) (ip6_value min)
  pub max_aligned : IsAligned (128 - c.ipv6_subnet_len) (ip6_value max)

bound_inside :
    (n : Ip6Net) (before after : Option Ip6) (default ip : Ip6)
    → BoundFor n before after default ip
    → IsAddress default × (V6.contains n default ≡ true)
    → IsGivenAddress before
    → IsAddress ip × (V6.contains n ip ≡ true)
bound_inside n before after default ip (_, inl e) (address, inside) v = (rw e address, rw e inside)
bound_inside n before after default ip (_, inr (e, inside)) _ v = (rw e at v, inside)

zero-IsAddress : IsAddress V6.zero_ip
zero-IsAddress = ground arith

-- A parsed network of prefix 0 is the empty one.
prefix_pos : (n : Ip6Net) → IsParsed n → V6.empty n ≡ false → 0 < n.prefix_len
unfolding host_bits V6.empty V6.is_empty ip6_value V6.be_value
prefix_pos n h e = elim (Bool-cases (n.prefix_len == 0)) [
  | inl whole ↦ absurd (
      let own = sym (network-align n h.address) ∙ h.canonical in
      let zero_prefix = (==_iff n.prefix_len 0).0 whole in
      let zero_value : ip6_value n.ip ≡ 0 =
        whole_zero (ip6_value n.ip) (value_word n.ip h.address) (rw zero_prefix at own) in
      let same : V6.ip_eq n.ip V6.zero_ip ≡ true =
        (ip6_roundtrip n.ip V6.zero_ip 0 h.address zero-IsAddress).4.1 zero_value in
      ground arith)
  | inr proper ↦ ground arith
]
  where
    whole_zero : (x : ℕ) → x < 2 ^ 128 → x / 2 ^ 128 * 2 ^ 128 ≡ x → x ≡ 0
    whole_zero x lt e = omega arith

frame :
    (c c₁ c₂ c₃ d : Config)
    → c₁ ≡ record c { ipv6_subnet_len = c₁.ipv6_subnet_len }
    → c₂ ≡ record c₁ { ipv6_subnet_min = c₂.ipv6_subnet_min }
    → c₃ ≡ record c₂ { ipv6_subnet_max = c₃.ipv6_subnet_max }
    → d ≡ c₃
    → d ≡ record c {
      ipv6_subnet_len = d.ipv6_subnet_len;
      ipv6_subnet_min = d.ipv6_subnet_min;
      ipv6_subnet_max = d.ipv6_subnet_max;
    }
frame c c₁ c₂ c₃ d e₁ e₂ e₃ e = ground arith

-- Bounds that the check has settled on lie in the network and on a boundary.
coherent_bounds :
    (n : Ip6Net) (len : ℕ) (min_given max_given min_after max_after : Option Ip6) (min max : Ip6)
    → IsParsed n
    → V6.empty n ≡ false
    → IsGivenAddress min_given
    → IsGivenAddress max_given
    → n.prefix_len + 2 ≤ len
    → len ≤ 126
    → BoundFor n min_given min_after (V6.get_ipv6_subnet_min n.ip (V6.shl 1 (128 - len))) min
    → BoundFor n max_given max_after
        (V6.get_ipv6_subnet_max (V6.next n).ip (V6.shl 1 (128 - len)))
        max
    → V6.check_ipv6_subnet min (V6.mask6 len) ≡ true
    → V6.check_ipv6_subnet max (V6.mask6 len) ≡ true
    → (V6.contains n min ≡ true)
      × (V6.contains n max ≡ true)
      × IsAligned (128 - len) (ip6_value min)
      × IsAligned (128 - len) (ip6_value max)
coherent_bounds n len min_given max_given min_after max_after min max h proper min_v max_v few room
      min_for max_for min_check max_check =
    let le : len ≤ 128 = omega (arith, room) in
    let range = default_range6 n len h (prefix_pos n h proper) few le in
    let size = V6.shl 1 (128 - len) in
    let (min_address, min_in) =
      bound_inside n min_given min_after (V6.get_ipv6_subnet_min n.ip size) min min_for
        (min-IsAddress n.ip size, range.2) min_v in
    let (max_address, max_in) =
      bound_inside n max_given max_after (V6.get_ipv6_subnet_max (V6.next n).ip size) max max_for
        (max-IsAddress (V6.next n).ip size, range.3) max_v in
    (
      min_in,
      max_in,
      (check_ipv6_subnet_iff min len min_address le).0 min_check,
      (check_ipv6_subnet_iff max len max_address le).0 max_check,
    )

-- The stages, put together.
stages_IsCoherent6 :
    (c c₁ c₂ c₃ d : Config) (min max : Ip6)
    → IsDecoded6 c
    → V6.empty c.ipv6_network ≡ false
    → fix_len6 c ≡ (c₁, none)
    → fix_min6 c₁ ≡ (c₂, none, min)
    → fix_max6 c₂ ≡ (c₃, none, max)
    → check_bounds6 min max c₃ ≡ (d, none)
    → IsCoherent6 d min max
      × (d ≡ record c {
        ipv6_subnet_len = d.ipv6_subnet_len;
        ipv6_subnet_min = d.ipv6_subnet_min;
        ipv6_subnet_max = d.ipv6_subnet_max;
      })
unfolding size_of6
stages_IsCoherent6 c c₁ c₂ c₃ d min max v proper run₁ run₂ run₃ run =
    let (few, room, e₁) = fix_len6_ok c c₁ run₁ in
    let (min_for, e₂) = fix_min6_ok c₁ c₂ min run₂ in
    let (max_for, e₃) = fix_max6_ok c₂ c₃ max run₃ in
    let (min_check, max_check, e) = check_bounds6_ok min max c₃ d run in
    let same₁ : c₁.ipv6_network ≡ c.ipv6_network = ap (λ (t : Config). t.ipv6_network) e₁ in
    let same₂ : c₂.ipv6_network ≡ c.ipv6_network = ap (λ (t : Config). t.ipv6_network) e₂ ∙ same₁ in
    let same : d.ipv6_network ≡ c.ipv6_network =
      ap (λ (t : Config). t.ipv6_network) (e ∙ e₃) ∙ same₂ in
    let len₂ : c₂.ipv6_subnet_len ≡ c₁.ipv6_subnet_len =
      ap (λ (t : Config). t.ipv6_subnet_len) e₂ in
    let len₃ : c₃.ipv6_subnet_len ≡ c₁.ipv6_subnet_len =
      ap (λ (t : Config). t.ipv6_subnet_len) e₃ ∙ len₂ in
    let len : d.ipv6_subnet_len ≡ c₁.ipv6_subnet_len =
      ap (λ (t : Config). t.ipv6_subnet_len) e ∙ len₃ in
    let min₁ : c₁.ipv6_subnet_min ≡ c.ipv6_subnet_min = ap (λ (t : Config). t.ipv6_subnet_min) e₁ in
    let max₂ : c₂.ipv6_subnet_max ≡ c.ipv6_subnet_max =
      ap (λ (t : Config). t.ipv6_subnet_max) e₂ ∙ ap (λ (t : Config). t.ipv6_subnet_max) e₁ in
    let (min_in, max_in, min_edge, max_edge) =
      coherent_bounds c.ipv6_network c₁.ipv6_subnet_len c.ipv6_subnet_min c.ipv6_subnet_max
        c₂.ipv6_subnet_min c₃.ipv6_subnet_max min max v.parsed proper v.min_address v.max_address
        (rw same₁ at few) room (rw (same₁, min₁) at min_for) (rw (same₂, len₂, max₂) at max_for)
        (rw len₃ at min_check) (rw len₃ at max_check) in
    (
      record {
        lower = ap (λ (t : Config). t.ipv6_subnet_min) (e ∙ e₃) ∙ min_for.0;
        upper = ap (λ (t : Config). t.ipv6_subnet_max) e ∙ max_for.0;
        at_least_four = rw (same, len) (rw same₁ at few);
        room_for_hosts = rw len room;
        min_inside = rw same min_in;
        max_inside = rw same max_in;
        min_aligned = rw len min_edge;
        max_aligned = rw len max_edge;
      },
      frame c c₁ c₂ c₃ d e₁ e₂ e₃ e,
    )

-- If the check succeeds on a decoded configuration, it ends with two bounds and a subnet length that
-- leaves room for four subnets of four addresses; both bounds lie in the network and on a subnet
-- boundary, and nothing but the length and the bounds has changed.
pub check_ipv6-IsCoherent6 :
    (c d : Config)
    → IsDecoded6 c
    → check_ipv6 c ≡ (d, none)
    → (min : Ip6) × (max : Ip6) × (IsCoherent6 d min max
        × (d ≡ record c {
          ipv6_subnet_len = d.ipv6_subnet_len;
          ipv6_subnet_min = d.ipv6_subnet_min;
          ipv6_subnet_max = d.ipv6_subnet_max;
        }))
unfolding check_ipv6
check_ipv6-IsCoherent6 c d v h = elim (Bool-cases (V6.empty c.ipv6_network)) [
  | inl bad ↦ absurd (let stopped = rw bad at h in cc)
  | inr proper ↦
      let run = rw proper at h in
      let (c₁, run₁, rest₁) = and_then6_ok (fix_len6 c) _ d run in
      let (c₂, min, run₂, rest₂) = with_address_ok (fix_min6 c₁) _ d rest₁ in
      let (c₃, max, run₃, rest₃) = with_address_ok (fix_max6 c₂) (check_bounds6 min) d rest₂ in
      (min, max, stages_IsCoherent6 c c₁ c₂ c₃ d min max v proper run₁ run₂ run₃ rest₃)
]
