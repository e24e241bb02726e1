-- ===== src/Config/Ipv4.antt =====
-- What a successful check says of the IPv4 part of the configuration.
pub mod Accepts
use flannel_rust.Prelude.{
  ℕ, ◌+◌, ◌-◌, ◌*◌, ◌/◌, ◌%◌, ◌^◌, ◌≤◌, ◌<◌, ◌≡◌, ◌≢◌, refl, sym, ap, ◌∙◌, ◌⊎◌, inl, inr, Bool,
  true, false, not, Option, none, some, arith, ltb, leb, ◌==◌, ==_iff, if◌then◌else◌, Bool-cases,
}
use flannel_rust.Prelude.Mask.{align}
use flannel_rust.Ip.Pool.{IsAligned}
use flannel_rust.Ip.V4
use flannel_rust.Ip.V4.{Ip4Net}
use flannel_rust.Ip.V4.Block.{IsWord, host_bits, network-align}
use flannel_rust.Ip.V4.Range.{IsParsed, check_subnet_iff, default_range}
use flannel_rust.Config.{
  Config, ConfigError, Checked, fail, ◌and_then◌, fix_len, size_of, fix_min, fix_max, check_bounds,
  check_ipv4,
}

abbrev LenFits : Config → Type 0
LenFits c = (c.network.prefix_len + 2 ≤ c.subnet_len) × (c.subnet_len ≤ 30)

fix_len_ok :
    (c d : Config)
    → fix_len c ≡ (d, none)
    → LenFits d × (d ≡ record c { subnet_len = d.subnet_len })
unfolding fix_len
fix_len_ok c d h = ground arith

fix_min_ok :
    (c d : Config)
    → fix_min c ≡ (d, none)
    → (((c.subnet_min ≡ 0) × (d.subnet_min ≡ V4.get_subnet_min c.network.ip (size_of c)))
        ⊎ ((c.subnet_min ≢ 0)
            × (d.subnet_min ≡ c.subnet_min)
            × (V4.contains c.network c.subnet_min ≡ true)))
      × (d ≡ record c { subnet_min = d.subnet_min })
unfolding fix_min
fix_min_ok c d h = ground arith

and_then_ok :
    (r : Checked) (f : Config → Checked) (d : Config)
    → (r and_then f) ≡ (d, none)
    → (c : Config) × (r ≡ (c, none)) × (f c ≡ (d, none))
and_then_ok (c, some e) f d h = cc
and_then_ok (c, none) f d h = (c, refl, h)

fix_max_ok :
    (c d : Config)
    → fix_max c ≡ (d, none)
    → (((c.subnet_max ≡ 0) × (d.subnet_max ≡ V4.get_subnet_max (V4.next c.network).ip (size_of c)))
        ⊎ ((c.subnet_max ≢ 0)
            × (d.subnet_max ≡ c.subnet_max)
            × (V4.contains c.network c.subnet_max ≡ true)))
      × (d ≡ record c { subnet_max = d.subnet_max })
unfolding fix_max
fix_max_ok c d h = ground arith

check_bounds_ok :
    (c d : Config)
    → check_bounds c ≡ (d, none)
    → (V4.check_subnet c.subnet_min (V4.mask c.subnet_len) ≡ true)
      × (V4.check_subnet c.subnet_max (V4.mask c.subnet_len) ≡ true)
      × (d ≡ c)
unfolding check_bounds
check_bounds_ok c d h = ground arith

-- What the parser guarantees of the IPv4 fields: 32-bit addresses and a masked network.
pub record IsDecoded (c : Config) : Type 0 where
  pub parsed : IsParsed c.network
  pub min_word : IsWord c.subnet_min
  pub max_word : IsWord c.subnet_max

-- A coherent division of the network into subnets.
pub record IsCoherent (c : Config) : Type 0 where
  pub at_least_four : c.network.prefix_len + 2 ≤ c.subnet_len
  pub room_for_hosts : c.subnet_len ≤ 30
  pub min_inside : V4.contains c.network c.subnet_min ≡ true
  pub max_inside : V4.contains c.network c.subnet_max ≡ true
  pub min_aligned : IsAligned (32 - c.subnet_len) c.subnet_min
  pub max_aligned : IsAligned (32 - c.subnet_len) c.subnet_max

size_of-len : (c : Config) (l : ℕ) → c.subnet_len ≡ l → size_of c ≡ V4.shl 1 (32 - l)
unfolding size_of
size_of-len c l e = rw e refl

-- The bounds that the check settles on, for a network, a length, and the bounds given.
abbrev MinFor : Ip4Net → ℕ → ℕ → ℕ → Type 0
MinFor n len given m =
    ((given ≡ 0) × (m ≡ V4.get_subnet_min n.ip (V4.shl 1 (32 - len))))
    ⊎ ((given ≢ 0) × (m ≡ given) × (V4.contains n given ≡ true))

abbrev MaxFor : Ip4Net → ℕ → ℕ → ℕ → Type 0
MaxFor n len given x =
    ((given ≡ 0) × (x ≡ V4.get_subnet_max (V4.next n).ip (V4.shl 1 (32 - len))))
    ⊎ ((given ≢ 0) × (x ≡ given) × (V4.contains n given ≡ true))

-- A parsed network of prefix 0 is the empty one.
prefix_pos : (n : Ip4Net) → IsParsed n → V4.empty n ≡ false → 0 < n.prefix_len
unfolding host_bits V4.empty
prefix_pos n h e = elim (Bool-cases (n.prefix_len == 0)) [
  | inl whole ↦ absurd (
      let own = sym (network-align n h.word) ∙ h.canonical in
      let zero_prefix = (==_iff n.prefix_len 0).0 whole in
      let zero_ip : n.ip ≡ 0 = whole_zero n.ip h.word (rw zero_prefix at own) in ground arith)
  | inr proper ↦ ground arith
]
  where
    whole_zero : (x : ℕ) → x < 2 ^ 32 → x / 2 ^ 32 * 2 ^ 32 ≡ x → x ≡ 0
    whole_zero x lt e = omega arith

module _ (n : Ip4Net) (len : ℕ) (h : IsParsed n) (pos : 0 < n.prefix_len)
    (few : n.prefix_len + 2 ≤ len) (le : len ≤ 30) (given : ℕ) (word : IsWord given) where
  min_inside : (m : ℕ) → MinFor n len given m → IsWord m × (V4.contains n m ≡ true)
  unfolding V4.get_subnet_min
  min_inside m (inl (unset, e)) =
      let range = default_range n len h pos few (omega arith) in
      (rw e (omega arith), rw (e, range.0) range.2)
  min_inside m (inr (set, e, inside)) = (rw e word, rw e inside)

  max_inside : (x : ℕ) → MaxFor n len given x → IsWord x × (V4.contains n x ≡ true)
  unfolding V4.get_subnet_max
  max_inside x (inl (unset, e)) =
      let range = default_range n len h pos few (omega arith) in
      (rw e (omega arith), rw (e, range.1) range.3)
  max_inside x (inr (set, e, inside)) = (rw e word, rw e inside)

check_ipv4-frame :
    (c c₁ c₂ c₃ d : Config)
    → (c₁ ≡ record c { subnet_len = c₁.subnet_len })
    → (c₂ ≡ record c₁ { subnet_min = c₂.subnet_min })
    → (c₃ ≡ record c₂ { subnet_max = c₃.subnet_max })
    → d ≡ c₃
    → (d ≡ record c {
      subnet_len = d.subnet_len;
      subnet_min = d.subnet_min;
      subnet_max = d.subnet_max;
    })
      × (c₂.network ≡ c.network)
      × (d.subnet_len ≡ c₁.subnet_len)
check_ipv4-frame c c₁ c₂ c₃ d e₁ e₂ e₃ e = ground arith

kept_min : (n : Ip4Net) (len given m : ℕ) → MinFor n len given m → given ≢ 0 → m ≡ given
kept_min n len given m h set = ground arith

kept_max : (n : Ip4Net) (len given x : ℕ) → MaxFor n len given x → given ≢ 0 → x ≡ given
kept_max n len given x h set = ground arith

-- The stages, put together.
stages_IsCoherent :
    (c c₁ c₂ c₃ d : Config)
    → IsDecoded c
    → V4.empty c.network ≡ false
    → fix_len c ≡ (c₁, none)
    → fix_min c₁ ≡ (c₂, none)
    → fix_max c₂ ≡ (c₃, none)
    → check_bounds c₃ ≡ (d, none)
    → IsCoherent d
      × (d ≡ record c {
        subnet_len = d.subnet_len;
        subnet_min = d.subnet_min;
        subnet_max = d.subnet_max;
      })
      × (c.subnet_min ≢ 0 → d.subnet_min ≡ c.subnet_min)
      × (c.subnet_max ≢ 0 → d.subnet_max ≡ c.subnet_max)
unfolding size_of
stages_IsCoherent c c₁ c₂ c₃ d v proper h₁ h₂ h₃ h =
    let (fits, e₁) = fix_len_ok c c₁ h₁ in
    let (min, e₂) = fix_min_ok c₁ c₂ h₂ in
    let (max, e₃) = fix_max_ok c₂ c₃ h₃ in
    let (min_check, max_check, e) = check_bounds_ok c₃ d h in
    let (frame, same_network, same_len) = check_ipv4-frame c c₁ c₂ c₃ d e₁ e₂ e₃ e in
    let min_for : MinFor c.network d.subnet_len c.subnet_min d.subnet_min = ground arith in
    let max_for : MaxFor c.network d.subnet_len c.subnet_max d.subnet_max = ground arith in
    let few : c.network.prefix_len + 2 ≤ d.subnet_len = ground arith in
    let le : d.subnet_len ≤ 30 = ground arith in
    let pos = prefix_pos c.network v.parsed proper in
    let (min_word, min_in) =
      min_inside c.network d.subnet_len v.parsed pos few le c.subnet_min v.min_word d.subnet_min
        min_for in
    let (max_word, max_in) =
      max_inside c.network d.subnet_len v.parsed pos few le c.subnet_max v.max_word d.subnet_max
        max_for in
    (
      record {
        at_least_four = ground arith;
        room_for_hosts = le;
        min_inside = ground arith;
        max_inside = ground arith;
        min_aligned =
            (check_subnet_iff d.subnet_min d.subnet_len min_word (omega arith)).0 (ground arith);
        max_aligned =
            (check_subnet_iff d.subnet_max d.subnet_len max_word (omega arith)).0 (ground arith);
      },
      frame,
      kept_min c.network d.subnet_len c.subnet_min d.subnet_min min_for,
      kept_max c.network d.subnet_len c.subnet_max d.subnet_max max_for,
    )

-- If the check succeeds on a decoded configuration, the subnet length leaves room for four subnets
-- of four addresses, and both bounds lie in the network and on a subnet boundary; nothing but the
-- length and the bounds has changed, and a bound that was given has been kept.
pub check_ipv4-IsCoherent :
    (c d : Config)
    → IsDecoded c
    → check_ipv4 c ≡ (d, none)
    → IsCoherent d
      × (d ≡ record c {
        subnet_len = d.subnet_len;
        subnet_min = d.subnet_min;
        subnet_max = d.subnet_max;
      })
      × (c.subnet_min ≢ 0 → d.subnet_min ≡ c.subnet_min)
      × (c.subnet_max ≢ 0 → d.subnet_max ≡ c.subnet_max)
unfolding check_ipv4 size_of
check_ipv4-IsCoherent c d v h = elim (Bool-cases (V4.empty c.network)) [
  | inl bad ↦ absurd (let stopped = rw bad at h in cc)
  | inr proper ↦
      let run = rw proper at h in
      let (c₃, run₃, end) =
        and_then_ok (fix_len c and_then fix_min and_then fix_max) check_bounds d run in
      let (c₂, run₂, fixed_max) = and_then_ok (fix_len c and_then fix_min) fix_max c₃ run₃ in
      let (c₁, fixed_len, fixed_min) = and_then_ok (fix_len c) fix_min c₂ run₂ in
      stages_IsCoherent c c₁ c₂ c₃ d v proper fixed_len fixed_min fixed_max end
]
