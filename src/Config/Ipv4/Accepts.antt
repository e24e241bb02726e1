-- ===== src/Config/Ipv4/Accepts.antt =====
-- Which IPv4 configurations the check accepts, and with which defaults.
use flannel_rust.Prelude.{
  ℕ, ◌+◌, ◌-◌, ◌^◌, ◌≤◌, ◌<◌, ◌≡◌, ◌≢◌, ◌⊎◌, true, false, none, arith, leb, if◌then◌else◌,
}
use flannel_rust.Ip.V4
use flannel_rust.Ip.V4.Range.{check_subnet_iff, default_range}
use flannel_rust.Config.{
  Config, Checked, ◌and_then◌, fix_len, fix_min, fix_max, check_bounds, check_ipv4,
}
use flannel_rust.Config.Ipv4.{IsDecoded, IsCoherent}

-- A decoded configuration whose bounds are given and coherent is accepted as it is.
pub check_ipv4_accepts :
    (c : Config)
    → IsDecoded c
    → V4.empty c.network ≡ false
    → IsCoherent c
    → c.subnet_min ≢ 0
    → c.subnet_max ≢ 0
    → check_ipv4 c ≡ (c, none)
unfolding check_ipv4
check_ipv4_accepts c v proper h min_set max_set =
    let len : c.subnet_len ≤ 32 = omega (arith, h.room_for_hosts) in
    let min = (check_subnet_iff c.subnet_min c.subnet_len v.min_word len).1 h.min_aligned in
    let max = (check_subnet_iff c.subnet_max c.subnet_len v.max_word len).1 h.max_aligned in
    ground arith

and_then_go :
    (r : Checked) (f : Config → Checked) (c : Config) (next : Checked)
    → r ≡ (c, none)
    → f c ≡ next
    → (r and_then f) ≡ next
and_then_go r f c next e h = rw e h

fix_min_open :
    (c : Config) (m : ℕ)
    → c.subnet_min ≡ 0
    → V4.get_subnet_min c.network.ip (V4.shl 1 (32 - c.subnet_len)) ≡ m
    → fix_min c ≡ (record c { subnet_min = m }, none)
unfolding fix_min
fix_min_open c m unset e = ground arith

fix_max_open :
    (c : Config) (x : ℕ)
    → c.subnet_max ≡ 0
    → V4.get_subnet_max (V4.next c.network).ip (V4.shl 1 (32 - c.subnet_len)) ≡ x
    → fix_max c ≡ (record c { subnet_max = x }, none)
unfolding fix_max
fix_max_open c x unset e = ground arith

check_bounds_pass :
    (c : Config)
    → V4.check_subnet c.subnet_min (V4.mask c.subnet_len) ≡ true
    → V4.check_subnet c.subnet_max (V4.mask c.subnet_len) ≡ true
    → check_bounds c ≡ (c, none)
unfolding check_bounds
check_bounds_pass c h k = ground arith

-- The length that the check chooses where none is given.
abbrev default_len : ℕ → ℕ
default_len prefix = if leb prefix 22 then 24 else prefix + 2

abbrev LenChoice : Config → ℕ → Type 0
LenChoice c len =
    ((c.subnet_len ≡ 0) × (c.network.prefix_len ≤ 28) × (len ≡ default_len c.network.prefix_len))
    ⊎ ((c.subnet_len ≡ len) × (c.network.prefix_len + 2 ≤ len) × (len ≤ 30))

fix_len_choice :
    (c : Config) (len : ℕ) → LenChoice c len → fix_len c ≡ (record c { subnet_len = len }, none)
unfolding fix_len
fix_len_choice c len h = ground arith

nonempty : (n : V4.Ip4Net) → 0 < n.prefix_len → V4.empty n ≡ false
unfolding V4.empty
nonempty n pos = ground arith

word_of_min : (a b : ℕ) → V4.get_subnet_min a b < 2 ^ 32
unfolding V4.get_subnet_min
word_of_min a b = omega arith

word_of_max : (a b : ℕ) → V4.get_subnet_max a b < 2 ^ 32
unfolding V4.get_subnet_max
word_of_max a b = omega arith

-- Where neither bound is given, and the length is given in range or left open for a prefix of at
-- most 28, the check succeeds: the length given or the default one, the second subnet as the lower
-- bound and the last subnet as the upper bound.
pub check_ipv4_defaults :
    (c : Config) (len : ℕ)
    → IsDecoded c
    → 0 < c.network.prefix_len
    → c.subnet_min ≡ 0
    → c.subnet_max ≡ 0
    → LenChoice c len
    → check_ipv4 c ≡ (
      record c {
        subnet_len = len;
        subnet_min = c.network.ip + 2 ^ (32 - len);
        subnet_max = V4.broadcast c.network + 1 - 2 ^ (32 - len);
      },
      none,
    )
unfolding check_ipv4
check_ipv4_defaults c len v pos min_open max_open choice =
    let few : c.network.prefix_len + 2 ≤ len = ground arith in
    let le : len ≤ 30 = ground arith in
    let (min, max, min_in, max_in, min_edge, max_edge) =
      default_range c.network len v.parsed pos few (omega arith) in
    let m = c.network.ip + 2 ^ (32 - len) in
    let x = V4.broadcast c.network + 1 - 2 ^ (32 - len) in
    let min_word : m < 2 ^ 32 = rw min at (word_of_min c.network.ip (V4.shl 1 (32 - len))) in
    let max_word : x < 2 ^ 32 =
      rw max at (word_of_max (V4.next c.network).ip (V4.shl 1 (32 - len))) in
    let c₁ = record c { subnet_len = len } in
    let c₂ = record c₁ { subnet_min = m } in
    let c₃ = record c₂ { subnet_max = x } in
    rw (nonempty c.network pos) (
      and_then_go (fix_len c and_then fix_min and_then fix_max) check_bounds c₃ (c₃, none)
        (and_then_go (fix_len c and_then fix_min) fix_max c₂ (c₃, none)
          (and_then_go (fix_len c) fix_min c₁ (c₂, none) (fix_len_choice c len choice)
            (fix_min_open c₁ m min_open min))
          (fix_max_open c₂ x max_open max))
        (check_bounds_pass c₃ ((check_subnet_iff m len min_word (omega arith)).1 min_edge)
          ((check_subnet_iff x len max_word (omega arith)).1 max_edge)))
