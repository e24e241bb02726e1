-- ===== src/Config.antt =====
-- The configuration and `check_network_config` of crates/flannel-core/src/subnet/config.rs. The
-- function changes the configuration in place and returns a result: here it returns both, the
-- configuration as it stands at the return, and the error, if any.
pub mod Ipv4
pub mod Ipv6
use Prim.Native.String.{String}
use flannel_rust.Prelude.{
  ℕ, ◌+◌, ◌-◌, ◌<◌, Bool, true, false, not, Option, none, some, ltb, leb, ◌==◌, if◌then◌else◌,
}
use flannel_rust.Ip.V4
use flannel_rust.Ip.V4.{Ip4, Ip4Net}
use flannel_rust.Ip.V6
use flannel_rust.Ip.V6.{Ip6, Ip6Net}

pub data ConfigError : Type 0 where
  json : String → ConfigError
  backend : String → ConfigError
  missing_network missing_ipv6_network : ConfigError
  subnet_len_too_big_v4 subnet_len_too_big_v6 too_few_subnets : ConfigError
  network_too_small_v4 network_too_small_v6 : ConfigError
  subnet_min_out_of_range subnet_max_out_of_range : ConfigError
  ipv6_subnet_min_out_of_range ipv6_subnet_max_out_of_range : ConfigError
  subnet_min_unaligned subnet_max_unaligned : Ip4 → ConfigError
  ipv6_subnet_min_unaligned ipv6_subnet_max_unaligned : Ip6 → ConfigError

pub record Config : Type 0 where
  pub enable_ipv4 : Bool
  pub enable_ipv6 : Bool
  pub enable_nftables : Bool
  pub network : Ip4Net
  pub ipv6_network : Ip6Net
  pub subnet_min : Ip4
  pub subnet_max : Ip4
  pub ipv6_subnet_min : Option Ip6
  pub ipv6_subnet_max : Option Ip6
  pub subnet_len : ℕ
  pub ipv6_subnet_len : ℕ
  pub backend_type : String
  -- the raw JSON text of the backend
  pub backend_json : Option String

-- `#[derive(Default)]`
abbrev pub default_config : Config
default_config = record {
  enable_ipv4 = false;
  enable_ipv6 = false;
  enable_nftables = false;
  network = V4.default_net;
  ipv6_network = V6.default_net;
  subnet_min = 0;
  subnet_max = 0;
  ipv6_subnet_min = none;
  ipv6_subnet_max = none;
  subnet_len = 0;
  ipv6_subnet_len = 0;
  backend_type = "";
  backend_json = none;
}

-- `None` is `Ok(())`.
abbrev pub Checked : Type 0
Checked = Config × Option ConfigError

abbrev pub fail : ConfigError → Config → Checked
fail e c = (c, some e)

-- An early return skips the rest.
infixl 5 ◌and_then◌
abbrev pub ◌and_then◌ : Checked → (Config → Checked) → Checked
(c, some e) and_then f = (c, some e)
(c, none) and_then f = f c

fix_len : Config → Checked
fix_len c =
    let prefix = c.network.prefix_len in
    if ltb 0 c.subnet_len
    then (if ltb 30 c.subnet_len
        then fail subnet_len_too_big_v4 c
        else if ltb c.subnet_len (prefix + 2)
        then fail too_few_subnets c
        else (c, none))
    else if ltb 28 prefix
    then fail network_too_small_v4 c
    else if leb prefix 22
    then (record c { subnet_len = 24 }, none)
    else (record c { subnet_len = prefix + 2 }, none)

-- `1u32 << (32 - config.subnet_len)`
size_of : Config → ℕ
size_of c = V4.shl 1 (32 - c.subnet_len)

fix_min : Config → Checked
unfolding size_of
fix_min c =
    if c.subnet_min == 0
    then (record c { subnet_min = V4.get_subnet_min c.network.ip (size_of c) }, none)
    else if not (V4.contains c.network c.subnet_min)
    then fail subnet_min_out_of_range c
    else (c, none)

fix_max : Config → Checked
unfolding size_of
fix_max c =
    if c.subnet_max == 0
    then (record c { subnet_max = V4.get_subnet_max (V4.next c.network).ip (size_of c) }, none)
    else if not (V4.contains c.network c.subnet_max)
    then fail subnet_max_out_of_range c
    else (c, none)

check_bounds : Config → Checked
check_bounds c =
    let boundary = V4.mask c.subnet_len in
    if not (V4.check_subnet c.subnet_min boundary)
    then fail (subnet_min_unaligned c.subnet_min) c
    else if not (V4.check_subnet c.subnet_max boundary)
    then fail (subnet_max_unaligned c.subnet_max) c
    else (c, none)

unfoldable pub check_ipv4 : Config → Checked
unfolding fix_len fix_min fix_max check_bounds
check_ipv4 c =
    if V4.empty c.network
    then fail missing_network c
    else fix_len c and_then fix_min and_then fix_max and_then check_bounds

fix_len6 : Config → Checked
fix_len6 c =
    let prefix = c.ipv6_network.prefix_len in
    if ltb 0 c.ipv6_subnet_len
    then (if ltb 126 c.ipv6_subnet_len
        then fail subnet_len_too_big_v6 c
        else if ltb c.ipv6_subnet_len (prefix + 2)
        then fail too_few_subnets c
        else (c, none))
    else if ltb 124 prefix
    then fail network_too_small_v6 c
    else if leb prefix 62
    then (record c { ipv6_subnet_len = 64 }, none)
    else (record c { ipv6_subnet_len = prefix + 2 }, none)

size_of6 : Config → ℕ
size_of6 c = V6.shl 1 (128 - c.ipv6_subnet_len)

-- `Some(min) if !is_empty(min)`: the address given, if there is one.
given : Option Ip6 → Option Ip6
given none = none
given (some ip) = if V6.is_empty ip then none else some ip

-- The minimum is handed on for the boundary check.
fix_min6 : Config → Config × Option ConfigError × Ip6
unfolding given size_of6
fix_min6 c = elim (given c.ipv6_subnet_min) [
  | some min ↦
      if not (V6.contains c.ipv6_network min)
      then (c, some ipv6_subnet_min_out_of_range, min)
      else (c, none, min)
  | none ↦
      let min = V6.get_ipv6_subnet_min c.ipv6_network.ip (size_of6 c) in
      (record c { ipv6_subnet_min = some min }, none, min)
]

fix_max6 : Config → Config × Option ConfigError × Ip6
unfolding given size_of6
fix_max6 c = elim (given c.ipv6_subnet_max) [
  | some max ↦
      if not (V6.contains c.ipv6_network max)
      then (c, some ipv6_subnet_max_out_of_range, max)
      else (c, none, max)
  | none ↦
      let max = V6.get_ipv6_subnet_max (V6.next c.ipv6_network).ip (size_of6 c) in
      (record c { ipv6_subnet_max = some max }, none, max)
]

check_bounds6 : Ip6 → Ip6 → Config → Checked
check_bounds6 min max c =
    let boundary = V6.mask6 c.ipv6_subnet_len in
    if not (V6.check_ipv6_subnet min boundary)
    then fail (ipv6_subnet_min_unaligned min) c
    else if not (V6.check_ipv6_subnet max boundary)
    then fail (ipv6_subnet_max_unaligned max) c
    else (c, none)

abbrev with_address : Config × Option ConfigError × Ip6 → (Ip6 → Config → Checked) → Checked
with_address (c, some e, ip) f = (c, some e)
with_address (c, none, ip) f = f ip c

unfoldable pub check_ipv6 : Config → Checked
unfolding fix_len6 fix_min6 fix_max6 check_bounds6
check_ipv6 c =
    if V6.empty c.ipv6_network
    then fail missing_ipv6_network c
    else fix_len6 c and_then λ c₁.
        with_address (fix_min6 c₁) (λ min c₂. with_address (fix_max6 c₂) (check_bounds6 min))

unfoldable pub check_network_config : Config → Checked
check_network_config c =
    let v4 = if c.enable_ipv4 then check_ipv4 c else (c, none) in
    v4 and_then λ c₁. if c₁.enable_ipv6 then check_ipv6 c₁ else (c₁, none)
