-- ===== src/Tests/Config6.antt =====
-- Runs of the IPv6 part of crates/flannel-core/src/subnet/config.rs.
use flannel_rust.Prelude.{◌≡◌, refl, arith, true, none, some, ◌∷◌, ◌++◌, replicate}
use flannel_rust.Ip.V6
use flannel_rust.Ip.V6.{Ip6, Ip6Net, ip6_value}
use flannel_rust.Ip.V6.Range.{IsParsed}
use flannel_rust.Config.{Config, default_config, check_ipv6}
use flannel_rust.Config.Ipv6.{IsDecoded6}

-- fc00::/16
abbrev ula : Ip6
ula = record { bytes = 0xfc ∷ replicate 15 0 }

abbrev ula_net : Ip6Net
ula_net = record { ip = ula; prefix_len = 16 }

-- fc00:0:0:1:: and fc00:ffff:ffff:ffff::
abbrev lower : Ip6
lower = record { bytes = (0xfc ∷ replicate 6 0) ++ (1 ∷ replicate 8 0) }

abbrev upper : Ip6
upper = record { bytes = (0xfc ∷ 0 ∷ replicate 6 0xff) ++ replicate 8 0 }

abbrev open_config : Config
open_config = record default_config { enable_ipv6 = true; ipv6_network = ula_net }

abbrev closed_config : Config
closed_config = record open_config {
  ipv6_subnet_len = 64;
  ipv6_subnet_min = some lower;
  ipv6_subnet_max = some upper;
}

ula_net-IsParsed : IsParsed ula_net
unfolding V6.network V6.net_mask V6.mask6 V6.ip6_value V6.ip6_from_value V6.be_value V6.be_bytes
ula_net-IsParsed = record { address = ground arith; canonical = refl; prefix = omega arith }

open_config-IsDecoded6 : IsDecoded6 open_config
open_config-IsDecoded6 = record { parsed = ula_net-IsParsed; min_address = tt; max_address = tt }

open_run : check_ipv6 open_config ≡ (closed_config, none)
unfolding check_ipv6 V6.empty V6.is_empty V6.get_ipv6_subnet_min V6.get_ipv6_subnet_max V6.next
    V6.subnet_size6 V6.check_ipv6_subnet V6.mask6 V6.ip6_value V6.ip6_from_value V6.be_value
    V6.be_bytes
open_run = refl
