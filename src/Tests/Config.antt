-- ===== src/Tests/Config.antt =====
-- Runs of crates/flannel-core/src/subnet/config.rs.
use flannel_rust.Prelude.{◌≡◌, ◌≢◌, refl, true, false, arith, none}
use flannel_rust.Ip.V4
use flannel_rust.Ip.V4.{Ip4Net}
use flannel_rust.Config.{Config, default_config, check_ipv4}
use flannel_rust.Config.Ipv4.{IsDecoded, IsCoherent, check_ipv4-IsCoherent}

abbrev pod_net : Ip4Net
pod_net = record { ip = 0x0a05_0000; prefix_len = 16 }

-- Only the network is given.
abbrev open_config : Config
open_config = record default_config { enable_ipv4 = true; network = pod_net }

-- Everything is given: subnets of 24 bits from 10.5.2.0 to 10.5.9.0.
abbrev full_config : Config
full_config = record open_config {
  subnet_len = 24;
  subnet_min = 0x0a05_0200;
  subnet_max = 0x0a05_0900;
}

abbrev default_range_config : Config
default_range_config = record open_config {
  subnet_len = 24;
  subnet_min = 0x0a05_0100;
  subnet_max = 0x0a05_ff00;
}

open_config-IsDecoded : IsDecoded open_config
unfolding V4.network V4.net_mask V4.mask_value
open_config-IsDecoded = record {
  parsed = record { word = omega arith; canonical = refl; prefix = omega arith };
  min_word = omega arith;
  max_word = omega arith;
}

full_config-IsDecoded : IsDecoded full_config
unfolding V4.network V4.net_mask V4.mask_value
full_config-IsDecoded = record {
  parsed = record { word = omega arith; canonical = refl; prefix = omega arith };
  min_word = omega arith;
  max_word = omega arith;
}

full_config-IsCoherent : IsCoherent full_config
unfolding V4.contains V4.net_mask V4.mask_value
full_config-IsCoherent = record {
  at_least_four = omega arith;
  room_for_hosts = omega arith;
  min_inside = refl;
  max_inside = refl;
  min_aligned = refl;
  max_aligned = refl;
}

open_run : check_ipv4 open_config ≡ (default_range_config, none)
unfolding check_ipv4 V4.check_subnet V4.get_subnet_min V4.get_subnet_max V4.next V4.subnet_size
    V4.empty V4.mask V4.mask_value
open_run = refl

check_ipv4-IsCoherent_example :
    IsCoherent default_range_config
    × (default_range_config ≡ record open_config {
      subnet_len = 24;
      subnet_min = 0x0a05_0100;
      subnet_max = 0x0a05_ff00;
    })
    × (open_config.subnet_min ≢ 0 → default_range_config.subnet_min ≡ open_config.subnet_min)
    × (open_config.subnet_max ≢ 0 → default_range_config.subnet_max ≡ open_config.subnet_max)
check_ipv4-IsCoherent_example =
    check_ipv4-IsCoherent open_config default_range_config open_config-IsDecoded open_run

full_config-given : V4.empty pod_net ≡ false
unfolding V4.empty
full_config-given = refl
