-- ===== src/Tests/Ip.antt =====
-- Runs of the address code of crates/flannel-core/src/ip.
use flannel_rust.Prelude.{◌≡◌, refl, ◌↔◌, true, arith, ◌∷◌, replicate}
use flannel_rust.Ip.V4
use flannel_rust.Ip.V4.{Ip4, Ip4Net}
use flannel_rust.Ip.V4.Block.{IsWord}
use flannel_rust.Ip.V4.Sets.{overlaps_iff}
use flannel_rust.Ip.V4.Range.{IsParsed}
use flannel_rust.Ip.V6.{Ip6, Ip6Net}
use flannel_rust.Ip.V6.Bytes.{IsAddress}

-- 10.5.0.0/16, and 10.5.3.0/24 in it
abbrev pod_net : Ip4Net
pod_net = record { ip = 0x0a05_0000; prefix_len = 16 }

abbrev node_net : Ip4Net
node_net = record { ip = 0x0a05_0300; prefix_len = 24 }

overlaps_iff_example :
    (V4.overlaps pod_net node_net ≡ true)
    ↔ ((ip : Ip4) × IsWord ip × (V4.contains pod_net ip ≡ true) × (V4.contains node_net ip ≡ true))
overlaps_iff_example =
    overlaps_iff pod_net node_net (omega arith) (omega arith) (omega arith) (omega arith)

pod_net-IsParsed : IsParsed pod_net
unfolding V4.network V4.net_mask V4.mask_value
pod_net-IsParsed = record { word = omega arith; canonical = refl; prefix = omega arith }

-- fc00::/16 and fc00:1::/32
abbrev ula : Ip6
ula = record { bytes = 0xfc ∷ replicate 15 0 }

abbrev ula_one : Ip6
ula_one = record { bytes = 0xfc ∷ 0 ∷ 0 ∷ 1 ∷ replicate 12 0 }

abbrev ula_net : Ip6Net
ula_net = record { ip = ula; prefix_len = 16 }

abbrev ula_node : Ip6Net
ula_node = record { ip = ula_one; prefix_len = 32 }

ula-IsAddress : IsAddress ula
ula-IsAddress = ground arith

ula_one-IsAddress : IsAddress ula_one
ula_one-IsAddress = ground arith
