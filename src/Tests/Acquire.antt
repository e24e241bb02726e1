-- ===== src/Tests/Acquire.antt =====
-- Runs of crates/flannel-core/src/subnet/kube/acquire.rs on a node of 10.5.1.0/24.
use flannel_rust.Prelude.{ℕ, ◌≡◌, ◌≢◌, refl, arith, true, false, none, List, [], ◌∷◌, map}
use flannel_rust.Prelude.Dict.{lookup}
use flannel_rust.Prelude.Result.{ok, err}
use flannel_rust.Ip.V4
use flannel_rust.Ip.V4.{Ip4Net, network, contains_cidr}
use flannel_rust.Ip.Parse.{net4_from_str, ip4_from_str}
use flannel_rust.Config.{default_config}
use flannel_rust.Lease.{Lease}
use flannel_rust.Kube.{Node, annotation, parse_net4, still_waiting}
use flannel_rust.Kube.Events.{node_to_lease, lease_ipv4, cidr_text, raw_from_annotation}
use flannel_rust.Kube.Informer.{Nodes}
use flannel_rust.Kube.Poll.{Pause, give_up}
use flannel_rust.Kube.Patch.{needs_patch, maybe_patch_annotations, v4_changed, v6_changed}
use flannel_rust.Kube.Acquire.{
  KubeSubnetManager, Look, acquire_pod_cidrs, wait_for_node_with_cidrs, acquire_lease, fetch_node,
  take_cidrs, cidrs_ready, lease_of,
}
use flannel_rust.Kube.Acquire.Polls.{wait_for_node_with_cidrs_ends}
use flannel_rust.Kube.Acquire.Contained.{IsAcquired, acquire_lease-ok}
use flannel_rust.Kube.Acquire.Cidrs.{acquire_lease-node_to_lease}
use flannel_rust.Tests.Kube.{parsers, ann, node_of, annotated, node, lease, attrs}

abbrev mgr : KubeSubnetManager
mgr = record {
  parsers = parsers;
  config = record default_config {
    enable_ipv4 = true;
    network = record { ip = 0x0a05_0000; prefix_len = 16 };
  };
  node_name = "n1";
  annotations = ann;
  disable_node_informer = false;
}

-- A round at a time, in which the store has the node or has not.
abbrev round_at : ℕ → Nodes → Look × Pause
round_at t store =
    (record { got = none; store = store }, record { is_cancelled = false; now = t; woke = true })

abbrev rounds : List (Look × Pause)
rounds =
    map (λ t. round_at t [])
      (0 ∷ 3000 ∷ 6000 ∷ 9000 ∷ 12000 ∷ 15000 ∷ 18000 ∷ 21000 ∷ 24000 ∷ 27000 ∷ 30000 ∷ [])

wait_for_node_with_cidrs_ends_example : wait_for_node_with_cidrs mgr rounds ≢ err still_waiting
wait_for_node_with_cidrs_ends_example =
    wait_for_node_with_cidrs_ends mgr rounds
      (
        (omega arith),
        (
          omega arith,
          (
            omega arith,
            (
              omega arith,
              (
                omega arith,
                (
                  omega arith,
                  (omega arith, (omega arith, (omega arith, (omega arith, (omega arith, tt))))),
                ),
              ),
            ),
          ),
        ),
      )
      (omega arith)

abbrev own : Lease
own = record lease { enable_ipv4 = false }

acquired :
    acquire_lease mgr attrs 0 (round_at 0 [] ∷ round_at 3000 (("n1", node) ∷ []) ∷ []) [] ≡ ok own
unfolding acquire_lease wait_for_node_with_cidrs fetch_node lookup give_up acquire_pod_cidrs
    take_cidrs net4_from_str network cidrs_ready maybe_patch_annotations needs_patch v4_changed
    v6_changed annotation lease_of contains_cidr V4.empty V4.net_mask V4.mask_value V4.contains
acquired = refl

acquire_lease-ok_example : IsAcquired mgr attrs 0 own
acquire_lease-ok_example =
    acquire_lease-ok mgr attrs 0 (round_at 0 [] ∷ round_at 3000 (("n1", node) ∷ []) ∷ []) [] own
      acquired

-- A node of two IPv4 pod CIDRs.
abbrev two : Node
two = node_of ("10.5.1.0/24" ∷ "10.5.2.0/24" ∷ []) (annotated "1")

abbrev last : Lease
last = record own { subnet = record { ip = 0x0a05_0200; prefix_len = 24 } }

found_two : wait_for_node_with_cidrs mgr (round_at 0 (("n1", two) ∷ []) ∷ []) ≡ ok two
unfolding wait_for_node_with_cidrs fetch_node lookup acquire_pod_cidrs take_cidrs net4_from_str
    network cidrs_ready V4.net_mask V4.mask_value
found_two = refl

acquired_two : acquire_lease mgr attrs 0 (round_at 0 (("n1", two) ∷ []) ∷ []) [] ≡ ok last
unfolding acquire_lease wait_for_node_with_cidrs fetch_node lookup acquire_pod_cidrs take_cidrs
    net4_from_str network cidrs_ready maybe_patch_annotations needs_patch v4_changed v6_changed
    annotation lease_of contains_cidr V4.empty V4.net_mask V4.mask_value V4.contains
acquired_two = refl

seen_two : node_to_lease parsers ann two true false ≡ ok lease
unfolding node_to_lease lease_ipv4 cidr_text annotation lookup raw_from_annotation ip4_from_str
    net4_from_str network V4.net_mask V4.mask_value
seen_two = refl

parsed_first : parse_net4 parsers "10.5.1.0/24" ≡ ok (record { ip = 0x0a05_0100; prefix_len = 24 })
unfolding net4_from_str network V4.net_mask V4.mask_value
parsed_first = refl

parsed_second : parse_net4 parsers "10.5.2.0/24" ≡ ok (record { ip = 0x0a05_0200; prefix_len = 24 })
unfolding net4_from_str network V4.net_mask V4.mask_value
parsed_second = refl

acquire_lease-node_to_lease_example :
    (last.subnet ≡ record { ip = 0x0a05_0200; prefix_len = 24 })
    × (lease.subnet ≡ record { ip = 0x0a05_0100; prefix_len = 24 })
acquire_lease-node_to_lease_example =
    acquire_lease-node_to_lease mgr two "10.5.1.0/24" "10.5.2.0/24"
      (record { ip = 0x0a05_0100; prefix_len = 24 }) (record { ip = 0x0a05_0200; prefix_len = 24 })
      refl refl refl parsed_first parsed_second attrs 0 (round_at 0 (("n1", two) ∷ []) ∷ []) [] last
      lease false refl found_two acquired_two seen_two
