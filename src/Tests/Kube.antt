-- ===== src/Tests/Kube.antt =====
-- Runs of crates/flannel-core/src/subnet/kube on a node of 10.5.1.0/24.
use Prim.Native.String.{String}
use text.Mathlib.Text.{◌==◌ as str_eq}
use flannel_rust.Prelude.{
  ℕ, ◌≡◌, ◌↔◌, refl, true, false, if◌then◌else◌, Option, none, some, List, [], ◌∷◌,
}
use flannel_rust.Prelude.Dict.{lookup}
use flannel_rust.Prelude.Int.{pos}
use flannel_rust.Prelude.Result.{ok}
use flannel_rust.Ip.V4
use flannel_rust.Ip.V4.{Ip4Net, network, contains_cidr}
use flannel_rust.Ip.Parse.{ip4_from_str, net4_from_str}
use flannel_rust.Ip.V6
use flannel_rust.Lease.{Lease, LeaseAttrs, removed, event, default_attrs}
use flannel_rust.Kube.{AnnotationMap, Node, Annotations, annotation, Parsers}
use flannel_rust.Kube.Keys.{keys_of, new_annotations, normalized}
use flannel_rust.Kube.Keys.Distinct.{new_annotations-Distinct}
use flannel_rust.Kube.Events.{
  cidr_text, node_to_lease, handle_update_lease_event, raw_from_annotation, lease_ipv4,
}
use flannel_rust.Kube.Events.Leases.{IsIpv4Of, IsIpv6Of, node_to_lease-ok}
use flannel_rust.Kube.Events.Changes.{handle_update_lease_event_quiet}
use flannel_rust.Kube.Informer.{
  InformerCtx, Informer, Signal, frame, resync, gone, watch_deleted, run_watch, relist,
  reconcile_relist,
}
use flannel_rust.Kube.Informer.Store.{latest, last_named, session-lookup}
use flannel_rust.Kube.Informer.Relist.{Has, Gone, reconcile_relist_removed_iff}
use flannel_rust.Kube.Patch.{diff, patched, needs_patch}
use flannel_rust.Kube.Patch.Merge.{merge}
use flannel_rust.Kube.Patch.Settled.{needs_patch-merge}

-- Two addresses and a prefix that parse, one way to print an address.
abbrev parse4 : String → Option ℕ
parse4 s =
    if str_eq s "10.5.1.0"
    then some 0x0a05_0100
    else if str_eq s "10.5.2.0"
    then some 0x0a05_0200
    else none

abbrev pub parsers : Parsers
parsers = record {
  parse_addr4 = parse4;
  parse_addr6 = λ s. none;
  parse_u32 = λ s. if str_eq s "24" then some 24 else none;
  raw_of = λ s. some s;
  show_ip4 = λ ip. "10.5.1.0";
  show_ip6 = λ ip. "::";
}

abbrev prefix : String
prefix = "flannel.alpha.coreos.com"

abbrev pub ann : Annotations
ann = keys_of "flannel.alpha.coreos.com/"

abbrev pub node_of : List String → AnnotationMap → Node
node_of cidrs annotations = record {
  metadata = record { name = "n1"; uid = "u1"; resource_version = none; annotations = annotations };
  spec = record { pod_cidr = none; pod_cidrs = cidrs };
}

abbrev pub annotated : String → AnnotationMap
annotated backend_data =
    (ann.subnet_kube_managed, "true")
    ∷ (ann.backend_public_ip, "10.5.1.0")
    ∷ (ann.backend_data, backend_data)
    ∷ (ann.backend_type, "vxlan")
    ∷ []

abbrev pub node : Node
node = node_of ("10.5.1.0/24" ∷ []) (annotated "1")

abbrev pub lease : Lease
lease = record {
  enable_ipv4 = true;
  enable_ipv6 = false;
  subnet = record { ip = 0x0a05_0100; prefix_len = 24 };
  ipv6_subnet = V6.default_net;
  attrs = record default_attrs {
    public_ip = 0x0a05_0100;
    backend_type = "vxlan";
    backend_data = some "1";
  };
  expiration = 0;
  asof = pos 0;
}

a_lease : node_to_lease parsers ann node true false ≡ ok lease
unfolding node_to_lease lease_ipv4 cidr_text annotation lookup raw_from_annotation ip4_from_str
    net4_from_str network V4.net_mask V4.mask_value
a_lease = refl

node_to_lease-ok_example :
    (true ≡ true → IsIpv4Of parsers ann node lease)
    × (false ≡ true → IsIpv6Of parsers ann node lease)
    × (lease.enable_ipv4 ≡ true)
    × (lease.enable_ipv6 ≡ false)
    × (lease.attrs.backend_type ≡ annotation node.metadata.annotations ann.backend_type)
node_to_lease-ok_example = node_to_lease-ok parsers ann node true false lease a_lease

-- A node whose CIDR comes after its annotations.
handle_update_lease_event_quiet_example :
    handle_update_lease_event parsers ann true false (node_of [] (annotated "1")) node ≡ none
handle_update_lease_event_quiet_example =
    handle_update_lease_event_quiet parsers ann (node_of [] (annotated "1")) node true false refl
      refl

abbrev ctx : InformerCtx
ctx = record { parsers = parsers; annotations = ann; enable_ipv4 = true; enable_ipv6 = false }

abbrev start : Informer
start = record { store = ("n0", node) ∷ []; synced = false; resource_version = none; events = [] }

abbrev signals : List Signal
signals = resync ∷ frame (record { event_type = watch_deleted; object = node }) ∷ gone ∷ []

session-lookup_example :
    lookup (run_watch ctx signals (relist ctx (node ∷ []) none start)).1.store "n1"
    ≡ latest "n1" signals (last_named "n1" (node ∷ []) none)
session-lookup_example = session-lookup ctx (node ∷ []) none signals start "n1"

reconcile_relist_removed_iff_example :
    Has (reconcile_relist ctx (("n0", node) ∷ []) (node ∷ [])) (event removed lease)
    ↔ Gone ctx (("n0", node) ∷ []) (node ∷ []) (event removed lease)
reconcile_relist_removed_iff_example =
    reconcile_relist_removed_iff ctx (("n0", node) ∷ []) (node ∷ []) (event removed lease) refl

abbrev pub attrs : LeaseAttrs
attrs = record default_attrs {
  public_ip = 0x0a05_0100;
  backend_type = "vxlan";
  backend_data = some "1";
}

needs_patch-merge_example :
    needs_patch parsers ann attrs
      (merge (annotated "0") (diff (annotated "0") (patched parsers ann attrs (annotated "0"))))
    ≡ false
unfolding lookup annotation new_annotations normalized
needs_patch-merge_example =
    needs_patch-merge parsers ann attrs (annotated "0")
      (new_annotations-Distinct (λ s. true) prefix ann refl) refl refl
      (refl, (refl, (refl, (refl, tt)))) refl
