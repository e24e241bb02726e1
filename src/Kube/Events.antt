-- ===== src/Kube/Events.antt =====
-- The leases and the events of nodes: node_to_lease, handle_add_lease_event and handle_update_lease_event of
-- subnet/kube/events.rs. An event that a handler hands to enqueue_lease_event is its result.
pub mod Leases
pub mod Changes
use Prim.Native.String.{String}
use text.Mathlib.Text.{◌==◌ as str_eq}
use flannel_rust.Prelude.{
  ℕ, Bool, true, false, not, ◌&&◌, Option, none, some, List, [], ◌∷◌, if◌then◌else◌,
}
use flannel_rust.Prelude.Dict.{lookup}
use flannel_rust.Prelude.Int.{pos}
use flannel_rust.Prelude.Result.{Result, ok, err, ◌>>=◌}
use flannel_rust.Ip.V4
use flannel_rust.Ip.V4.{Ip4Net}
use flannel_rust.Ip.V6
use flannel_rust.Ip.V6.{Ip6Net}
use flannel_rust.Ip.Parse.{contains_char}
use flannel_rust.Lease.{EventType, added, Event, Lease, default_attrs, event}
use flannel_rust.Kube.{
  AnnotationMap, Node, Annotations, annotation, or_empty, KubeError, too_many_cidrs, missing_ipv4,
  missing_ipv6, Parsers, parse_ip4, parse_ip6, parse_net4, parse_net6,
}

abbrev pub colon : ℕ
colon = 0x3a

-- The first of the CIDRs of a family.
abbrev pub find_cidr : Bool → List String → Option String
find_cidr v6 [] = none
find_cidr true (c ∷ cs) = if contains_char colon c then some c else find_cidr true cs
find_cidr false (c ∷ cs) = if contains_char colon c then find_cidr false cs else some c

-- The text of the CIDR of a family: the single pod CIDR where there is no list of them.
abbrev pub pick_cidr :
    Bool → String → Option String → List String → Result KubeError (Option String)
pick_cidr v6 name cidr [] = ok (find_cidr v6 (or_empty cidr ∷ []))
pick_cidr v6 name cidr (c ∷ []) = ok (find_cidr v6 (c ∷ []))
pick_cidr v6 name cidr (c ∷ d ∷ []) = ok (find_cidr v6 (c ∷ d ∷ []))
pick_cidr v6 name cidr (c ∷ d ∷ e ∷ cs) = err (too_many_cidrs name)

unfoldable pub cidr_text : Bool → Node → Result KubeError (Option String)
cidr_text v6 node = pick_cidr v6 node.metadata.name node.spec.pod_cidr node.spec.pod_cidrs

abbrev pub or_missing {ℓ} : {A : Type ℓ} → Option A → KubeError → Result KubeError A
or_missing none e = err e
or_missing (some a) e = ok a

abbrev pub new_lease : Lease
new_lease = record {
  enable_ipv4 = false;
  enable_ipv6 = false;
  subnet = V4.default_net;
  ipv6_subnet = V6.default_net;
  attrs = default_attrs;
  expiration = 0;
  asof = pos 0;
}

unfoldable pub raw_from_annotation : Parsers → AnnotationMap → String → Option String
raw_from_annotation p m key = elim (lookup m key) [ none ↦ none | some value ↦ p.raw_of value ]

abbrev pub lease_event : EventType → Result KubeError Lease → Option Event
lease_event et (ok l) = some (event et l)
lease_event et (err e) = none

module _ (ann : Annotations) where
  unfoldable pub is_managed : Node → Bool
  is_managed node = str_eq (annotation node.metadata.annotations ann.subnet_kube_managed) "true"

  -- Whether an annotation is the same on two nodes.
  abbrev pub same_at : String → Node → Node → Bool
  same_at key old new =
      str_eq (annotation old.metadata.annotations key) (annotation new.metadata.annotations key)

  unfoldable pub same_ipv4 : Node → Node → Bool
  same_ipv4 old new =
      same_at ann.backend_data old new
      && (same_at ann.backend_type old new && same_at ann.backend_public_ip old new)

  unfoldable pub same_ipv6 : Node → Node → Bool
  same_ipv6 old new =
      same_at ann.backend_v6_data old new
      && (same_at ann.backend_type old new && same_at ann.backend_public_ipv6 old new)

module _ (p : Parsers) (ann : Annotations) where
  -- The two families of node_to_lease.
  unfoldable pub lease_ipv4 : Node → Lease → Result KubeError Lease
  lease_ipv4 node l = do
    public_ip ← parse_ip4 p (annotation node.metadata.annotations ann.backend_public_ip)
    found ← cidr_text false node
    text ← or_missing found missing_ipv4
    cidr ← parse_net4 p text
    ok (record l {
      attrs = record l.attrs {
        public_ip = public_ip;
        backend_data = raw_from_annotation p node.metadata.annotations ann.backend_data;
      };
      subnet = cidr;
      enable_ipv4 = true;
    })

  unfoldable pub lease_ipv6 : Node → Lease → Result KubeError Lease
  lease_ipv6 node l = do
    public_ip ← parse_ip6 p (annotation node.metadata.annotations ann.backend_public_ipv6)
    found ← cidr_text true node
    text ← or_missing found missing_ipv6
    cidr ← parse_net6 p text
    ok (record l {
      attrs = record l.attrs {
        public_ipv6 = some public_ip;
        backend_v6_data = raw_from_annotation p node.metadata.annotations ann.backend_v6_data;
      };
      ipv6_subnet = cidr;
      enable_ipv6 = true;
    })

  unfoldable pub node_to_lease : Node → Bool → Bool → Result KubeError Lease
  node_to_lease node enable_ipv4 enable_ipv6 = do
    l ← if enable_ipv4 then lease_ipv4 node new_lease else ok new_lease
    m ← if enable_ipv6 then lease_ipv6 node l else ok l
    ok (record m {
      attrs = record m.attrs {
        backend_type = annotation node.metadata.annotations ann.backend_type;
      };
    })

  unfoldable pub handle_add_lease_event : Bool → Bool → EventType → Node → Option Event
  handle_add_lease_event enable_ipv4 enable_ipv6 et node =
      if is_managed ann node
      then lease_event et (node_to_lease node enable_ipv4 enable_ipv6)
      else none

  unfoldable pub handle_update_lease_event : Bool → Bool → Node → Node → Option Event
  handle_update_lease_event enable_ipv4 enable_ipv6 old new =
      let changed4 = if enable_ipv4 && same_ipv4 ann old new then false else true in
      let changed = if enable_ipv6 && same_ipv6 ann old new then false else changed4 in
      if is_managed ann new
      then (if changed then lease_event added (node_to_lease new enable_ipv4 enable_ipv6) else none)
      else none
