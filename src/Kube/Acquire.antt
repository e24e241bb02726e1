-- ===== src/Kube/Acquire.antt =====
-- crates/flannel-core/src/subnet/kube/acquire.rs: the pod CIDRs of the own node, the polls, and the lease. Each
-- round of a poll says what the store or the server gave and what the context and the clock did; times
-- are in milliseconds from the start of the poll.
pub mod Polls
pub mod Cidrs
pub mod Ready
pub mod Contained
use Prim.Native.String.{String}
use text.Mathlib.Text.{◌==◌ as str_eq}
use flannel_rust.Prelude.{
  ℕ, ◌-◌, min, leb, Bool, true, false, not, ◌&&◌, ◌||◌, Option, none, some, List, [], ◌∷◌,
  if◌then◌else◌,
}
use flannel_rust.Prelude.Dict.{lookup}
use flannel_rust.Prelude.Int.{pos}
use flannel_rust.Prelude.Result.{Result, ok, err, ◌>>=◌}
use flannel_rust.Ip.V4
use flannel_rust.Ip.V4.{Ip4Net}
use flannel_rust.Ip.V6
use flannel_rust.Ip.V6.{Ip6Net}
use flannel_rust.Ip.Parse.{contains_char}
use flannel_rust.Config.{Config}
use flannel_rust.Lease.{Lease, LeaseAttrs}
use flannel_rust.Kube.{
  Node, Annotations, or_empty, KubeError, too_many_cidrs, not_contained, not_contained6, canceled,
  deadline_exceeded, still_waiting, Parsers, parse_net4, parse_net6,
}
use flannel_rust.Kube.Events.{colon}
use flannel_rust.Kube.Informer.{Nodes}
use flannel_rust.Kube.Patch.{maybe_patch_annotations}
use flannel_rust.Kube.Poll.{Pause, PatchRound, give_up}

-- The part of the manager that the operations read.
pub record KubeSubnetManager : Type 0 where
  pub parsers : Parsers
  pub config : Config
  pub node_name : String
  pub annotations : Annotations
  pub disable_node_informer : Bool

abbrev pub Cidrs : Type 0
Cidrs = Option Ip4Net × Option Ip6Net

abbrev pub is_some {ℓ} : {A : Type ℓ} → Option A → Bool
is_some none = false
is_some (some a) = true

-- What a round finds: what a GET gives, and the informer's store.
pub record Look : Type 0 where
  pub got : Option Node
  pub store : Nodes

abbrev pub wait_step :
    Option (Result KubeError Node)
    → Option KubeError
    → Result KubeError Node
    → Result KubeError Node
wait_step (some r) gave_up later = r
wait_step none (some e) later = err e
wait_step none none later = later

abbrev pub empty_lease : LeaseAttrs → ℕ → Lease
empty_lease attrs expiration = record {
  enable_ipv4 = false;
  enable_ipv6 = false;
  subnet = V4.default_net;
  ipv6_subnet = V6.default_net;
  attrs = attrs;
  expiration = expiration;
  asof = pos 0;
}

-- A backend without dual stack.
abbrev pub supports_one : Lease → Bool
supports_one l =
    not (str_eq l.attrs.backend_type "vxlan")
    && (not (str_eq l.attrs.backend_type "host-gw")
        && not (str_eq l.attrs.backend_type "wireguard"))

abbrev pub one_family : Bool → Lease → Lease
one_family true l = record l { enable_ipv4 = true; enable_ipv6 = false }
one_family false l = l

abbrev pub set_families : Lease → Lease
set_families l = one_family (supports_one l) l

module _ (mgr : KubeSubnetManager) where
  unfoldable pub fetch_node : Look → Option Node
  fetch_node look = if mgr.disable_node_informer then look.got else lookup look.store mgr.node_name

  -- The loop over the pod CIDRs: a later one takes the place of an earlier one of its family.
  unfoldable pub take_cidrs : List String → Cidrs → Result KubeError Cidrs
  take_cidrs [] found = ok found
  take_cidrs (c ∷ cs) (found4, found6) =
      let as6 : Result KubeError Cidrs = (do
        cidr ← parse_net6 mgr.parsers c
        take_cidrs cs (found4, some cidr)) in
      let as4 : Result KubeError Cidrs = (do
        cidr ← parse_net4 mgr.parsers c
        take_cidrs cs (some cidr, found6)) in
      if contains_char colon c then as6 else as4

  unfoldable pub single_cidr : String → Result KubeError Cidrs
  single_cidr s =
      if contains_char colon s
      then parse_net6 mgr.parsers s >>= (λ cidr. ok (none, some cidr))
      else if str_eq s ""
      then ok (none, none)
      else parse_net4 mgr.parsers s >>= (λ cidr. ok (some cidr, none))

  abbrev pub cidrs_by_count : Option String → List String → Result KubeError Cidrs
  cidrs_by_count cidr [] = single_cidr (or_empty cidr)
  cidrs_by_count cidr (c ∷ []) = take_cidrs (c ∷ []) (none, none)
  cidrs_by_count cidr (c ∷ d ∷ []) = take_cidrs (c ∷ d ∷ []) (none, none)
  cidrs_by_count cidr (c ∷ d ∷ e ∷ cs) = err (too_many_cidrs mgr.node_name)

  unfoldable pub acquire_pod_cidrs : Node → Result KubeError Cidrs
  acquire_pod_cidrs node = cidrs_by_count node.spec.pod_cidr node.spec.pod_cidrs

  unfoldable pub cidrs_ready : Cidrs → Bool
  cidrs_ready (cidr, ipv6_cidr) =
      (not mgr.config.enable_ipv4 || is_some cidr)
      && (not mgr.config.enable_ipv6 || is_some ipv6_cidr)

  abbrev pub if_ready : Node → Result KubeError Cidrs → Option (Result KubeError Node)
  if_ready node (ok found) = if cidrs_ready found then some (ok node) else none
  if_ready node (err e) = some (err e)

  -- What a round of the wait returns, if it does.
  abbrev pub attempt : Option Node → Option (Result KubeError Node)
  attempt none = none
  attempt (some node) = if_ready node (acquire_pod_cidrs node)

  unfoldable pub wait_for_node_with_cidrs : List (Look × Pause) → Result KubeError Node
  wait_for_node_with_cidrs [] = err still_waiting
  wait_for_node_with_cidrs ((look, pause) ∷ rounds) =
      wait_step (attempt (fetch_node look)) (give_up "get node" pause)
        (wait_for_node_with_cidrs rounds)

  abbrev pub set_subnet : Option Ip4Net → Lease → Result KubeError Lease
  set_subnet none l = ok l
  set_subnet (some cidr) l =
      let network = mgr.config.network in
      if mgr.config.enable_ipv4
      then (if V4.empty network || not (V4.contains_cidr network cidr)
          then err (not_contained network cidr mgr.node_name)
          else ok (record l { subnet = cidr }))
      else ok l

  abbrev pub set_ipv6_subnet : Option Ip6Net → Lease → Result KubeError Lease
  set_ipv6_subnet none l = ok l
  set_ipv6_subnet (some cidr) l =
      let network = mgr.config.ipv6_network in
      if mgr.config.enable_ipv6
      then (if V6.empty network || not (V6.contains_cidr network cidr)
          then err (not_contained6 network cidr mgr.node_name)
          else ok (record l { ipv6_subnet = cidr }))
      else ok l

  -- The lease of the pod CIDRs.
  unfoldable pub lease_of : LeaseAttrs → ℕ → Cidrs → Result KubeError Lease
  lease_of attrs expiration (cidr, ipv6_cidr) = do
    l ← set_subnet cidr (empty_lease attrs expiration)
    m ← set_ipv6_subnet ipv6_cidr l
    ok (set_families m)

  unfoldable pub acquire_lease :
      LeaseAttrs → ℕ → List (Look × Pause) → List PatchRound → Result KubeError Lease
  acquire_lease attrs expiration rounds patches = do
    node ← wait_for_node_with_cidrs rounds
    found ← acquire_pod_cidrs node
    _ ← maybe_patch_annotations mgr.parsers mgr.annotations attrs node.metadata.annotations patches
    lease_of attrs expiration found
