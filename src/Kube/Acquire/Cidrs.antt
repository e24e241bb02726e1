-- ===== src/Kube/Acquire/Cidrs.antt =====
-- Two pod CIDRs of one family: the own lease and what other nodes see.
use Prim.Native.String.{String}
use flannel_rust.Prelude.{
  ℕ, ◌≡◌, refl, sym, ap, ◌∙◌, Bool, true, false, not, ◌||◌, none, some, List, [], ◌∷◌, Bool-cases,
  inl, inr,
}
use flannel_rust.Prelude.Result.{Result, ok, err≢ok, >>=-eq-ok}
use flannel_rust.Ip.V4
use flannel_rust.Ip.V4.{Ip4Net}
use flannel_rust.Ip.Parse.{contains_char}
use flannel_rust.Lease.{Lease, LeaseAttrs}
use flannel_rust.Kube.{Node, parse_net4, not_contained}
use flannel_rust.Kube.Events.{colon, node_to_lease}
use flannel_rust.Kube.Events.Leases.{IsFirst, cidrs_of, node_to_lease-ok}
use flannel_rust.Kube.Poll.{Pause, PatchRound}
use flannel_rust.Kube.Patch.{maybe_patch_annotations}
use flannel_rust.Kube.Acquire.{
  KubeSubnetManager, Look, take_cidrs, acquire_pod_cidrs, cidrs_by_count, empty_lease, set_subnet,
  set_families, lease_of, wait_for_node_with_cidrs, acquire_lease,
}
use flannel_rust.Kube.Acquire.Contained.{set_families-same}

ok_inj : {E A : Type 0} (a b : A) → ◌≡◌ {A = Result E A} (ok a) (ok b) → a ≡ b
ok_inj a b h = cc

IsFirst-head :
    (c s : String) (cs cs' : List String)
    → cs' ≡ c ∷ cs
    → contains_char colon c ≡ false
    → IsFirst false cs' s
    → s ≡ c
IsFirst-head c s cs cs' e plain ([], after, shape, before, has) = cc
IsFirst-head c s cs cs' e plain (b ∷ bs, after, shape, before, has) =
    let same : b ≡ c = cc in cc (plain, before.0, same)

module _ (mgr : KubeSubnetManager) (node : Node) (c d : String) (x y : Ip4Net)
    (two : node.spec.pod_cidrs ≡ c ∷ d ∷ []) (c4 : contains_char colon c ≡ false)
    (d4 : contains_char colon d ≡ false) (first : parse_net4 mgr.parsers c ≡ ok x)
    (second : parse_net4 mgr.parsers d ≡ ok y) where
  -- The last CIDR of a family is kept.
  acquire_pod_cidrs-last : acquire_pod_cidrs mgr node ≡ ok (some y, none)
  unfolding acquire_pod_cidrs take_cidrs
  acquire_pod_cidrs-last =
      ap (cidrs_by_count mgr node.spec.pod_cidr) two ∙ rw (c4, d4, first, second) refl

  set_subnet-subnet :
      (l m : Lease)
      → mgr.config.enable_ipv4 ≡ true
      → set_subnet mgr (some y) l ≡ ok m
      → m.subnet ≡ y
  set_subnet-subnet l m on h =
      elim (Bool-cases
        (V4.empty mgr.config.network || not (V4.contains_cidr mgr.config.network y))) [
          | inl bad ↦
              absurd (
                err≢ok (not_contained mgr.config.network y mgr.node_name) m
                  (rw on at (rw bad at h)))
          | inr good ↦ cc
        ]

  lease_of-subnet :
      (attrs : LeaseAttrs) (expiration : ℕ) (l : Lease)
      → mgr.config.enable_ipv4 ≡ true
      → lease_of mgr attrs expiration (some y, none) ≡ ok l
      → l.subnet ≡ y
  unfolding lease_of
  lease_of-subnet attrs expiration l on h =
      let (m, m_ok, h1) = >>=-eq-ok (set_subnet mgr (some y) (empty_lease attrs expiration)) _ h in
      let same : set_families m ≡ l = ok_inj (set_families m) l h1 in
      sym (ap (λ (k : Lease). k.subnet) same)
      ∙ (set_families-same mgr m).0
      ∙ set_subnet-subnet (empty_lease attrs expiration) m on m_ok

  -- Where the node that the wait gives has two IPv4 pod CIDRs that parse, and IPv4 is enabled, the lease
  -- that acquire_lease gives has the second of them as its subnet, while every lease that node_to_lease
  -- makes of the same node has the first.
  pub acquire_lease-node_to_lease :
      (attrs : LeaseAttrs) (expiration : ℕ) (rounds : List (Look × Pause))
      (patches : List PatchRound) (own seen : Lease) (enable_ipv6 : Bool)
      → mgr.config.enable_ipv4 ≡ true
      → wait_for_node_with_cidrs mgr rounds ≡ ok node
      → acquire_lease mgr attrs expiration rounds patches ≡ ok own
      → node_to_lease mgr.parsers mgr.annotations node true enable_ipv6 ≡ ok seen
      → (own.subnet ≡ y) × (seen.subnet ≡ x)
  unfolding acquire_lease
  acquire_lease-node_to_lease attrs expiration rounds patches own seen enable_ipv6 on waited h e =
      let (n, n_ok, h1) = >>=-eq-ok (wait_for_node_with_cidrs mgr rounds) _ h in
      let same : n ≡ node = ok_inj n node (sym n_ok ∙ waited) in
      let (found, found_ok, h2) = >>=-eq-ok (acquire_pod_cidrs mgr n) _ h1 in
      let last =
        ok_inj found (some y, none)
          (sym found_ok ∙ ap (acquire_pod_cidrs mgr) same ∙ acquire_pod_cidrs-last) in
      let (_, _, h3) =
        >>=-eq-ok
          (maybe_patch_annotations mgr.parsers mgr.annotations attrs n.metadata.annotations patches)
          _ h2 in
      let of4 = (node_to_lease-ok mgr.parsers mgr.annotations node true enable_ipv6 seen e).0 in
      let (_, (s, is_first, _, parsed)) = of4 refl in
      let head = IsFirst-head c s (d ∷ []) (cidrs_of node) (rw two refl) c4 is_first in
      (
        lease_of-subnet attrs expiration own on
            (ap (lease_of mgr attrs expiration) (sym last) ∙ h3),
        ok_inj seen.subnet x (sym parsed ∙ ap (parse_net4 mgr.parsers) head ∙ first),
      )
