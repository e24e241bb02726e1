-- ===== src/Kube/Acquire/Contained.antt =====
-- The acquired lease lies in the configured networks.
use mathlib.Core.Bool.{false≢true}
use flannel_rust.Prelude.{
  ℕ, ◌≡◌, refl, ap, sym, subst, ◌∙◌, arith, Bool, true, false, not, ◌&&◌, ◌||◌, Option, none, some,
  List, if◌then◌else◌,
}
use flannel_rust.Prelude.Result.{Result, ok, err, >>=-eq-ok, err≢ok}
use flannel_rust.Ip.V4
use flannel_rust.Ip.V4.{Ip4Net}
use flannel_rust.Ip.V6
use flannel_rust.Ip.V6.{Ip6Net}
use flannel_rust.Lease.{Lease, LeaseAttrs}
use flannel_rust.Kube.{KubeError, not_contained, not_contained6}
use flannel_rust.Kube.Poll.{Pause, PatchRound}
use flannel_rust.Kube.Patch.{maybe_patch_annotations}
use flannel_rust.Kube.Acquire.{
  KubeSubnetManager, Cidrs, Look, is_some, acquire_pod_cidrs, cidrs_ready, wait_for_node_with_cidrs,
  empty_lease, one_family, supports_one, set_subnet, set_ipv6_subnet, set_families, lease_of,
  acquire_lease,
}
use flannel_rust.Kube.Acquire.Ready.{wait_for_node_with_cidrs-IsReady}

abbrev err_lease : KubeError → Result KubeError Lease
err_lease e = err e

-- The test of a CIDR: a lease that passes it, or the lease as it is where the family is not enabled.
checked :
    (enabled is_empty inside : Bool) (e : KubeError) (l set m : Lease) (P Q : Lease → Type 0)
    → (if enabled then (if is_empty || not inside then err_lease e else ok set) else ok l) ≡ ok m
    → Q l
    → Q set
    → (is_empty ≡ false → inside ≡ true → P set)
    → (enabled ≡ true → true ≡ true → P m) × Q m
checked true true inside e l set m P Q h old new holds = absurd (err≢ok e m h)
checked true false true e l set m P Q h old new holds =
    let same : set ≡ m = cc in ((λ on now. subst P same (holds refl refl)), subst Q same new)
checked true false false e l set m P Q h old new holds = absurd (err≢ok e m h)
checked false is_empty inside e l set m P Q h old new holds =
    let same : l ≡ m = cc in ((λ on now. absurd (false≢true on)), subst Q same old)

same :
    (b : Bool) (l : Lease)
    → ((one_family b l).subnet ≡ l.subnet)
      × ((one_family b l).ipv6_subnet ≡ l.ipv6_subnet)
      × ((one_family b l).attrs ≡ l.attrs)
      × ((one_family b l).expiration ≡ l.expiration)
same true l = (refl, refl, refl, refl)
same false l = (refl, refl, refl, refl)

ready_split :
    (e4 s4 e6 s6 : Bool)
    → ((not e4 || s4) && (not e6 || s6)) ≡ true
    → (e4 ≡ true → s4 ≡ true) × (e6 ≡ true → s6 ≡ true)
ready_split e4 s4 e6 s6 h = ((λ on. ground arith), (λ on. ground arith))

abbrev ok_cidrs : Cidrs → Result KubeError Cidrs
ok_cidrs c = ok c

ok_inj : (a b : Cidrs) → ok_cidrs a ≡ ok b → a ≡ b
ok_inj a b h = cc

module _ (mgr : KubeSubnetManager) where
  -- What set_subnet leaves as it is, and what it checks.
  abbrev IsChecked4 : Lease → Type 0
  IsChecked4 l =
      (V4.empty mgr.config.network ≡ false) × (V4.contains_cidr mgr.config.network l.subnet ≡ true)

  abbrev IsChecked6 : Lease → Type 0
  IsChecked6 l =
      (V6.empty mgr.config.ipv6_network ≡ false)
      × (V6.contains_cidr mgr.config.ipv6_network l.ipv6_subnet ≡ true)

  set_subnet-ok :
      (o : Option Ip4Net) (l m : Lease)
      → set_subnet mgr o l ≡ ok m
      → (mgr.config.enable_ipv4 ≡ true → is_some o ≡ true → IsChecked4 m)
        × ((m.attrs ≡ l.attrs) × (m.expiration ≡ l.expiration))
  set_subnet-ok none l m h = ((λ e n. absurd (false≢true n)), (cc, cc))
  set_subnet-ok (some cidr) l m h =
      let network = mgr.config.network in
      checked mgr.config.enable_ipv4 (V4.empty network) (V4.contains_cidr network cidr)
        (not_contained network cidr mgr.node_name) l (record l { subnet = cidr }) m IsChecked4
        (λ k. (k.attrs ≡ l.attrs) × (k.expiration ≡ l.expiration)) h (refl, refl) (refl, refl)
        (λ e n. (e, n))

  set_ipv6_subnet-ok :
      (o : Option Ip6Net) (l m : Lease)
      → set_ipv6_subnet mgr o l ≡ ok m
      → (mgr.config.enable_ipv6 ≡ true → is_some o ≡ true → IsChecked6 m)
        × ((m.attrs ≡ l.attrs) × (m.expiration ≡ l.expiration) × (m.subnet ≡ l.subnet))
  set_ipv6_subnet-ok none l m h = ((λ e n. absurd (false≢true n)), (cc, cc, cc))
  set_ipv6_subnet-ok (some cidr) l m h =
      let network = mgr.config.ipv6_network in
      checked mgr.config.enable_ipv6 (V6.empty network) (V6.contains_cidr network cidr)
        (not_contained6 network cidr mgr.node_name) l (record l { ipv6_subnet = cidr }) m IsChecked6
        (λ k. (k.attrs ≡ l.attrs) × (k.expiration ≡ l.expiration) × (k.subnet ≡ l.subnet)) h
        (refl, refl, refl) (refl, refl, refl) (λ e n. (e, n))

  pub set_families-same :
      (l : Lease)
      → ((set_families l).subnet ≡ l.subnet)
        × ((set_families l).ipv6_subnet ≡ l.ipv6_subnet)
        × ((set_families l).attrs ≡ l.attrs)
        × ((set_families l).expiration ≡ l.expiration)
  set_families-same l = same (supports_one l) l

  -- What holds of the lease of pod CIDRs that are ready.
  abbrev pub IsAcquired : LeaseAttrs → ℕ → Lease → Type 0
  IsAcquired attrs expiration l =
      (mgr.config.enable_ipv4 ≡ true → IsChecked4 l)
      × (mgr.config.enable_ipv6 ≡ true → IsChecked6 l)
      × (l.attrs ≡ attrs)
      × (l.expiration ≡ expiration)

  finished :
      (attrs : LeaseAttrs) (expiration : ℕ) (n l : Lease)
      → set_families n ≡ l
      → IsAcquired attrs expiration n
      → IsAcquired attrs expiration l
  finished attrs expiration n l e (four, six, a, x) =
      let kept = set_families-same n in
      let net : n.subnet ≡ l.subnet = sym kept.0 ∙ ap (λ (k : Lease). k.subnet) e in
      let net6 : n.ipv6_subnet ≡ l.ipv6_subnet = sym kept.1 ∙ ap (λ (k : Lease). k.ipv6_subnet) e in
      (
        (λ on. (
          (four on).0,
          subst (λ s. V4.contains_cidr mgr.config.network s ≡ true) net (four on).1,
        )),
        (λ on. (
          (six on).0,
          subst (λ s. V6.contains_cidr mgr.config.ipv6_network s ≡ true) net6 (six on).1,
        )),
        sym (ap (λ (k : Lease). k.attrs) e) ∙ kept.2 ∙ a,
        sym (ap (λ (k : Lease). k.expiration) e) ∙ kept.3 ∙ x,
      )

  families_ok :
      (attrs : LeaseAttrs) (expiration : ℕ) (c4 : Option Ip4Net) (c6 : Option Ip6Net)
      (m n l : Lease)
      → (mgr.config.enable_ipv4 ≡ true → is_some c4 ≡ true → IsChecked4 m)
        × ((m.attrs ≡ attrs) × (m.expiration ≡ expiration))
      → (mgr.config.enable_ipv6 ≡ true → is_some c6 ≡ true → IsChecked6 n)
        × ((n.attrs ≡ m.attrs) × (n.expiration ≡ m.expiration) × (n.subnet ≡ m.subnet))
      → (mgr.config.enable_ipv4 ≡ true → is_some c4 ≡ true)
        × (mgr.config.enable_ipv6 ≡ true → is_some c6 ≡ true)
      → set_families n ≡ l
      → IsAcquired attrs expiration l
  families_ok attrs expiration c4 c6 m n l (first, (a, x)) (second, (b, y, net)) (in4, in6) e =
      finished attrs expiration n l e (
        (λ on.
            let got = first on (in4 on) in
            (got.0, subst (λ s. V4.contains_cidr mgr.config.network s ≡ true) (sym net) got.1)),
        (λ on. second on (in6 on)),
        b ∙ a,
        y ∙ x,
      )

  lease_of-IsAcquired :
      (attrs : LeaseAttrs) (expiration : ℕ) (found : Cidrs) (l : Lease)
      → lease_of mgr attrs expiration found ≡ ok l
      → cidrs_ready mgr found ≡ true
      → IsAcquired attrs expiration l
  unfolding lease_of cidrs_ready
  lease_of-IsAcquired attrs expiration (c4, c6) l h is_ready =
      let start = empty_lease attrs expiration in
      let (m, m_ok, h1) = >>=-eq-ok (set_subnet mgr c4 start) _ h in
      let (n, n_ok, h2) = >>=-eq-ok (set_ipv6_subnet mgr c6 m) _ h1 in
      let present =
        ready_split mgr.config.enable_ipv4 (is_some c4) mgr.config.enable_ipv6 (is_some c6)
          is_ready in
      families_ok attrs expiration c4 c6 m n l (set_subnet-ok c4 start m m_ok)
        (set_ipv6_subnet-ok c6 m n n_ok) present cc

  -- An acquired lease has the attributes and the expiration that were asked for; for each family that the
  -- configuration enables, its network is not empty and contains the lease's subnet.
  pub acquire_lease-ok :
      (attrs : LeaseAttrs) (expiration : ℕ) (rounds : List (Look × Pause))
      (patches : List PatchRound) (l : Lease)
      → acquire_lease mgr attrs expiration rounds patches ≡ ok l
      → IsAcquired attrs expiration l
  unfolding acquire_lease
  acquire_lease-ok attrs expiration rounds patches l h =
      let (node, node_ok, h1) = >>=-eq-ok (wait_for_node_with_cidrs mgr rounds) _ h in
      let (found, found_ok, h2) = >>=-eq-ok (acquire_pod_cidrs mgr node) _ h1 in
      let (unit, patch_ok, h3) =
        >>=-eq-ok
          (maybe_patch_annotations mgr.parsers mgr.annotations attrs node.metadata.annotations
            patches)
          _ h2 in
      let (was, was_ok, is_ready) = wait_for_node_with_cidrs-IsReady mgr rounds node node_ok in
      let same : was ≡ found = ok_inj was found (sym was_ok ∙ found_ok) in
      lease_of-IsAcquired attrs expiration found l h3
        (subst (λ c. cidrs_ready mgr c ≡ true) same is_ready)
