-- ===== src/Kube/Events/Changes.antt =====
-- Which updates of a node are events.
use text.Mathlib.TextPositions.{eq_refl}
use flannel_rust.Prelude.{
  ◌≡◌, ◌↔◌, refl, Bool, true, false, ◌&&◌, ◌||◌, Option, none, some, if◌then◌else◌,
}
use flannel_rust.Prelude.Result.{Result, ok, err}
use flannel_rust.Lease.{Event, Lease, added, event}
use flannel_rust.Kube.{Node, Annotations, KubeError, Parsers}
use flannel_rust.Kube.Events.{
  node_to_lease, is_managed, same_ipv4, same_ipv6, lease_event, handle_update_lease_event,
}

lease_event_iff :
    (r : Result KubeError Lease) (e : Event)
    → (lease_event added r ≡ some e) ↔ ((l : Lease) × (r ≡ ok l) × (e ≡ event added l))
lease_event_iff (ok l) e = ((λ h. (l, refl, cc)), (λ (m, h, k). cc))
lease_event_iff (err x) e = ((λ h. cc), (λ (m, h, k). cc))

-- The tests of the handler: managed, and the verdicts on the two families.
changes :
    (managed quiet4 quiet6 : Bool) (o : Option Event) (e : Event) (P : Type 0)
    → ((o ≡ some e) ↔ P)
    → ((if managed
          then (if (if quiet6 then false else if quiet4 then false else true) then o else none)
          else none)
        ≡ some e)
      ↔ ((managed ≡ true) × (quiet4 ≡ false) × (quiet6 ≡ false) × P)
changes true false false o e P h = ((λ x. (refl, refl, refl, h.0 x)), (λ x. h.1 x.3))
changes true true false o e P h = ((λ x. cc), (λ x. let no = x.1 in cc))
changes true false true o e P h = ((λ x. cc), (λ x. let no = x.2 in cc))
changes true true true o e P h = ((λ x. cc), (λ x. let no = x.2 in cc))
changes false quiet4 quiet6 o e P h = ((λ x. cc), (λ x. let no = x.0 in cc))

unchanged :
    (o : Option Event) (managed v4 v6 : Bool)
    → (v4 || v6) ≡ true
    → (if managed
        then (if (if v6 && true then false else if v4 && true then false else true)
            then o
            else none)
        else none)
      ≡ none
unchanged o false v4 v6 h = refl
unchanged o true true true h = refl
unchanged o true true false h = refl
unchanged o true false true h = refl
unchanged o true false false h = cc

module _ (ann : Annotations) (old new : Node)
    (same : old.metadata.annotations ≡ new.metadata.annotations) where
  same_ipv4_refl : same_ipv4 ann old new ≡ true
  unfolding same_ipv4
  same_ipv4_refl = simp (same, eq_refl)

  same_ipv6_refl : same_ipv6 ann old new ≡ true
  unfolding same_ipv6
  same_ipv6_refl = simp (same, eq_refl)

module _ (p : Parsers) (ann : Annotations) (old new : Node) where
  -- An update of a node is an event exactly when the new node is managed by flannel, each enabled family
  -- has a change in one of its annotations (its data, the backend type, its public address),
  -- and the new node has a lease; the event adds that lease.
  pub handle_update_lease_event_iff :
      (enable_ipv4 enable_ipv6 : Bool) (e : Event)
      → (handle_update_lease_event p ann enable_ipv4 enable_ipv6 old new ≡ some e) ↔ (
          (is_managed ann new ≡ true)
          × ((enable_ipv4 && same_ipv4 ann old new) ≡ false)
          × ((enable_ipv6 && same_ipv6 ann old new) ≡ false)
          × ((l : Lease) × (node_to_lease p ann new enable_ipv4 enable_ipv6 ≡ ok l)
              × (e ≡ event added l)))
  unfolding handle_update_lease_event
  handle_update_lease_event_iff enable_ipv4 enable_ipv6 e =
      changes (is_managed ann new) (enable_ipv4 && same_ipv4 ann old new)
        (enable_ipv6 && same_ipv6 ann old new)
        (lease_event added (node_to_lease p ann new enable_ipv4 enable_ipv6)) e _
        (lease_event_iff (node_to_lease p ann new enable_ipv4 enable_ipv6) e)

  -- A managed node whose annotations stay the same is no event, where a family is enabled: neither the
  -- periodic resync of an unchanged node nor a pod CIDR that is assigned to it later.
  pub handle_update_lease_event_quiet :
      (enable_ipv4 enable_ipv6 : Bool)
      → (enable_ipv4 || enable_ipv6) ≡ true
      → old.metadata.annotations ≡ new.metadata.annotations
      → handle_update_lease_event p ann enable_ipv4 enable_ipv6 old new ≡ none
  unfolding handle_update_lease_event
  handle_update_lease_event_quiet v4 v6 enabled same =
      let same4 = same_ipv4_refl ann old new same in
      let same6 = same_ipv6_refl ann old new same in
      rw (same4, same6) (unchanged _ (is_managed ann new) v4 v6 enabled)
