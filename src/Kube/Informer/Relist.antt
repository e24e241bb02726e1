-- ===== src/Kube/Informer/Relist.antt =====
-- The deltas of a list: which leases it removes.
use Prim.Native.String.{String}
use mathlib.Core.Bool.{true≢false}
use flannel_rust.Prelude.{
  ◌≡◌, ◌≢◌, sym, subst, ◌∙◌, ◌↔◌, ◌⊎◌, inl, inr, refl, Bool, true, false, Option, none, some, List,
  [], ◌∷◌, ◌++◌, if◌then◌else◌,
}
use flannel_rust.Prelude.Result.{Result, ok, err}
use flannel_rust.Prelude.Dict.{lookup}
use flannel_rust.Lease.{EventType, added, removed, Event, Lease}
use flannel_rust.Kube.{Node, KubeError}
use flannel_rust.Kube.Events.{
  lease_event, is_managed, handle_add_lease_event, handle_update_lease_event,
}
use flannel_rust.Kube.Informer.{
  Nodes, name_of, seen, emit, on_add, on_update, on_listed, unless_seen, InformerCtx, listed_events,
  missing_events, reconcile_relist,
}

-- Membership.
abbrev pub Has : {A : Type 0} → List A → A → Type 0
Has [] a = ⊥
Has (x ∷ xs) a = (a ≡ x) ⊎ Has xs a

Has-append : {A : Type 0} (xs ys : List A) (a : A) → Has (xs ++ ys) a ↔ (Has xs a ⊎ Has ys a)
Has-append [] ys a = ((λ h. inr h), elim [ inl h ↦ absurd h | inr h ↦ h ])
Has-append (x ∷ xs) ys a =
    let ih = Has-append xs ys a in
    (
      elim [ inl e ↦ inl (inl e) | inr h ↦ elim (ih.0 h) [ inl m ↦ inl (inr m) | inr m ↦ inr m ] ],
      elim [ inl (inl e) ↦ inl e | inl (inr m) ↦ inr (ih.1 (inl m)) | inr m ↦ inr (ih.1 (inr m)) ],
    )

Has-emit_iff : (o : Option Event) (e : Event) → Has (emit o) e ↔ (o ≡ some e)
Has-emit_iff none e = ((λ h. absurd h), (λ h. cc))
Has-emit_iff (some x) e = (elim [ inl h ↦ cc | inr h ↦ absurd h ], (λ h. inl cc))

lease_event-type :
    (et : EventType) (r : Result KubeError Lease) (e : Event)
    → lease_event et r ≡ some e
    → e.event_type ≡ et
lease_event-type et (ok l) e h = cc
lease_event-type et (err x) e h = cc

added≢removed : added ≢ removed
added≢removed h = cc

gated : (b : Bool) (o : Option Event) (e : Event) → (if b then o else none) ≡ some e → o ≡ some e
gated true o e h = h
gated false o e h = cc

module _ (c : InformerCtx) where
  on_add-type :
      (et : EventType) (node : Node) (e : Event) → Has (on_add c et node) e → e.event_type ≡ et
  unfolding handle_add_lease_event
  on_add-type et node e h =
      let made =
        (Has-emit_iff
            (handle_add_lease_event c.parsers c.annotations c.enable_ipv4 c.enable_ipv6 et node)
            e).0
          h in
      lease_event-type et _ e (gated (is_managed c.annotations node) _ e made)

  on_update-type : (old new : Node) (e : Event) → Has (on_update c old new) e → e.event_type ≡ added
  unfolding handle_update_lease_event
  on_update-type old new e h =
      let made =
        (Has-emit_iff
            (handle_update_lease_event c.parsers c.annotations c.enable_ipv4 c.enable_ipv6 old new)
            e).0
          h in
      lease_event-type added _ e (gated _ _ e (gated (is_managed c.annotations new) _ e made))

  on_listed-type :
      (known : Option Node) (node : Node) (e : Event)
      → Has (on_listed c known node) e
      → e.event_type ≡ added
  on_listed-type none node e h = on_add-type added node e h
  on_listed-type (some prev) node e h = on_update-type prev node e h

  listed_events-type :
      (old : Nodes) (items : List Node) (e : Event)
      → Has (listed_events c old items) e
      → e.event_type ≡ added
  unfolding listed_events
  listed_events-type old [] e h = absurd h
  listed_events-type old (node ∷ items) e h =
      elim ((Has-append (on_listed c (lookup old (name_of node)) node) (listed_events c old items)
          e).0
        h) [
          | inl m ↦ on_listed-type (lookup old (name_of node)) node e m
          | inr m ↦ listed_events-type old items e m
        ]

  -- A node of the store that the list does not name, and whose removal is the event.
  abbrev pub Gone : Nodes → List Node → Event → Type 0
  Gone old items e =
      (entry : String × Node) × Has old entry
      × (seen items entry.0 ≡ false)
      × (handle_add_lease_event c.parsers c.annotations c.enable_ipv4 c.enable_ipv6 removed entry.1
          ≡ some e)

  unless_seen_iff :
      (b : Bool) (node : Node) (e : Event)
      → Has (unless_seen c b node) e ↔ (
          (b ≡ false)
          × (handle_add_lease_event c.parsers c.annotations c.enable_ipv4 c.enable_ipv6 removed node
              ≡ some e))
  unless_seen_iff true node e = ((λ h. absurd h), (λ (h, k). absurd (true≢false h)))
  unless_seen_iff false node e =
      let made =
        Has-emit_iff
          (handle_add_lease_event c.parsers c.annotations c.enable_ipv4 c.enable_ipv6 removed node)
          e in
      ((λ h. (refl, made.0 h)), (λ (h, k). made.1 k))

  missing_events_iff :
      (old : Nodes) (items : List Node) (e : Event)
      → Has (missing_events c old items) e ↔ Gone old items e
  unfolding missing_events
  missing_events_iff [] items e = ((λ h. absurd h), (λ (entry, h, u, k). absurd h))
  missing_events_iff ((name, node) ∷ old) items e =
      let split =
        Has-append (unless_seen c (seen items name) node) (missing_events c old items) e in
      let first = unless_seen_iff (seen items name) node e in
      let ih = missing_events_iff old items e in
      (
        (λ h. elim (split.0 h) [
          | inl m ↦ let got = first.0 m in ((name, node), inl refl, got.0, got.1)
          | inr m ↦ let got = ih.0 m in (got.0, inr got.1, got.2, got.3)
        ]),
        (λ (entry, h, unseen, made). elim h [
          | inl same ↦ split.1 (
              inl (
                first.1 (
                  subst (λ x. seen items x.0 ≡ false) same unseen,
                  subst
                      (λ (x : String × Node).
                        handle_add_lease_event c.parsers c.annotations c.enable_ipv4 c.enable_ipv6
                          removed x.1
                        ≡ some e)
                      same made,
                )))
          | inr m ↦ split.1 (inr (ih.1 (entry, m, unseen, made)))
        ]),
      )

  -- The removals that a LIST reports are exactly those of the known nodes whose names the list does not
  -- hold, for the nodes that are managed by flannel and have a lease.
  pub reconcile_relist_removed_iff :
      (old : Nodes) (items : List Node) (e : Event)
      → e.event_type ≡ removed
      → Has (reconcile_relist c old items) e ↔ Gone old items e
  unfolding reconcile_relist
  reconcile_relist_removed_iff old items e is_removed =
      let split = Has-append (listed_events c old items) (missing_events c old items) e in
      let gone = missing_events_iff old items e in
      (
        (λ h. elim (split.0 h) [
          | inl m ↦ absurd (added≢removed (sym (listed_events-type old items e m) ∙ is_removed))
          | inr m ↦ gone.0 m
        ]),
        (λ h. split.1 (inr (gone.1 h))),
      )
