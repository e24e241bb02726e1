-- ===== src/Routes/Added.antt =====
-- A route that is added reaches the kernel, in the place of another one to its destination.
use mathlib.Core.Bool.{false≢true}
use flannel_rust.Prelude.{
  ◌+◌, ◌≤◌, ◌≡◌, refl, ap, sym, ◌∙◌, arith, Bool, true, false, ◌&&◌, Option, none, some, List, [],
  ◌∷◌, ◌++◌, ◌==◌, any, filter, count, Bool-cases, inl, inr, if◌then◌else◌,
}
use flannel_rust.Routes.{
  IpAddr, addr4, addr6, addr_eq, AddressFamily, inet, inet6, family_eq, RouteSpec, RouteMessage,
  Netlink, Tables, has_dst, is_addr, is_link, to_message, message_of, route_msg_matches,
  is_kernel_route, or_none, dump_routes, list_routes_by_dst, add_unless, add_missing, after_delete,
  replace, route_add, add_to_route_list, remove_msg_from_route_list,
}
use flannel_rust.Routes.Recovery.{IsRoute, in_family, message_matches, any-filter}

abbrev pub same_addr : Option IpAddr → Option IpAddr → Bool
same_addr none none = true
same_addr none (some b) = false
same_addr (some a) none = false
same_addr (some a) (some b) = addr_eq a b

-- A route of the same family to the same destination.
abbrev pub same_dest : RouteMessage → RouteMessage → Bool
same_dest new m =
    family_eq m.address_family new.address_family
    && (same_addr m.route_dst new.route_dst
        && m.destination_prefix_length == new.destination_prefix_length)

abbrev pub Among : RouteMessage → List RouteMessage → Type 0
Among m l = (before : List RouteMessage) × (after : List RouteMessage) × (l ≡ before ++ (m ∷ after))

-- A kernel that answers dumps, takes a route where it holds none to its destination (NLM_F_EXCL refuses it
-- elsewhere), and takes a route out that it holds and is asked to delete, and no other.
pub record IsExclusive {K : Type 0} (nl : Netlink K) (held : K → List RouteMessage) : Type 0 where
  pub dumps : (k : K) → nl.nl_dump k ≡ some (held k)
  pub takes :
      (k : K) (m : RouteMessage) (test : RouteMessage → Bool)
      → count (same_dest m) (held k) ≡ 0
      → test m ≡ true
      → any test (held (nl.nl_add k m).0) ≡ true
  pub deletes : (k : K) (m : RouteMessage) → Among m (held k) → (nl.nl_del k m).1 ≡ true
  pub removes :
      (k : K) (m : RouteMessage) (test : RouteMessage → Bool)
      → (nl.nl_del k m).1 ≡ true
      → (if test m then 1 else 0) + count test (held (nl.nl_del k m).0) ≡ count test (held k)

there :
    (o : Option IpAddr) (d : IpAddr) (b : Bool)
    → (is_addr o d && b) ≡ true
    → (has_dst o && (is_addr o d && b)) ≡ true
there none d b h = cc
there (some a) d b h = h

filter-first :
    (p : RouteMessage → Bool) (m : RouteMessage) (l rest : List RouteMessage)
    → filter p l ≡ m ∷ rest
    → Among m l × (p m ≡ true)
filter-first p m [] rest h = cc
filter-first p m (x ∷ l) rest h = elim (Bool-cases (p x)) [
  | inl e ↦ let same : x ≡ m = cc in (([], l, cc), cc)
  | inr n ↦
      let ((before, after, shape), hit) = filter-first p m l rest cc in
      ((x ∷ before, after, cc), hit)
]

filter-filter :
    (p q : RouteMessage → Bool) (l : List RouteMessage)
    → filter p (filter q l) ≡ filter (λ m. q m && p m) l
filter-filter p q [] = refl
filter-filter p q (x ∷ l) = elim (Bool-cases (q x)) [
  | inl e ↦ elim (Bool-cases (p x)) [
    | inl f ↦ rw (e, f) (ap (λ (t : List RouteMessage). x ∷ t) (filter-filter p q l))
    | inr f ↦ rw (e, f) (filter-filter p q l)
  ]
  | inr n ↦ rw n (filter-filter p q l)
]

filter-nil : (p : RouteMessage → Bool) (l : List RouteMessage) → filter p l ≡ [] → count p l ≡ 0
filter-nil p [] h = refl
filter-nil p (x ∷ l) h = elim (Bool-cases (p x)) [
  | inl e ↦ let some_left = rw e at h in cc
  | inr n ↦ let rest = filter-nil p l (rw n at h) in rw n (omega (arith, rest))
]

count-same :
    (p q : RouteMessage → Bool) (l : List RouteMessage)
    → ((m : RouteMessage) → p m ≡ q m)
    → count p l ≡ count q l
count-same p q [] same = refl
count-same p q (x ∷ l) same = rw (same x, count-same p q l same) refl

same_addr-some : (o : Option IpAddr) (d : IpAddr) → same_addr o (some d) ≡ is_addr o d
same_addr-some none d = refl
same_addr-some (some a) d = refl

module _ (r : RouteSpec) (is_route : IsRoute r) where
  -- The held routes that list_routes_by_dst finds.
  abbrev pub to_dest : RouteMessage → Bool
  to_dest m =
      family_eq m.address_family r.family
      && (is_addr m.route_dst r.dst && m.destination_prefix_length == r.prefix_len)

  dest_of :
      (family : AddressFamily) (dst : IpAddr) (m : RouteMessage)
      → in_family family dst ≡ true
      → same_dest (message_of family (record r { dst = dst })) m ≡ (
          family_eq m.address_family family
          && (is_addr m.route_dst dst && m.destination_prefix_length == r.prefix_len))
  dest_of inet (addr4 d) m h = rw (same_addr-some m.route_dst (addr4 d)) refl
  dest_of inet6 (addr6 d) m h = rw (same_addr-some m.route_dst (addr6 d)) refl
  dest_of inet (addr6 d) m h = absurd (false≢true h)
  dest_of inet6 (addr4 d) m h = absurd (false≢true h)

  to_dest-same : (m : RouteMessage) → same_dest (to_message r) m ≡ to_dest m
  unfolding to_message
  to_dest-same m = dest_of r.family r.dst m is_route.0

  matches-kernel : (m : RouteMessage) → route_msg_matches m r ≡ true → is_kernel_route r m ≡ true
  unfolding route_msg_matches
  matches-kernel m h =
      there m.route_dst r.dst
        (m.destination_prefix_length == r.prefix_len
          && (is_addr m.route_gateway r.gateway && is_link m.route_oif r.link_index))
        h

  module _ {K : Type 0} (nl : Netlink K) (held : K → List RouteMessage)
      (kernel : IsExclusive nl held) where
    abbrev IsAdded : Tables nl → Type 0
    IsAdded t = any (is_kernel_route r) (held t.0) ≡ true

    taken :
        (k : K)
        → count to_dest (held k) ≡ 0
        → any (is_kernel_route r) (held (nl.nl_add k (to_message r)).0) ≡ true
    unfolding to_message
    taken k free =
        kernel.takes k (to_message r) (is_kernel_route r)
          (count-same (same_dest (to_message r)) to_dest (held k) to_dest-same ∙ free)
          (message_matches r.family r.dst r.gateway r refl refl is_route.0 is_route.1)

    listed : (k : K) → or_none (list_routes_by_dst nl k r.family r) ≡ filter to_dest (held k)
    unfolding list_routes_by_dst dump_routes
    listed k = rw (kernel.dumps k) (
        filter-filter
          (λ m. is_addr m.route_dst r.dst && m.destination_prefix_length == r.prefix_len)
          (λ m. family_eq m.address_family r.family) (held k))

    -- The end of route_add, where there is no route to the destination, or the first is the route.
    absent-IsAdded :
        (l : List RouteMessage) (k : K) (routes : List RouteSpec)
        → l ≡ filter to_dest (held k)
        → count to_dest (held k) ≡ 0
        → IsAdded (add_unless nl l r (k, routes))
    absent-IsAdded [] k routes e free = taken k free
    absent-IsAdded (m ∷ l) k routes e free =
        let ((before, after, shape), hit) = filter-first to_dest m (held k) l (sym e) in
        absurd (none_hit m before after (held k) shape hit free)
      where
        none_hit :
            (m : RouteMessage) (before after l : List RouteMessage)
            → l ≡ before ++ (m ∷ after)
            → to_dest m ≡ true
            → count to_dest l ≡ 0
            → ⊥
        none_hit m [] after l shape hit free =
            let one = rw (shape, hit) at free in omega (arith, one)
        none_hit m (b ∷ before) after l shape hit free =
            let more : (if to_dest b then 1 else 0) + count to_dest (before ++ (m ∷ after)) ≡ 0 =
              rw shape at free in
            none_hit m before after (before ++ (m ∷ after)) refl hit (omega (arith, more))

    present-IsAdded :
        (l rest : List RouteMessage) (m : RouteMessage) (k : K) (routes : List RouteSpec)
        → l ≡ m ∷ rest
        → route_msg_matches m r ≡ true
        → any (is_kernel_route r) (held k) ≡ true
        → IsAdded (add_unless nl l r (k, routes))
    present-IsAdded l rest m k routes e hit h = rw (e, hit) h

    missing-IsAdded :
        (k : K) (routes : List RouteSpec)
        → count to_dest (held k) ≡ 0
        → IsAdded (add_missing nl r.family r (k, routes))
    missing-IsAdded k routes free =
        absent-IsAdded (or_none (list_routes_by_dst nl k r.family r)) k routes (listed k) free

    deleted-IsAdded :
        (d : K × Bool) (m : RouteMessage) (routes : List RouteSpec)
        → d.1 ≡ true
        → count to_dest (held d.0) ≡ 0
        → IsAdded (after_delete nl r.family r m d routes)
    deleted-IsAdded (k, true) m routes e free =
        missing-IsAdded k (remove_msg_from_route_list routes m) free
    deleted-IsAdded (k, false) m routes e free = absurd (false≢true e)

    replace-IsAdded :
        (l : List RouteMessage) (k : K) (routes : List RouteSpec)
        → l ≡ filter to_dest (held k)
        → count to_dest (held k) ≤ 1
        → IsAdded (replace nl l r.family r (k, routes))
    replace-IsAdded [] k routes e few =
        missing-IsAdded k routes (filter-nil to_dest (held k) (sym e))
    replace-IsAdded (m ∷ l) k routes e few =
        let (among, hit) = filter-first to_dest m (held k) l (sym e) in
        elim (Bool-cases (route_msg_matches m r)) [
          | inl same ↦
              let found = ap (any (is_kernel_route r)) e in
              let kept : any (is_kernel_route r) (held k) ≡ true =
                any-filter (is_kernel_route r) to_dest (held k)
                  (sym found ∙ rw (matches-kernel m same) refl) in
              rw same (
                present-IsAdded (or_none (list_routes_by_dst nl k r.family r)) l m k routes
                  (listed k ∙ sym e) same kept)
          | inr other ↦
              let done = kernel.deletes k m among in
              let one = kernel.removes k m to_dest done in
              let gone : count to_dest (held (nl.nl_del k m).0) ≡ 0 =
                omega (arith, rw hit at one, few) in
              rw other (deleted-IsAdded (nl.nl_del k m) m routes done gone)
        ]

    -- For a kernel that answers dumps, takes a route only where it holds none to the destination, and
    -- deletes the routes that it holds: if the route's addresses are of its family, and the kernel holds at
    -- most one route of the family to the destination, then after route_add it holds a matching route,
    -- whether the one that it held was the route, another one, which has to make room, or none.
    pub route_add-held :
        (k : K) (routes : List RouteSpec)
        → count to_dest (held k) ≤ 1
        → any (is_kernel_route r) (held (route_add nl r r.family (k, routes)).0) ≡ true
    unfolding route_add
    route_add-held k routes few =
        replace-IsAdded (or_none (list_routes_by_dst nl k r.family r)) k
          (add_to_route_list routes r) (listed k) few
