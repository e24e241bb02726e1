-- ===== src/Routes/Recovery.antt =====
-- The periodic check puts every tracked route back into the kernel.
use flannel_rust.Prelude.{
  ◌≡◌, arith, Bool, true, false, ◌||◌, some, List, [], ◌∷◌, any, filter, if◌then◌else◌, Bool-cases,
  inl, inr,
}
use flannel_rust.Routes.{
  IpAddr, addr4, addr6, AddressFamily, inet, inet6, RouteSpec, RouteMessage, Netlink, message_of,
  route_msg_matches, is_kernel_route,
}
use flannel_rust.Routes.Tracked.{addr_refl}

abbrev pub in_family : AddressFamily → IpAddr → Bool
in_family inet (addr4 ip) = true
in_family inet (addr6 ip) = false
in_family inet6 (addr4 ip) = false
in_family inet6 (addr6 ip) = true

-- The destination and the gateway are of the route's family.
abbrev pub IsRoute : RouteSpec → Type 0
IsRoute r = (in_family r.family r.dst ≡ true) × (in_family r.family r.gateway ≡ true)

-- A kernel that answers dumps, takes every route, and then holds it besides those that it held.
pub record IsTaking {K : Type 0} (nl : Netlink K) (held : K → List RouteMessage) : Type 0 where
  pub dumps : (k : K) → nl.nl_dump k ≡ some (held k)
  pub keeps :
      (k : K) (m : RouteMessage) (test : RouteMessage → Bool)
      → any test (held k) ≡ true
      → any test (held (nl.nl_add k m).0) ≡ true
  pub takes :
      (k : K) (m : RouteMessage) (test : RouteMessage → Bool)
      → test m ≡ true
      → any test (held (nl.nl_add k m).0) ≡ true

pub message_matches :
    (family : AddressFamily) (dst gateway : IpAddr) (r : RouteSpec)
    → r.dst ≡ dst
    → r.gateway ≡ gateway
    → in_family family dst ≡ true
    → in_family family gateway ≡ true
    → is_kernel_route r (message_of family r) ≡ true
unfolding route_msg_matches
message_matches inet (addr4 d) (addr4 g) r ed eg hd hg = rw (ed, eg) (ground arith)
message_matches inet (addr4 d) (addr6 g) r ed eg hd hg = cc
message_matches inet (addr6 d) g r ed eg hd hg = cc
message_matches inet6 (addr6 d) (addr6 g) r ed eg hd hg =
    let dd = addr_refl (addr6 d) in
    let gg = addr_refl (addr6 g) in rw (ed, eg) (ground (arith, dd, gg))
message_matches inet6 (addr6 d) (addr4 g) r ed eg hd hg = cc
message_matches inet6 (addr4 d) g r ed eg hd hg = cc

any-if :
    (test : RouteMessage → Bool) (b : Bool) (m : RouteMessage) (l : List RouteMessage)
    → any test (if b then m ∷ l else l) ≡ true
    → (test m || any test l) ≡ true
any-if test true m l h = h
any-if test false m l h = ground arith

pub any-filter :
    (test p : RouteMessage → Bool) (l : List RouteMessage)
    → any test (filter p l) ≡ true
    → any test l ≡ true
any-filter test p [] h = h
any-filter test p (m ∷ l) h =
    let here = any-if test (p m) m (filter p l) h in
    elim (Bool-cases (any test (filter p l))) [
      | inl e ↦ let rest = any-filter test p l e in ground arith
      | inr n ↦ ground arith
    ]

module _ {K : Type 0} (nl : Netlink K) (held : K → List RouteMessage)
    (kernel : IsTaking nl held) where
  abbrev Held : K → RouteSpec → Type 0
  Held k r = any (is_kernel_route r) (held k) ≡ true
