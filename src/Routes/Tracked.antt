-- ===== src/Routes/Tracked.antt =====
-- The list of tracked routes as a set, up to route_spec_equal.
use flannel_rust.Prelude.{
  ℕ, ◌≡◌, ◌↔◌, refl, ap, sym, ◌∙◌, arith, Bool, true, false, not, ◌&&◌, ◌||◌, List, [], ◌∷◌, ◌++◌,
  ==_iff, any, Bool-cases, inl, inr,
}
use flannel_rust.Ip.V6
use flannel_rust.Routes.{
  IpAddr, addr4, addr6, addr_eq, ip6_of, RouteSpec, route_spec_equal, add_to_route_list,
  remove_first, remove_from_route_list,
}

bytes_iff : (xs ys : List ℕ) → (V6.bytes_eq xs ys ≡ true) ↔ (xs ≡ ys)
bytes_iff [] [] = ((λ h. refl), (λ h. refl))
bytes_iff [] (y ∷ ys) = ((λ h. cc), (λ h. cc))
bytes_iff (x ∷ xs) [] = ((λ h. cc), (λ h. cc))
bytes_iff (x ∷ xs) (y ∷ ys) = let ih = bytes_iff xs ys in grind arith

addr_iff : (a b : IpAddr) → (addr_eq a b ≡ true) ↔ (a ≡ b)
addr_iff (addr4 x) (addr4 y) = let e = ==_iff x y in ((λ h. ap addr4 (e.0 h)), (λ h. e.1 cc))
addr_iff (addr6 x) (addr6 y) =
    let e = bytes_iff x.bytes y.bytes in
    (
      (λ h. ap (λ (b : List ℕ). addr6 (record { bytes = b })) (e.0 h)),
      (λ h. e.1 (ap (λ (a : IpAddr). (ip6_of a).bytes) h)),
    )
addr_iff (addr4 x) (addr6 y) = ((λ h. cc), (λ h. cc))
addr_iff (addr6 x) (addr4 y) = ((λ h. cc), (λ h. cc))

pub addr_refl : (a : IpAddr) → addr_eq a a ≡ true
addr_refl a = (addr_iff a a).1 refl

-- The four fields that are compared.
same_iff :
    (x y : RouteSpec)
    → (route_spec_equal x y ≡ true) ↔ (
        (x.dst ≡ y.dst)
        × (x.prefix_len ≡ y.prefix_len)
        × (x.gateway ≡ y.gateway)
        × (x.link_index ≡ y.link_index))
unfolding route_spec_equal
same_iff x y =
    let d = addr_iff x.dst y.dst in let g = addr_iff x.gateway y.gateway in grind (arith, d, g)

same_sym : (x y : RouteSpec) → route_spec_equal x y ≡ route_spec_equal y x
same_sym x y = let a = same_iff x y in let b = same_iff y x in grind (arith, a, b)

-- Routes that are equal are equal to the same routes.
same_cong :
    (x y z : RouteSpec) → route_spec_equal x y ≡ true → route_spec_equal z x ≡ route_spec_equal z y
same_cong x y z h =
    let a = same_iff x y in let b = same_iff z x in let c = same_iff z y in grind (arith, a, b, c)

abbrev pub tracked : RouteSpec → List RouteSpec → Bool
tracked q routes = any (λ r. route_spec_equal r q) routes

tracked_cong :
    (x y : RouteSpec) (routes : List RouteSpec)
    → route_spec_equal x y ≡ true
    → tracked x routes ≡ tracked y routes
tracked_cong x y [] h = refl
tracked_cong x y (z ∷ routes) h = rw (same_cong x y z h, tracked_cong x y routes h) refl

tracked-append :
    (q r : RouteSpec) (routes : List RouteSpec)
    → tracked q (routes ++ (r ∷ [])) ≡ (route_spec_equal r q || tracked q routes)
tracked-append q r [] = ground arith
tracked-append q r (x ∷ routes) = let ih = tracked-append q r routes in ground arith

-- No two entries are equal.
abbrev pub IsUnique : List RouteSpec → Type 0
IsUnique [] = Unit
IsUnique (r ∷ routes) = (tracked r routes ≡ false) × IsUnique routes

pub add_to_route_list-tracked :
    (routes : List RouteSpec) (r q : RouteSpec)
    → tracked q (add_to_route_list routes r) ≡ (route_spec_equal r q || tracked q routes)
unfolding add_to_route_list
add_to_route_list-tracked routes r q = elim (Bool-cases (tracked r routes)) [
  | inl held ↦ elim (Bool-cases (route_spec_equal r q)) [
    | inl e ↦ rw (held, e) (sym (tracked_cong r q routes e) ∙ held)
    | inr n ↦ rw (held, n) refl
  ]
  | inr new ↦ rw new (tracked-append q r routes)
]

pub remove_first-tracked :
    (routes : List RouteSpec) (r q : RouteSpec)
    → IsUnique routes
    → tracked q (remove_from_route_list routes r) ≡ (not (route_spec_equal r q) && tracked q routes)
unfolding remove_from_route_list
remove_first-tracked [] r q u = ground arith
remove_first-tracked (x ∷ routes) r q u = elim (Bool-cases (route_spec_equal x r)) [
  | inl e ↦ elim (Bool-cases (route_spec_equal r q)) [
    | inl f ↦
        let gone : tracked q routes ≡ false =
          sym (tracked_cong x q routes (sym (same_cong r q x f) ∙ e)) ∙ u.0 in
        rw (e, f) gone
    | inr n ↦
        let other : route_spec_equal x q ≡ false =
          same_sym x q ∙ same_cong x r q e ∙ same_sym q r ∙ n in
        rw (e, n, other) refl
  ]
  | inr d ↦ elim (Bool-cases (route_spec_equal r q)) [
    | inl f ↦
        let other : route_spec_equal x q ≡ false = sym (same_cong r q x f) ∙ d in
        rw (d, other, remove_first-tracked routes r q u.1, f) refl
    | inr n ↦ rw (d, remove_first-tracked routes r q u.1, n) refl
  ]
]

append-IsUnique :
    (routes : List RouteSpec) (r : RouteSpec)
    → IsUnique routes
    → tracked r routes ≡ false
    → IsUnique (routes ++ (r ∷ []))
append-IsUnique [] r u n = (refl, tt)
append-IsUnique (x ∷ routes) r u n =
    let s = same_sym r x in
    let apart : (route_spec_equal r x || tracked x routes) ≡ false = ground (arith, u.0) in
    (tracked-append x r routes ∙ apart, append-IsUnique routes r u.1 (ground arith))

remove_first-none :
    (test : RouteSpec → Bool) (routes : List RouteSpec) (q : RouteSpec)
    → tracked q routes ≡ false
    → tracked q (remove_first test routes) ≡ false
remove_first-none test [] q h = refl
remove_first-none test (x ∷ routes) q h = elim (Bool-cases (test x)) [
  | inl e ↦ rw e (ground arith)
  | inr n ↦ let rest = remove_first-none test routes q (ground arith) in rw n (ground (arith, rest))
]

pub remove_first-IsUnique :
    (test : RouteSpec → Bool) (routes : List RouteSpec)
    → IsUnique routes
    → IsUnique (remove_first test routes)
remove_first-IsUnique test [] u = tt
remove_first-IsUnique test (x ∷ routes) u = elim (Bool-cases (test x)) [
  | inl e ↦ rw e u.1
  | inr n ↦ rw n (remove_first-none test routes x u.0, remove_first-IsUnique test routes u.1)
]

pub add_to_route_list-IsUnique :
    (routes : List RouteSpec) (r : RouteSpec)
    → IsUnique routes
    → IsUnique (add_to_route_list routes r)
unfolding add_to_route_list
add_to_route_list-IsUnique routes r u = elim (Bool-cases (tracked r routes)) [
  | inl held ↦ rw held u
  | inr new ↦ rw new (append-IsUnique routes r u new)
]

-- A list of tracked routes without equal entries is a set: adding a route makes it tracked and nothing
-- else, removing it makes it untracked and nothing else, and neither brings in equal entries.
pub tracked-set :
    (routes : List RouteSpec) (r q : RouteSpec)
    → IsUnique routes
    → (tracked q (add_to_route_list routes r) ≡ (route_spec_equal r q || tracked q routes))
      × (tracked q (remove_from_route_list routes r)
          ≡ (not (route_spec_equal r q) && tracked q routes))
      × IsUnique (add_to_route_list routes r)
      × IsUnique (remove_from_route_list routes r)
unfolding remove_from_route_list
tracked-set routes r q u = (
  add_to_route_list-tracked routes r q,
  remove_first-tracked routes r q u,
  add_to_route_list-IsUnique routes r u,
  remove_first-IsUnique (λ x. route_spec_equal x r) routes u,
)
