-- ===== src/Tests/RouteTable.antt =====
-- A kernel that holds one route for each destination, and deletes the route that it is asked to.
use flannel_rust.Prelude.{
  ℕ, ◌+◌, ◌≡◌, refl, ap, arith, Bool, true, false, ◌&&◌, Option, none, some, List, [], ◌∷◌, any,
  count, ◌==◌, ==_iff, Bool-cases, inl, inr, if◌then◌else◌,
}
use flannel_rust.Ip.V6.Bytes.{bytes_eq_iff}
use flannel_rust.Routes.{
  IpAddr, addr4, addr6, addr_eq, AddressFamily, inet, inet6, family_eq, RouteMessage, Netlink,
}
use flannel_rust.Routes.Tracked.{addr_refl}
use flannel_rust.Routes.Added.{Among, same_addr, same_dest, IsExclusive}

split_and : (a b : Bool) → (a && b) ≡ true → (a ≡ true) × (b ≡ true)
split_and true b h = (refl, h)
split_and false b h = cc

any-first :
    (k : List RouteMessage) (m : RouteMessage) (test : RouteMessage → Bool)
    → test m ≡ true
    → any test (m ∷ k) ≡ true
any-first k m test h = ground arith

abbrev flag_eq : Bool → Bool → Bool
flag_eq true true = true
flag_eq false false = true
flag_eq true false = false
flag_eq false true = false

addr_eq_sound : (a b : IpAddr) → addr_eq a b ≡ true → a ≡ b
addr_eq_sound (addr4 x) (addr4 y) h = ap addr4 ((==_iff x y).0 h)
addr_eq_sound (addr6 x) (addr6 y) h = let same = (bytes_eq_iff x.bytes y.bytes).0 h in cc
addr_eq_sound (addr4 x) (addr6 y) h = cc
addr_eq_sound (addr6 x) (addr4 y) h = cc

abbrev link_eq : Option ℕ → Option ℕ → Bool
link_eq none none = true
link_eq (some a) (some b) = a == b
link_eq none (some b) = false
link_eq (some a) none = false

abbrev msg_eq : RouteMessage → RouteMessage → Bool
msg_eq m n =
    same_addr m.route_dst n.route_dst
    && (m.destination_prefix_length == n.destination_prefix_length
        && (same_addr m.route_gateway n.route_gateway
            && (link_eq m.route_oif n.route_oif
                && (family_eq m.address_family n.address_family
                    && flag_eq m.is_onlink n.is_onlink))))

same_addr_sound : (a b : Option IpAddr) → same_addr a b ≡ true → a ≡ b
same_addr_sound none none h = refl
same_addr_sound (some a) (some b) h = ap (λ x. some x) (addr_eq_sound a b h)
same_addr_sound none (some b) h = cc
same_addr_sound (some a) none h = cc

link_eq_sound : (a b : Option ℕ) → link_eq a b ≡ true → a ≡ b
link_eq_sound none none h = refl
link_eq_sound (some a) (some b) h = ap (λ x. some x) ((==_iff a b).0 h)
link_eq_sound none (some b) h = cc
link_eq_sound (some a) none h = cc

family_eq_sound : (a b : AddressFamily) → family_eq a b ≡ true → a ≡ b
family_eq_sound inet inet h = refl
family_eq_sound inet6 inet6 h = refl
family_eq_sound inet inet6 h = cc
family_eq_sound inet6 inet h = cc

flag_eq_sound : (a b : Bool) → flag_eq a b ≡ true → a ≡ b
flag_eq_sound true true h = refl
flag_eq_sound false false h = refl
flag_eq_sound true false h = cc
flag_eq_sound false true h = cc

msg_eq_sound : (m n : RouteMessage) → msg_eq m n ≡ true → m ≡ n
msg_eq_sound m n h =
    let (d, h1) = split_and (same_addr m.route_dst n.route_dst) _ h in
    let (p, h2) = split_and (m.destination_prefix_length == n.destination_prefix_length) _ h1 in
    let (g, h3) = split_and (same_addr m.route_gateway n.route_gateway) _ h2 in
    let (o, h4) = split_and (link_eq m.route_oif n.route_oif) _ h3 in
    let (f, l) = split_and (family_eq m.address_family n.address_family) _ h4 in
    cc (
      same_addr_sound m.route_dst n.route_dst d,
      (==_iff m.destination_prefix_length n.destination_prefix_length).0 p,
      same_addr_sound m.route_gateway n.route_gateway g,
      link_eq_sound m.route_oif n.route_oif o,
      family_eq_sound m.address_family n.address_family f,
      flag_eq_sound m.is_onlink n.is_onlink l,
    )

same_addr_refl : (a : Option IpAddr) → same_addr a a ≡ true
same_addr_refl none = refl
same_addr_refl (some a) = addr_refl a

msg_eq_refl : (m : RouteMessage) → msg_eq m m ≡ true
msg_eq_refl m =
    let dst = same_addr_refl m.route_dst in
    let gateway = same_addr_refl m.route_gateway in
    let link = link_refl m.route_oif in
    let family = family_refl m.address_family in
    let onlink = flag_refl m.is_onlink in
    rw
      (
        dst,
        gateway,
        link,
        family,
        onlink,
        (==_iff m.destination_prefix_length m.destination_prefix_length).1 refl,
      )
      refl
  where
    link_refl : (o : Option ℕ) → link_eq o o ≡ true
    link_refl none = refl
    link_refl (some a) = (==_iff a a).1 refl

    family_refl : (f : AddressFamily) → family_eq f f ≡ true
    family_refl inet = refl
    family_refl inet6 = refl

    flag_refl : (b : Bool) → flag_eq b b ≡ true
    flag_refl true = refl
    flag_refl false = refl

abbrev take_out : List RouteMessage → RouteMessage → List RouteMessage × Bool
take_out [] m = ([], false)
take_out (x ∷ k) m = if msg_eq x m then (k, true) else (x ∷ (take_out k m).0, (take_out k m).1)

abbrev pub exclusive : Netlink (List RouteMessage)
exclusive = record {
  nl_dump = λ k. some k;
  nl_add = λ k m. if any (same_dest m) k then (k, false) else (m ∷ k, true);
  nl_del = take_out;
}

none_any :
    (test : RouteMessage → Bool) (k : List RouteMessage) → count test k ≡ 0 → any test k ≡ false
none_any test [] h = refl
none_any test (x ∷ k) h = ground (arith, none_any test k)

exclusive-takes :
    (k : List RouteMessage) (m : RouteMessage) (test : RouteMessage → Bool)
    → count (same_dest m) k ≡ 0
    → test m ≡ true
    → any test (exclusive.nl_add k m).0 ≡ true
exclusive-takes k m test free h = rw (none_any (same_dest m) k free) (any-first k m test h)

take_out-deletes : (k : List RouteMessage) (m : RouteMessage) → Among m k → (take_out k m).1 ≡ true
take_out-deletes [] m ([], after, e) = cc
take_out-deletes [] m (b ∷ before, after, e) = cc
take_out-deletes (x ∷ k) m ([], after, e) =
    let same : x ≡ m = cc in let hit : msg_eq x m ≡ true = rw same (msg_eq_refl m) in rw hit refl
take_out-deletes (x ∷ k) m (b ∷ before, after, e) = elim (Bool-cases (msg_eq x m)) [
  | inl hit ↦ rw hit refl
  | inr miss ↦ rw miss (take_out-deletes k m (before, after, cc))
]

take_out-removes :
    (k : List RouteMessage) (m : RouteMessage) (test : RouteMessage → Bool)
    → (take_out k m).1 ≡ true
    → (if test m then 1 else 0) + count test (take_out k m).0 ≡ count test k
take_out-removes [] m test h = cc
take_out-removes (x ∷ k) m test h = elim (Bool-cases (msg_eq x m)) [
  | inl hit ↦ let same = msg_eq_sound x m hit in rw (hit, same) refl
  | inr miss ↦ let rest = take_out-removes k m test (rw miss at h) in rw miss (omega (arith, rest))
]

pub exclusive-IsExclusive : IsExclusive exclusive (λ k. k)
exclusive-IsExclusive = record {
  dumps = λ k. refl;
  takes = exclusive-takes;
  deletes = take_out-deletes;
  removes = take_out-removes;
}
