-- ===== src/Routes.antt =====
-- crates/flannel-core/src/backend/route_network.rs and route_network/spec.rs: the routes that the route backends
-- track and the kernel's. The kernel is a parameter (Netlink); a route message has the attributes that
-- route_dst, route_gateway and route_oif read.
pub mod Tracked
pub mod Events
pub mod Batch
pub mod Recovery
pub mod Added
use Prim.Native.String.{String}
use text.Mathlib.Text.{◌==◌ as str_eq}
use flannel_rust.Prelude.{
  ℕ, Bool, true, false, not, ◌&&◌, Option, none, some, List, [], ◌∷◌, ◌++◌, ◌==◌, any, filter,
  if◌then◌else◌,
}
use flannel_rust.Ip.V4.{Ip4}
use flannel_rust.Ip.V6
use flannel_rust.Ip.V6.{Ip6}
use flannel_rust.Lease.{EventType, added, removed, Event, Lease}

pub data IpAddr : Type 0 where
  addr4 : Ip4 → IpAddr
  addr6 : Ip6 → IpAddr

pub data AddressFamily : Type 0 where
  inet inet6 : AddressFamily

abbrev pub addr_eq : IpAddr → IpAddr → Bool
addr_eq (addr4 x) (addr4 y) = x == y
addr_eq (addr6 x) (addr6 y) = V6.ip_eq x y
addr_eq (addr4 x) (addr6 y) = false
addr_eq (addr6 x) (addr4 y) = false

abbrev pub family_eq : AddressFamily → AddressFamily → Bool
family_eq inet inet = true
family_eq inet6 inet6 = true
family_eq inet inet6 = false
family_eq inet6 inet = false

pub record RouteSpec : Type 0 where
  pub dst : IpAddr
  pub prefix_len : ℕ
  pub gateway : IpAddr
  pub link_index : ℕ
  pub family : AddressFamily
  pub onlink : Bool

-- `route_dst`, the header's prefix length and family, `route_gateway`, `route_oif`, and the onlink flag.
pub record RouteMessage : Type 0 where
  pub route_dst : Option IpAddr
  pub destination_prefix_length : ℕ
  pub route_gateway : Option IpAddr
  pub route_oif : Option ℕ
  pub address_family : AddressFamily
  pub is_onlink : Bool

abbrev pub ip4_of : IpAddr → Ip4
ip4_of (addr4 ip) = ip
ip4_of (addr6 ip) = 0

abbrev pub ip6_of : IpAddr → Ip6
ip6_of (addr4 ip) = V6.zero_ip
ip6_of (addr6 ip) = ip

-- The gateway, where it is of the family.
abbrev pub gateway4 : IpAddr → Option IpAddr
gateway4 (addr4 g) = some (addr4 g)
gateway4 (addr6 g) = none

abbrev pub gateway6 : IpAddr → Option IpAddr
gateway6 (addr4 g) = none
gateway6 (addr6 g) = some (addr6 g)

abbrev pub message_of : AddressFamily → RouteSpec → RouteMessage
message_of inet r = record {
  route_dst = some (addr4 (ip4_of r.dst));
  destination_prefix_length = r.prefix_len;
  route_gateway = gateway4 r.gateway;
  route_oif = some r.link_index;
  address_family = inet;
  is_onlink = r.onlink;
}
message_of inet6 r = record {
  route_dst = some (addr6 (ip6_of r.dst));
  destination_prefix_length = r.prefix_len;
  route_gateway = gateway6 r.gateway;
  route_oif = some r.link_index;
  address_family = inet6;
  is_onlink = r.onlink;
}

unfoldable pub to_message : RouteSpec → RouteMessage
to_message r = message_of r.family r

unfoldable pub route_spec_equal : RouteSpec → RouteSpec → Bool
route_spec_equal x y =
    addr_eq x.dst y.dst
    && (x.prefix_len == y.prefix_len
        && (addr_eq x.gateway y.gateway && x.link_index == y.link_index))

abbrev pub is_addr : Option IpAddr → IpAddr → Bool
is_addr none b = false
is_addr (some a) b = addr_eq a b

abbrev pub is_link : Option ℕ → ℕ → Bool
is_link none m = false
is_link (some n) m = n == m

unfoldable pub route_msg_matches : RouteMessage → RouteSpec → Bool
route_msg_matches msg spec =
    is_addr msg.route_dst spec.dst
    && (msg.destination_prefix_length == spec.prefix_len
        && (is_addr msg.route_gateway spec.gateway && is_link msg.route_oif spec.link_index))

unfoldable pub add_to_route_list : List RouteSpec → RouteSpec → List RouteSpec
add_to_route_list routes route =
    if not (any (λ r. route_spec_equal r route) routes) then routes ++ (route ∷ []) else routes

-- `Vec::remove` at the first position of a test.
abbrev pub remove_first : (RouteSpec → Bool) → List RouteSpec → List RouteSpec
remove_first test [] = []
remove_first test (r ∷ routes) = if test r then routes else r ∷ remove_first test routes

unfoldable pub remove_from_route_list : List RouteSpec → RouteSpec → List RouteSpec
remove_from_route_list routes route = remove_first (λ r. route_spec_equal r route) routes

unfoldable pub remove_msg_from_route_list : List RouteSpec → RouteMessage → List RouteSpec
remove_msg_from_route_list routes msg = remove_first (λ r. route_msg_matches msg r) routes

-- The kernel behind a netlink connection: the dump of its routes, if it can be had, and the kernel after
-- an add or a delete, with whether it was done.
pub record Netlink (K : Type 0) : Type 0 where
  pub nl_dump : K → Option (List RouteMessage)
  pub nl_add : K → RouteMessage → K × Bool
  pub nl_del : K → RouteMessage → K × Bool

abbrev pub has_dst : Option IpAddr → Bool
has_dst none = false
has_dst (some a) = true

abbrev pub is_kernel_route : RouteSpec → RouteMessage → Bool
is_kernel_route route m = has_dst m.route_dst && route_msg_matches m route

abbrev pub or_none : Option (List RouteMessage) → List RouteMessage
or_none none = []
or_none (some l) = l

abbrev pub map_list :
    (List RouteMessage → List RouteMessage)
    → Option (List RouteMessage)
    → Option (List RouteMessage)
map_list f none = none
map_list f (some l) = some (f l)

module _ {K : Type 0} (nl : Netlink K) where
  unfoldable pub dump_routes : K → AddressFamily → Option (List RouteMessage)
  dump_routes k family = map_list (filter (λ m. family_eq m.address_family family)) (nl.nl_dump k)

  unfoldable pub list_routes_by_dst : K → AddressFamily → RouteSpec → Option (List RouteMessage)
  list_routes_by_dst k family route =
      map_list
        (filter
          (λ m. is_addr m.route_dst route.dst && m.destination_prefix_length == route.prefix_len))
        (dump_routes k family)

  abbrev pub Tables : Type 0
  Tables = K × List RouteSpec

  -- The end of route_add, by the routes to the destination: add the route unless the first is that route.
  abbrev pub add_unless : List RouteMessage → RouteSpec → Tables → Tables
  add_unless [] route (k, routes) = ((nl.nl_add k (to_message route)).0, routes)
  add_unless (first ∷ rest) route (k, routes) =
      if route_msg_matches first route
      then (k, routes)
      else ((nl.nl_add k (to_message route)).0, routes)

  abbrev pub add_missing : AddressFamily → RouteSpec → Tables → Tables
  add_missing family route (k, routes) =
      add_unless (or_none (list_routes_by_dst k family route)) route (k, routes)

  abbrev pub after_delete :
      AddressFamily → RouteSpec → RouteMessage → K × Bool → List RouteSpec → Tables
  after_delete family route first (k, true) routes =
      add_missing family route (k, remove_msg_from_route_list routes first)
  after_delete family route first (k, false) routes = (k, routes)

  -- A first route to the destination that is another one is replaced.
  abbrev pub replace : List RouteMessage → AddressFamily → RouteSpec → Tables → Tables
  replace [] family route t = add_missing family route t
  replace (first ∷ rest) family route (k, routes) =
      if route_msg_matches first route
      then add_missing family route (k, routes)
      else after_delete family route first (nl.nl_del k first) routes

  unfoldable pub route_add : RouteSpec → AddressFamily → Tables → Tables
  route_add route family (k, routes) =
      replace (or_none (list_routes_by_dst k family route)) family route
        (k, add_to_route_list routes route)

  unfoldable pub restore : List RouteMessage → List RouteSpec → K → K
  restore listed [] k = k
  restore listed (route ∷ routes) k =
      restore listed routes
        (if any (is_kernel_route route) listed then k else (nl.nl_add k (to_message route)).0)

  abbrev pub restore_from : Option (List RouteMessage) → List RouteSpec → K → K
  restore_from none routes k = k
  restore_from (some listed) routes k = restore listed routes k

  unfoldable pub check_subnet_exist_in_routes : List RouteSpec → AddressFamily → K → K
  check_subnet_exist_in_routes routes family k = restore_from (dump_routes k family) routes k
